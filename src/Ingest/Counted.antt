-- ===== src/Ingest/Counted.antt =====
-- `ingest_jsonl` without records of several lines: each line that is not blank counts once.
use plasmite.Prelude.{
  ℕ, ◌+◌, ◌≡◌, refl, arith, ap, ◌∙◌, Bool, false, Option, none, some, List, [], ◌∷◌, String, ◌&&◌,
  Bool-cases, inl, inr, if◌then◌else◌, ltb, All,
}
use plasmite.Error.{Result, ok, err}
use plasmite.Text.{Text, len, is_nil, trim, trim_end_matches}
use plasmite.Text.Laws.{IsAscii}
use plasmite.Ingest.{
  ErrorPolicy, IngestMode, IngestConfig, Run, lift, after, io_error, reject, on_failure, use_parsed,
  apply_value, value_applied, accept_value, accepted, Reader,
}
use plasmite.Ingest.Snippet.{truncate_snippet}
use plasmite.Ingest.Snippet.Bounds.{truncate_snippet_lem}
use plasmite.Ingest.Jsonl.{
  JsonlState, is_line_end, oversize, line_parsed, line_of_jsonl, line_at, jsonl_line, jsonl_lines,
  ingest_jsonl, lines_from, jsonl_end, end_at,
}

-- The lines that are not blank.
unfoldable pub records : List Text → ℕ
records [] = 0
records (line ∷ lines) =
    if is_nil (trim (trim_end_matches is_line_end line)) then records lines else records lines + 1

-- Cutting the end off keeps a text ASCII.
trim_end_matches-IsAscii : (p : ℕ → Bool) (s : Text) → IsAscii s → IsAscii (trim_end_matches p s)
unfolding trim_end_matches
trim_end_matches-IsAscii p [] a = a
trim_end_matches-IsAscii p (c ∷ s) a = elim (Bool-cases (is_nil (trim_end_matches p s) && p c)) [
  | inl dropped ↦ rw dropped tt
  | inr kept ↦ rw kept (a.0, trim_end_matches-IsAscii p s a.1)
]

-- A step that comes back, after which `n` more records are used or have failed.
abbrev Adds : {S A : Type 0} → ℕ → Run S → Result A × Run S → Type 0
Adds {S} {A} n run r =
    (a : A) × (run' : Run S) × (r ≡ (ok a, run'))
    × (run'.ok_count + run'.failed ≡ run.ok_count + run.failed + n)

-- A line that is not blank counts as one record.
abbrev line_count : Text → ℕ
line_count line = if is_nil (trim (trim_end_matches is_line_end line)) then 0 else 1

module _ {S V : Type 0} (json : Text → Option V) (on_value : V → S → Result (Unit {0}) × S)
    (config : IngestConfig) (skips : config.errors ≡ ErrorPolicy.skip)
    (accepts : (value : V) (client : S)
      → (client' : S) × (on_value value client ≡ (ok tt, client'))) where
  reject-Adds :
      (mode : IngestMode) (index : ℕ) (line : Option ℕ) (message error_kind : String) (input : Text)
      (run : Run S)
      → IsAscii input
      → Adds 1 run (
          reject config mode index line message error_kind
            (truncate_snippet input config.max_snippet_bytes)
            run)
  unfolding reject on_failure
  reject-Adds mode index line message error_kind input run ascii =
      let (text, cut) = (truncate_snippet_lem input config.max_snippet_bytes).1 ascii in
      rw (cut, skips) (_, _, refl, omega arith)

  use_value-Adds :
      (mode : IngestMode) (index : ℕ) (line : Option ℕ) (snippet : Result Text) (value : V)
      (run : Run S)
      → Adds 1 run (use_parsed on_value config mode index line snippet (some value) run)
  unfolding use_parsed apply_value accept_value accepted value_applied
  use_value-Adds mode index line snippet value run =
      let (client, accepting) = accepts value run.client in rw accepting (_, _, refl, omega arith)

  -- A step of the loop that leaves no record open.
  abbrev Closes : ℕ → Run S → Result JsonlState × Run S → Type 0
  Closes n run r =
      (s' : JsonlState) × (run' : Run S) × (r ≡ (ok s', run'))
      × (s'.open_record ≡ none)
      × (run'.ok_count + run'.failed ≡ run.ok_count + run.failed + n)

  line_parsed-Closes :
      (s : JsonlState) (trimmed : Text) (value : Option V) (run : Run S)
      → IsAscii trimmed
      → s.open_record ≡ none
      → Closes 1 run (line_parsed json on_value config false s trimmed value run)
  unfolding line_parsed
  line_parsed-Closes s trimmed (some value) run ascii closed =
      let (_, run', steps, count) =
        use_value-Adds IngestMode.jsonl s.index (some s.line_no) (ok []) value run in
      rw steps (s, run', refl, closed, count)
  line_parsed-Closes s trimmed none run ascii closed =
      let (_, run', steps, count) =
        reject-Adds IngestMode.jsonl s.index (some s.line_no) "invalid json input" "Parse" trimmed
          run ascii in
      rw steps (s, run', refl, closed, count)

  line-Closes :
      (s : JsonlState) (line : Text) (run : Run S)
      → IsAscii line
      → s.open_record ≡ none
      → Closes (line_count line) run (line_of_jsonl json on_value config false s line run)
  unfolding line_of_jsonl oversize
  line-Closes s line run ascii closed =
      let trimmed = trim_end_matches is_line_end line in
      let s' = record s { line_no = s.line_no + 1; index = s.index + 1 } in
      let ascii' = trim_end_matches-IsAscii is_line_end line ascii in
      elim (Bool-cases (is_nil (trim trimmed))) [
        | inl blank ↦ rw blank (_, _, refl, closed, omega arith)
        | inr text ↦ elim (Bool-cases (ltb config.max_record_bytes (len trimmed))) [
          | inl long ↦
              let (_, run', steps, count) =
                reject-Adds IngestMode.jsonl s'.index (some s'.line_no) "record exceeds size limit"
                  "Oversize" trimmed run ascii' in
              rw (text, long, steps) (s', run', refl, closed, count)
          | inr fits ↦
              rw (text, fits) (line_parsed-Closes s' trimmed (json trimmed) run ascii' closed)
        ]
      ]

  line_at-none :
      (s : JsonlState) (line : Text) (here : Option (Text × ℕ)) (run : Run S)
      → here ≡ none
      → line_at json on_value config false s line here run
        ≡ line_of_jsonl json on_value config false s line run
  unfolding line_at
  line_at-none s line none run e = refl
  line_at-none s line (some (buf, record_line)) run e = cc

  end_at-none :
      (s : JsonlState) (here : Option (Text × ℕ)) (run : Run S)
      → here ≡ none
      → end_at json on_value config s here run ≡ (ok tt, run)
  unfolding end_at
  end_at-none s none run e = refl
  end_at-none s (some (buf, record_line)) run e = cc

  lines-Closes :
      (s : JsonlState) (lines : List Text) (run : Run S)
      → All IsAscii lines
      → s.open_record ≡ none
      → Closes (records lines) run (jsonl_lines json on_value config false s lines run)
  unfolding jsonl_lines jsonl_line records
  lines-Closes s [] run ascii closed = (s, run, refl, closed, omega arith)
  lines-Closes s (line ∷ lines) run ascii closed =
      let (s', run', steps, closed', count) = line-Closes s line run ascii.0 closed in
      let (s'', run'', rest, closed'', count') = lines-Closes s' lines run' ascii.1 closed' in
      (
        s'',
        run'',
        ap (after (λ s'. jsonl_lines json on_value config false s' lines))
              (line_at-none s line s.open_record run closed ∙ steps)
            ∙ rest,
        closed'',
        ground (arith, count, count'),
      )

-- Under `skip`, with a client that takes every value and a reader that gives ASCII lines without failing, the
-- mode for one value on a line comes back, and counts exactly the lines that are not blank.
pub ingest_jsonl_counts :
    {S V : Type 0} (json : Text → Option V) (on_value : V → S → Result (Unit {0}) × S)
    (config : IngestConfig) (reader : Reader) (run : Run S)
    → config.errors ≡ ErrorPolicy.skip
    → ((value : V) (client : S) → (client' : S) × (on_value value client ≡ (ok tt, client')))
    → All IsAscii (lines_from reader).lines
    → (lines_from reader).fails ≡ false
    → (run' : Run S) × (ingest_jsonl json on_value config reader false run ≡ (ok tt, run'))
      × (run'.ok_count + run'.failed
          ≡ run.ok_count + run.failed + records (lines_from reader).lines)
unfolding ingest_jsonl jsonl_end
ingest_jsonl_counts json on_value config reader run skips accepts ascii reads =
    let (s, run', steps, closed, count) =
      lines-Closes json on_value config skips accepts
        (record { index = 0; line_no = 0; open_record = none }) (lines_from reader).lines run ascii
        refl in
    let ends : (if (lines_from reader).fails
            then lift (err io_error)
            else jsonl_end json on_value config s)
          run'
        ≡ (ok tt, run') =
      rw reads (end_at-none json on_value config skips accepts s s.open_record run' closed) in
    (
      run',
      ap
            (after (λ s.
              if (lines_from reader).fails
              then lift (err io_error)
              else jsonl_end json on_value config s))
            steps
          ∙ ends,
      count,
    )

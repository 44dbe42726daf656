-- ===== src/Ingest/Skipped.antt =====
-- What `ingest_event_stream` does behind a record that is too long.
use plasmite.Prelude.{◌+◌, ◌≡◌, refl, true, Option, none, some, List, [], ◌∷◌, Bool-cases, inl, inr}
use plasmite.Error.{Result, ok}
use plasmite.Text.{Text, is_nil, trim_end_matches, starts_with, strip_prefix}
use plasmite.Ingest.{IngestConfig, Run, ◌>>=◌}
use plasmite.Ingest.Jsonl.{is_line_end}
use plasmite.Ingest.Events.{
  EventState, event_line, event_lines, event_end, end_event, field_line, data_line, data_prefix,
}

-- The reader skips, and no line of a record is kept.
abbrev pub Skips : EventState → Type 0
Skips s = (s.skipping ≡ true) × (s.data_lines ≡ [])

module _ {S V : Type 0} (json : Text → Option V) (on_value : V → S → Result (Unit {0}) × S)
    (config : IngestConfig) (run : Run S) where
  -- The step does nothing to the run and goes on skipping.
  abbrev Idle : Result EventState × Run S → Type 0
  Idle r = (s' : EventState) × (r ≡ (ok s', run)) × Skips s'

  field_line-Idle :
      (s : EventState) (data_text : Option Text)
      → Skips s
      → Idle (field_line json on_value config s data_text run)
  unfolding field_line data_line
  field_line-Idle s none skips = (s, refl, skips)
  field_line-Idle s (some data_text) skips = (s, rw skips.0 refl, skips)

  event_line-Idle :
      (s : EventState) (line : Text) → Skips s → Idle (event_line json on_value config s line run)
  unfolding event_line end_event
  event_line-Idle s line skips =
      let trimmed = trim_end_matches is_line_end line in
      let s' = record s { line_no = s.line_no + 1 } in
      elim (Bool-cases (is_nil trimmed)) [
        | inl blank ↦ (s', rw (blank, skips.1) refl, skips)
        | inr text ↦ elim (Bool-cases (starts_with (b':' ∷ []) trimmed)) [
          | inl comment ↦ (s', rw (text, comment) refl, skips)
          | inr field ↦
              rw (text, field) (field_line-Idle s' (strip_prefix data_prefix trimmed) skips)
        ]
      ]

  event_lines-Idle :
      (s : EventState) (lines : List Text)
      → Skips s
      → Idle (event_lines json on_value config s lines run)
  unfolding event_lines
  event_lines-Idle s [] skips = (s, refl, skips)
  event_lines-Idle s (line ∷ lines) skips =
      let (s', steps, skips') = event_line-Idle s line skips in
      rw steps (event_lines-Idle s' lines skips')

-- After a record that is too long, no later line of the stream changes anything: whatever follows,
-- blank lines included, no value is used and no failure is reported.
pub event_lines-Skips :
    {S V : Type 0} (json : Text → Option V) (on_value : V → S → Result (Unit {0}) × S)
    (config : IngestConfig) (s : EventState) (lines : List Text) (run : Run S)
    → s.skipping ≡ true
    → s.data_lines ≡ []
    → (event_lines json on_value config s lines >>= event_end json on_value config) run
      ≡ (ok tt, run)
unfolding event_end
event_lines-Skips json on_value config s lines run skipping no_lines =
    let (s', steps, skips) =
      event_lines-Idle json on_value config run s lines (skipping, no_lines) in
    rw (steps, skips.0) refl

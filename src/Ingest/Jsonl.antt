-- ===== src/Ingest/Jsonl.antt =====
-- src/ingest.rs: `ingest_jsonl`, one JSON value on a line or, where `allow_multiline` is set, on several,
-- and `ingest_single_json`.
use plasmite.Prelude.{
  ℕ, ◌+◌, Bool, true, false, Option, none, some, List, [], ◌∷◌, ◌++◌, not, ltb, ◌==◌, ◌&&◌, ◌||◌,
  if◌then◌else◌,
}
use plasmite.Error.{Result, ok, err}
use plasmite.Text.{
  Text, len, trim, trim_start, trim_end_matches, starts_with, lines_of, is_nil, decode_utf8,
}
use plasmite.Ingest.{
  IngestMode, ErrorPolicy, IngestConfig, Action, pure, lift, ◌>>=◌, ◌>>◌, reject, use_parsed,
  io_error, Reader,
}
use plasmite.Ingest.Snippet.{truncate_snippet}

abbrev pub is_line_end : ℕ → Bool
is_line_end c = c == 10 || c == 13

abbrev pub is_skip : ErrorPolicy → Bool
is_skip ErrorPolicy.skip = true
is_skip ErrorPolicy.stop = false

unfoldable pub looks_like_json_start : Text → Bool
unfolding trim_start starts_with
looks_like_json_start line =
    starts_with (b'{' ∷ []) (trim_start line) || starts_with (b'[' ∷ []) (trim_start line)

-- The lines that `read_line` gives before the input ends or a read fails. A read fails also where the
-- bytes are no UTF-8; what stands behind the last line feed is then lost.
pub record Lines : Type 0 where
  pub lines : List Text
  pub fails : Bool

abbrev pub concat : List (List ℕ) → List ℕ
concat [] = []
concat (x ∷ xs) = x ++ concat xs

unfoldable pub lines_from : Reader → Lines
unfolding decode_utf8 lines_of trim_end_matches
lines_from reader =
    let (chars, valid) = decode_utf8 none (concat reader.pieces) in
    let fails = not valid || reader.fails in
    record {
      lines = lines_of (if fails then trim_end_matches (λ c. not (c == 10)) chars else chars);
      fails = fails;
    }

-- The variables of the loops. `open_record` is the buffer and the line of a record that the inner loop reads.
pub record JsonlState : Type 0 where
  pub index : ℕ
  pub line_no : ℕ
  pub open_record : Option (Text × ℕ)

abbrev pub closed : JsonlState → JsonlState
closed s = record s { open_record = none }

module _ {S V : Type 0} (json : Text → Option V) (on_value : V → S → Result (Unit {0}) × S)
    (config : IngestConfig) where
  unfoldable pub oversize : IngestMode → ℕ → Option ℕ → Text → Action S (Unit {0})
  unfolding reject truncate_snippet
  oversize mode index line input =
      reject config mode index line "record exceeds size limit" "Oversize"
        (truncate_snippet input config.max_snippet_bytes)

  -- A record: oversize, a value, or no value.
  unfoldable pub record_of : IngestMode → ℕ → Option ℕ → Text → Action S (Unit {0})
  unfolding oversize use_parsed truncate_snippet
  record_of mode index line input =
      if ltb config.max_record_bytes (len input)
      then oversize mode index line input
      else use_parsed on_value config mode index line
          (truncate_snippet input config.max_snippet_bytes) (json input)

  unfoldable pub open_parsed : JsonlState → Text → ℕ → Option V → Action S JsonlState
  unfolding use_parsed
  open_parsed s buf record_line (some value) =
      use_parsed on_value config IngestMode.jsonl s.index (some record_line) (ok []) (some value)
      >> pure (closed s)
  open_parsed s buf record_line none = pure (record s { open_record = some (buf, record_line) })

  -- The top of the inner loop: the record is too long, or a value, or goes on.
  unfoldable pub settle_open : JsonlState → Text → ℕ → Action S JsonlState
  unfolding oversize open_parsed
  settle_open s buf record_line =
      if ltb config.max_record_bytes (len buf)
      then oversize IngestMode.jsonl s.index (some record_line) buf >> pure (closed s)
      else open_parsed s buf record_line (json buf)

  -- A line that the inner loop reads.
  unfoldable pub line_in_record : JsonlState → Text → ℕ → Text → Action S JsonlState
  unfolding reject truncate_snippet looks_like_json_start settle_open
  line_in_record s buf record_line line =
      let next_trimmed = trim_end_matches is_line_end line in
      let s' = record s { line_no = s.line_no + 1 } in
      if is_skip config.errors && looks_like_json_start next_trimmed
      then reject config IngestMode.jsonl s.index (some record_line) "invalid json input" "Parse"
          (truncate_snippet buf config.max_snippet_bytes)
        >> settle_open (record s' { index = s.index + 1 }) next_trimmed s'.line_no
      else settle_open s' (buf ++ line) record_line

  unfoldable pub line_parsed : Bool → JsonlState → Text → Option V → Action S JsonlState
  unfolding use_parsed looks_like_json_start settle_open truncate_snippet
  line_parsed allow_multiline s trimmed (some value) =
      use_parsed on_value config IngestMode.jsonl s.index (some s.line_no) (ok []) (some value)
      >> pure s
  line_parsed allow_multiline s trimmed none =
      if allow_multiline && looks_like_json_start trimmed
      then settle_open s trimmed s.line_no
      else use_parsed on_value config IngestMode.jsonl s.index (some s.line_no)
          (truncate_snippet trimmed config.max_snippet_bytes) none
        >> pure s

  -- A line that the outer loop reads.
  unfoldable pub line_of_jsonl : Bool → JsonlState → Text → Action S JsonlState
  unfolding oversize line_parsed
  line_of_jsonl allow_multiline s line =
      let trimmed = trim_end_matches is_line_end line in
      let s' = record s { line_no = s.line_no + 1 } in
      let s'' = record s' { index = s.index + 1 } in
      if is_nil (trim trimmed)
      then pure s'
      else if ltb config.max_record_bytes (len trimmed)
      then oversize IngestMode.jsonl s''.index (some s''.line_no) trimmed >> pure s''
      else line_parsed allow_multiline s'' trimmed (json trimmed)

  unfoldable pub line_at : Bool → JsonlState → Text → Option (Text × ℕ) → Action S JsonlState
  unfolding line_in_record line_of_jsonl
  line_at allow_multiline s line none = line_of_jsonl allow_multiline s line
  line_at allow_multiline s line (some (buf, record_line)) = line_in_record s buf record_line line

  unfoldable pub jsonl_line : Bool → JsonlState → Text → Action S JsonlState
  unfolding line_at
  jsonl_line allow_multiline s line = line_at allow_multiline s line s.open_record

  -- The input ends: a record that is still open is no value.
  unfoldable pub end_at : JsonlState → Option (Text × ℕ) → Action S (Unit {0})
  unfolding reject truncate_snippet
  end_at s none = pure tt
  end_at s (some (buf, record_line)) =
      reject config IngestMode.jsonl s.index (some record_line) "invalid json input" "Parse"
        (truncate_snippet buf config.max_snippet_bytes)

  unfoldable pub jsonl_end : JsonlState → Action S (Unit {0})
  unfolding end_at
  jsonl_end s = end_at s s.open_record

  unfoldable pub jsonl_lines : Bool → JsonlState → List Text → Action S JsonlState
  unfolding jsonl_line
  jsonl_lines allow_multiline s [] = pure s
  jsonl_lines allow_multiline s (line ∷ lines) =
      jsonl_line allow_multiline s line >>= λ s'. jsonl_lines allow_multiline s' lines

  unfoldable pub ingest_jsonl : Reader → Bool → Action S (Unit {0})
  unfolding lines_from jsonl_lines jsonl_end
  ingest_jsonl reader allow_multiline = do
    s ←
        jsonl_lines allow_multiline (record { index = 0; line_no = 0; open_record = none })
          (lines_from reader).lines
    (if (lines_from reader).fails then lift (err io_error) else jsonl_end s)

  -- The whole input is one value; blank input is none.
  unfoldable pub ingest_single_json : Reader → Action S (Unit {0})
  unfolding decode_utf8 record_of
  ingest_single_json reader =
      let (chars, valid) = decode_utf8 none (concat reader.pieces) in
      if not valid || reader.fails
      then lift (err io_error)
      else if is_nil (trim chars)
      then pure tt
      else record_of IngestMode.json 1 none chars

-- ===== src/Ingest/Account/Jsonl.antt =====
-- The counts of an `ingest` in `ingest_jsonl` and `ingest_single_json`.
use plasmite.Prelude.{ℕ, ◌+◌, Bool, Option, none, some, List, [], ◌∷◌, ◌++◌, ltb, not, ◌&&◌, ◌||◌}
use plasmite.Error.{Result, ok, err}
use plasmite.Text.{Text, len, trim, is_nil, trim_end_matches, decode_utf8}
use plasmite.Ingest.{IngestMode, IngestConfig, Reader, io_error}
use plasmite.Ingest.Account.{
  lift-Accounted, >>=-Accounted, if-Accounted, reject-Accounted, use_parsed-Accounted,
}
use plasmite.Ingest.Jsonl.{
  JsonlState, settle_open, line_in_record, line_of_jsonl, jsonl_line, jsonl_end, open_parsed,
  line_parsed, line_at, end_at, jsonl_lines, ingest_jsonl, ingest_single_json, lines_from, concat,
  is_skip, looks_like_json_start, is_line_end,
}
use plasmite.Ingest.Snippet.{truncate_snippet}
use plasmite.Ingest.Account.Records.{Acc, done, then_done, oversize-Acc, record_of-Acc}

module _ {S V : Type 0} (json : Text → Option V) (on_value : V → S → Result (Unit {0}) × S)
    (to_str_lossy : List ℕ → Text) (values_of : Reader → List (Option V))
    (config : IngestConfig) where
  pub open_parsed-Acc :
      (s : JsonlState) (buf : Text) (record_line : ℕ) (value : Option V)
      → Acc json on_value to_str_lossy values_of config
          (open_parsed json on_value config s buf record_line value)
  unfolding open_parsed
  open_parsed-Acc s buf record_line (some value) =
      then_done json on_value to_str_lossy values_of config _ _
        (use_parsed-Accounted on_value config _ _ _ (ok []) (some value))
  open_parsed-Acc s buf record_line none = done json on_value to_str_lossy values_of config _

  pub settle_open-Acc :
      (s : JsonlState) (buf : Text) (record_line : ℕ)
      → Acc json on_value to_str_lossy values_of config
          (settle_open json on_value config s buf record_line)
  unfolding settle_open
  settle_open-Acc s buf record_line =
      if-Accounted on_value config.errors (ltb config.max_record_bytes (len buf))
        (then_done json on_value to_str_lossy values_of config _ _ (
          oversize-Acc json on_value to_str_lossy values_of config IngestMode.jsonl s.index
            (some record_line) buf))
        (open_parsed-Acc s buf record_line (json buf))

  pub line_in_record-Acc :
      (s : JsonlState) (buf : Text) (record_line : ℕ) (line : Text)
      → Acc json on_value to_str_lossy values_of config
          (line_in_record json on_value config s buf record_line line)
  unfolding line_in_record
  line_in_record-Acc s buf record_line line =
      let next_trimmed = trim_end_matches is_line_end line in
      let s' = record s { line_no = s.line_no + 1 } in
      if-Accounted on_value config.errors
        (is_skip config.errors && looks_like_json_start next_trimmed)
        (>>=-Accounted on_value config.errors _ _
          (reject-Accounted on_value config IngestMode.jsonl s.index (some record_line)
            "invalid json input" "Parse" (truncate_snippet buf config.max_snippet_bytes))
          (λ _. settle_open-Acc (record s' { index = s.index + 1 }) next_trimmed s'.line_no))
        (settle_open-Acc s' (buf ++ line) record_line)

  pub line_parsed-Acc :
      (multi : Bool) (s : JsonlState) (trimmed : Text) (value : Option V)
      → Acc json on_value to_str_lossy values_of config
          (line_parsed json on_value config multi s trimmed value)
  unfolding line_parsed
  line_parsed-Acc multi s trimmed (some value) =
      then_done json on_value to_str_lossy values_of config _ _
        (use_parsed-Accounted on_value config _ _ _ (ok []) (some value))
  line_parsed-Acc multi s trimmed none = search (
    if-Accounted,
    then_done json on_value to_str_lossy values_of config,
    use_parsed-Accounted,
    settle_open-Acc,
  )

  pub line_at-Acc :
      (multi : Bool) (s : JsonlState) (line : Text) (here : Option (Text × ℕ))
      → Acc json on_value to_str_lossy values_of config
          (line_at json on_value config multi s line here)
  unfolding line_at line_of_jsonl
  line_at-Acc multi s line none =
      let trimmed = trim_end_matches is_line_end line in
      let s' = record s { line_no = s.line_no + 1; index = s.index + 1 } in
      if-Accounted on_value config.errors (is_nil (trim trimmed))
        (done json on_value to_str_lossy values_of config (record s { line_no = s.line_no + 1 }))
        (if-Accounted on_value config.errors (ltb config.max_record_bytes (len trimmed))
          (then_done json on_value to_str_lossy values_of config _ s' (
            oversize-Acc json on_value to_str_lossy values_of config IngestMode.jsonl s'.index
              (some s'.line_no) trimmed))
          (line_parsed-Acc multi s' trimmed (json trimmed)))
  line_at-Acc multi s line (some (buf, record_line)) = line_in_record-Acc s buf record_line line

  pub jsonl_lines-Acc :
      (multi : Bool) (s : JsonlState) (lines : List Text)
      → Acc json on_value to_str_lossy values_of config
          (jsonl_lines json on_value config multi s lines)
  unfolding jsonl_lines jsonl_line
  jsonl_lines-Acc multi s [] = done json on_value to_str_lossy values_of config s
  jsonl_lines-Acc multi s (line ∷ lines) =
      >>=-Accounted on_value config.errors _ _ (line_at-Acc multi s line s.open_record)
        (λ s'. jsonl_lines-Acc multi s' lines)

  pub end_at-Acc :
      (s : JsonlState) (here : Option (Text × ℕ))
      → Acc json on_value to_str_lossy values_of config (end_at json on_value config s here)
  unfolding end_at
  end_at-Acc s none = done json on_value to_str_lossy values_of config tt
  end_at-Acc s (some (buf, record_line)) = reject-Accounted on_value config _ _ _ _ _ _

  pub ingest_jsonl-Acc :
      (reader : Reader) (multi : Bool)
      → Acc json on_value to_str_lossy values_of config
          (ingest_jsonl json on_value config reader multi)
  unfolding ingest_jsonl jsonl_end
  ingest_jsonl-Acc reader multi =
      >>=-Accounted on_value config.errors _ _
        (jsonl_lines-Acc multi (record { index = 0; line_no = 0; open_record = none })
          (lines_from reader).lines)
        λ s.
          if-Accounted on_value config.errors (lines_from reader).fails
            (lift-Accounted on_value config.errors (err io_error)) (end_at-Acc s s.open_record)

  pub ingest_single_json-Acc :
      (reader : Reader)
      → Acc json on_value to_str_lossy values_of config
          (ingest_single_json json on_value config reader)
  unfolding ingest_single_json
  ingest_single_json-Acc reader =
      let (chars, valid) = decode_utf8 none (concat reader.pieces) in
      if-Accounted on_value config.errors (not valid || reader.fails)
        (lift-Accounted on_value config.errors (err io_error))
        (if-Accounted on_value config.errors (is_nil (trim chars))
          (done json on_value to_str_lossy values_of config tt)
          (record_of-Acc json on_value to_str_lossy values_of config IngestMode.json 1 none chars))

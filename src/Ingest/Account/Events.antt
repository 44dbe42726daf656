-- ===== src/Ingest/Account/Events.antt =====
-- The counts of an `ingest` in `ingest_event_stream`.
use plasmite.Prelude.{
  ℕ, ◌+◌, true, Option, none, some, List, [], ◌∷◌, ◌++◌, length, ltb, saturating_sub,
}
use plasmite.Error.{Result, err}
use plasmite.Text.{Text, is_nil, trim_end_matches, strip_prefix, starts_with}
use plasmite.Ingest.{IngestMode, IngestConfig, Reader, io_error}
use plasmite.Ingest.Account.{lift-Accounted, >>=-Accounted, if-Accounted, reject-Accounted}
use plasmite.Ingest.Jsonl.{lines_from, is_line_end}
use plasmite.Ingest.Events.{
  EventState, event_start, or_else, total_len, data_prefix, end_event, field_line, data_line,
  event_line, event_lines, event_end, ingest_event_stream,
}
use plasmite.Ingest.Account.Records.{Acc, done, then_done, record_of-Acc}

module _ {S V : Type 0} (json : Text → Option V) (on_value : V → S → Result (Unit {0}) × S)
    (to_str_lossy : List ℕ → Text) (values_of : Reader → List (Option V))
    (config : IngestConfig) where
  pub end_event-Acc :
      (s : EventState)
      → Acc json on_value to_str_lossy values_of config (end_event json on_value config s)
  unfolding end_event
  end_event-Acc s = search (
    if-Accounted,
    then_done json on_value to_str_lossy values_of config,
    done json on_value to_str_lossy values_of config,
    record_of-Acc json on_value to_str_lossy values_of config,
  )

  pub data_line-Acc :
      (s : EventState) (data_text : Text)
      → Acc json on_value to_str_lossy values_of config (data_line json on_value config s data_text)
  unfolding data_line
  data_line-Acc s data_text =
      let data_lines = s.data_lines ++ (data_text ∷ []) in
      let current_len = total_len data_lines + saturating_sub (length data_lines) 1 in
      if-Accounted on_value config.errors s.skipping
        (done json on_value to_str_lossy values_of config s)
        (if-Accounted on_value config.errors (ltb config.max_record_bytes current_len)
          (then_done json on_value to_str_lossy values_of config _
            (record s { index = s.index + 1; data_lines = []; skipping = true })
            (reject-Accounted on_value config IngestMode.event (s.index + 1) (some s.line_no)
              "record exceeds size limit" "Oversize" _))
          (done json on_value to_str_lossy values_of config (record s { data_lines = data_lines })))

  pub field_line-Acc :
      (s : EventState) (data_text : Option Text)
      → Acc json on_value to_str_lossy values_of config
          (field_line json on_value config s data_text)
  unfolding field_line
  field_line-Acc s none = done json on_value to_str_lossy values_of config s
  field_line-Acc s (some data_text) =
      data_line-Acc s (or_else (strip_prefix (32 ∷ []) data_text) data_text)

  pub event_line-Acc :
      (s : EventState) (line : Text)
      → Acc json on_value to_str_lossy values_of config (event_line json on_value config s line)
  unfolding event_line
  event_line-Acc s line =
      let trimmed = trim_end_matches is_line_end line in
      let s' = record s { line_no = s.line_no + 1 } in
      if-Accounted on_value config.errors (is_nil trimmed) (end_event-Acc s') (
        if-Accounted on_value config.errors (starts_with (b':' ∷ []) trimmed)
          (done json on_value to_str_lossy values_of config s')
          (field_line-Acc s' (strip_prefix data_prefix trimmed)))

  pub event_lines-Acc :
      (s : EventState) (lines : List Text)
      → Acc json on_value to_str_lossy values_of config (event_lines json on_value config s lines)
  unfolding event_lines
  event_lines-Acc s [] = done json on_value to_str_lossy values_of config s
  event_lines-Acc s (line ∷ lines) =
      >>=-Accounted on_value config.errors _ _ (event_line-Acc s line)
        (λ s'. event_lines-Acc s' lines)

  pub event_end-Acc :
      (s : EventState)
      → Acc json on_value to_str_lossy values_of config (event_end json on_value config s)
  unfolding event_end
  event_end-Acc s = search (
    if-Accounted,
    record_of-Acc json on_value to_str_lossy values_of config,
    done json on_value to_str_lossy values_of config,
  )

  pub ingest_event_stream-Acc :
      (reader : Reader)
      → Acc json on_value to_str_lossy values_of config
          (ingest_event_stream json on_value config reader)
  unfolding ingest_event_stream
  ingest_event_stream-Acc reader =
      >>=-Accounted on_value config.errors _ _
        (event_lines-Acc event_start (lines_from reader).lines)
        λ s.
          if-Accounted on_value config.errors (lines_from reader).fails
            (lift-Accounted on_value config.errors (err io_error)) (event_end-Acc s)

-- ===== src/Ingest/Events.antt =====
-- src/ingest.rs: `ingest_event_stream`, whose records are the joined `data:` lines before a blank line.
use plasmite.Prelude.{
  ℕ, ◌+◌, Bool, true, false, Option, none, some, List, [], ◌∷◌, ◌++◌, not, ltb, ◌&&◌, length,
  if◌then◌else◌, saturating_sub,
}
use plasmite.Error.{Result, err}
use plasmite.Text.{Text, len, trim_end_matches, strip_prefix, starts_with, is_nil}
use plasmite.Ingest.{
  IngestMode, IngestConfig, Action, pure, lift, ◌>>=◌, ◌>>◌, reject, io_error, Reader,
}
use plasmite.Ingest.Snippet.{join_snippet}
use plasmite.Ingest.Jsonl.{lines_from, is_line_end, record_of}

abbrev pub data_prefix : Text
data_prefix = b'd' ∷ b'a' ∷ b't' ∷ b'a' ∷ b':' ∷ []

-- `lines.join("\n")`
unfoldable pub join : List Text → Text
join [] = []
join (line ∷ []) = line
join (line ∷ other ∷ lines) = line ++ (10 ∷ join (other ∷ lines))

unfoldable pub total_len : List Text → ℕ
unfolding len
total_len [] = 0
total_len (line ∷ lines) = len line + total_len lines

abbrev pub or_else : Option Text → Text → Text
or_else none d = d
or_else (some s) d = s

pub record EventState : Type 0 where
  pub index : ℕ
  pub line_no : ℕ
  pub data_lines : List Text
  pub skipping : Bool

abbrev pub event_start : EventState
event_start = record { index = 0; line_no = 0; data_lines = []; skipping = false }

module _ {S V : Type 0} (json : Text → Option V) (on_value : V → S → Result (Unit {0}) × S)
    (config : IngestConfig) where
  -- A blank line ends a record.
  unfoldable pub end_event : EventState → Action S EventState
  unfolding record_of join
  end_event s =
      if is_nil s.data_lines
      then pure s
      else if s.skipping
      then pure (record s { data_lines = []; skipping = false })
      else record_of json on_value config IngestMode.event (s.index + 1) (some s.line_no)
          (join s.data_lines)
        >> pure (record s { index = s.index + 1; data_lines = [] })

  unfoldable pub data_line : EventState → Text → Action S EventState
  unfolding reject join_snippet total_len
  data_line s data_text =
      let data_lines = s.data_lines ++ (data_text ∷ []) in
      let current_len = total_len data_lines + saturating_sub (length data_lines) 1 in
      if s.skipping
      then pure s
      else if ltb config.max_record_bytes current_len
      then reject config IngestMode.event (s.index + 1) (some s.line_no) "record exceeds size limit"
          "Oversize" (join_snippet data_lines config.max_snippet_bytes)
        >> pure (record s { index = s.index + 1; data_lines = []; skipping = true })
      else pure (record s { data_lines = data_lines })

  -- What stands behind "data:", where a line starts so.
  unfoldable pub field_line : EventState → Option Text → Action S EventState
  unfolding data_line strip_prefix
  field_line s none = pure s
  field_line s (some rest) = data_line s (or_else (strip_prefix (32 ∷ []) rest) rest)

  unfoldable pub event_line : EventState → Text → Action S EventState
  unfolding end_event field_line starts_with strip_prefix
  event_line s line =
      let trimmed = trim_end_matches is_line_end line in
      let s' = record s { line_no = s.line_no + 1 } in
      if is_nil trimmed
      then end_event s'
      else if starts_with (b':' ∷ []) trimmed
      then pure s'
      else field_line s' (strip_prefix data_prefix trimmed)

  unfoldable pub event_lines : EventState → List Text → Action S EventState
  unfolding event_line
  event_lines s [] = pure s
  event_lines s (line ∷ lines) = event_line s line >>= λ s'. event_lines s' lines

  unfoldable pub event_end : EventState → Action S (Unit {0})
  unfolding record_of join
  event_end s =
      if not s.skipping && not (is_nil s.data_lines)
      then record_of json on_value config IngestMode.event (s.index + 1) (some s.line_no)
          (join s.data_lines)
      else pure tt

  unfoldable pub ingest_event_stream : Reader → Action S (Unit {0})
  unfolding lines_from event_lines event_end
  ingest_event_stream reader = do
    s ← event_lines event_start (lines_from reader).lines
    (if (lines_from reader).fails then lift (err io_error) else event_end s)

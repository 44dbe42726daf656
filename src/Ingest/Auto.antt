-- ===== src/Ingest/Auto.antt =====
-- src/ingest.rs: the detection of the mode, the jq mode, and `ingest`.
use plasmite.Prelude.{
  ℕ, ◌+◌, ◌-◌, Bool, true, false, Option, none, some, List, [], ◌∷◌, ◌++◌, min, ltb, ◌==◌, ◌&&◌,
  ◌||◌, length, if◌then◌else◌, saturating_sub,
}
use plasmite.Error.{Result, ok, err, ErrorKind, failure, with_hint}
use plasmite.Text.{Text, trim, starts_with, lines_of, is_nil}
use plasmite.Stream.{drop_front}
use plasmite.Ingest.{
  IngestMode, IngestConfig, IngestOutcome, Run, Action, pure, lift, ◌>>=◌, ◌>>◌, apply_value,
  io_error, Reader,
}
use plasmite.Ingest.Jsonl.{ingest_jsonl, ingest_single_json, is_skip}
use plasmite.Ingest.Seq.{ingest_json_seq}
use plasmite.Ingest.Events.{ingest_event_stream, data_prefix}

pub data AutoMode : Type 0 where
  event_stream json_seq jsonl_multiline : AutoMode

abbrev pub take_front {ℓ} : {A : Type ℓ} → ℕ → List A → List A
take_front n [] = []
take_front n (x ∷ xs) = let rest = take_front (n - 1) xs in if n == 0 then [] else x ∷ rest

unfoldable pub count_byte : ℕ → List ℕ → ℕ
count_byte b [] = 0
count_byte b (x ∷ xs) = if x == b then count_byte b xs + 1 else count_byte b xs

-- The loop of `sniff_auto`: the prefix, and the pieces that are left. A read may fail after the pieces.
unfoldable pub sniff :
    IngestConfig → Bool → List ℕ → ℕ → List (List ℕ) → Result (List ℕ × List (List ℕ))
unfolding count_byte drop_front
sniff config fails prefix lines [] =
    if ltb (length prefix) config.sniff_bytes && ltb lines config.sniff_lines && fails
    then err io_error
    else ok (prefix, [])
sniff config fails prefix lines (piece ∷ pieces) =
    let take = min (length piece) (saturating_sub config.sniff_bytes (length prefix)) in
    let front = take_front take piece in
    let next = sniff config fails (prefix ++ front) (lines + count_byte 10 front) pieces in
    if ltb (length prefix) config.sniff_bytes && ltb lines config.sniff_lines
    then (if take == length piece
        then next
        else ok (prefix ++ front, drop_front take piece ∷ pieces))
    else ok (prefix, piece ∷ pieces)

abbrev pub any_byte : ℕ → List ℕ → Bool
any_byte b [] = false
any_byte b (x ∷ xs) = x == b || any_byte b xs

-- The first line that is not blank tells whether it is an event stream.
unfoldable pub detect_line : List Text → AutoMode
unfolding trim starts_with
detect_line [] = AutoMode.jsonl_multiline
detect_line (raw_line ∷ lines) =
    let line = trim raw_line in
    if is_nil line
    then detect_line lines
    else if starts_with data_prefix line
        || starts_with (b'e' ∷ b'v' ∷ b'e' ∷ b'n' ∷ b't' ∷ b':' ∷ []) line
        || starts_with (b'i' ∷ b'd' ∷ b':' ∷ []) line
        || starts_with (b':' ∷ []) line
    then AutoMode.event_stream
    else AutoMode.jsonl_multiline

abbrev pub outcome_of : {S : Type 0} → Unit {0} → Action S IngestOutcome
outcome_of _ run = (
  ok (record {
    records_total = run.ok_count + run.failed;
    ok_count = run.ok_count;
    failed = run.failed;
  }),
  run,
)

module _ {S V : Type 0} (json : Text → Option V) (on_value : V → S → Result (Unit {0}) × S)
    (to_str_lossy : List ℕ → Text) (values_of : Reader → List (Option V))
    (config : IngestConfig) where
  unfoldable pub detect_auto_mode : List ℕ → AutoMode
  unfolding detect_line lines_of
  detect_auto_mode prefix =
      if any_byte 0x1e prefix
      then AutoMode.json_seq
      else detect_line (lines_of (to_str_lossy prefix))

  unfoldable pub ingest_as : AutoMode → Reader → Action S (Unit {0})
  unfolding ingest_json_seq ingest_event_stream ingest_jsonl
  ingest_as AutoMode.event_stream reader = ingest_event_stream json on_value config reader
  ingest_as AutoMode.json_seq reader = ingest_json_seq json on_value to_str_lossy config reader
  ingest_as AutoMode.jsonl_multiline reader = ingest_jsonl json on_value config reader true

  -- Reading goes on with the prefix, and then with what is left.
  unfoldable pub ingest_auto : Reader → Action S (Unit {0})
  unfolding sniff detect_auto_mode ingest_as
  ingest_auto reader = lift (sniff config reader.fails [] 0 reader.pieces) >>= λ sniffed.
      ingest_as (detect_auto_mode sniffed.0) (record reader { pieces = sniffed.0 ∷ sniffed.1 })

  -- The values that serde_json's stream gives, the first `none` being an error.
  unfoldable pub jq_values : ℕ → List (Option V) → Action S (Unit {0})
  unfolding apply_value
  jq_values index [] = pure tt
  jq_values index (none ∷ items) = lift (
      err (
        with_hint "Use --in jsonl for line-delimited input."
          (failure ErrorKind.usage "invalid json input")))
  jq_values index (some value ∷ items) =
      apply_value on_value config IngestMode.jq (index + 1) none value
      >> jq_values (index + 1) items

  unfoldable pub ingest_jq : Reader → Action S (Unit {0})
  unfolding jq_values
  ingest_jq reader =
      if is_skip config.errors
      then lift (
          err (
            with_hint "Use --in jsonl or --in auto for resyncable streams."
              (failure ErrorKind.usage "skip is not supported for jq-style streams")))
      else jq_values 0 (values_of reader)

  unfoldable pub ingest_with : IngestMode → Reader → Action S (Unit {0})
  unfolding ingest_auto ingest_jsonl ingest_single_json ingest_json_seq ingest_jq
      ingest_event_stream
  ingest_with IngestMode.auto reader = ingest_auto reader
  ingest_with IngestMode.jsonl reader = ingest_jsonl json on_value config reader false
  ingest_with IngestMode.json reader = ingest_single_json json on_value config reader
  ingest_with IngestMode.seq reader = ingest_json_seq json on_value to_str_lossy config reader
  ingest_with IngestMode.jq reader = ingest_jq reader
  ingest_with IngestMode.event reader = ingest_event_stream json on_value config reader

  -- `ingest` for a client in the state `client`: its outcome, and the run.
  unfoldable pub ingest : Reader → S → Result IngestOutcome × Run S
  unfolding ingest_with
  ingest reader client =
      (ingest_with config.mode reader >>= outcome_of)
        (record { client = client; ok_count = 0; failed = 0; failures = [] })

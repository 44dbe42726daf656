-- ===== src/Ingest/Account/Modes.antt =====
-- The counts of an `ingest` in each of its modes.
use plasmite.Prelude.{
  ℕ, ◌+◌, ◌≡◌, refl, ap, subst, ◌∙◌, arith, true, false, Option, none, some, List, [], ◌∷◌, ◌++◌,
  length,
}
use plasmite.Error.{Result, ok, err, panic, stuck}
use plasmite.Text.{Text}
use plasmite.Ingest.{IngestMode, ErrorPolicy, IngestConfig, IngestOutcome, Run, lift, after, Reader}
use plasmite.Ingest.Account.{
  Took, Accounts, lift-Accounted, >>=-Accounted, if-Accounted, apply_value-Accounted,
}
use plasmite.Ingest.Jsonl.{is_skip}
use plasmite.Ingest.Auto.{
  AutoMode, sniff, detect_auto_mode, outcome_of, ingest_as, ingest_auto, jq_values, ingest_jq,
  ingest_with, ingest,
}
use plasmite.Ingest.Account.Records.{Acc, done}
use plasmite.Ingest.Account.Jsonl.{ingest_jsonl-Acc, ingest_single_json-Acc}
use plasmite.Ingest.Account.Seq.{ingest_json_seq-Acc}
use plasmite.Ingest.Account.Events.{ingest_event_stream-Acc}

module _ {S V : Type 0} (json : Text → Option V) (on_value : V → S → Result (Unit {0}) × S)
    (to_str_lossy : List ℕ → Text) (values_of : Reader → List (Option V))
    (config : IngestConfig) where
  ingest_as-Acc :
      (mode : AutoMode) (reader : Reader)
      → Acc json on_value to_str_lossy values_of config
          (ingest_as json on_value to_str_lossy values_of config mode reader)
  unfolding ingest_as
  ingest_as-Acc AutoMode.event_stream reader =
      ingest_event_stream-Acc json on_value to_str_lossy values_of config reader
  ingest_as-Acc AutoMode.json_seq reader =
      ingest_json_seq-Acc json on_value to_str_lossy values_of config reader
  ingest_as-Acc AutoMode.jsonl_multiline reader =
      ingest_jsonl-Acc json on_value to_str_lossy values_of config reader true

  jq_values-Acc :
      (index : ℕ) (items : List (Option V))
      → Acc json on_value to_str_lossy values_of config
          (jq_values json on_value to_str_lossy values_of config index items)
  unfolding jq_values
  jq_values-Acc index [] = done json on_value to_str_lossy values_of config tt
  jq_values-Acc index (none ∷ items) = lift-Accounted on_value config.errors _
  jq_values-Acc index (some value ∷ items) =
      >>=-Accounted on_value config.errors _ _ (apply_value-Accounted on_value config _ _ _ value)
        (λ _. jq_values-Acc (index + 1) items)

  ingest_with-Acc :
      (mode : IngestMode) (reader : Reader)
      → Acc json on_value to_str_lossy values_of config
          (ingest_with json on_value to_str_lossy values_of config mode reader)
  unfolding ingest_with ingest_auto ingest_jq
  ingest_with-Acc IngestMode.auto reader =
      >>=-Accounted on_value config.errors (lift (sniff config reader.fails [] 0 reader.pieces)) _
        (lift-Accounted on_value config.errors (sniff config reader.fails [] 0 reader.pieces))
        λ sniffed.
          ingest_as-Acc (detect_auto_mode json on_value to_str_lossy values_of config sniffed.0)
            (record reader { pieces = sniffed.0 ∷ sniffed.1 })
  ingest_with-Acc IngestMode.jsonl reader =
      ingest_jsonl-Acc json on_value to_str_lossy values_of config reader false
  ingest_with-Acc IngestMode.json reader =
      ingest_single_json-Acc json on_value to_str_lossy values_of config reader
  ingest_with-Acc IngestMode.seq reader =
      ingest_json_seq-Acc json on_value to_str_lossy values_of config reader
  ingest_with-Acc IngestMode.jq reader =
      if-Accounted on_value config.errors (is_skip config.errors)
        (lift-Accounted on_value config.errors (err _)) (jq_values-Acc 0 (values_of reader))
  ingest_with-Acc IngestMode.event reader =
      ingest_event_stream-Acc json on_value to_str_lossy values_of config reader

  abbrev Outcome : S → Result IngestOutcome × Run S → Type 0
  Outcome client (r, run) =
      Took on_value run.ok_count client run.client
      × (run.failed ≡ length run.failures)
      × (config.errors ≡ ErrorPolicy.stop → run.failures ≡ [])
      × ((outcome : IngestOutcome)
          → r ≡ ok outcome
          → (outcome.ok_count ≡ run.ok_count)
            × (outcome.failed ≡ length run.failures)
            × (outcome.records_total ≡ outcome.ok_count + length run.failures))

  module _ (start run : Run S) (counts_none : start.failed ≡ 0) (takes_none : start.ok_count ≡ 0)
      (reports_none : start.failures ≡ []) (c : Accounts on_value config.errors start run) where
    reported : run.failures ≡ c.new_failures
    reported = c.kept ∙ ap (λ fs. fs ++ c.new_failures) reports_none

    counted : run.failed ≡ length run.failures
    counted = rw reported (omega (arith, c.counted))

    values : Took on_value run.ok_count start.client run.client
    values =
        subst (λ n. Took on_value n start.client run.client)
          (omega (arith, c.values_counted, takes_none)) c.took

    with-Outcome : (r : Result (Unit {0})) → Outcome start.client (after outcome_of (r, run))
    with-Outcome (ok _) =
        (values, counted, λ e. reported ∙ c.none_under_stop e, λ outcome e. ground (arith, counted))
    with-Outcome (err e) = (values, counted, λ e. reported ∙ c.none_under_stop e, λ outcome e. cc)
    with-Outcome panic = (values, counted, λ e. reported ∙ c.none_under_stop e, λ outcome e. cc)
    with-Outcome stuck = (values, counted, λ e. reported ∙ c.none_under_stop e, λ outcome e. cc)

-- In every mode and for every input: a run counts just the values that the client took, on the way from
-- the client's first state to its last, the failures that it counts are the ones that it reports, under
-- `stop` there are none, and an outcome counts these values and the reported failures.
pub ingest_accounts :
    {S V : Type 0} (json : Text → Option V) (on_value : V → S → Result (Unit {0}) × S)
    (to_str_lossy : List ℕ → Text) (values_of : Reader → List (Option V)) (config : IngestConfig)
    (reader : Reader) (client : S)
    → let (r, run) = ingest json on_value to_str_lossy values_of config reader client in
      Took on_value run.ok_count client run.client
      × (run.failed ≡ length run.failures)
      × (config.errors ≡ ErrorPolicy.stop → run.failures ≡ [])
      × ((outcome : IngestOutcome)
          → r ≡ ok outcome
          → (outcome.ok_count ≡ run.ok_count)
            × (outcome.failed ≡ length run.failures)
            × (outcome.records_total ≡ outcome.ok_count + length run.failures))
unfolding ingest
ingest_accounts {S} json on_value to_str_lossy values_of config reader client =
    let start : Run S = record { client = client; ok_count = 0; failed = 0; failures = [] } in
    let run = ingest_with json on_value to_str_lossy values_of config config.mode reader start in
    with-Outcome json on_value to_str_lossy values_of config start run.1 refl refl refl
      ((ingest_with-Acc json on_value to_str_lossy values_of config config.mode reader).at start)
      run.0

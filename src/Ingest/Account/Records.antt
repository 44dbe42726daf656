-- ===== src/Ingest/Account/Records.antt =====
-- The counts of an `ingest` in a record of any mode.
use plasmite.Prelude.{ℕ, Option, List, ltb}
use plasmite.Error.{Result, ok}
use plasmite.Text.{Text, len}
use plasmite.Ingest.{IngestMode, IngestConfig, Action, pure, ◌>>◌, Reader}
use plasmite.Ingest.Account.{
  Kept, lift-Accounted, >>=-Accounted, if-Accounted, reject-Accounted, use_parsed-Accounted,
}
use plasmite.Ingest.Jsonl.{oversize, record_of}

module _ {S V : Type 0} (json : Text → Option V) (on_value : V → S → Result (Unit {0}) × S)
    (to_str_lossy : List ℕ → Text) (values_of : Reader → List (Option V))
    (config : IngestConfig) where
  abbrev pub Acc : {A : Type 0} → Action S A → Type 0
  Acc = Kept on_value config

  pub done : {A : Type 0} (a : A) → Acc (pure a)
  done a = lift-Accounted on_value config.errors (ok a)

  pub then_done : {A : Type 0} (m : Action S (Unit {0})) (a : A) → Acc m → Acc (m >> pure a)
  then_done m a h = >>=-Accounted on_value config.errors m _ h (λ _. done a)

  pub oversize-Acc :
      (mode : IngestMode) (index : ℕ) (line : Option ℕ) (input : Text)
      → Acc (oversize json on_value config mode index line input)
  unfolding oversize
  oversize-Acc mode index line input = reject-Accounted on_value config mode index line _ _ _

  pub record_of-Acc :
      (mode : IngestMode) (index : ℕ) (line : Option ℕ) (input : Text)
      → Acc (record_of json on_value config mode index line input)
  unfolding record_of
  record_of-Acc mode index line input =
      if-Accounted on_value config.errors (ltb config.max_record_bytes (len input))
        (oversize-Acc mode index line input)
        (use_parsed-Accounted on_value config mode index line _ (json input))

-- ===== src/Ingest.antt =====
-- src/ingest.rs: the input of `feed` as a sequence of JSON values.
-- serde_json's parser is a parameter, and so is what is done with a value: it changes the client's
-- state and may fail. Reads give pieces of the input, or fail; where a piece ends is the operating
-- system's choice. The failures that are reported are a list.
pub mod Snippet
pub mod Jsonl
pub mod Seq
pub mod Events
pub mod Auto
pub mod Account
pub mod Skipped
pub mod Pieces
pub mod Counted
use plasmite.Prelude.{
  ℕ, zero, suc, ◌+◌, Bool, true, false, String, Option, none, some, List, [], ◌∷◌, ◌++◌, ltb, leb,
  ◌==◌, if◌then◌else◌,
}
use plasmite.Error.{Error, Result, ok, err, panic, stuck, ErrorKind, failure, with_hint}
use plasmite.Text.{Text}
use text.Mathlib.Text.{◌==◌ as str_eq}

pub data IngestMode : Type 0 where
  auto jsonl json seq jq event : IngestMode

pub data ErrorPolicy : Type 0 where
  stop skip : ErrorPolicy

pub record IngestConfig : Type 0 where
  pub mode : IngestMode
  pub errors : ErrorPolicy
  pub sniff_bytes : ℕ
  pub sniff_lines : ℕ
  pub max_record_bytes : ℕ
  pub max_snippet_bytes : ℕ

pub record IngestOutcome : Type 0 where
  pub records_total : ℕ
  pub ok_count : ℕ
  pub failed : ℕ

pub record IngestFailure : Type 0 where
  pub index : ℕ
  pub mode : IngestMode
  pub message : String
  pub error_kind : String
  pub snippet : Option Text
  pub line : Option ℕ

-- What a run has done: the client's state, the counts, and the failures that were reported.
pub record Run (S : Type 0) : Type 0 where
  pub client : S
  pub ok_count : ℕ
  pub failed : ℕ
  pub failures : List IngestFailure

-- A step of a run: what it has done stays done where it fails.
abbrev pub Action : Type 0 → Type 0 → Type 0
Action S A = Run S → Result A × Run S

module _ {S : Type 0} where
  abbrev pub pure : {A : Type 0} → A → Action S A
  pure a run = (ok a, run)

  abbrev pub lift : {A : Type 0} → Result A → Action S A
  lift r run = (r, run)

  -- A step after one that came out as `r`: it is left out after a failure.
  abbrev pub after : {A B : Type 0} → (A → Action S B) → Result A × Run S → Result B × Run S
  after f (ok a, run) = f a run
  after f (err e, run) = (err e, run)
  after f (panic, run) = (panic, run)
  after f (stuck, run) = (stuck, run)

  infixl 5 ◌>>=◌ ◌>>◌
  abbrev pub ◌>>=◌ : {A B : Type 0} → Action S A → (A → Action S B) → Action S B
  ◌>>=◌ m f run = after f (m run)

  abbrev pub ◌>>◌ : {B : Type 0} → Action S (Unit {0}) → Action S B → Action S B
  m >> k = m >>= λ _. k

-- The error of a failed record under `stop`; the hint for a jq stream replaces the other.
unfoldable pub stop_error : IngestMode → String → String → Error
stop_error mode message error_kind =
    let e = failure ErrorKind.usage message in
    let e' =
      (if str_eq error_kind "Parse"
        then with_hint "Use -e skip to continue or select the correct input mode." e
        else e) in
    elim mode [ IngestMode.jq ↦ with_hint "Use --in jsonl for line-delimited input." e' | _ ↦ e' ]

-- `handle_failure`
unfoldable pub on_failure : {S : Type 0} → ErrorPolicy → IngestFailure → Action S (Unit {0})
on_failure ErrorPolicy.stop f run = (err (stop_error f.mode f.message f.error_kind), run)
on_failure ErrorPolicy.skip f run =
    (ok tt, record run { failed = run.failed + 1; failures = run.failures ++ (f ∷ []) })

-- The name of an error kind, as `{:?}` prints it.
unfoldable pub kind_name : ErrorKind → String
kind_name ErrorKind.internal = "Internal"
kind_name ErrorKind.usage = "Usage"
kind_name ErrorKind.not_found = "NotFound"
kind_name ErrorKind.already_exists = "AlreadyExists"
kind_name ErrorKind.busy = "Busy"
kind_name ErrorKind.permission = "Permission"
kind_name ErrorKind.corrupt = "Corrupt"
kind_name ErrorKind.io = "Io"

abbrev pub message_or : String → Option String → String
message_or d none = d
message_or d (some m) = m

-- A record that cannot be used: `kind` is "Parse" or "Oversize", and the snippet is made of `input`.
unfoldable pub reject :
    {S : Type 0}
    → IngestConfig
    → IngestMode
    → ℕ
    → Option ℕ
    → String
    → String
    → Result Text
    → Action S (Unit {0})
unfolding on_failure
reject config mode index line message error_kind snippet run =
    (do
      text ← lift snippet
      on_failure config.errors (record {
        index = index;
        mode = mode;
        message = message;
        error_kind = error_kind;
        snippet = some text;
        line = line;
      }))
      run

module _ {S V : Type 0} (on_value : V → S → Result (Unit {0}) × S) where
  -- `accept_value` by the outcome of `on_value`.
  unfoldable pub accepted : Run S → Result (Unit {0}) × S → Result (Unit {0}) × Run S
  accepted run (ok _, client) = (ok tt, record run { client = client; ok_count = run.ok_count + 1 })
  accepted run (err e, client) = (err e, record run { client = client })
  accepted run (panic, client) = (panic, record run { client = client })
  accepted run (stuck, client) = (stuck, record run { client = client })

  unfoldable pub accept_value : V → Action S (Unit {0})
  unfolding accepted
  accept_value value run = accepted run (on_value value run.client)

  -- An error of the client: under `stop` it is reported as a failure.
  unfoldable pub client_error : ErrorPolicy → Error → IngestFailure → Action S (Unit {0})
  unfolding on_failure
  client_error ErrorPolicy.skip e f = lift (err e)
  client_error ErrorPolicy.stop e f = on_failure ErrorPolicy.stop f

  -- `apply_value` by the outcome of `accept_value`.
  unfoldable pub value_applied :
      IngestConfig → IngestMode → ℕ → Option ℕ → Result (Unit {0}) → Action S (Unit {0})
  unfolding client_error kind_name
  value_applied config mode index line (ok _) = pure tt
  value_applied config mode index line (err e) = client_error config.errors e (record {
    index = index;
    mode = mode;
    message = message_or "append failed" e.message;
    error_kind = kind_name e.kind;
    snippet = none;
    line = line;
  })
  value_applied config mode index line panic = lift panic
  value_applied config mode index line stuck = lift stuck

  unfoldable pub apply_value : IngestConfig → IngestMode → ℕ → Option ℕ → V → Action S (Unit {0})
  unfolding accept_value value_applied
  apply_value config mode index line value run =
      let (r, run') = accept_value value run in value_applied config mode index line r run'

  -- A record whose size is right: its value, or a failure with its snippet.
  unfoldable pub use_parsed :
      IngestConfig → IngestMode → ℕ → Option ℕ → Result Text → Option V → Action S (Unit {0})
  unfolding apply_value reject
  use_parsed config mode index line snippet (some value) = apply_value config mode index line value
  use_parsed config mode index line snippet none =
      reject config mode index line "invalid json input" "Parse" snippet

-- The error of a read.
abbrev pub io_error : Error
io_error = failure ErrorKind.io "failed to read stdin"

-- A reader: the pieces that its reads give, and whether a read fails after them.
pub record Reader : Type 0 where
  pub pieces : List (List ℕ)
  pub fails : Bool

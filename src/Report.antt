-- ===== src/Report.antt =====
-- src/api/validation.rs: the report on the state of a pool, which the `doctor` command gives.
-- A text that is formatted from numbers or an error is kept as what it is formatted from.
pub mod Scan
pub mod Ends
pub mod Total
pub mod Walk
pub mod Sound
use plasmite.Prelude.{ℕ, Option, none, some, List, [], ◌∷◌, String, ◌==◌, if◌then◌else◌, length}
use plasmite.Error.{Error}

pub data ValidationStatus : Type 0 where
  ok corrupt : ValidationStatus

-- The message, and the error that is printed behind it.
pub record ValidationIssue : Type 0 where
  pub code : String
  pub message : String
  pub cause : Option Error
  pub seq : Option ℕ
  pub offset : Option ℕ

-- The warnings of the spot check: a slot with its sequence number and its offset.
pub data Warning : Type 0 where
  overlap : Warning
  outside : ℕ → ℕ → ℕ → Warning
  stale : ℕ → ℕ → Warning

pub data Hint : Type 0 where
  recreate : Hint
  warning : Warning → Hint

pub record ValidationReport : Type 0 where
  pub pool_ref : Option String
  pub path : String
  pub status : ValidationStatus
  pub last_good_seq : Option ℕ
  pub issues : List ValidationIssue
  pub issue_count : ℕ
  pub remediation_hints : List Hint
  pub snapshot_path : Option String

-- `ValidationReport::ok`
abbrev pub report_ok : String → ValidationReport
report_ok path = record {
  pool_ref = none;
  path = path;
  status = ValidationStatus.ok;
  last_good_seq = none;
  issues = [];
  issue_count = 0;
  remediation_hints = [];
  snapshot_path = none;
}

-- `ValidationReport::corrupt`
abbrev pub report_corrupt : String → ValidationIssue → Option ℕ → ValidationReport
report_corrupt path found last_good_seq = record {
  pool_ref = none;
  path = path;
  status = ValidationStatus.corrupt;
  last_good_seq = last_good_seq;
  issues = found ∷ [];
  issue_count = 1;
  remediation_hints = Hint.recreate ∷ [];
  snapshot_path = none;
}

abbrev pub with_pool_ref : ValidationReport → String → ValidationReport
with_pool_ref r pool_ref = record r { pool_ref = some pool_ref }

abbrev pub with_snapshot : ValidationReport → String → ValidationReport
with_snapshot r path = record r { snapshot_path = some path }

unfoldable pub set_issues : ValidationReport → List ValidationIssue → ValidationReport
set_issues r issues = record r {
  issues = issues;
  issue_count = length issues;
  status = if length issues == 0 then ValidationStatus.ok else ValidationStatus.corrupt;
}

abbrev pub set_last_good : ValidationReport → Option ℕ → ValidationReport
set_last_good r seq = record r { last_good_seq = seq }

abbrev pub issue : String → Option Error → Option ℕ → Option ℕ → ValidationIssue
issue message cause seq offset = record {
  code = "corrupt";
  message = message;
  cause = cause;
  seq = seq;
  offset = offset;
}

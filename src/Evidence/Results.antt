-- ===== src/Evidence/Results.antt =====
-- The data of src/katydid/evidence.py, and the plan of src/katydid/profile.py that it is about.
use katydid.Base.{Bool, List, Option, String, false, true, ℕ, ℤ}

pub data Status : Type 0 where
  passed failed error timed_out cancelled missing_evidence invalid_evidence no_tests skipped :
      Status

abbrev pub is_passed : Status → Bool
is_passed passed = true
is_passed _ = false

-- `TestEvidence`, its counters as `_counts` computes them
pub record TestEvidence : Type 0 where
  pub status : Status
  pub detail : String
  pub tests : ℕ
  pub failures : ℕ
  pub errors : ℕ
  pub skipped : ℕ

-- `duration_seconds` is in microseconds here.
pub record CheckResult : Type 0 where
  pub id : String
  pub status : Status
  pub detail : String
  pub exit_code : Option ℤ
  pub duration_seconds : ℕ
  pub evidence : Option TestEvidence

-- `kind` of a check
pub data CheckKind : Type 0 where
  command test : CheckKind

pub record PlannedCheck : Type 0 where
  pub id : String
  pub kind : CheckKind
  pub argv : List String
  pub working_directory : String
  pub timeout_seconds : ℕ
  pub required : Bool
  pub tool : Option String

-- The messages of `evaluate_gate`, each with the values that its text shows.
pub data Reason : Type 0 where
  no_required_checks : Reason
  duplicate_result unexpected_result no_process_evidence no_test_evidence missing_result :
      String → Reason
  not_passed : String → Status → String → Reason

pub record Gate : Type 0 where
  pub passed : Bool
  pub reasons : List Reason
  pub advisories : List Reason

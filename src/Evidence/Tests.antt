-- ===== src/Evidence/Tests.antt =====
-- The gate of src/katydid/evidence.py on a plan of two checks.
use mathlib.Core.List.{Memᴰ}
use katydid.Base.{[], ap, false, none, pos, refl, some, true, ◌∷◌, ◌≡◌}
use katydid.Evidence.Accepting.{evaluate_gate_lem, is_complete}
use katydid.Evidence.Gate.{
  evaluate_gate, expected, insert_text, is_passing_evidence, judge, judge_all, mark_seen,
  missing_ids, passing_reasons, sort_texts,
}
use katydid.Evidence.Results.{
  CheckResult, PlannedCheck, TestEvidence, command, failed, missing_result, not_passed, passed,
  test,
}
use katydid.Evidence.Soundness.{IsShown, gate-IsShown}

abbrev unit_tests : PlannedCheck
unit_tests = record {
  id = "unit";
  kind = test;
  argv = "pytest" ∷ [];
  working_directory = ".";
  timeout_seconds = 300;
  required = true;
  tool = none;
}

abbrev lint : PlannedCheck
lint = record unit_tests { id = "lint"; kind = command; required = false }

abbrev good_evidence : TestEvidence
good_evidence = record {
  status = passed;
  detail = "";
  tests = 2;
  failures = 0;
  errors = 0;
  skipped = 1;
}

abbrev unit_passed : CheckResult
unit_passed = record {
  id = "unit";
  status = passed;
  detail = "";
  exit_code = some (pos 0);
  duration_seconds = 0;
  evidence = some good_evidence;
}

abbrev lint_failed : CheckResult
lint_failed = record unit_passed { id = "lint"; status = failed; exit_code = some (pos 1) }

two_results :
    evaluate_gate (unit_tests ∷ lint ∷ []) (unit_passed ∷ lint_failed ∷ [])
    ≡ record { passed = true; reasons = []; advisories = not_passed "lint" failed "" ∷ [] }
unfolding evaluate_gate judge_all judge mark_seen expected passing_reasons is_passing_evidence
    missing_ids sort_texts insert_text
two_results = refl

one_missing :
    (evaluate_gate (unit_tests ∷ lint ∷ []) (unit_passed ∷ [])).reasons ≡ missing_result "lint" ∷ []
unfolding evaluate_gate judge_all judge mark_seen expected passing_reasons is_passing_evidence
    missing_ids sort_texts insert_text
one_missing = refl

evaluate_gate_lem_example :
    (evaluate_gate (unit_tests ∷ lint ∷ []) (unit_passed ∷ lint_failed ∷ [])).passed
    ≡ is_complete (unit_tests ∷ lint ∷ []) (unit_passed ∷ lint_failed ∷ [])
evaluate_gate_lem_example =
    evaluate_gate_lem (unit_tests ∷ lint ∷ []) (unit_passed ∷ lint_failed ∷ [])

gate-IsShown_example : IsShown unit_tests (unit_passed ∷ lint_failed ∷ [])
gate-IsShown_example =
    gate-IsShown (unit_tests ∷ lint ∷ []) (unit_passed ∷ lint_failed ∷ []) refl
      (ap (λ g. g.passed) two_results) unit_tests (Memᴰ.head refl) refl

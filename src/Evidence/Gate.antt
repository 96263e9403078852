-- ===== src/Evidence/Gate.antt =====
-- `evaluate_gate` of src/katydid/evidence.py. Of the plan it uses the checks alone.
use katydid.Base.{
  Bool, List, Option, String, [], any, eqb, false, if◌then◌else◌, is_nil, leb, map, none, not, pos,
  some, true, zero, ℤ, ◌&&◌, ◌++◌, ◌==◌, ◌||◌, ◌∷◌,
}
use katydid.Evidence.Results.{
  CheckKind, CheckResult, Gate, PlannedCheck, Reason, TestEvidence, command, duplicate_result,
  is_passed, missing_result, no_process_evidence, no_required_checks, no_test_evidence, not_passed,
  test, unexpected_result,
}
use katydid.Json.{text_leb}
use katydid.Store.Rows.{ids}

-- `id in ids`
abbrev pub member : String → List String → Bool
member id ids = any (λ i. i == id) ids

-- `{check.id: check for check in plan.checks}.get(id)`: the last check with the id.
unfoldable pub expected : String → List PlannedCheck → Option PlannedCheck
expected id [] = none
expected id (check ∷ checks) = elim (expected id checks) [
  | some later ↦ some later
  | none ↦ if check.id == id then some check else none
]

-- The variables of the loop.
pub record Tally : Type 0 where
  pub seen : List String
  pub reasons : List Reason
  pub advisories : List Reason

abbrev pub reason_if : Bool → Reason → List Reason
reason_if true r = r ∷ []
reason_if false r = []

-- The condition on the evidence of a passing test, negated.
unfoldable pub is_passing_evidence : Option TestEvidence → Bool
is_passing_evidence none = false
is_passing_evidence (some e) =
    is_passed e.status && not (leb e.tests e.skipped) && eqb e.failures 0 && eqb e.errors 0

abbrev pub is_zero : Option ℤ → Bool
is_zero (some (pos zero)) = true
is_zero _ = false

abbrev pub is_test : CheckKind → Bool
is_test test = true
is_test command = false

-- What the loop says of a result whose status is passed.
unfoldable pub passing_reasons : PlannedCheck → CheckResult → List Reason
passing_reasons check result =
    reason_if (not (is_zero result.exit_code)) (no_process_evidence result.id)
    ++ reason_if (is_test check.kind && not (is_passing_evidence result.evidence))
        (no_test_evidence result.id)

-- The body of the loop, for a result that the plan expects or does not.
unfoldable pub judge : Option PlannedCheck → CheckResult → Tally → Tally
judge none result tally = record tally {
  reasons = tally.reasons ++ unexpected_result result.id ∷ [];
}
judge (some check) result tally =
    if is_passed result.status
    then record tally { reasons = tally.reasons ++ passing_reasons check result }
    else if check.required
    then record tally {
      reasons = tally.reasons ++ not_passed result.id result.status result.detail ∷ [];
    }
    else record tally {
      advisories = tally.advisories ++ not_passed result.id result.status result.detail ∷ [];
    }

unfoldable pub mark_seen : CheckResult → Tally → Tally
mark_seen result tally = record tally {
  seen = result.id ∷ tally.seen;
  reasons = tally.reasons ++ reason_if (member result.id tally.seen) (duplicate_result result.id);
}

unfoldable pub judge_all : List PlannedCheck → List CheckResult → Tally → Tally
judge_all checks [] tally = tally
judge_all checks (result ∷ results) tally =
    judge_all checks results (judge (expected result.id checks) result (mark_seen result tally))

-- The keys of the dict that are not in `seen`, each once.
unfoldable pub missing_ids : List PlannedCheck → List String → List String
missing_ids [] seen = []
missing_ids (check ∷ checks) seen =
    let rest = missing_ids checks seen in
    if member check.id seen || member check.id rest then rest else check.id ∷ rest

-- `sorted`
unfoldable pub insert_text : String → List String → List String
insert_text s [] = s ∷ []
insert_text s (t ∷ ts) =
    let rest = insert_text s ts in if text_leb s t then s ∷ t ∷ ts else t ∷ rest

unfoldable pub sort_texts : List String → List String
sort_texts [] = []
sort_texts (s ∷ ss) = insert_text s (sort_texts ss)

unfoldable pub evaluate_gate : List PlannedCheck → List CheckResult → Gate
evaluate_gate checks results =
    let start : Tally = record {
      seen = [];
      reasons = reason_if (not (any (λ c. c.required) checks)) no_required_checks;
      advisories = [];
    } in
    let tally = judge_all checks results start in
    let reasons =
      tally.reasons ++ map missing_result (sort_texts (missing_ids checks tally.seen)) in
    record { passed = is_nil reasons; reasons = reasons; advisories = tally.advisories }

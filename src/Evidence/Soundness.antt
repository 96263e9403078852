-- ===== src/Evidence/Soundness.antt =====
-- What the gate of src/katydid/evidence.py guarantees to those who rely on it.
use mathlib.Core.List.{Memᴰ}
use katydid.Base.{
  Bool, Bool-cases, List, String, [], all, and-true-left, and-true-right, ap, arith, eq_iff,
  eq_refl, false, inl, inr, map, none, refl, some, subst, sym, true, ◌==◌, ◌∙◌, ◌∷◌, ◌≡◌,
}
use katydid.Evidence.Accepting.{distinct, evaluate_gate_lem, is_complete, meets, result_ids}
use katydid.Evidence.Gate.{evaluate_gate, expected, is_passing_evidence, is_test, is_zero, member}
use katydid.Evidence.Results.{CheckResult, PlannedCheck, is_passed}

-- A result that shows that the check has passed.
pub record IsShown (check : PlannedCheck) (results : List CheckResult) : Type 0 where
  pub result : CheckResult
  pub listed : Memᴰ result results
  pub of_check : result.id ≡ check.id
  pub has_passed : is_passed result.status ≡ true
  pub exit_zero : is_zero result.exit_code ≡ true
  pub tested : is_test check.kind ≡ true → is_passing_evidence result.evidence ≡ true

member-listed :
    (id : String) (results : List CheckResult)
    → member id (result_ids results) ≡ true
    → (r : CheckResult) × Memᴰ r results × (r.id ≡ id)
member-listed id [] h = cc h
member-listed id (result ∷ results) h = elim (Bool-cases (result.id == id)) [
  | inl same ↦ (result, Memᴰ.head refl, (eq_iff result.id id).0 same)
  | inr other ↦
      let (r, listed, named) = member-listed id results (ground arith) in
      (r, Memᴰ.tail listed, named)
]

all-listed :
    {A : Type 0} {x : A} {xs : List A} (p : A → Bool) → Memᴰ x xs → all p xs ≡ true → p x ≡ true
all-listed p (Memᴰ.head e) h = subst (λ y. p y ≡ true) (sym e) (and-true-left _ _ h)
all-listed p (Memᴰ.tail m) h = all-listed p m (and-true-right _ _ h)

expected-absent :
    (id : String) (checks : List PlannedCheck)
    → member id (map (λ c. c.id) checks) ≡ false
    → expected id checks ≡ none
unfolding expected
expected-absent id [] h = refl
expected-absent id (c ∷ cs) h = ground (arith, expected-absent id cs)

listed-member :
    (c : PlannedCheck) (checks : List PlannedCheck)
    → Memᴰ c checks
    → member c.id (map (λ x. x.id) checks) ≡ true
listed-member c [] m = elim m [ ]
listed-member c (x ∷ checks) (Memᴰ.head e) = rw (e, eq_refl x.id) refl
listed-member c (x ∷ checks) (Memᴰ.tail m) = ground (arith, listed-member c checks m)

-- Where the plan's identifiers are distinct, the dict has each of its checks.
expected-listed :
    (c : PlannedCheck) (checks : List PlannedCheck)
    → distinct (map (λ x. x.id) checks) ≡ true
    → Memᴰ c checks
    → expected c.id checks ≡ some c
unfolding expected
expected-listed c [] d m = elim m [ ]
expected-listed c (x ∷ checks) d (Memᴰ.head e) =
    subst (λ y. expected y.id (x ∷ checks) ≡ some y) (sym e)
      (let absent : member x.id (map (λ y. y.id) checks) ≡ false = ground arith in
        ground (arith, expected-absent x.id checks absent, eq_refl x.id))
expected-listed c (x ∷ checks) d (Memᴰ.tail m) =
    let rest : distinct (map (λ y. y.id) checks) ≡ true = ground arith in
    rw (expected-listed c checks rest m) refl

meets-IsShown :
    (check : PlannedCheck) (result : CheckResult) (results : List CheckResult)
    → check.required ≡ true
    → Memᴰ result results
    → result.id ≡ check.id
    → meets (some check) result ≡ true
    → IsShown check results
meets-IsShown check result results must listed named h = record {
  result = result;
  listed = listed;
  of_check = named;
  has_passed = ground arith;
  exit_zero = ground arith;
  tested = λ t. ground arith;
}

-- A passing gate is evidence for every required check: where the plan's identifiers are distinct
-- and the gate passes, each required check of the plan has a result among those given that passed
-- with exit code 0 and, for a test, with passing evidence of at least one executed test.
pub gate-IsShown :
    (checks : List PlannedCheck) (results : List CheckResult)
    → distinct (map (λ c. c.id) checks) ≡ true
    → (evaluate_gate checks results).passed ≡ true
    → (check : PlannedCheck) → Memᴰ check checks
    → check.required ≡ true
    → IsShown check results
gate-IsShown checks results d h check planned must =
    let complete : is_complete checks results ≡ true = sym (evaluate_gate_lem checks results) ∙ h in
    let met = and-true-right _ _ (and-true-left _ _ complete) in
    let present = and-true-right _ _ complete in
    let (result, listed, named) =
      member-listed check.id results
        (all-listed (λ c. member c.id (result_ids results)) planned present) in
    meets-IsShown check result results must listed named (
      subst (λ o. meets o result ≡ true)
        (ap (λ i. expected i checks) named ∙ expected-listed check checks d planned)
        (all-listed (λ r. meets (expected r.id checks) r) listed met))

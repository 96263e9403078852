-- ===== src/Evidence/Accepting.antt =====
-- When the gate of src/katydid/evidence.py passes.
use katydid.Base.{
  Bool, List, Option, String, [], all, any, ap, arith, eq_iff, false, if◌then◌else◌, is_nil,
  is_nil-append, is_nil-map, map, none, not, refl, some, true, ◌&&◌, ◌==◌, ◌||◌, ◌∙◌, ◌∷◌, ◌≡◌,
}
use katydid.Evidence.Gate.{
  Tally, evaluate_gate, expected, insert_text, is_passing_evidence, is_test, is_zero, judge,
  judge_all, mark_seen, member, missing_ids, passing_reasons, reason_if, sort_texts,
}
use katydid.Evidence.Results.{
  CheckResult, PlannedCheck, duplicate_result, is_passed, missing_result, no_required_checks,
  not_passed,
}
use katydid.Store.Rows.{ids}

-- What the plan asks of a result: it is expected, and it passed with evidence or is optional.
abbrev pub meets : Option PlannedCheck → CheckResult → Bool
meets none result = false
meets (some check) result =
    if is_passed result.status
    then is_zero result.exit_code
      && (not (is_test check.kind) || is_passing_evidence result.evidence)
    else not check.required

abbrev pub result_ids : List CheckResult → List String
result_ids results = map (λ r. r.id) results

abbrev pub distinct : List String → Bool
distinct [] = true
distinct (id ∷ ids) = not (member id ids) && distinct ids

-- The contract of the gate: the plan has a required check, no two results have one identifier,
-- every result meets what the plan asks of it, and every planned check has a result.
abbrev pub is_complete : List PlannedCheck → List CheckResult → Bool
is_complete checks results =
    any (λ c. c.required) checks
    && distinct (result_ids results)
    && all (λ r. meets (expected r.id checks) r) results
    && all (λ c. member c.id (result_ids results)) checks

passing_reasons-nil :
    (check : PlannedCheck) (result : CheckResult)
    → is_nil (passing_reasons check result) ≡ (
        is_zero result.exit_code
        && (not (is_test check.kind) || is_passing_evidence result.evidence))
unfolding passing_reasons
passing_reasons-nil check result = ground arith

judge-nil :
    (o : Option PlannedCheck) (result : CheckResult) (tally : Tally)
    → is_nil (judge o result tally).reasons ≡ (is_nil tally.reasons && meets o result)
unfolding judge
judge-nil none result tally = is_nil-append tally.reasons _
judge-nil (some check) result tally = ground (
  arith,
  is_nil-append tally.reasons (passing_reasons check result),
  passing_reasons-nil check result,
  is_nil-append tally.reasons (not_passed result.id result.status result.detail ∷ []),
)

judge-seen :
    (o : Option PlannedCheck) (result : CheckResult) (tally : Tally)
    → (judge o result tally).seen ≡ tally.seen
unfolding judge
judge-seen none result tally = refl
judge-seen (some check) result tally = ground arith

mark_seen-nil :
    (result : CheckResult) (tally : Tally)
    → is_nil (mark_seen result tally).reasons
      ≡ (is_nil tally.reasons && not (member result.id tally.seen))
unfolding mark_seen
mark_seen-nil result tally = ground (
  arith,
  is_nil-append tally.reasons
      (reason_if (member result.id tally.seen) (duplicate_result result.id)),
)

mark_seen-seen :
    (result : CheckResult) (tally : Tally) → (mark_seen result tally).seen ≡ result.id ∷ tally.seen
unfolding mark_seen
mark_seen-seen result tally = refl

-- No result has an identifier that was seen before.
abbrev unseen : List String → List CheckResult → Bool
unseen seen [] = true
unseen seen (result ∷ results) = not (member result.id seen) && unseen (result.id ∷ seen) results

judge_all-nil :
    (checks : List PlannedCheck) (results : List CheckResult) (tally : Tally)
    → is_nil (judge_all checks results tally).reasons ≡ (
        is_nil tally.reasons
        && unseen tally.seen results
        && all (λ r. meets (expected r.id checks) r) results)
unfolding judge_all
judge_all-nil checks [] tally = ground arith
judge_all-nil checks (result ∷ results) tally =
    let o = expected result.id checks in
    let marked = mark_seen result tally in
    ground (
      arith,
      judge_all-nil checks results (judge o result marked),
      judge-nil o result marked,
      judge-seen o result marked,
      mark_seen-seen result tally,
      mark_seen-nil result tally,
    )

judge_all-seen :
    (checks : List PlannedCheck) (results : List CheckResult) (tally : Tally) (id : String)
    → member id (judge_all checks results tally).seen
      ≡ (member id tally.seen || member id (result_ids results))
unfolding judge_all
judge_all-seen checks [] tally id = ground arith
judge_all-seen checks (result ∷ results) tally id =
    let o = expected result.id checks in
    let marked = mark_seen result tally in
    ground (
      arith,
      judge_all-seen checks results (judge o result marked) id,
      judge-seen o result marked,
      mark_seen-seen result tally,
    )

insert_text-nil : (s : String) (ts : List String) → is_nil (insert_text s ts) ≡ false
unfolding insert_text
insert_text-nil s [] = refl
insert_text-nil s (t ∷ ts) = ground arith

sort_texts-nil : (ts : List String) → is_nil (sort_texts ts) ≡ is_nil ts
unfolding sort_texts
sort_texts-nil [] = refl
sort_texts-nil (t ∷ ts) = insert_text-nil t (sort_texts ts)

missing-nil :
    (known : Bool) (id : String) (rest : List String)
    → is_nil (if known || member id rest then rest else id ∷ rest) ≡ (known && is_nil rest)
missing-nil known id [] = ground arith
missing-nil known id (r ∷ rs) = ground arith

missing_ids-nil :
    (checks : List PlannedCheck) (seen : List String)
    → is_nil (missing_ids checks seen) ≡ all (λ c. member c.id seen) checks
unfolding missing_ids
missing_ids-nil [] seen = refl
missing_ids-nil (check ∷ checks) seen =
    missing-nil (member check.id seen) check.id (missing_ids checks seen)
    ∙ ap (λ b. member check.id seen && b) (missing_ids-nil checks seen)

member-sym : (a b : String) → (a == b) ≡ (b == a)
member-sym a b = ground (arith, eq_iff a b, eq_iff b a)

-- No result has one of the identifiers.
abbrev apart : List String → List CheckResult → Bool
apart seen results = all (λ r. not (member r.id seen)) results

apart-cons :
    (id : String) (seen : List String) (results : List CheckResult)
    → apart (id ∷ seen) results ≡ (apart seen results && not (member id (result_ids results)))
apart-cons id seen [] = refl
apart-cons id seen (result ∷ results) =
    ground (arith, apart-cons id seen results, member-sym id result.id)

unseen-distinct :
    (seen : List String) (results : List CheckResult)
    → unseen seen results ≡ (apart seen results && distinct (result_ids results))
unseen-distinct seen [] = refl
unseen-distinct seen (result ∷ results) =
    ground (arith, unseen-distinct (result.id ∷ seen) results, apart-cons result.id seen results)

apart-nil : (results : List CheckResult) → apart [] results ≡ true
apart-nil [] = refl
apart-nil (result ∷ results) = apart-nil results

all-ext :
    (p q : PlannedCheck → Bool) (checks : List PlannedCheck)
    → ((c : PlannedCheck) → p c ≡ q c)
    → all p checks ≡ all q checks
all-ext p q [] h = refl
all-ext p q (c ∷ cs) h = rw (h c, all-ext p q cs h) refl

required-nil : (b : Bool) → is_nil (reason_if (not b) no_required_checks) ≡ b
required-nil b = ground arith

-- The gate passes exactly when the plan has a required check, no two results have one identifier,
-- every result is expected and either passed, with exit code 0 and for a test with passing
-- evidence, or is of an optional check, and every planned check has a result.
pub evaluate_gate_lem :
    (checks : List PlannedCheck) (results : List CheckResult)
    → (evaluate_gate checks results).passed ≡ is_complete checks results
unfolding evaluate_gate
evaluate_gate_lem checks results =
    let start : Tally = record {
      seen = [];
      reasons = reason_if (not (any (λ c. c.required) checks)) no_required_checks;
      advisories = [];
    } in
    let tally = judge_all checks results start in
    let missing = sort_texts (missing_ids checks tally.seen) in
    ground (
      arith,
      is_nil-append tally.reasons (map missing_result missing),
      is_nil-map missing_result missing,
      sort_texts-nil (missing_ids checks tally.seen),
      missing_ids-nil checks tally.seen,
      all-ext (λ c. member c.id tally.seen) (λ c. member c.id (result_ids results)) checks
          (λ c. judge_all-seen checks results start c.id),
      judge_all-nil checks results start,
      unseen-distinct [] results,
      apart-nil results,
      required-nil (any (λ c. c.required) checks),
    )

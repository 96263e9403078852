-- ===== src/Environment/Readiness.antt =====
-- What `prepare` of src/katydid/environment.py guarantees when it returns True, and the loop over
-- its hooks.
use katydid.Base.{
  Bool, Exception, List, Option, Triple, Triple-before, Triple-bind, Triple-if, Triple-modify,
  Triple-pure, Triple-then, Triple-weaken, [], all, arith, false, length, length-append, none, refl,
  some, true, ℕ, ◌&&◌, ◌++◌, ◌+◌, ◌∙◌, ◌∷◌, ◌≡◌, ◌≤◌,
}
use katydid.Environment.Prepare.{add_prepared, prepare_hooks}
use katydid.Environment.Rules.{Triple-changed, Triple-invoke}
use katydid.Environment.Session.{
  Phase, PlannedEnvironment, PlannedReadiness, Session, World, preparing,
}
use katydid.Evidence.Results.{CheckResult, PlannedCheck, is_passed}

abbrev pub all_passed : List CheckResult → Bool
all_passed results = all (λ r. is_passed r.status) results

-- The newest probe has passed.
abbrev pub ends_passed : List CheckResult → Bool
ends_passed [] = false
ends_passed (r ∷ []) = is_passed r.status
ends_passed (r ∷ rs) = ends_passed rs

abbrev pub WithinAttempts : Option PlannedReadiness → ℕ → Type 0
WithinAttempts none n = n ≡ 0
WithinAttempts (some plan) n = n ≤ plan.max_attempts

abbrev pub Answers : Option PlannedReadiness → List CheckResult → Type 0
Answers none probes = Unit
Answers (some plan) probes = ends_passed probes ≡ true

pub record IsReady (plan : PlannedEnvironment) (s : Session) : Type 0 where
  pub is_started : s.started ≡ true
  pub is_ready : s.ready ≡ true
  pub at_ready : s.phase ≡ Phase.ready
  pub all_prepared : length s.prepared ≡ length plan.prepare
  pub prepare_passed : all_passed s.prepared ≡ true
  pub answered : Answers plan.readiness s.probes
  pub within : WithinAttempts plan.readiness (length s.probes)

-- What holds from the first hook on.
abbrev pub Underway : ℕ → Session → Type 0
Underway n s = (s.started ≡ true) × (length s.prepared ≡ n) × (all_passed s.prepared ≡ true)

pub ends_passed-append :
    (rs : List CheckResult) (r : CheckResult) → ends_passed (rs ++ r ∷ []) ≡ is_passed r.status
ends_passed-append [] r = refl
ends_passed-append (q ∷ []) r = refl
ends_passed-append (q ∷ p ∷ rs) r = ends_passed-append (p ∷ rs) r

pub all_passed-append :
    (rs : List CheckResult) (r : CheckResult)
    → all_passed (rs ++ r ∷ []) ≡ (all_passed rs && is_passed r.status)
all_passed-append [] r = ground arith
all_passed-append (q ∷ rs) r = ground (arith, all_passed-append rs r)

abbrev pub Nothing : Exception → Session → Type 0
Nothing e s = Unit

module _ (world : World) where
  pub prepare_hooks-Triple :
      (checks : List PlannedCheck) (index n : ℕ)
      → Triple
          (λ s. Underway n s × (s.probes ≡ []))
          (prepare_hooks world checks index)
          (λ done s. done ≡ true → Underway (n + length checks) s × (s.probes ≡ []))
          Nothing
  unfolding prepare_hooks add_prepared
  prepare_hooks-Triple [] index n =
      Triple-pure true (λ s ((st, l, p), q) e. ((st, omega arith, p), q))
  prepare_hooks-Triple (check ∷ checks) index n =
      Triple-bind (λ result s. Underway n s × (s.probes ≡ []))
        (Triple-invoke world preparing index check (λ result s h. h) (λ e s h. tt))
        λ result.
          Triple-then (λ s. is_passed result.status ≡ true → Underway (n + 1) s × (s.probes ≡ []))
            (Triple-modify _ (λ s ((st, l, p), q) good. (
              (
                st,
                omega (arith, length-append {0} s.prepared (result ∷ [])),
                all_passed-append s.prepared result ∙ ground arith,
              ),
              q,
            )))
            λ _.
              Triple-then
                (λ s. is_passed result.status ≡ true → Underway (n + 1) s × (s.probes ≡ []))
                (Triple-changed world (λ s h. h) (λ e s h. tt))
                λ _.
                  Triple-if (is_passed result.status)
                    (λ good.
                      Triple-before (λ s h. h good)
                        (Triple-weaken
                          (λ done s h e. let ((st, l, p), q) = h e in ((st, omega arith, p), q))
                          (λ e s h. h) (prepare_hooks-Triple checks (index + 1) (n + 1))))
                    λ _. Triple-pure false (λ s h e. cc e)

-- ===== src/Environment/Probing.antt =====
-- The loop of probes of src/katydid/environment.py.
use katydid.Base.{
  Bool, Exec, Triple, Triple-before, Triple-bind, Triple-gets, Triple-if, Triple-modify,
  Triple-pure, Triple-raise, Triple-then, [], arith, false, length, length-append, ltb, not,
  out_of_fuel, pure, suc, true, zero, ℕ, ◌+◌, ◌||◌, ◌∙◌, ◌∷◌, ◌≡◌, ◌≤◌,
}
use katydid.Environment.Prepare.{
  Probing, add_probe, delay, exhausted, fail, found, is_final, judge_probe, or_stopped, probe,
  probes_loop, stopped,
}
use katydid.Environment.Readiness.{Nothing, Underway, ends_passed, ends_passed-append}
use katydid.Environment.Rules.{Triple-ask, Triple-changed, Triple-invoke}
use katydid.Environment.Session.{PlannedReadiness, Session, World, is_cancelled, set_cancel}
use katydid.Evidence.Results.{CheckResult, is_passed}

module _ (world : World) where
  -- A delay changes nothing but the event and the number of questions.
  delay-keeps :
      {K : Session → Type 0}
      → ((s : Session) (c : Bool) (n : ℕ) → K s → K (record s { cancel = c; asked = n }))
      → (fuel retry_at : ℕ) → Triple K (delay world fuel retry_at) (λ _. K) Nothing
  unfolding delay set_cancel
  delay-keeps k zero retry_at = Triple-raise out_of_fuel (λ s h. tt)
  delay-keeps {K} k (suc fuel) retry_at =
      Triple-bind (λ now. K) (Triple-ask _ (λ s h. k s s.cancel (s.asked + 1) h))
        λ now.
          Triple-if (not (ltb now retry_at)) (λ _. Triple-pure false (λ s h. h))
            λ _.
              Triple-bind (λ own. K) (Triple-gets _ (λ s h. h))
                λ own.
                  Triple-bind (λ later. K) (Triple-ask _ (λ s h. k s s.cancel (s.asked + 1) h))
                    λ later.
                      Triple-bind (λ woken. K) (Triple-ask _ (λ s h. k s s.cancel (s.asked + 1) h))
                        λ woken.
                          Triple-if (own || woken) (λ _. Triple-pure true (λ s h. h))
                            λ _.
                              Triple-bind (λ there. K)
                                (Triple-ask _ (λ s h. k s s.cancel (s.asked + 1) h))
                                λ there.
                                  Triple-if there
                                    (λ _.
                                      Triple-then K (Triple-modify _ (λ s h. k s true s.asked h))
                                        λ _. Triple-pure true (λ s h. h))
                                    λ _. delay-keeps k fuel retry_at

  pub is_cancelled-keeps :
      {K : Session → Type 0}
      → ((s : Session) (c : Bool) (n : ℕ) → K s → K (record s { cancel = c; asked = n }))
      → Triple K (is_cancelled world) (λ _. K) Nothing
  unfolding is_cancelled
  is_cancelled-keeps {K} k =
      Triple-bind (λ own. K) (Triple-gets _ (λ s h. h))
        λ own.
          Triple-bind (λ others. K) (Triple-ask _ (λ s h. k s s.cancel (s.asked + 1) h))
            λ others.
              Triple-if (own || others) (λ _. Triple-pure true (λ s h. h))
                λ _. Triple-ask _ (λ s h. k s s.cancel (s.asked + 1) h)

  pub set_cancel-keeps :
      {K : Session → Type 0}
      → ((s : Session) (c : Bool) (n : ℕ) → K s → K (record s { cancel = c; asked = n }))
      → Triple K (set_cancel world) (λ _. K) Nothing
  unfolding set_cancel
  set_cancel-keeps k = Triple-modify _ (λ s h. k s true s.asked h)

  module _ (plan : PlannedReadiness) (deadline n : ℕ) where
    -- Between two probes, with so many attempts left.
    abbrev pub Between : ℕ → Session → Type 0
    Between left s = Underway n s × (length s.probes + left ≤ plan.max_attempts)

    abbrev pub Probed : Probing → Session → Type 0
    Probed how s =
        Underway n s
        × (length s.probes ≤ plan.max_attempts)
        × (how ≡ found → ends_passed s.probes ≡ true)

    Between-closed :
        (left : ℕ) (s : Session) (c : Bool) (k : ℕ)
        → Between left s
        → Between left (record s { cancel = c; asked = k })
    Between-closed left s c k h = h

    stopped-Probed : (left : ℕ) → Triple (Between left) (pure stopped) Probed Nothing
    stopped-Probed left = Triple-pure stopped (λ s (u, b). (u, omega arith, λ e. cc e))

    exhausted-Probed : (left : ℕ) → Triple (Between left) (pure exhausted) Probed Nothing
    exhausted-Probed left = Triple-pure exhausted (λ s (u, b). (u, omega arith, λ e. cc e))

    judge_probe-Triple :
        (left : ℕ) (result : CheckResult) (next : Exec Session Probing)
        → Triple (Between left) next Probed Nothing
        → Triple
            (λ s. Between left s × (ends_passed s.probes ≡ is_passed result.status))
            (judge_probe world plan deadline result next)
            Probed
            Nothing
    unfolding judge_probe fail
    judge_probe-Triple left result next h =
        Triple-if (is_passed result.status)
          (λ good.
            Triple-bind
              (λ late s. Between left s × (ends_passed s.probes ≡ is_passed result.status))
              (Triple-ask _ (λ s p. p))
              λ late.
                Triple-if (ltb deadline late)
                  (λ _.
                    Triple-then (Between left) (Triple-modify _ (λ s p. p.0))
                      λ _. stopped-Probed left)
                  λ _. Triple-pure found (λ s ((u, b), e). (u, omega arith, λ _. e ∙ good)))
          λ _.
            Triple-if (is_final result.status)
              (λ _. Triple-before (λ s p. p.0) (stopped-Probed left))
              λ _.
                Triple-bind (λ now. Between left) (Triple-ask _ (λ s p. p.0))
                  λ now.
                    Triple-bind (λ ended. Between left) (delay-keeps (Between-closed left) _ _)
                      λ ended. ended_next ended
      where
        ended_next :
            (ended : Bool)
            → Triple (Between left) (or_stopped world plan deadline next ended) Probed Nothing
        ended_next true = stopped-Probed left
        ended_next false = h

    probe-Triple :
        (left : ℕ) (next : Exec Session Probing)
        → Triple (Between left) next Probed Nothing
        → Triple (Between (suc left)) (probe world plan deadline next) Probed Nothing
    unfolding probe add_probe
    probe-Triple left next h =
        Triple-bind (λ stop. Between (suc left)) (is_cancelled-keeps (Between-closed (suc left)))
          λ stop.
            Triple-if stop
              (λ _.
                Triple-then (Between (suc left)) (set_cancel-keeps (Between-closed (suc left)))
                  λ _. stopped-Probed (suc left))
              λ _.
                Triple-bind (λ now. Between (suc left)) (Triple-ask _ (λ s p. p))
                  λ now.
                    Triple-bind (λ index. Between (suc left)) (Triple-gets _ (λ s p. p))
                      λ index.
                        Triple-bind (λ result. Between (suc left))
                          (Triple-invoke world _ _ _ (λ r s p. p) (λ e s p. tt))
                          λ result.
                            Triple-then
                              (λ s.
                                Between left s × (ends_passed s.probes ≡ is_passed result.status))
                              (Triple-modify _ (λ s (u, b). (
                                (u, omega (arith, length-append {0} s.probes (result ∷ []))),
                                ends_passed-append s.probes result,
                              )))
                              λ _.
                                Triple-then
                                  (λ s.
                                    Between left s
                                    × (ends_passed s.probes ≡ is_passed result.status))
                                  (Triple-changed world (λ s p. p) (λ e s p. tt))
                                  λ _. judge_probe-Triple left result next h

    pub probes_loop-Triple :
        (left : ℕ) → Triple (Between left) (probes_loop world plan deadline left) Probed Nothing
    unfolding probes_loop
    probes_loop-Triple zero =
        Triple-bind (λ now. Between 0) (Triple-ask _ (λ s p. p)) λ now. exhausted-Probed 0
    probes_loop-Triple (suc left) =
        Triple-bind (λ now. Between (suc left)) (Triple-ask _ (λ s p. p))
          λ now.
            Triple-if (ltb now deadline) (λ _. probe-Triple left _ (probes_loop-Triple left))
              λ _. exhausted-Probed (suc left)

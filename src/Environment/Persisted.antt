-- ===== src/Environment/Persisted.antt =====
-- The session of src/katydid/environment.py writes down that it has started before it runs a hook.
use katydid.Base.{
  Bool, Exception, Exec, List, Option, Triple, Triple-bind, Triple-gets, Triple-if, Triple-modify,
  Triple-pure, Triple-raise, Triple-then, Triple-weaken, [], any, ap, arith, false, ltb, none, not,
  out_of_fuel, pure, refl, some, suc, true, zero, ℕ, ◌&&◌, ◌*◌, ◌+◌, ◌>>◌, ◌||◌, ◌∷◌, ◌≡◌,
}
use katydid.Environment.Prepare.{
  Probing, add_prepared, add_probe, become_ready, begin, delay, exhausted, fail, found, is_final,
  judge_probe, or_stopped, prepare, prepare_hooks, probe, probed, probes_loop, stopped, wait_ready,
}
use katydid.Environment.Rules.{Triple-ask, Triple-changed, Triple-invoke}
use katydid.Environment.Session.{
  Entry, EnvironmentResult, Phase, PlannedEnvironment, PlannedReadiness, Session, World, ask,
  changed, checkpoint, hook, invoke, is_cancelled, preparing, set_cancel, set_phase, snapshot,
}
use katydid.Evidence.Results.{CheckResult, PlannedCheck, is_passed}

abbrev tells_start : Entry → Bool
tells_start (checkpoint r) = r.started
tells_start (hook phase index check) = false

-- Before every hook there is a checkpoint that tells the start; the newest entry comes first.
abbrev pub is_persisted : List Entry → Bool
is_persisted [] = true
is_persisted (checkpoint r ∷ log) = is_persisted log
is_persisted (hook phase index check ∷ log) = any tells_start log && is_persisted log

abbrev InLog : Session → Type 0
InLog s = (any tells_start s.log ≡ true) × (is_persisted s.log ≡ true)

abbrev Raised : Exception → Session → Type 0
Raised e s = is_persisted s.log ≡ true

with_checkpoint :
    (r : EnvironmentResult) (s : Session) → InLog s → any tells_start (checkpoint r ∷ s.log) ≡ true
with_checkpoint r s h = ground arith

module _ (world : World) where
  changed-InLog : Triple InLog (changed world) (λ _. InLog) Raised
  changed-InLog =
      Triple-changed world (λ s h. (with_checkpoint (snapshot s) s h, h.1)) (λ e s h. h.1)

  invoke-InLog :
      (phase : Phase) (index : ℕ) (check : PlannedCheck)
      → Triple InLog (invoke world phase index check) (λ _. InLog) Raised
  invoke-InLog phase index check =
      Triple-invoke world phase index check (λ r s h. ground arith) (λ e s h. ground arith)

  prepare_hooks-InLog :
      (checks : List PlannedCheck) (index : ℕ)
      → Triple InLog (prepare_hooks world checks index) (λ _. InLog) Raised
  unfolding prepare_hooks add_prepared
  prepare_hooks-InLog [] index = Triple-pure true (λ s h. h)
  prepare_hooks-InLog (check ∷ checks) index =
      Triple-bind (λ r. InLog) (invoke-InLog preparing index check)
        λ r. Triple-then InLog (Triple-modify _ (λ s h. h)) λ _.
          Triple-then InLog changed-InLog λ _.
            Triple-if (is_passed r.status) (λ _. prepare_hooks-InLog checks (index + 1))
              λ _. Triple-pure false (λ s h. h)

  ask-InLog : {A : Type 0} (f : ℕ → A) → Triple InLog (ask f) (λ _. InLog) Raised
  ask-InLog f = Triple-ask f (λ s h. h)

  set_cancel-InLog : Triple InLog (set_cancel world) (λ _. InLog) Raised
  unfolding set_cancel
  set_cancel-InLog = Triple-modify _ (λ s h. h)

  is_cancelled-InLog : Triple InLog (is_cancelled world) (λ _. InLog) Raised
  unfolding is_cancelled
  is_cancelled-InLog =
      Triple-bind (λ own. InLog) (Triple-gets _ (λ s h. h))
        λ own.
          Triple-bind (λ others. InLog) (ask-InLog _)
            λ others. Triple-if (own || others) (λ _. Triple-pure true (λ s h. h)) λ _. ask-InLog _

  delay-InLog : (fuel retry_at : ℕ) → Triple InLog (delay world fuel retry_at) (λ _. InLog) Raised
  unfolding delay
  delay-InLog zero retry_at = Triple-raise out_of_fuel (λ s h. h.1)
  delay-InLog (suc fuel) retry_at =
      Triple-bind (λ now. InLog) (ask-InLog _)
        λ now.
          Triple-if (not (ltb now retry_at)) (λ _. Triple-pure false (λ s h. h))
            λ _.
              Triple-bind (λ own. InLog) (Triple-gets _ (λ s h. h))
                λ own.
                  Triple-bind (λ later. InLog) (ask-InLog _)
                    λ later.
                      Triple-bind (λ woken. InLog) (ask-InLog _)
                        λ woken.
                          Triple-if (own || woken) (λ _. Triple-pure true (λ s h. h))
                            λ _.
                              Triple-bind (λ there. InLog) (ask-InLog _)
                                λ there.
                                  Triple-if there
                                    (λ _.
                                      Triple-then InLog set_cancel-InLog
                                        λ _. Triple-pure true (λ s h. h))
                                    λ _. delay-InLog fuel retry_at

  module _ (plan : PlannedReadiness) (deadline : ℕ) where
    judge_probe-InLog :
        (result : CheckResult) (next : Exec Session Probing)
        → Triple InLog next (λ _. InLog) Raised
        → Triple InLog (judge_probe world plan deadline result next) (λ _. InLog) Raised
    unfolding judge_probe fail
    judge_probe-InLog result next h =
        Triple-if (is_passed result.status)
          (λ _.
            Triple-bind (λ late. InLog) (ask-InLog _)
              λ late.
                Triple-if (ltb deadline late)
                  (λ _.
                    Triple-then InLog (Triple-modify _ (λ s p. p))
                      λ _. Triple-pure stopped (λ s p. p))
                  λ _. Triple-pure found (λ s p. p))
          λ _.
            Triple-if (is_final result.status) (λ _. Triple-pure stopped (λ s p. p))
              λ _.
                Triple-bind (λ now. InLog) (ask-InLog _)
                  λ now. Triple-bind (λ ended. InLog) (delay-InLog _ _) λ ended. ended_next ended
      where
        ended_next :
            (ended : Bool)
            → Triple InLog (or_stopped world plan deadline next ended) (λ _. InLog) Raised
        ended_next true = Triple-pure stopped (λ s p. p)
        ended_next false = h

    probes_loop-InLog :
        (left : ℕ) → Triple InLog (probes_loop world plan deadline left) (λ _. InLog) Raised
    unfolding probes_loop probe add_probe
    probes_loop-InLog zero =
        Triple-bind (λ now. InLog) (ask-InLog _) λ now. Triple-pure exhausted (λ s p. p)
    probes_loop-InLog (suc left) =
        Triple-bind (λ now. InLog) (ask-InLog _)
          λ now.
            Triple-if (ltb now deadline)
              (λ _.
                Triple-bind (λ stop. InLog) is_cancelled-InLog
                  λ stop.
                    Triple-if stop
                      (λ _. Triple-then InLog set_cancel-InLog λ _. Triple-pure stopped (λ s p. p))
                      λ _.
                        Triple-bind (λ now. InLog) (ask-InLog _)
                          λ now.
                            Triple-bind (λ index. InLog) (Triple-gets _ (λ s p. p))
                              λ index.
                                Triple-bind (λ result. InLog) (invoke-InLog _ _ _)
                                  λ result. Triple-then InLog (Triple-modify _ (λ s p. p)) λ _.
                                    Triple-then InLog changed-InLog
                                      λ _. judge_probe-InLog result _ (probes_loop-InLog left))
              λ _. Triple-pure exhausted (λ s p. p)

    probed-InLog :
        (how : Probing) → Triple InLog (probed world plan deadline how) (λ _. InLog) Raised
    unfolding fail probed
    probed-InLog found = Triple-pure true (λ s p. p)
    probed-InLog stopped = Triple-pure false (λ s p. p)
    probed-InLog exhausted =
        Triple-bind (λ probes. InLog) (Triple-gets _ (λ s h. h))
          λ probes. Triple-then InLog (Triple-modify _ (λ s h. h)) λ _. Triple-pure false (λ s h. h)

  wait_ready-InLog :
      (plan : Option PlannedReadiness) → Triple InLog (wait_ready world plan) (λ _. InLog) Raised
  unfolding wait_ready set_phase
  wait_ready-InLog none = Triple-pure true (λ s h. h)
  wait_ready-InLog (some plan) = Triple-then InLog (Triple-modify _ (λ s h. h)) λ _.
      Triple-then InLog changed-InLog λ _.
        Triple-bind (λ start. InLog) (ask-InLog _)
          λ start.
            Triple-bind (λ probes. InLog) (Triple-gets _ (λ s h. h))
              λ probes.
                Triple-bind (λ how. InLog)
                  (probes_loop-InLog plan (start + plan.timeout_seconds * 1000000) _)
                  λ how. probed-InLog plan (start + plan.timeout_seconds * 1000000) how

  become_ready-InLog : Triple InLog (become_ready world) (λ _. InLog) Raised
  unfolding become_ready
  become_ready-InLog =
      Triple-bind (λ stop. InLog) is_cancelled-InLog
        λ stop.
          Triple-if stop (λ _. Triple-then InLog set_cancel-InLog λ _. Triple-pure false (λ s h. h))
            λ _.
              Triple-then InLog (Triple-modify _ (λ s h. h))
                λ _. Triple-then InLog changed-InLog λ _. Triple-pure true (λ s h. h)

  is_cancelled-quiet : Triple (λ s. s.log ≡ []) (is_cancelled world) (λ _ s. s.log ≡ []) (λ _ _. ⊥)
  unfolding is_cancelled
  is_cancelled-quiet =
      Triple-bind (λ own s. s.log ≡ []) (Triple-gets _ (λ s h. h))
        λ own.
          Triple-bind (λ others s. s.log ≡ []) (Triple-ask _ (λ s h. h))
            λ others.
              Triple-if (own || others) (λ _. Triple-pure true (λ s h. h))
                λ _. Triple-ask _ (λ s h. h)

  -- No hook runs before the start is on record: from a session that has run nothing, however
  -- `prepare` ends, each hook that it ran came after a checkpoint that tells the start.
  pub prepare-IsPersisted :
      (plan : PlannedEnvironment)
      → Triple
          (λ s. s.log ≡ [])
          (prepare world plan)
          (λ _ s. is_persisted s.log ≡ true)
          (λ _ s. is_persisted s.log ≡ true)
  unfolding prepare begin snapshot set_cancel set_phase
  prepare-IsPersisted plan =
      Triple-bind (λ stop s. s.log ≡ []) quiet
        λ stop.
          Triple-if stop (λ _. cancelled_path)
            λ _.
              Triple-then (λ s. (s.log ≡ []) × (s.started ≡ true))
                (Triple-modify _ (λ s h. (h, refl)))
                λ _.
                  Triple-then InLog
                    (Triple-changed world (λ s (h, st). first s h st)
                      (λ e s (h, st). ap is_persisted h))
                    λ _.
                      Triple-bind (λ done. InLog) (prepare_hooks-InLog plan.prepare 0)
                        λ done.
                          Triple-if (not done) (λ _. Triple-pure false (λ s h. h.1))
                            λ _.
                              Triple-bind (λ ok. InLog) (wait_ready-InLog plan.readiness)
                                λ ok.
                                  Triple-if (not ok) (λ _. Triple-pure false (λ s h. h.1))
                                    λ _.
                                      Triple-weaken (λ a s h. h.1) (λ e s h. h) become_ready-InLog
    where
      quiet : Triple (λ s. s.log ≡ []) (is_cancelled world) (λ _ s. s.log ≡ []) Raised
      quiet = Triple-weaken (λ a s h. h) (λ e s h. absurd h) (is_cancelled-quiet)

      first :
          (s : Session)
          → s.log ≡ []
          → s.started ≡ true
          → InLog (record s { asked = s.asked + 1; log = checkpoint (snapshot s) ∷ s.log })
      first s h st = (ground arith, ap is_persisted h)

      cancelled_path :
          Triple
            (λ s. s.log ≡ [])
            (set_cancel world >> (set_phase world Phase.cancelled >> (changed world >> pure false)))
            (λ _ s. is_persisted s.log ≡ true)
            Raised
      cancelled_path =
          Triple-then (λ s. s.log ≡ []) (Triple-modify _ (λ s h. h))
            λ _.
              Triple-then (λ s. s.log ≡ []) (Triple-modify _ (λ s h. h))
                λ _.
                  Triple-then (λ s. is_persisted s.log ≡ true)
                    (Triple-changed world (λ s h. ap is_persisted h) (λ e s h. ap is_persisted h))
                    λ _. Triple-pure false (λ s h. h)

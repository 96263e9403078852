-- ===== src/Environment/Disposal.antt =====
-- The cleanup of src/katydid/environment.py runs every hook.
use katydid.Base.{
  Caught, Exception, List, Option, Result, Triple, Triple-attempt, Triple-bind, Triple-gets,
  Triple-if, Triple-modify, Triple-pure, Triple-raise, Triple-then, Triple-weaken, [], all, ap,
  append-nil, append_assoc, arith, err, inl, inr, none, not, ok, refl, some, subst, sym, true, ℕ,
  ◌++◌, ◌+◌, ◌∙◌, ◌∷◌, ◌≡◌, ◌⊎◌,
}
use katydid.Environment.Cleanup.{
  cleanup, cleanup_hooks, executed, finish_cleanup, noted, persist, raise_if,
}
use katydid.Environment.Rules.{Triple-changed_by, Triple-invoke_by}
use katydid.Environment.Session.{
  Entry, PlannedEnvironment, Session, SessionError, World, checkpoint, checkpoint_failed, cleaning,
  finished, hook, snapshot,
}
use katydid.Evidence.Results.{CheckResult, PlannedCheck, Status, is_passed}

-- The hooks that were run, oldest first.
abbrev pub ran : List Entry → List PlannedCheck
ran [] = []
ran (checkpoint r ∷ log) = ran log
ran (hook phase index check ∷ log) = ran log ++ check ∷ []

-- The result of a hook is the one that running it has returned, or an error where that has raised.
abbrev pub IsResultOf : World → PlannedCheck → CheckResult → Type 0
IsResultOf world check r =
    ((n : ℕ) × (world.execute n check ≡ ok r))
    ⊎ ((n : ℕ) × (e : Exception) × (world.execute n check ≡ err e) × (r.status ≡ Status.error))

-- A result for each hook, in order.
pub data AreResults (world : World) : List PlannedCheck → List CheckResult → Type 0 where
  no_results : AreResults world [] []
  and_result :
      (check : PlannedCheck) (checks : List PlannedCheck) (r : CheckResult)
      (results : List CheckResult)
      → AreResults world checks results
      → IsResultOf world check r
      → AreResults world (checks ++ check ∷ []) (results ++ r ∷ [])

-- The exception is one that writing a checkpoint has raised.
abbrev pub OfCheckpoint : World → Exception → Type 0
OfCheckpoint world e = (n : ℕ) × (world.write n ≡ some e)

-- What `cleanup` has done when it ends, where it began with the hooks `before`.
pub record IsDisposed (world : World) (before checks : List PlannedCheck) (s : Session)
    : Type 0 where
  pub all_run : ran s.log ≡ before ++ checks
  pub results : AreResults world checks s.cleaned
  pub complete : s.cleanup_complete ≡ all (λ r. is_passed r.status) s.cleaned
  pub at_end : s.phase ≡ finished

module _ (world : World) where
  -- What the cleanup remembers was raised by a checkpoint.
  abbrev Remembered : Option Exception → Type 0
  Remembered none = Unit
  Remembered (some e) = OfCheckpoint world e

  -- While the hooks run: those of `past` have been run, those of `mine` by the cleanup.
  abbrev AfterHooks : (past mine : List PlannedCheck) → Session → Type 0
  AfterHooks past mine s = (ran s.log ≡ past) × AreResults world mine s.cleaned

  -- With what the cleanup remembers.
  abbrev With : (Session → Type 0) → Session → Type 0
  With P s = P s × Remembered s.checkpoint_error

  -- `persist` never raises, and changes none of what the cleanup is about.
  persist-Triple :
      {P Q : Session → Type 0} {E : Exception → Session → Type 0}
      → ((s : Session) (c : Option Exception) (e : Option SessionError) (log : List Entry) (n : ℕ)
          → ran log ≡ ran s.log
          → P s
          → Q (record s { checkpoint_error = c; error = e; log = log; asked = n }))
      → Triple (With P) (persist world) (λ _. With Q) E
  unfolding persist
  persist-Triple {P} {Q} h =
      Triple-bind
        (Caught (λ _. With Q)
          (λ e s.
            With Q (record s { checkpoint_error = some e; error = some (checkpoint_failed e) })))
        (Triple-attempt (
          Triple-changed_by world
            (λ s (p, c). (
              h s s.checkpoint_error s.error (checkpoint (snapshot s) ∷ s.log) (s.asked + 1) refl p,
              c,
            ))
            (λ e s w (p, c). (
              h s (some e) (some (checkpoint_failed e)) s.log (s.asked + 1) refl p,
              (s.asked, w),
            ))))
        λ r. noted_after r
    where
      noted_after :
          {E : Exception → Session → Type 0} (r : Result (Unit {0}))
          → Triple
              (Caught
                (λ _. With Q)
                (λ e s.
                  With Q
                    (record s { checkpoint_error = some e; error = some (checkpoint_failed e) }))
                r)
              (noted world r)
              (λ _. With Q)
              E
      noted_after (ok done) = Triple-pure tt (λ s q. q)
      noted_after (err e) = Triple-modify _ (λ s q. q)

  cleanup_hooks-Triple :
      {E : Exception → Session → Type 0} (checks past mine : List PlannedCheck) (index : ℕ)
      → Triple
          (With (AfterHooks past mine))
          (cleanup_hooks world checks index)
          (λ _. With (AfterHooks (past ++ checks) (mine ++ checks)))
          E
  unfolding cleanup_hooks
  cleanup_hooks-Triple [] past mine index =
      Triple-pure tt (λ s ((r, l), c). rw (append-nil, append-nil) ((r, l), c))
  cleanup_hooks-Triple (check ∷ checks) past mine index =
      Triple-bind
        (λ r s.
          With (AfterHooks (past ++ check ∷ []) mine) s
          × IsResultOf world check (executed world check r))
        (Triple-weaken (λ r s c. either r s c) (λ e s x. x)
          (Triple-attempt (
            Triple-invoke_by world cleaning index check
              (λ result s w ((r, l), c). (((ap (λ p. p ++ check ∷ []) r, l), c), inl (s.asked, w)))
              (λ e s w ((r, l), c).
                (((ap (λ p. p ++ check ∷ []) r, l), c), inr (s.asked, e, w, refl))))))
        λ r.
          Triple-then (With (AfterHooks (past ++ check ∷ []) (mine ++ check ∷ [])))
            (Triple-modify _
              (λ s (((h, l), c), result). ((h, and_result check mine _ s.cleaned l result), c)))
            λ _.
              Triple-then (With (AfterHooks (past ++ check ∷ []) (mine ++ check ∷ [])))
                (persist-Triple (λ s c e log k same (h, l). (same ∙ h, l)))
                λ _.
                  Triple-weaken
                    (λ a s ((h, l), c). (
                      (
                        h ∙ append_assoc past (check ∷ []) checks,
                        subst (λ cs. AreResults world cs s.cleaned)
                            (append_assoc mine (check ∷ []) checks) l,
                      ),
                      c,
                    ))
                    (λ e s x. x)
                    (cleanup_hooks-Triple checks (past ++ check ∷ []) (mine ++ check ∷ [])
                      (index + 1))
    where
      Post : Result CheckResult → Session → Type 0
      Post r s =
          With (AfterHooks (past ++ check ∷ []) mine) s
          × IsResultOf world check (executed world check r)

      either :
          (r : Result CheckResult) (s : Session)
          → Caught (λ a. Post (ok a)) (λ e. Post (err e)) r s
          → Post r s
      either (ok a) s h = h
      either (err e) s h = h

  -- The cleanup of an environment that was started runs every hook, in order and once, whatever a
  -- hook or a checkpoint raises: the results are those of the hooks, in their order, where one that
  -- raised has the status error, the session is complete exactly if all of them passed, and its
  -- phase is finished. It raises only what writing a checkpoint has raised.
  pub cleanup-IsDisposed :
      (plan : PlannedEnvironment) (before : List PlannedCheck)
      → Triple
          (λ s. (s.started ≡ true) × (s.cleaned ≡ []) × (ran s.log ≡ before))
          (cleanup world plan)
          (λ _ s. IsDisposed world before plan.cleanup s × (s.checkpoint_error ≡ none))
          (λ e s.
            IsDisposed world before plan.cleanup s
            × (s.checkpoint_error ≡ some e)
            × OfCheckpoint world e)
  unfolding cleanup finish_cleanup
  cleanup-IsDisposed plan before =
      Triple-bind (λ started s. (started ≡ true) × AfterHooks before [] s)
        (Triple-gets _
          (λ s (st, c, r). (st, (r, subst (λ rs. AreResults world [] rs) (sym c) no_results))))
        λ started.
          Triple-if (not started)
            (λ not_started. record { holds = λ s (st, h). absurd (ground arith) })
            λ _.
              Triple-then (With (AfterHooks before [])) (Triple-modify _ (λ s (st, h). (h, tt)))
                λ _.
                  Triple-then (With (AfterHooks before []))
                    (persist-Triple (λ s c e log k same (h, l). (same ∙ h, l)))
                    λ _.
                      Triple-then (With (AfterHooks (before ++ plan.cleanup) plan.cleanup))
                        (cleanup_hooks-Triple plan.cleanup before [] 0)
                        λ _.
                          Triple-then (With Disposed)
                            (Triple-modify _ (λ s ((h, l), c). (
                              record { all_run = h; results = l; complete = refl; at_end = refl },
                              c,
                            )))
                            λ _.
                              Triple-then (With Disposed)
                                (persist-Triple (λ s c e log k same d. record {
                                  all_run = same ∙ d.all_run;
                                  results = d.results;
                                  complete = d.complete;
                                  at_end = d.at_end;
                                }))
                                λ _.
                                  Triple-bind
                                    (λ o s. Disposed s × (s.checkpoint_error ≡ o) × Remembered o)
                                    (Triple-gets _ (λ s (d, c). (d, refl, c))) λ o. raised o
    where
      Disposed : Session → Type 0
      Disposed = IsDisposed world before plan.cleanup

      raised :
          (o : Option Exception)
          → Triple
              (λ s. Disposed s × (s.checkpoint_error ≡ o) × Remembered o)
              (raise_if world o)
              (λ _ s. Disposed s × (s.checkpoint_error ≡ none))
              (λ e s. Disposed s × (s.checkpoint_error ≡ some e) × OfCheckpoint world e)
      raised none = Triple-pure tt (λ s (d, e, c). (d, e))
      raised (some e) = Triple-raise e (λ s h. h)

-- ===== src/Environment/Cleanup.antt =====
-- `cleanup` of src/katydid/environment.py.
use katydid.Base.{
  Exception, Exec, List, Option, Result, [], all, attempt, concat, err, gets, if◌then◌else◌, modify,
  none, not, ok, pure, raise, some, true, ℕ, ◌++◌, ◌+◌, ◌>>=◌, ◌>>◌, ◌∷◌,
}
use katydid.Environment.Session.{
  PlannedEnvironment, Session, World, changed, checkpoint_failed, cleaning, finished, invoke,
}
use katydid.Evidence.Results.{CheckResult, PlannedCheck, Status, is_passed}

module _ (world : World) where
  abbrev pub noted : Result (Unit {0}) → Exec Session (Unit {0})
  noted (ok done) = pure tt
  noted (err e) =
      modify (λ s. record s { checkpoint_error = some e; error = some (checkpoint_failed e) })

  -- `persist`: a checkpoint that fails is remembered and does not stop the cleanup.
  unfoldable pub persist : Exec Session (Unit {0})
  persist = attempt (changed world) >>= noted

  -- The result of a hook, an error where it could not be executed.
  abbrev pub executed : PlannedCheck → Result CheckResult → CheckResult
  executed check (ok result) = result
  executed check (err e) = record {
    id = check.id;
    status = Status.error;
    detail = concat ("Cleanup could not execute: " ∷ world.describe e ∷ []);
    exit_code = none;
    duration_seconds = 0;
    evidence = none;
  }

  unfoldable pub cleanup_hooks : List PlannedCheck → ℕ → Exec Session (Unit {0})
  cleanup_hooks [] index = pure tt
  cleanup_hooks (check ∷ checks) index = do
    r ← attempt (invoke world cleaning index check)
    modify (λ s. record s { cleaned = s.cleaned ++ executed check r ∷ [] })
    persist
    cleanup_hooks checks (index + 1)

  abbrev pub raise_if : Option Exception → Exec Session (Unit {0})
  raise_if none = pure tt
  raise_if (some e) = raise e

  unfoldable pub finish_cleanup : Exec Session (Unit {0})
  finish_cleanup = do
    modify (λ s. record s {
      cleanup_complete = all (λ r. is_passed r.status) s.cleaned;
      phase = finished;
    })
    persist
    noticed ← gets (λ s. s.checkpoint_error)
    raise_if noticed

  unfoldable pub cleanup : PlannedEnvironment → Exec Session (Unit {0})
  cleanup plan = do
    started ← gets (λ s. s.started)
    if not started
        then (do modify (λ s. record s { cleanup_complete = true }); changed world)
        else (do
          modify (λ s. record s { phase = cleaning; checkpoint_error = none })
          persist
          cleanup_hooks plan.cleanup 0
          finish_cleanup)

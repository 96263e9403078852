-- ===== src/Environment/Tests.antt =====
-- An environment of one hook, one probe and two cleanups, in worlds that answer by a table.
use katydid.Base.{
  String, Triple, [], arith, attempt, err, false, length, ltb, none, ok, os_error, pos, refl, some,
  true, ◌*◌, ◌+◌, ◌>>=◌, ◌∷◌, ◌≡◌,
}
use katydid.Environment.Cleanup.{cleanup, cleanup_hooks, finish_cleanup, persist}
use katydid.Environment.Delay.{delay-returns}
use katydid.Environment.Disposal.{IsDisposed, OfCheckpoint, cleanup-IsDisposed, ran}
use katydid.Environment.Persisted.{is_persisted, prepare-IsPersisted}
use katydid.Environment.Prepare.{
  add_prepared, add_probe, become_ready, begin, delay, fail, judge_probe, longest_wait, prepare,
  prepare_hooks, probe, probe_check, probed, probes_loop, remaining_seconds, wait_ready,
}
use katydid.Environment.Session.{
  PlannedEnvironment, Session, World, ask, changed, invoke, is_cancelled, new_session, set_cancel,
  set_phase, snapshot,
}
use katydid.Evidence.Results.{CheckResult, PlannedCheck, Status, command}

abbrev pub step_named : String → PlannedCheck
step_named id = record {
  id = id;
  kind = command;
  argv = id ∷ [];
  working_directory = ".";
  timeout_seconds = 30;
  required = true;
  tool = none;
}

abbrev pub service : PlannedEnvironment
service = record {
  prepare = step_named "up" ∷ [];
  readiness = some (record {
    check = step_named "ping";
    timeout_seconds = 10;
    interval = 1000;
    max_attempts = 3;
  });
  cleanup = step_named "down" ∷ step_named "remove" ∷ [];
}

abbrev pub passing : PlannedCheck → CheckResult
passing check = record {
  id = check.id;
  status = Status.passed;
  detail = "";
  exit_code = some (pos 0);
  duration_seconds = 0;
  evidence = none;
}

abbrev pub healthy : World
healthy = record {
  cancel_set = λ n. false;
  file_exists = λ n. false;
  wait = λ n t. false;
  monotonic = λ n. n;
  write = λ n. none;
  execute = λ n check. ok (passing check);
  describe = λ e. "";
}

-- Every hook raises, and no checkpoint can be written.
abbrev broken : World
broken = record healthy { write = λ n. some os_error; execute = λ n check. err os_error }

unfoldable pub program : Unit {0}
unfolding prepare cleanup begin become_ready wait_ready probed probes_loop probe judge_probe delay
    prepare_hooks add_probe add_prepared fail is_cancelled set_cancel set_phase changed invoke ask
    snapshot persist cleanup_hooks finish_cleanup attempt remaining_seconds probe_check ◌>>=◌
program = tt

ready_after_one_probe :
    ((prepare healthy service new_session).0 ≡ ok true)
    × (length (prepare healthy service new_session).1.probes ≡ 1)
unfolding program
ready_after_one_probe = (refl, refl)

abbrev started_session : Session
started_session = record new_session { started = true }

-- The cleanup goes on to the second hook, and reports the checkpoint at the end.
broken_cleanup :
    ((cleanup broken service started_session).0 ≡ err os_error)
    × (ran (cleanup broken service started_session).1.log ≡ service.cleanup)
unfolding program
broken_cleanup = (refl, refl)

cleanup-IsDisposed_example :
    Triple
      (λ s. (s.started ≡ true) × (s.cleaned ≡ []) × (ran s.log ≡ []))
      (cleanup broken service)
      (λ _ s. IsDisposed broken [] service.cleanup s × (s.checkpoint_error ≡ none))
      (λ e s.
        IsDisposed broken [] service.cleanup s
        × (s.checkpoint_error ≡ some e)
        × OfCheckpoint broken e)
cleanup-IsDisposed_example = cleanup-IsDisposed broken service []

prepare-IsPersisted_example :
    Triple
      (λ s. s.log ≡ [])
      (prepare healthy service)
      (λ _ s. is_persisted s.log ≡ true)
      (λ _ s. is_persisted s.log ≡ true)
prepare-IsPersisted_example = prepare-IsPersisted healthy service

-- Every question takes 0.05 seconds, and only a longer wait is ended by the event.
abbrev patient : World
patient = record healthy { wait = λ n t. ltb longest_wait t; monotonic = λ n. n * longest_wait }

delay-returns_example :
    Triple (λ s. Unit {0}) (delay patient (120000 + 1) 120000) (λ _ _. Unit {0}) (λ _ _. ⊥)
delay-returns_example =
    delay-returns patient (λ n. omega arith) (λ n t out. ground (arith, out)) 120000

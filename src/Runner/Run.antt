-- ===== src/Runner/Run.antt =====
-- `run_plan` of src/katydid/runner.py: the state of a run, its checkpoints, and the order of its
-- parts.
use katydid.Base.{
  Bool, Exception, Exec, List, Option, Result, String, [], attempt, err, false, gets, if◌then◌else◌,
  is_nil, lift, map, modify, none, not, ok, profile_error, pure, require, some, true, ℕ, ◌++◌, ◌+◌,
  ◌==◌, ◌>>=◌, ◌>>◌, ◌||◌, ◌∷◌,
}
use katydid.Controller.Setting.{Isolation, Plan}
use katydid.Environment.Cleanup.{cleanup}
use katydid.Environment.Prepare.{prepare}
use katydid.Environment.Session.{
  EnvironmentResult, PlannedEnvironment, Session, World, run_aborted, snapshot,
}
use katydid.Evidence.Gate.{evaluate_gate}
use katydid.Evidence.Results.{CheckResult, PlannedCheck, Reason, Status}

-- `execution_error`
pub data RunError : Type 0 where
  execution_aborted cleanup_aborted : Exception → RunError
  both_aborted : RunError → Exception → RunError

-- The reasons that a checkpoint gives.
pub data RunReason : Type 0 where
  of_checks : Reason → RunReason
  environment_not_ready environment_not_cleaned : RunReason
  aborted : RunError → RunReason
  isolation_not_ready isolation_not_cleaned : RunReason
  of_isolation : String → RunReason
  run_is_running run_is_cancelled : RunReason

pub record RunGate : Type 0 where
  pub passed : Bool
  pub reasons : List RunReason

-- The variables of `run_plan`. `session` is that of the planned environment, and `docker` the
-- snapshot of the Docker session; `asked` counts the questions to the world.
pub record RunState : Type 0 where
  pub results : List CheckResult
  pub session : Session
  pub docker : Isolation
  pub execution_error : Option RunError
  pub cancel : Bool
  pub asked : ℕ

-- `Run`, less the identifier and the directory
pub record Run : Type 0 where
  pub results : List CheckResult
  pub gate : RunGate
  pub cancelled : Bool
  pub environment : Option EnvironmentResult
  pub isolation : Option Isolation

-- The answers of the world to the question `n`: the digest of the profile, the files, whether
-- others cancel, the execution of a check, and what the Docker session does and becomes.
pub record Host : Type 0 where
  pub environment : World
  pub profile_sha256 : ℕ → Result String
  pub make_directory : ℕ → Result (Unit {0})
  pub write_json : ℕ → Result (Unit {0})
  pub on_start : ℕ → Result (Unit {0})
  pub cancel_set : ℕ → Bool
  pub file_exists : ℕ → Bool
  pub execute : ℕ → PlannedCheck → Result CheckResult
  pub new_docker : Isolation
  pub docker_prepare : ℕ → Isolation → Result (Unit {0}) × Isolation
  pub docker_execute : ℕ → PlannedCheck → Isolation → Result CheckResult × Isolation
  pub docker_hooks : ℕ → Isolation → Isolation
  pub docker_cleanup : ℕ → Isolation → Result (Unit {0}) × Isolation

unfoldable pub ask : {A : Type 0} → (ℕ → Result A) → Exec RunState A
ask f s = (f s.asked, record s { asked = s.asked + 1 })

abbrev pub reason_unless : Bool → RunReason → List RunReason
reason_unless true r = []
reason_unless false r = r ∷ []

-- What the session adds to the reasons.
unfoldable pub session_reasons : Option PlannedEnvironment → Session → List RunReason
session_reasons none s = []
session_reasons (some plan) s =
    reason_unless s.ready environment_not_ready
    ++ reason_unless s.cleanup_complete environment_not_cleaned

abbrev pub error_reasons : Option RunError → List RunReason
error_reasons none = []
error_reasons (some e) = aborted e ∷ []

-- What the Docker session adds.
unfoldable pub docker_reasons : Bool → Isolation → List RunReason
docker_reasons false i = []
docker_reasons true i =
    reason_unless i.ready isolation_not_ready
    ++ reason_unless i.cleanup_complete isolation_not_cleaned
    ++ map of_isolation i.errors

-- The argument of `checkpoint`.
pub data Moment : Type 0 where
  running cancelled completed : Moment

unfoldable pub moment_reasons : Moment → List RunReason
moment_reasons running = run_is_running ∷ []
moment_reasons cancelled = run_is_cancelled ∷ []
moment_reasons completed = []

abbrev pub session_result : Option PlannedEnvironment → Session → Option EnvironmentResult
session_result none s = none
session_result (some environment) s = some (snapshot s)

unfoldable pub moment_of : Bool → Moment
moment_of stop = if stop then cancelled else completed

module _ (plan : Plan) where
  -- The gate of `checkpoint`.
  unfoldable pub gate_at : Moment → RunState → RunGate
  gate_at moment s =
      let reasons =
        map of_checks (evaluate_gate plan.checks s.results).reasons
        ++ session_reasons plan.environment s.session
        ++ error_reasons s.execution_error
        ++ docker_reasons plan.isolated s.docker
        ++ moment_reasons moment in
      record { passed = is_nil reasons; reasons = reasons }

  module _ (world : Host) where
    -- `checkpoint`
    unfoldable pub checkpoint : Moment → Exec RunState RunGate
    checkpoint moment = do gate ← gets (λ s. gate_at moment s); ask world.write_json; pure gate

    -- A call of the session, which shares the event; its hooks may use the Docker session.
    unfoldable pub in_session : {A : Type 0} → Exec Session A → Exec RunState A
    in_session m s =
        let r = m (record s.session { cancel = s.cancel }) in
        (
          r.0,
          record s {
            session = r.1;
            cancel = r.1.cancel;
            docker = world.docker_hooks s.asked s.docker;
            asked = s.asked + 1;
          },
        )

    unfoldable pub is_cancelled : Exec RunState Bool
    is_cancelled = do
      own ← gets (λ s. s.cancel)
      others ← ask (λ n. ok (world.cancel_set n))
      if own || others then pure true else ask (λ n. ok (world.file_exists n))

    -- A call of the Docker session.
    unfoldable pub in_docker :
        {A : Type 0} → (ℕ → Isolation → Result A × Isolation) → Exec RunState A
    in_docker f s =
        let r = f s.asked s.docker in (r.0, record s { docker = r.1; asked = s.asked + 1 })

    unfoldable pub add_result : CheckResult → Exec RunState (Unit {0})
    add_result result = modify (λ s. record s { results = s.results ++ result ∷ [] })

    unfoldable pub set_cancel : Exec RunState (Unit {0})
    set_cancel = modify (λ s. record s { cancel = true })

    abbrev not_run : PlannedCheck → Status → String → CheckResult
    not_run check status detail = record {
      id = check.id;
      status = status;
      detail = detail;
      exit_code = none;
      duration_seconds = 0;
      evidence = none;
    }

    abbrev pub is_cancelled_status : Status → Bool
    is_cancelled_status Status.cancelled = true
    is_cancelled_status _ = false

    -- `execute_check`, whose progress file never stops it
    unfoldable pub execute_check : PlannedCheck → Exec RunState CheckResult
    execute_check check =
        if plan.isolated
        then in_docker (λ n i. world.docker_execute n check i)
        else ask (λ n. world.execute n check)

    unfoldable pub run_check : Bool → PlannedCheck → Exec RunState (Unit {0})
    run_check ready check = do
      stop ← is_cancelled
      if stop
          then (do
            set_cancel
            add_result (not_run check Status.cancelled "Cancelled before execution"))
          else (if not ready
              then add_result (
                  not_run check Status.error
                    "Environment preparation/readiness failed; check not executed")
              else (do
                ask world.make_directory
                result ← execute_check check
                add_result result
                if is_cancelled_status result.status then set_cancel else pure tt))

    unfoldable pub run_checks : Bool → List PlannedCheck → Exec RunState (Unit {0})
    run_checks ready [] = pure tt
    run_checks ready (check ∷ checks) = do
      run_check ready check
      checkpoint running
      run_checks ready checks

    -- The environment's part of the `try`: whether the checks may run.
    unfoldable pub prepare_session : Option PlannedEnvironment → Exec RunState Bool
    prepare_session none = pure true
    prepare_session (some environment) = in_session (prepare world.environment environment)

    unfoldable pub prepare_docker : Exec RunState (Unit {0})
    prepare_docker = if not plan.isolated then pure tt else (do
      stop ← is_cancelled
      if stop then pure tt else (do in_docker world.docker_prepare; checkpoint running; pure tt))

    -- The body of the `try`.
    unfoldable pub run_body : Exec RunState (Unit {0})
    run_body = do
      checkpoint running
      ask world.on_start
      prepare_docker
      ready ← prepare_session plan.environment
      run_checks ready plan.checks

    -- The `except` of the `try`, which raises again at the end.
    unfoldable pub note_failure : Result (Unit {0}) → Exec RunState (Unit {0})
    note_failure (ok done) = pure tt
    note_failure (err e) = modify (λ s. record s {
      execution_error = some (execution_aborted e);
      session = record s.session { error = some (run_aborted e) };
    })

    unfoldable pub cleanup_session : Option PlannedEnvironment → Exec RunState (Unit {0})
    cleanup_session none = pure tt
    cleanup_session (some environment) = in_session (cleanup world.environment environment)

    -- The inner `try` with its `finally`: the Docker session is cleaned up in any case.
    unfoldable pub clean_up : Exec RunState (Unit {0})
    clean_up = do
      done ← attempt (cleanup_session plan.environment)
      if plan.isolated then in_docker world.docker_cleanup else pure tt
      lift done

    abbrev cleanup_error : Option RunError → Exception → RunError
    cleanup_error none e = cleanup_aborted e
    cleanup_error (some first) e = both_aborted first e

    unfoldable pub note_cleanup_failure : Result (Unit {0}) → Exec RunState (Unit {0})
    note_cleanup_failure (ok done) = pure tt
    note_cleanup_failure (err e) =
        modify (λ s. record s { execution_error = some (cleanup_error s.execution_error e) })

    unfoldable pub finish_run : Exec RunState Run
    finish_run = do
      body ← attempt run_body
      note_failure body
      cleaned ← attempt clean_up
      note_cleanup_failure cleaned
      stop ← is_cancelled
      gate ← checkpoint (moment_of stop)
      lift cleaned
      lift body
      gets (λ s. record {
        results = s.results;
        gate = gate;
        cancelled = stop;
        environment = session_result plan.environment s.session;
        isolation = (if plan.isolated then some s.docker else none);
      })

    unfoldable pub run_plan : Exec RunState Run
    run_plan = do
      digest ← ask world.profile_sha256
      require (digest == plan.profile_sha256) profile_error
      ask world.make_directory
      finish_run

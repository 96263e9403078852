-- ===== src/Runner/Tests.antt =====
-- A run of one check in the environment of Environment/Tests.
use katydid.Base.{Bool, Result, [], err, false, none, ok, refl, some, true, ◌∷◌, ◌≡◌}
use katydid.Controller.Setting.{Isolation, Plan}
use katydid.Environment.Session.{new_session}
use katydid.Environment.Tests.{healthy, passing, program, service, step_named}
use katydid.Evidence.Gate.{
  evaluate_gate, expected, insert_text, is_passing_evidence, judge, judge_all, mark_seen,
  missing_ids, passing_reasons, sort_texts,
}
use katydid.Evidence.Results.{PlannedCheck}
use katydid.Runner.Run.{
  Host, Run, RunState, add_result, ask, checkpoint, clean_up, cleanup_session, docker_reasons,
  execute_check, finish_run, gate_at, in_docker, in_session, is_cancelled, moment_of,
  moment_reasons, note_cleanup_failure, note_failure, prepare_docker, prepare_session, run_body,
  run_check, run_checks, run_plan, session_reasons, set_cancel,
}
use katydid.Store.History.{run}
use katydid.Tasks.{nightly}

abbrev unit_check : PlannedCheck
unit_check = step_named "unit"

abbrev unit_plan : Plan
unit_plan = record {
  repository = "shop";
  stage = nightly;
  root = "/work";
  profile_sha256 = "digest";
  checks = unit_check ∷ [];
  environment = some service;
  isolated = true;
}

abbrev clean : Isolation
clean = record { ready = true; cleanup_complete = true; errors = [] }

abbrev host : Host
host = record {
  environment = healthy;
  profile_sha256 = λ n. ok "digest";
  make_directory = λ n. ok tt;
  write_json = λ n. ok tt;
  on_start = λ n. ok tt;
  cancel_set = λ n. false;
  file_exists = λ n. false;
  execute = λ n check. ok (passing check);
  new_docker = record { ready = false; cleanup_complete = false; errors = [] };
  docker_prepare = λ n i. (ok tt, record i { ready = true });
  docker_execute = λ n check i. (ok (passing check), i);
  docker_hooks = λ n i. i;
  docker_cleanup = λ n i. (ok tt, record i { cleanup_complete = true });
}

abbrev first_state : RunState
first_state = record {
  results = [];
  session = new_session;
  docker = host.new_docker;
  execution_error = none;
  cancel = false;
  asked = 0;
}

abbrev gate_of : Result Run → Bool
gate_of (ok run) = run.gate.passed
gate_of (err e) = false

-- Opens every definition that the runs below compute with.
unfoldable run_program : Unit {0}
unfolding program ask session_reasons docker_reasons moment_reasons moment_of gate_at checkpoint
    in_session is_cancelled in_docker add_result set_cancel execute_check run_check run_checks
    prepare_session prepare_docker run_body note_failure cleanup_session clean_up
    note_cleanup_failure finish_run run_plan evaluate_gate judge judge_all mark_seen expected
    passing_reasons is_passing_evidence missing_ids insert_text sort_texts
run_program = tt

-- Everything passes.
accepts_unit_plan : gate_of (run_plan unit_plan host first_state).0 ≡ true
unfolding run_program
accepts_unit_plan = refl

-- An isolation that is not cleaned up, is enough for the gate to fail.
refuses_unclean :
    gate_of (run_plan unit_plan (record host { docker_cleanup = λ n i. (ok tt, i) }) first_state).0
    ≡ false
unfolding run_program
refuses_unclean = refl

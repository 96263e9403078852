-- ===== src/Runner/Accepted.antt =====
-- A run of src/katydid/runner.py that passes its gate.
use katydid.Base.{false, true, ◌≡◌}
use katydid.Controller.Setting.{Plan}
use katydid.Controller.Steps.{environment_works, isolation_works}
use katydid.Environment.Session.{Session}
use katydid.Evidence.Gate.{evaluate_gate}
use katydid.Runner.Run.{Run}

-- What a run that passes has: its checks pass the gate of the evidence, its environment was ready
-- and was cleaned up, so was its isolation, without errors, and it was not cancelled.
pub record IsAccepted (plan : Plan) (run : Run) : Type 0 where
  pub checks_pass : (evaluate_gate plan.checks run.results).passed ≡ true
  pub environment : environment_works run.environment ≡ true
  pub isolation : isolation_works run.isolation ≡ true
  pub not_cancelled : run.cancelled ≡ false

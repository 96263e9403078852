-- ===== src/Environment/Prepared.antt =====
-- `prepare` of src/katydid/environment.py as a whole.
use katydid.Base.{length}
use katydid.Environment.Prepare.{Probing, prepare}
use katydid.Environment.Readiness.{Underway, Answers, WithinAttempts}
use katydid.Environment.Session.{PlannedEnvironment, Session, World}

module _ (world : World) (plan : PlannedEnvironment) where
  -- The hooks have passed.
  abbrev Prepared : Session → Type 0
  Prepared s = Underway (length plan.prepare) s

  abbrev Answered : Session → Type 0
  Answered s =
      Prepared s × Answers plan.readiness s.probes × WithinAttempts plan.readiness (length s.probes)

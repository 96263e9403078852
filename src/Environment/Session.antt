-- ===== src/Environment/Session.antt =====
-- The session of src/katydid/environment.py: its fields, and what it asks of the world. The hooks
-- are the planned checks of src/katydid/profile.py. A time is a number of microseconds.
use katydid.Base.{
  Bool, Exception, Exec, List, Option, Result, String, [], false, gets, if◌then◌else◌, lift, modify,
  none, ok, pure, raise, some, true, ℕ, ◌+◌, ◌>>=◌, ◌>>◌, ◌||◌, ◌∷◌,
}
use katydid.Evidence.Results.{CheckResult, PlannedCheck}

pub record PlannedReadiness : Type 0 where
  pub check : PlannedCheck
  pub timeout_seconds : ℕ
  pub interval : ℕ
  pub max_attempts : ℕ

pub record PlannedEnvironment : Type 0 where
  pub prepare : List PlannedCheck
  pub readiness : Option PlannedReadiness
  pub cleanup : List PlannedCheck

pub data Phase : Type 0 where
  pending preparing readiness ready cleaning finished cancelled : Phase

-- The texts of `error`; `run_aborted` is what `run_plan` of src/katydid/runner.py sets.
pub data SessionError : Type 0 where
  late_probe attempts_exhausted deadline_expired : SessionError
  checkpoint_failed run_aborted : Exception → SessionError

-- `EnvironmentResult`, less the directory
pub record EnvironmentResult : Type 0 where
  pub phase : Phase
  pub started : Bool
  pub ready : Bool
  pub cleanup_complete : Bool
  pub prepare : List CheckResult
  pub readiness : List CheckResult
  pub cleanup : List CheckResult
  pub error : Option SessionError

-- What the session has done to the world: a checkpoint that was written, or a hook that was run.
pub data Entry : Type 0 where
  checkpoint : EnvironmentResult → Entry
  hook : Phase → ℕ → PlannedCheck → Entry

-- The fields of `EnvironmentSession`. `cancel` is the event once the session has set it,
-- `checkpoint_error` the local variable of `cleanup`; `log` has the newest entry first, and `asked`
-- counts the questions to the world.
pub record Session : Type 0 where
  pub phase : Phase
  pub started : Bool
  pub ready : Bool
  pub cleanup_complete : Bool
  pub prepared : List CheckResult
  pub probes : List CheckResult
  pub cleaned : List CheckResult
  pub error : Option SessionError
  pub cancel : Bool
  pub checkpoint_error : Option Exception
  pub log : List Entry
  pub asked : ℕ

abbrev pub new_session : Session
new_session = record {
  phase = pending;
  started = false;
  ready = false;
  cleanup_complete = false;
  prepared = [];
  probes = [];
  cleaned = [];
  error = none;
  cancel = false;
  checkpoint_error = none;
  log = [];
  asked = 0;
}

-- The answers of the world to the question `n`: whether others have set the event, whether the
-- file for cancelling exists, what `cancel.wait` returns for a timeout, the clock, whether a checkpoint can be
-- written, what running a hook returns or raises, and how an exception is shown.
pub record World : Type 0 where
  pub cancel_set : ℕ → Bool
  pub file_exists : ℕ → Bool
  pub wait : ℕ → ℕ → Bool
  pub monotonic : ℕ → ℕ
  pub write : ℕ → Option Exception
  pub execute : ℕ → PlannedCheck → Result CheckResult
  pub describe : Exception → String

unfoldable pub snapshot : Session → EnvironmentResult
snapshot s = record {
  phase = s.phase;
  started = s.started;
  ready = s.ready;
  cleanup_complete = s.cleanup_complete;
  prepare = s.prepared;
  readiness = s.probes;
  cleanup = s.cleaned;
  error = s.error;
}

-- A question to the world.
unfoldable pub ask : {A : Type 0} → (ℕ → A) → Exec Session A
ask f s = (ok (f s.asked), record s { asked = s.asked + 1 })

module _ (world : World) where
  abbrev pub written : Option Exception → Exec Session (Unit {0})
  written none = modify (λ s. record s { log = checkpoint (snapshot s) ∷ s.log })
  written (some e) = raise e

  -- `_changed`
  unfoldable pub changed : Exec Session (Unit {0})
  changed = ask world.write >>= written

  -- `_invoke`: the directory is made and the hook run.
  unfoldable pub invoke : Phase → ℕ → PlannedCheck → Exec Session CheckResult
  invoke phase index check = do
    modify (λ s. record s { log = hook phase index check ∷ s.log })
    r ← ask (λ n. world.execute n check)
    lift r

  -- `cancel.is_set() or cancel_file.exists()`
  unfoldable pub is_cancelled : Exec Session Bool
  is_cancelled = do
    own ← gets (λ s. s.cancel)
    others ← ask world.cancel_set
    if own || others then pure true else ask world.file_exists

  unfoldable pub set_cancel : Exec Session (Unit {0})
  set_cancel = modify (λ s. record s { cancel = true })

  unfoldable pub set_phase : Phase → Exec Session (Unit {0})
  set_phase phase = modify (λ s. record s { phase = phase })

-- ===== src/Environment/Prepare.antt =====
-- `prepare` of src/katydid/environment.py.
use katydid.Base.{
  Bool, Exec, List, Option, [], false, gets, if◌then◌else◌, leb, length, ltb, modify, none, not,
  out_of_fuel, pure, raise, some, suc, true, zero, ℕ, ◌*◌, ◌++◌, ◌+◌, ◌-◌, ◌/◌, ◌>>=◌, ◌>>◌, ◌||◌,
  ◌∷◌,
}
use katydid.Environment.Session.{
  Phase, PlannedEnvironment, PlannedReadiness, Session, SessionError, World, ask,
  attempts_exhausted, changed, deadline_expired, invoke, is_cancelled, late_probe, preparing,
  readiness, set_cancel, set_phase,
}
use katydid.Evidence.Results.{CheckResult, PlannedCheck, Status, is_passed}

-- How the loop of probes ends: by `break`, by `return False`, or by its condition (`else`).
pub data Probing : Type 0 where
  found stopped exhausted : Probing

abbrev max : ℕ → ℕ → ℕ
max a b = if leb a b then b else a

abbrev pub min : ℕ → ℕ → ℕ
min a b = if leb a b then a else b

-- `max(1, math.ceil(deadline - now))`, in seconds; a negative difference is 0 here and 1 there.
unfoldable pub remaining_seconds : ℕ → ℕ → ℕ
remaining_seconds deadline now = max 1 ((deadline - now + 999999) / 1000000)

-- The check of a probe: it may not run past the deadline.
unfoldable pub probe_check : ℕ → PlannedCheck → PlannedCheck
probe_check remaining check = record check { timeout_seconds = min remaining check.timeout_seconds }

abbrev pub is_final : Status → Bool
is_final Status.cancelled = true
is_final Status.error = true
is_final _ = false

-- 0.05 seconds, in microseconds
abbrev pub longest_wait : ℕ
longest_wait = 50000

module _ (world : World) where
  unfoldable pub fail : SessionError → Exec Session (Unit {0})
  fail e = modify (λ s. record s { error = some e })

  unfoldable pub add_prepared : CheckResult → Exec Session (Unit {0})
  add_prepared result = modify (λ s. record s { prepared = s.prepared ++ result ∷ [] })

  unfoldable pub add_probe : CheckResult → Exec Session (Unit {0})
  add_probe result = modify (λ s. record s { probes = s.probes ++ result ∷ [] })

  -- `for index, check in enumerate(self.plan.prepare)`
  unfoldable pub prepare_hooks : List PlannedCheck → ℕ → Exec Session Bool
  prepare_hooks [] index = pure true
  prepare_hooks (check ∷ checks) index = do
    result ← invoke world preparing index check
    add_prepared result
    changed world
    if is_passed result.status then prepare_hooks checks (index + 1) else pure false

  -- The delay before the next probe: whether it was ended by a cancellation.
  unfoldable pub delay : ℕ → ℕ → Exec Session Bool
  delay zero retry_at = raise out_of_fuel
  delay (suc fuel) retry_at = do
    now ← ask world.monotonic
    if not (ltb now retry_at) then pure false else (do
      own ← gets (λ s. s.cancel)
      later ← ask world.monotonic
      woken ← ask (λ n. world.wait n (min longest_wait (retry_at - later)))
      if own || woken then pure true else (do
        there ← ask world.file_exists
        if there then set_cancel world >> pure true else delay fuel retry_at))

  module _ (readiness_plan : PlannedReadiness) (deadline : ℕ) where
    abbrev pub or_stopped : Exec Session Probing → Bool → Exec Session Probing
    or_stopped next true = pure stopped
    or_stopped next false = next

    -- What follows a probe.
    unfoldable pub judge_probe : CheckResult → Exec Session Probing → Exec Session Probing
    judge_probe result next =
        if is_passed result.status
        then (do
          late ← ask world.monotonic
          if ltb deadline late then fail late_probe >> pure stopped else pure found)
        else if is_final result.status
        then pure stopped
        else (do
          now ← ask world.monotonic
          let retry_at = min deadline (now + readiness_plan.interval)
          ended ← delay (retry_at + 1) retry_at
          or_stopped next ended)

    unfoldable pub probe : Exec Session Probing → Exec Session Probing
    probe next = do
      stop ← is_cancelled world
      if stop then set_cancel world >> pure stopped else (do
        now ← ask world.monotonic
        index ← gets (λ s. length s.probes)
        result ←
            invoke world readiness index
              (probe_check (remaining_seconds deadline now) readiness_plan.check)
        add_probe result
        changed world
        judge_probe result next)

    -- The loop, with `max_attempts - len(self.probes)` attempts left.
    unfoldable pub probes_loop : ℕ → Exec Session Probing
    probes_loop zero = ask world.monotonic >> pure exhausted
    probes_loop (suc left) = do
      now ← ask world.monotonic
      if ltb now deadline then probe (probes_loop left) else pure exhausted

    -- Whether the environment answers, with the error of the `else` of the loop.
    unfoldable pub probed : Probing → Exec Session Bool
    probed found = pure true
    probed stopped = pure false
    probed exhausted = do
      probes ← gets (λ s. s.probes)
      fail (
          if leb readiness_plan.max_attempts (length probes)
          then attempts_exhausted
          else deadline_expired)
      pure false

  unfoldable pub wait_ready : Option PlannedReadiness → Exec Session Bool
  wait_ready none = pure true
  wait_ready (some plan) = do
    set_phase world readiness
    changed world
    start ← ask world.monotonic
    probes ← gets (λ s. s.probes)
    let deadline = start + plan.timeout_seconds * 1000000
    how ← probes_loop plan deadline (plan.max_attempts - length probes)
    probed plan deadline how

  -- The last test, and the state of an environment that is ready.
  unfoldable pub become_ready : Exec Session Bool
  become_ready = do
    stop ← is_cancelled world
    if stop then set_cancel world >> pure false else (do
      modify (λ s. record s { ready = true; phase = Phase.ready })
      changed world
      pure true)

  unfoldable pub begin : PlannedEnvironment → Exec Session Bool
  begin plan = do
    modify (λ s. record s { phase = preparing; started = true })
    changed world
    prepared ← prepare_hooks plan.prepare 0
    if not prepared then pure false else (do
      answers ← wait_ready plan.readiness
      if not answers then pure false else become_ready)

  unfoldable pub prepare : PlannedEnvironment → Exec Session Bool
  prepare plan = do
    stop ← is_cancelled world
    if stop
        then (do set_cancel world; set_phase world Phase.cancelled; changed world; pure false)
        else begin plan

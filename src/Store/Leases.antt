-- ===== src/Store/Leases.antt =====
-- Leases of src/katydid/store.py: `claim`, `renew`, `assert_active`, `reserve_ai_call`,
-- `transition` and `release`. Each takes `now`, its reading of `time.time()`.
use katydid.Base.{
  ℕ, ◌+◌, ℤ, pos, String, Bool, false, not, ◌&&◌, ◌||◌, Option, none, some, any, is_blank, count,
  leb, ◌==◌, if◌then◌else◌, Exec, Result, ok, err, value_error, lease_conflict, stale_lease,
  store_error, invalid_transition, lift, gets, modify, pure, require, refuse, ◌>>=◌, ◌>>◌,
}
use katydid.Json.{Value, num, real, text, obj, end, field}
use katydid.Store.Schema.{
  State, queued, claimed, lease_renewed, ai_call_reserved, transition as transition_kind, released,
  TaskRow, EventRow, Db, Lease, seconds, is_terminal, is_paused, is_queued, workflow_state,
  state_name,
}
use katydid.Store.Transaction.{
  write, required_task, log_event, put_row, json, is_object, validate_ttl, is_live, leased_task,
  Task, to_task, without_lease,
}

-- WHERE repository = ? AND id <> ? AND lease_expires_at > ?
unfoldable pub owns_repository : ℕ → TaskRow → TaskRow → Bool
owns_repository now row other =
    other.repository == row.repository && not (other.id == row.id) && is_live now other

unfoldable pub previous_worker : Option String → Value → Value
previous_worker (some w) (obj fs) = obj (field "replaced_expired_worker" (text w) fs)
previous_worker _ details = details

unfoldable pub claim : ℕ → String → String → ℤ → Exec Db Lease
claim now task_id worker ttl_seconds = do
  ttl ← lift (validate_ttl ttl_seconds)
  refuse (is_blank worker) value_error
  let expires_at = now + seconds ttl
  write do
    row ← required_task task_id
    require (is_queued row.state) lease_conflict
    refuse (is_live now row) lease_conflict
    owned ← gets (λ db. any (owns_repository now row) db.tasks)
    refuse owned lease_conflict
    let epoch = row.control_epoch + 1
    modify (
        put_row (record row {
          control_epoch = epoch;
          lease_worker = some worker;
          lease_epoch = some epoch;
          lease_expires_at = some expires_at;
          updated_at = now;
        }))
    modify (
        log_event task_id claimed queued epoch
          (previous_worker row.lease_worker
            (obj (field "worker" (text worker) (field "expires_at" (real expires_at) end))))
          now)
    pure (record { task_id = task_id; worker = worker; epoch = epoch; expires_at = expires_at })

unfoldable pub renew : ℕ → Lease → ℤ → Exec Db Lease
renew now lease ttl_seconds = do
  ttl ← lift (validate_ttl ttl_seconds)
  let expires_at = now + seconds ttl
  write do
    row ← leased_task now lease
    modify (put_row (record row { lease_expires_at = some expires_at; updated_at = now }))
    modify (
        log_event lease.task_id lease_renewed row.state lease.epoch
          (obj (field "worker" (text lease.worker) (field "expires_at" (real expires_at) end))) now)
    pure (record lease { expires_at = expires_at })

unfoldable pub assert_active : ℕ → Lease → Exec Db (Unit {0})
assert_active now lease = do
  row ← leased_task now lease
  refuse (is_terminal row.state || is_paused row.state) stale_lease

-- WHERE task_id = ? AND kind = 'ai_call_reserved'
unfoldable pub is_ai_call : String → EventRow → Bool
is_ai_call task_id e = elim e.kind [ ai_call_reserved ↦ e.task_id == task_id | _ ↦ false ]

unfoldable pub reserve_ai_call : ℕ → Lease → String → ℤ → Exec Db ℕ
reserve_ai_call now lease role limit = do
  bound ← lift (validate_ttl limit)
  write do
    row ← leased_task now lease
    calls ← gets (λ db. count (is_ai_call lease.task_id) db.task_events)
    refuse (leb bound calls) store_error
    modify (
        log_event lease.task_id ai_call_reserved row.state lease.epoch
          (obj (
            field "role" (text role)
              (field "call" (num (pos (calls + 1))) (field "limit" (num limit) end))))
          now)
    pure (calls + 1)

unfoldable pub worker_state : Option State → Result State
worker_state (some s) = if is_queued s then err invalid_transition else ok s
worker_state none = err invalid_transition

-- `details or {}`, once it is known to be an object or None
unfoldable pub details_or_empty : Option Value → Result Value
details_or_empty none = ok (obj end)
details_or_empty (some v) = if is_object v then ok v else err value_error

-- The UPDATE of `transition`: a terminal state ends the lease and sets the result.
unfoldable pub moved : ℕ → State → Value → TaskRow → TaskRow
moved now state details row =
    if is_terminal state
    then without_lease (record row { state = state; result_json = some details; updated_at = now })
    else record row { state = state; updated_at = now }

unfoldable pub transition : ℕ → Lease → String → Option Value → Exec Db Task
transition now lease state_text details = do
  state ← lift (worker_state (workflow_state state_text))
  given ← lift (details_or_empty details)
  details_json ← lift (json given)
  write do
    row ← leased_task now lease
    refuse (is_terminal row.state) invalid_transition
    refuse (is_paused row.state) invalid_transition
    modify (put_row (moved now state details_json row))
    modify (log_event lease.task_id transition_kind state lease.epoch details_json now)
    task ← required_task lease.task_id
    pure (to_task task)

unfoldable pub release : ℕ → Lease → Exec Db (Unit {0})
release now lease = write do
  row ← leased_task now lease
  refuse (is_terminal row.state || is_paused row.state) stale_lease
  modify (put_row (without_lease (record row { state = queued; updated_at = now })))
  modify (
      log_event lease.task_id released queued lease.epoch
        (obj (
          field "worker" (text lease.worker)
            (field "previous_state" (text (state_name row.state)) end)))
        now)

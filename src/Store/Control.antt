-- ===== src/Store/Control.antt =====
-- Operators and expiry in src/katydid/store.py: `control` and `recover_expired`.
use katydid.Base.{
  Bool, Exec, List, Option, Result, String, [], err, false, if◌then◌else◌, invalid_transition,
  is_blank, leb, lift, modify, none, not, ok, pure, refuse, select, some, true, value_error, ℕ,
  ◌&&◌, ◌++◌, ◌+◌, ◌==◌, ◌>>=◌, ◌>>◌, ◌||◌, ◌∷◌,
}
use katydid.Json.{Fields, Value, bool, end, field, null, obj, real, text}
use katydid.Store.Rows.{ids}
use katydid.Store.Schema.{
  Action, Db, Kind, State, TaskRow, cancel, cancelled, is_paused, is_terminal, is_unknown_outcome,
  lease_expired, pause, paused, queued, resume, state_name, steer, unresolved,
}
use katydid.Store.Tables.{sort_rows}
use katydid.Store.Transaction.{
  Task, log_event, put_row, required_task, to_task, without_lease, write,
}

unfoldable pub action_name : Action → String
action_name pause = "pause"
action_name resume = "resume"
action_name cancel = "cancel"
action_name steer = "steer"

-- `action in CONTROL_ACTIONS`, with the action that is named
unfoldable pub control_action : String → Option Action
control_action name =
    if name == "pause"
    then some pause
    else if name == "resume"
    then some resume
    else if name == "cancel"
    then some cancel
    else if name == "steer"
    then some steer
    else none

abbrev pub is_resume : Action → Bool
is_resume resume = true
is_resume _ = false

-- The two tests of `instruction`, and the test of `action`, before the transaction.
unfoldable pub control_input : Option Action → Option String → Result Action
control_input none instruction = err value_error
control_input (some steer) none = err value_error
control_input (some steer) (some said) = if is_blank said then err value_error else ok steer
control_input (some pause) none = ok pause
control_input (some resume) none = ok resume
control_input (some cancel) none = ok cancel
control_input (some _) (some said) = err value_error

-- `unknown_outcome`
unfoldable pub interrupts_effects : State → Action → Bool
interrupts_effects state action = is_unknown_outcome state && not (is_resume action)

-- The state in which `control` leaves a task.
unfoldable pub control_state : State → Action → State
control_state state action =
    if interrupts_effects state action
    then unresolved
    else elim action [ pause ↦ paused | cancel ↦ cancelled | resume ↦ queued | steer ↦ queued ]

abbrev pub with_instruction : Option String → List String → List String
with_instruction none instructions = instructions
with_instruction (some said) instructions = instructions ++ said ∷ []

unfoldable pub control_result : State → Action → Option Value
control_result state action =
    if interrupts_effects state action
    then some (
        obj (
          field "reason" (text "control interrupted a stage with possible external effects") (
            field "control" (text (action_name action)) (
              field "previous_state" (text (state_name state))
                (field "reconciliation_required" (bool true) end)))))
    else elim action [
      | cancel ↦ some (
          obj (
            field "control" (text "cancel") (field "previous_state" (text (state_name state)) end)))
      | _ ↦ none
    ]

abbrev flag_fields : Bool → Fields → Fields
flag_fields true fs = field "reconciliation_required" (bool true) fs
flag_fields false fs = fs

abbrev instruction_fields : Option String → Fields → Fields
instruction_fields none fs = fs
instruction_fields (some t) fs = field "instruction" (text t) fs

-- COALESCE(?, result_json)
abbrev pub coalesce : Option Value → Option Value → Option Value
coalesce none old = old
coalesce (some v) old = some v

-- The UPDATE of `control`.
unfoldable pub controlled : ℕ → Action → Option String → TaskRow → TaskRow
controlled now action instruction row = without_lease (record row {
  state = control_state row.state action;
  control_epoch = row.control_epoch + 1;
  instructions_json = with_instruction instruction row.instructions_json;
  result_json = coalesce (control_result row.state action) row.result_json;
  updated_at = now;
})

unfoldable pub control : ℕ → String → String → Option String → Exec Db Task
control now task_id name instruction = do
  action ← lift (control_input (control_action name) instruction)
  write do
    row ← required_task task_id
    refuse (is_terminal row.state) invalid_transition
    refuse (is_resume action && not (is_paused row.state)) invalid_transition
    modify (put_row (controlled now action instruction row))
    modify (
        log_event task_id (Kind.control action) (control_state row.state action)
          (row.control_epoch + 1)
          (obj (
            field "previous_state" (text (state_name row.state)) (
              instruction_fields instruction
                (flag_fields (interrupts_effects row.state action) end))))
          now)
    task ← required_task task_id
    pure (to_task task)

-- WHERE lease_expires_at IS NOT NULL AND lease_expires_at <= ?
unfoldable pub has_expired : ℕ → TaskRow → Bool
has_expired now row = elim row.lease_expires_at [ none ↦ false | some t ↦ leb t now ]

-- The rows that the loop passes over.
unfoldable pub is_settled : TaskRow → Bool
is_settled row = is_terminal row.state || is_paused row.state

unfoldable pub recovered_state : State → State
recovered_state s = if is_unknown_outcome s then unresolved else queued

unfoldable pub recovery_result : State → Option Value
recovery_result s =
    if is_unknown_outcome s
    then some (
        obj (
          field "reason" (text "lease expired during a stage with possible external effects") (
            field "previous_state" (text (state_name s))
              (field "reconciliation_required" (bool true) end))))
    else none

abbrev optional_text : Option String → Value
optional_text none = null
optional_text (some s) = text s

abbrev optional_time : Option ℕ → Value
optional_time none = null
optional_time (some t) = real t

unfoldable pub recovered : ℕ → TaskRow → TaskRow
recovered now row = without_lease (record row {
  state = recovered_state row.state;
  control_epoch = row.control_epoch + 1;
  result_json = coalesce (recovery_result row.state) row.result_json;
  updated_at = now;
})

-- The body of the loop, for a row that is not settled.
unfoldable pub recover_row : ℕ → TaskRow → Db → Db
recover_row now row db =
    log_event row.id lease_expired (recovered_state row.state) (row.control_epoch + 1)
      (obj (
        field "worker" (optional_text row.lease_worker) (
          field "previous_state" (text (state_name row.state)) (
            field "expired_at" (optional_time row.lease_expires_at)
              (field "reconciliation_required" (bool (is_unknown_outcome row.state)) end)))))
      now (put_row (recovered now row) db)

-- `for row in rows`, with the list `recovered` that it appends to.
unfoldable pub recover_rows : ℕ → List TaskRow → List String → Db → List String × Db
recover_rows now [] ids db = (ids, db)
recover_rows now (row ∷ rows) ids db =
    recover_rows now rows (if is_settled row then ids else ids ++ row.id ∷ [])
      (if is_settled row then db else recover_row now row db)

unfoldable pub recover_expired : ℕ → Exec Db (List String)
recover_expired now = write λ db.
    let rows = sort_rows (select (has_expired now) db.tasks) in
    let (ids, db') = recover_rows now rows [] db in (ok ids, db')

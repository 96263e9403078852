-- ===== src/Store/Tests.antt =====
-- Runs of the store of src/katydid/store.py on small histories.
use mathlib.Core.Option
use katydid.Base.{
  List, String, [], ap, arith, false, is_blank, is_space, none, pos, refl, some, true, ℕ, ◌==◌,
  ◌>>=◌, ◌∷◌, ◌≡◌, ◌≢◌,
}
use katydid.Json.{end, field, normal, obj, serializable, text}
use katydid.Store.Control.{
  control, control_action, control_input, control_result, control_state, controlled, has_expired,
  interrupts_effects, is_settled, recover_expired, recover_row, recover_rows, recovered,
  recovered_state, recovery_result,
}
use katydid.Store.Creation.{
  create_or_return, create_task, find_idempotent, find_key, insert_task, same_value,
}
use katydid.Store.Effects.{KeptOrUnresolved, unknown_effects}
use katydid.Store.Fencing.{fenced}
use katydid.Store.Finality.{terminal_forever}
use katydid.Store.History.{
  Call, IsOrdered, audit_log, exclusive_lease, last_time, leases_sound, perform, run, run-IsSound,
}
use katydid.Store.Invariant.{lease_sound, replay, status}
use katydid.Store.Invariant.Preserved.{new_db-IsSound}
use katydid.Store.Leases.{
  claim, details_or_empty, is_ai_call, moved, owns_repository, previous_worker, release, renew,
  reserve_ai_call, transition, worker_state,
}
use katydid.Store.Rows.{ids, unique}
use katydid.Store.Schema.{
  Lease, TaskRow, cancelled, is_paused, is_queued, is_terminal, is_unknown_outcome, new_db, paused,
  publishing, queued, state_name, workflow_state,
}
use katydid.Store.Tables.{comes_first, find_task, insert_row, set_row, sort_rows}
use katydid.Store.Transaction.{
  add_row, event_inputs_ok, is_bounded_id, is_held_by, is_live, is_object, json, leased_task,
  log_event, put_row, required_task, to_task, validate_ttl, write,
}

-- Opens every definition that the runs below compute with.
unfoldable pub program : Unit {0}
unfolding run perform is_live is_held_by is_blank is_space find_task set_row write required_task
    log_event put_row add_row json is_object validate_ttl is_bounded_id event_inputs_ok leased_task
    to_task owns_repository previous_worker claim renew reserve_ai_call worker_state
    details_or_empty moved transition release control_action control_input interrupts_effects
    control_state control_result controlled control has_expired is_settled recovered_state
    recovery_result recovered recover_row recover_rows recover_expired sort_rows insert_row
    comes_first find_key find_idempotent same_value insert_task create_or_return create_task
    is_terminal is_queued is_paused is_unknown_outcome workflow_state state_name normal is_ai_call
    ◌>>=◌ unique lease_sound replay serializable
program = tt

abbrev pub task_row : String → TaskRow
task_row id = record {
  id = id;
  repository = "katydid";
  payload_json = obj end;
  instructions_json = [];
  result_json = none;
  idempotency_key = none;
  state = queued;
  control_epoch = 0;
  lease_worker = none;
  lease_epoch = none;
  lease_expires_at = none;
  created_at = 0;
  updated_at = 0;
}

abbrev pub claimed_row : TaskRow
claimed_row = record (task_row "t1") {
  control_epoch = 1;
  lease_worker = some "w1";
  lease_epoch = some 1;
  lease_expires_at = some 60000001;
  updated_at = 1;
}

abbrev pub two_tasks : List (ℕ × Call)
two_tasks =
    (0, Call.create_task "t1" "katydid" (obj end) none)
    ∷ (0, Call.create_task "t2" "katydid" (obj end) none)
    ∷ (1, Call.claim "t1" "w1" (pos 60))
    ∷ (1, Call.claim "t2" "w2" (pos 60))
    ∷ []

two_tasks-IsOrdered : IsOrdered 0 two_tasks
two_tasks-IsOrdered = (omega arith, (omega arith, (omega arith, (omega arith, tt))))

t1_claimed : find_task "t1" (run two_tasks new_db).tasks ≡ some claimed_row
unfolding program
t1_claimed = refl

t2_waits : find_task "t2" (run two_tasks new_db).tasks ≡ some (task_row "t2")
unfolding program
t2_waits = refl

t1_live : is_live (last_time 0 two_tasks) claimed_row ≡ true
unfolding program
t1_live = refl

t1-ne-t2 : ◌≢◌ {A = String} "t1" "t2"
t1-ne-t2 e = let clash : true ≡ false = ap (λ s. s == "t1") e in cc clash

exclusive_lease_example : is_live 1 (task_row "t2") ≡ false
exclusive_lease_example =
    exclusive_lease 0 two_tasks two_tasks-IsOrdered "t1" "t2" claimed_row (task_row "t2") t1_claimed
      t2_waits t1-ne-t2 refl t1_live

audit_log_example :
    replay "t1" (run two_tasks new_db).task_events
    ≡ Option.map status (find_task "t1" (run two_tasks new_db).tasks)
audit_log_example = audit_log 0 two_tasks two_tasks-IsOrdered "t1"

leases_sound_example : lease_sound claimed_row ≡ true
leases_sound_example = leases_sound 0 two_tasks two_tasks-IsOrdered "t1" claimed_row t1_claimed

abbrev cancelled_row : TaskRow
cancelled_row = record (task_row "t1") {
  state = cancelled;
  control_epoch = 1;
  result_json =
      some (obj (field "control" (text "cancel") (field "previous_state" (text "queued") end)));
  updated_at = 2;
}

abbrev pub cancelling : List (ℕ × Call)
cancelling =
    (0, Call.create_task "t1" "katydid" (obj end) none) ∷ (2, Call.control "t1" "cancel" none) ∷ []

abbrev resuming : List (ℕ × Call)
resuming = (3, Call.control "t1" "resume" none) ∷ (4, Call.claim "t1" "w1" (pos 60)) ∷ []

cancelling-IsOrdered : IsOrdered 0 cancelling
cancelling-IsOrdered = (omega arith, (omega arith, tt))

resuming-IsOrdered : IsOrdered 2 resuming
resuming-IsOrdered = (omega arith, (omega arith, tt))

t1_cancelled : find_task "t1" (run cancelling new_db).tasks ≡ some cancelled_row
unfolding program
t1_cancelled = refl

terminal_forever_example :
    find_task "t1" (run resuming (run cancelling new_db)).tasks ≡ some cancelled_row
terminal_forever_example =
    terminal_forever 2 resuming (run cancelling new_db)
      (run-IsSound 0 cancelling new_db cancelling-IsOrdered (new_db-IsSound 0)) resuming-IsOrdered
      "t1" cancelled_row t1_cancelled (unfold is_terminal in refl)

abbrev pub t1_lease : Lease
t1_lease = record { task_id = "t1"; worker = "w1"; epoch = 1; expires_at = 60000001 }

abbrev pub publishing_row : TaskRow
publishing_row = record claimed_row { state = publishing; updated_at = 2 }

abbrev pub publishing_task : List (ℕ × Call)
publishing_task =
    (0, Call.create_task "t1" "katydid" (obj end) none)
    ∷ (1, Call.claim "t1" "w1" (pos 60))
    ∷ (2, Call.transition t1_lease "publishing" none)
    ∷ []

pub t1_publishing : find_task "t1" (run publishing_task new_db).tasks ≡ some publishing_row
unfolding program
t1_publishing = refl

pub keys_unique : unique (ids (run publishing_task new_db).tasks) ≡ true
unfolding program
keys_unique = refl

unknown_effects_example :
    KeptOrUnresolved publishing_row
      (find_task "t1" (perform 70000000 Call.recover_expired (run publishing_task new_db)).tasks)
unknown_effects_example =
    unknown_effects 70000000 Call.recover_expired (run publishing_task new_db) refl keys_unique "t1"
      publishing_row t1_publishing (unfold is_unknown_outcome in refl)

abbrev pub pausing : List (ℕ × Call)
pausing =
    (0, Call.create_task "t1" "katydid" (obj end) none)
    ∷ (1, Call.claim "t1" "w1" (pos 60))
    ∷ (2, Call.control "t1" "pause" none)
    ∷ []

abbrev paused_row : TaskRow
paused_row = record (task_row "t1") { state = paused; control_epoch = 2; updated_at = 2 }

pausing-IsOrdered : IsOrdered 0 pausing
pausing-IsOrdered = (omega arith, (omega arith, (omega arith, tt)))

t1_paused : find_task "t1" (run pausing new_db).tasks ≡ some paused_row
unfolding program
t1_paused = refl

fenced_example :
    perform 3 (Call.renew t1_lease (pos 60)) (run resuming (run pausing new_db))
    ≡ run resuming (run pausing new_db)
fenced_example =
    fenced 2 resuming (run pausing new_db) t1_lease paused_row 3 (Call.renew t1_lease (pos 60))
      (run-IsSound 0 pausing new_db pausing-IsOrdered (new_db-IsSound 0)) resuming-IsOrdered
      t1_paused (omega arith) refl

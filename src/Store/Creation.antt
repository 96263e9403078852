-- ===== src/Store/Creation.antt =====
-- `create_task` of src/katydid/store.py, and its reads: `get_task`, `list_tasks` and `events`.
use katydid.Base.{
  Bool, Exec, List, Option, String, [], decide, false, gets, if◌then◌else◌, integrity_error,
  is_blank, lift, map, modify, none, pure, refuse, require, select, some, true, value_error, ℕ,
  ◌&&◌, ◌==◌, ◌>>=◌, ◌>>◌, ◌∷◌,
}
use katydid.Json.{Value, Value-discrete, end, obj}
use katydid.Store.Schema.{Db, EventRow, State, TaskRow, created, queued}
use katydid.Store.Tables.{find_task, sort_rows}
use katydid.Store.Transaction.{
  Task, add_row, is_object, json, log_event, required_task, to_task, write,
}

-- The text of two JSON columns is the same.
unfoldable pub same_value : Value → Value → Bool
same_value a b = decide (Value-discrete a b)

abbrev has_key : Option String → String → Bool
has_key none key = false
has_key (some k) key = k == key

-- SELECT * FROM tasks WHERE idempotency_key = ?
unfoldable pub find_key : String → List TaskRow → Option TaskRow
find_key key [] = none
find_key key (r ∷ rs) = if has_key r.idempotency_key key then some r else find_key key rs

-- The task that an idempotency key already names.
unfoldable pub find_idempotent : Option String → List TaskRow → Option TaskRow
find_idempotent none rs = none
find_idempotent (some key) rs = find_key key rs

abbrev pub is_some {ℓ} : {A : Type ℓ} → Option A → Bool
is_some none = false
is_some (some a) = true

-- The row of a task that is created in `state`.
abbrev pub new_row : ℕ → String → String → Value → Option String → State → TaskRow
new_row now id repository payload_json key state = record {
  id = id;
  repository = repository;
  payload_json = payload_json;
  instructions_json = [];
  result_json = none;
  idempotency_key = key;
  state = state;
  control_epoch = 0;
  lease_worker = none;
  lease_epoch = none;
  lease_expires_at = none;
  created_at = now;
  updated_at = now;
}

-- INSERT INTO tasks, which fails on a primary key that is there.
unfoldable pub insert_task : ℕ → TaskRow → Value → Exec Db (Unit {0})
insert_task now row details = do
  taken ← gets (λ db. is_some (find_task row.id db.tasks))
  refuse taken integrity_error
  modify (add_row row)
  modify (log_event row.id created row.state 0 details now)

-- The body of the transaction, once the idempotency key has been looked up.
unfoldable pub create_or_return :
    ℕ → String → String → Value → Option String → Option TaskRow → Exec Db Task
create_or_return now new_id repository payload_json key (some existing) = do
  require (existing.repository == repository && same_value existing.payload_json payload_json)
      value_error
  pure (to_task existing)
create_or_return now new_id repository payload_json key none = do
  insert_task now (new_row now new_id repository payload_json key queued) (obj end)
  row ← required_task new_id
  pure (to_task row)

-- `new_id` is what `uuid.uuid4().hex` returns.
unfoldable pub create_task : ℕ → String → String → Value → Option String → Exec Db Task
create_task now new_id repository payload key = do
  refuse (is_blank repository) value_error
  require (is_object payload) value_error
  payload_json ← lift (json payload)
  write do
    existing ← gets (λ db. find_idempotent key db.tasks)
    create_or_return now new_id repository payload_json key existing

unfoldable pub get_task : String → Exec Db Task
get_task task_id = do row ← required_task task_id; pure (to_task row)

unfoldable pub list_tasks : Exec Db (List Task)
list_tasks = gets (λ db. map to_task (sort_rows db.tasks))

-- WHERE task_id = ? ORDER BY event_id: the log is in that order.
unfoldable pub events : String → Exec Db (List EventRow)
events task_id = do
  required_task task_id
  gets (λ db. select (λ e. e.task_id == task_id) db.task_events)

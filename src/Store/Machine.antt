-- ===== src/Store/Machine.antt =====
-- The contract of the store as a machine on tasks: what one transaction may do to the tables of
-- tasks and events. The operations of src/katydid/store.py are shown to keep to it.
use katydid.Base.{
  ℕ, ◌+◌, String, ◌≡◌, Bool, true, false, Option, none, some, List, [], ◌∷◌, ◌++◌, any, map, ◌==◌,
  if◌then◌else◌,
}
use katydid.Json.{Value}
use katydid.Store.Schema.{
  State, queued, paused, cancelled, unresolved, Kind, TaskRow, Db, is_terminal, is_paused,
  is_queued, is_unknown_outcome,
}
use katydid.Store.Tables.{find_task}
use katydid.Store.Transaction.{is_live, without_lease}
use katydid.Store.Leases.{owns_repository, moved}

-- The states in which an operator, an expiry or a newer delivery may leave a task.
abbrev pub interrupted : State → Bool
interrupted queued = true
interrupted paused = true
interrupted cancelled = true
interrupted unresolved = true
interrupted _ = false

-- What a transaction at the time `now` may make of one row, among the rows `ts`.
pub data Change (now : ℕ) (ts : List TaskRow) (row row' : TaskRow) : Type 0 where
  claim :
      (worker : String) (expires_at : ℕ)
      → row.state ≡ queued
      → is_live now row ≡ false
      → any (owns_repository now row) ts ≡ false
      → row' ≡ record row {
        control_epoch = row.control_epoch + 1;
        lease_worker = some worker;
        lease_epoch = some (row.control_epoch + 1);
        lease_expires_at = some expires_at;
        updated_at = now;
      }
      → Change now ts row row'
  renew :
      (expires_at : ℕ)
      → is_live now row ≡ true
      → row' ≡ record row { lease_expires_at = some expires_at; updated_at = now }
      → Change now ts row row'
  note : is_live now row ≡ true → row' ≡ row → Change now ts row row'
  work :
      (state : State) (details : Value)
      → is_live now row ≡ true
      → is_terminal row.state ≡ false
      → is_paused row.state ≡ false
      → is_paused state ≡ false
      → is_queued state ≡ false
      → row' ≡ moved now state details row
      → Change now ts row row'
  release :
      is_live now row ≡ true
      → is_terminal row.state ≡ false
      → is_paused row.state ≡ false
      → row' ≡ without_lease (record row { state = queued; updated_at = now })
      → Change now ts row row'
  interrupt :
      (state : State) (instructions : List String) (result : Option Value)
      → is_terminal row.state ≡ false
      → interrupted state ≡ true
      → (is_unknown_outcome row.state ≡ true → state ≡ unresolved)
      → row'
        ≡ without_lease (record row {
          state = state;
          control_epoch = row.control_epoch + 1;
          instructions_json = instructions;
          result_json = result;
          updated_at = now;
        })
      → Change now ts row row'

-- One event was appended, with the state and the epoch that its task has now.
pub record Logged (now : ℕ) (row' : TaskRow) (db db' : Db) : Type 0 where
  pub kind : Kind
  pub details : Value
  pub appended :
      db'.task_events
      ≡ db.task_events
        ++ record {
          event_id = db.event_sequence + 1;
          task_id = row'.id;
          kind = kind;
          state = row'.state;
          epoch = row'.control_epoch;
          details_json = details;
          created_at = now;
        }
          ∷ []
  pub counted : db'.event_sequence ≡ db.event_sequence + 1

-- A row that was just inserted.
pub record IsNew (now : ℕ) (row : TaskRow) : Type 0 where
  pub no_worker : row.lease_worker ≡ none
  pub no_lease_epoch : row.lease_epoch ≡ none
  pub no_expiry : row.lease_expires_at ≡ none
  pub first_epoch : row.control_epoch ≡ 0
  pub waits : is_terminal row.state ≡ false

-- One row was changed, or only noted in the log; `how` says more of the change.
pub record Touched (now : ℕ) (task_id : String) (how : TaskRow → TaskRow → Type 0) (db db' : Db)
    : Type 0 where
  pub row : TaskRow
  pub row' : TaskRow
  pub found : find_task task_id db.tasks ≡ some row
  pub same_id : row'.id ≡ row.id
  pub changed : Change now db.tasks row row'
  pub lookup :
      (j : String)
      → find_task j db'.tasks ≡ (if row.id == j then some row' else find_task j db.tasks)
  pub ids : map (λ r. r.id) db'.tasks ≡ map (λ r. r.id) db.tasks
  pub logged : Logged now row' db db'
  pub detail : how row row'

-- One row was inserted.
pub record Inserted (now : ℕ) (db db' : Db) : Type 0 where
  pub row : TaskRow
  pub absent : find_task row.id db.tasks ≡ none
  pub new : IsNew now row
  pub tasks : db'.tasks ≡ db.tasks ++ row ∷ []
  pub logged : Logged now row db db'

abbrev pub AnyChange : TaskRow → TaskRow → Type 0
AnyChange row row' = Unit

pub data Step (now : ℕ) (db db' : Db) : Type 0 where
  quiet :
      db'.tasks ≡ db.tasks
      → db'.task_events ≡ db.task_events
      → db'.event_sequence ≡ db.event_sequence
      → Step now db db'
  insert : Inserted now db db' → Step now db db'
  change : (task_id : String) → Touched now task_id AnyChange db db' → Step now db db'

-- Any number of steps at one time.
pub data Steps (now : ℕ) (db : Db) : Db → Type 0 where
  done : Steps now db db
  next : {mid db' : Db} → Steps now db mid → Step now mid db' → Steps now db db'

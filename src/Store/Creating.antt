-- ===== src/Store/Creating.antt =====
-- `create_task` of src/katydid/store.py keeps to the machine.
use katydid.Base.{
  Exec, Option, String, and-true-left, and-true-right, ap, arith, eq_iff, eq_refl, false, none, ok,
  refl, some, true, ℕ, ◌>>=◌, ◌≡◌,
}
use katydid.Json.{Value, end, normal, obj}
use katydid.Store.Creation.{
  create_or_return, create_task, find_idempotent, insert_task, is_some, new_row, same_value,
}
use katydid.Store.Loops.{one_Step}
use katydid.Store.Machine.{Inserted, IsNew, Step, Steps}
use katydid.Store.Outcome.{
  Outcome, Outcome-lift, Outcome-refuse, Outcome-require, Returns, Returns-bind_assoc, Returns-gets,
  Returns-modify, Returns-pure, Returns-refuse, Returns-require, Returns-required_task,
  write-Outcome,
}
use katydid.Store.Schema.{Db, Kind, TaskRow, created, is_terminal, queued}
use katydid.Store.Tables.{find_task, find_task-append}
use katydid.Store.Transaction.{Task, add_row, json, log_event, to_task}

is_some-none : (o : Option TaskRow) → is_some o ≡ false → o ≡ none
is_some-none o h = ground arith

-- The INSERT of a new row, with its event.
pub insert_task-Returns :
    {A : Type 0} {Q : A → Db → Type 0} {db : Db} (now : ℕ) (row : TaskRow) (details : Value)
    (f : Unit {0} → Exec Db A)
    → (find_task row.id db.tasks ≡ none
        → Returns Q (log_event row.id created row.state 0 details now (add_row row db)) (f tt))
    → Returns Q db (insert_task now row details >>= f)
unfolding insert_task
insert_task-Returns {A} {Q} {db} now row details f h = Returns-bind_assoc Q db _ _ _ (
    Returns-gets Q db _ _ (
      Returns-bind_assoc Q db _ _ _ (
        Returns-refuse Q db _ _ _ λ free.
          Returns-bind_assoc Q db _ _ _
            (Returns-modify Q db _ _ (Returns-modify Q _ _ _ (h (is_some-none _ free)))))))

-- What `create_task` has done: it returned the task that has the key, or it made one.
pub data Creation (now : ℕ) (new_id repository : String) (payload : Value) (key : Option String)
    (task : Task) (db db' : Db) : Type 0 where
  again :
      (row : TaskRow)
      → find_idempotent key db.tasks ≡ some row
      → row.repository ≡ repository
      → same_value row.payload_json payload ≡ true
      → task ≡ to_task row
      → db' ≡ db
      → Creation now new_id repository payload key task db db'
  made :
      find_idempotent key db.tasks ≡ none
      → find_task new_id db.tasks ≡ none
      → task ≡ to_task (new_row now new_id repository payload key queued)
      → db'
        ≡ log_event new_id created queued 0
            (obj end)
            now
            (add_row (new_row now new_id repository payload key queued) db)
      → Creation now new_id repository payload key task db db'

-- The row that is read back after its INSERT.
inserted_back :
    (now : ℕ) (row r : TaskRow) (kind : Kind) (details : Value) (db : Db)
    → find_task row.id db.tasks ≡ none
    → find_task row.id (log_event row.id kind row.state 0 details now (add_row row db)).tasks
      ≡ some r
    → r ≡ row
unfolding log_event add_row
inserted_back now row r kind details db absent read =
    ground (arith, find_task-append row.id db.tasks row, eq_refl row.id)

create_or_return-Returns :
    (now : ℕ) (new_id repository : String) (payload : Value) (key : Option String) (db : Db)
    (given : Value) (serialized : json given ≡ ok payload) (o : Option TaskRow)
    → find_idempotent key db.tasks ≡ o
    → Returns
        (λ task db'.
          (p : Value) × (json given ≡ ok p) × Creation now new_id repository p key task db db')
        db
        (create_or_return now new_id repository payload key o)
unfolding create_or_return
create_or_return-Returns now new_id repository payload key db given serialized (some row) found =
    Returns-require _ _ _ _ _ λ same. Returns-pure _ _ _ (
      payload,
      serialized,
      Creation.again row found ((eq_iff _ _).0 (and-true-left _ _ same)) (and-true-right _ _ same)
          refl refl,
    )
create_or_return-Returns now new_id repository payload key db given serialized none free =
    insert_task-Returns now (new_row now new_id repository payload key queued) (obj end) _ λ absent.
      Returns-required_task _ _ _ _ λ row read. Returns-pure _ _ _ (
        payload,
        serialized,
        Creation.made free absent (ap to_task (inserted_back now _ row _ _ db absent read)) refl,
      )

-- What `create_task` does, whether it returns or raises: when it returns, the payload is valid, and
-- either a task with the same idempotency key, repository and payload was there, which is returned
-- with the tables as they were, or no task had the key or the new identifier, and a queued task is
-- inserted, logged and returned. When it raises, the tables are as they were.
pub create_task-Outcome :
    (now : ℕ) (new_id repository : String) (payload : Value) (key : Option String) (db : Db)
    → Outcome
        (λ task db'.
          (p : Value) × (json payload ≡ ok p) × Creation now new_id repository p key task db db')
        db
        (create_task now new_id repository payload key)
unfolding create_task
create_task-Outcome now new_id repository payload key db = Outcome-refuse _ _ _ _ _ λ named.
    Outcome-require _ _ _ _ _ λ an_object. Outcome-lift _ _ _ _ λ p serialized.
      write-Outcome _ _ _ (
        Returns-gets _ _ _ _ (
          create_or_return-Returns now new_id repository p key db payload serialized
            (find_idempotent key db.tasks) refl))

-- The INSERT and its event are one step.
pub created-Inserted :
    (now : ℕ) (row : TaskRow) (details : Value) (db : Db)
    → IsNew now row
    → find_task row.id db.tasks ≡ none
    → Inserted now db (log_event row.id created row.state 0 details now (add_row row db))
unfolding log_event add_row
created-Inserted now row details db new absent = record {
  row = row;
  absent = absent;
  new = new;
  tasks = refl;
  logged = record {
    kind = created;
    details = normal details;
    appended = rw (new.first_epoch);
    counted = refl;
  };
}

pub Creation-Steps :
    {now : ℕ} {new_id repository : String} {payload : Value} {key : Option String} {task : Task}
    {db db' : Db}
    → Creation now new_id repository payload key task db db'
    → Steps now db db'
Creation-Steps (Creation.again row f r p t e) = rw e Steps.done
Creation-Steps {now} {new_id} {repository} {payload} {key} {task} {db} {db'}
      (Creation.made k a t e) =
    rw e (
      one_Step (
        Step.insert (
          created-Inserted now (new_row now new_id repository payload key queued) (obj end) db
            (unfold is_terminal in
              record {
                no_worker = refl;
                no_lease_epoch = refl;
                no_expiry = refl;
                first_epoch = refl;
                waits = refl;
              })
            a)))

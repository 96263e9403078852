-- ===== src/Store/Touches.antt =====
-- An UPDATE or a note with its event is a step of the machine, and what an active lease says.
use mathlib.Core.Option.{some-injective}
use katydid.Base.{String, ap, arith, eq_iff, ok, refl, some, sym, true, ℕ, ℤ, ◌<◌, ◌==◌, ◌∙◌, ◌≡◌}
use katydid.Json.{Value, normal}
use katydid.Store.Machine.{Change, Touched}
use katydid.Store.Schema.{Db, Kind, Lease, State, TaskRow}
use katydid.Store.Tables.{find_task, find_task-id, find_task-set_row, ids-set_row}
use katydid.Store.Transaction.{is_held_by, is_live, log_event, put_row, validate_ttl}

-- The UPDATE of a row and the INSERT of its event.
pub put_row-Touched :
    {now : ℕ} {task_id : String} {how : TaskRow → TaskRow → Type 0} {db : Db} (row row' : TaskRow)
    (kind : Kind) (state : State) (epoch : ℕ) (details : Value)
    → find_task task_id db.tasks ≡ some row
    → row'.id ≡ row.id
    → state ≡ row'.state
    → epoch ≡ row'.control_epoch
    → Change now db.tasks row row'
    → how row row'
    → Touched now task_id how db (log_event task_id kind state epoch details now (put_row row' db))
unfolding log_event put_row
put_row-Touched {now} {task_id} {how} {db} row row' kind state epoch details found same s e changed
      detail =
    let named : row.id ≡ task_id = find_task-id task_id db.tasks row found in
    let found' : find_task row'.id db.tasks ≡ some row = ground arith in
    record {
      row = row;
      row' = row';
      found = found;
      same_id = same;
      changed = changed;
      lookup = λ j. rw (← same) (find_task-set_row row' j db.tasks found');
      ids = ids-set_row row' db.tasks;
      logged = record {
        kind = kind;
        details = normal details;
        appended = ground arith;
        counted = refl;
      };
      detail = detail;
    }

-- The INSERT of an event alone.
pub log_event-Touched :
    {now : ℕ} {task_id : String} {how : TaskRow → TaskRow → Type 0} {db : Db} (row : TaskRow)
    (kind : Kind) (epoch : ℕ) (details : Value)
    → find_task task_id db.tasks ≡ some row
    → epoch ≡ row.control_epoch
    → is_live now row ≡ true
    → how row row
    → Touched now task_id how db (log_event task_id kind row.state epoch details now db)
unfolding log_event
log_event-Touched {now} {task_id} {how} {db} row kind epoch details found e live detail =
    let named : row.id ≡ task_id = find_task-id task_id db.tasks row found in
    record {
      row = row;
      row' = row;
      found = found;
      same_id = refl;
      changed = Change.note live refl;
      lookup = λ j. ground (arith, eq_iff row.id j);
      ids = refl;
      logged = record {
        kind = kind;
        details = normal details;
        appended = ground arith;
        counted = refl;
      };
      detail = detail;
    }

pub validate_ttl-pos : (ttl : ℤ) (n : ℕ) → validate_ttl ttl ≡ ok n → 0 < n
unfolding validate_ttl
validate_ttl-pos ttl n h = ground arith

pub held-live :
    (lease : Lease) (now : ℕ) (row : TaskRow)
    → is_held_by lease now row ≡ true
    → is_live now row ≡ true
unfolding is_held_by
held-live lease now row h = ground arith

pub held-epoch :
    (lease : Lease) (now : ℕ) (row : TaskRow)
    → is_held_by lease now row ≡ true
    → lease.epoch ≡ row.control_epoch
unfolding is_held_by
held-epoch lease now row h = ground arith

-- The row that is read back after its UPDATE.
pub read_back :
    (task_id : String) (row row' r : TaskRow) (kind : Kind) (state : State) (epoch : ℕ)
    (details : Value) (now : ℕ) (db : Db)
    → find_task task_id db.tasks ≡ some row
    → row'.id ≡ row.id
    → find_task task_id (log_event task_id kind state epoch details now (put_row row' db)).tasks
      ≡ some r
    → r ≡ row'
unfolding log_event put_row
read_back task_id row row' r kind state epoch details now db found same again =
    let named : row.id ≡ task_id = find_task-id task_id db.tasks row found in
    let found' : find_task row'.id db.tasks ≡ some row = ground arith in
    ground (arith, find_task-set_row row' task_id db.tasks found', eq_iff row'.id task_id)

-- The changed row is the one that is found under its key.
pub Touched-row :
    {now : ℕ} {task_id : String} {how : TaskRow → TaskRow → Type 0} {db db' : Db}
    (t : Touched now task_id how db db') (j : String) (row : TaskRow)
    → find_task j db.tasks ≡ some row
    → (t.row.id == j) ≡ true
    → t.row ≡ row
Touched-row {now} {task_id} {how} {db} t j row found same =
    let p : task_id ≡ j =
      sym (find_task-id task_id db.tasks t.row t.found) ∙ (eq_iff t.row.id j).0 same in
    some-injective t.row row (sym t.found ∙ ap (λ k. find_task k db.tasks) p ∙ found)

-- ===== src/Store/Recovering.antt =====
-- `recover_expired` of src/katydid/store.py keeps to the machine, and what it leaves.
use katydid.Base.{
  Bool, Bool-cases, List, String, [], ap, append-nil, append_assoc, arith, eq_iff, false, finish,
  if◌then◌else◌, inl, inr, not, ok, or-false-left, refl, select, some, sym, true, ℕ, ◌&&◌, ◌++◌,
  ◌==◌, ◌∙◌, ◌∷◌, ◌≡◌,
}
use katydid.Store.Control.{
  has_expired, is_settled, recover_expired, recover_row, recover_rows, recovered, recovered_state,
}
use katydid.Store.Loops.{Effect, each, each-Steps, one_Step, query-each}
use katydid.Store.Machine.{Change, Step, Steps, Touched, AnyChange, interrupted}
use katydid.Store.Rows.{ids, query, query-IsListed, query-unique, unique}
use katydid.Store.Schema.{Db, State, TaskRow, is_unknown_outcome, unresolved}
use katydid.Store.Tables.{find_task, find_task-set_row}
use katydid.Store.Touches.{put_row-Touched}
use katydid.Store.Transaction.{log_event, put_row, write}

-- The rows that the loop of `recover_expired` does not pass over.
unfoldable pub is_recoverable : ℕ → TaskRow → Bool
is_recoverable now row = has_expired now row && not (is_settled row)

-- The body of the loop, the test included.
abbrev pub recover_step : ℕ → TaskRow → Db → Db
recover_step now row db = if is_settled row then db else recover_row now row db

abbrev pub recover_to : ℕ → TaskRow → TaskRow
recover_to now row = if is_settled row then row else recovered now row

recover_rows-db :
    (now : ℕ) (rows : List TaskRow) (names : List String) (db : Db)
    → (recover_rows now rows names db).1 ≡ each (recover_step now) rows db
unfolding recover_rows
recover_rows-db now [] names db = refl
recover_rows-db now (r ∷ rs) names db =
    recover_rows-db now rs (if is_settled r then names else names ++ r.id ∷ [])
      (recover_step now r db)

names_step :
    (b : Bool) (names : List String) (r : TaskRow) (rs : List TaskRow)
    → (if b then names else names ++ r.id ∷ []) ++ ids rs
      ≡ names ++ ids (if not b then r ∷ rs else rs)
names_step true names r rs = refl
names_step false names r rs = append_assoc names (r.id ∷ []) (ids rs)

recover_rows-names :
    (now : ℕ) (rows : List TaskRow) (names : List String) (db : Db)
    → (recover_rows now rows names db).0 ≡ names ++ ids (select (λ r. not (is_settled r)) rows)
unfolding recover_rows
recover_rows-names now [] names db = sym (append-nil names)
recover_rows-names now (r ∷ rs) names db =
    recover_rows-names now rs (if is_settled r then names else names ++ r.id ∷ [])
      (recover_step now r db)
    ∙ names_step (is_settled r) names r (select (λ s. not (is_settled s)) rs)

recovered_state-interrupted : (s : State) → interrupted (recovered_state s) ≡ true
unfolding recovered_state
recovered_state-interrupted s = ground arith

recovered_state-unknown : (s : State) → is_unknown_outcome s ≡ true → recovered_state s ≡ unresolved
unfolding recovered_state
recovered_state-unknown s u = rw u

recover_row-Touched :
    (now : ℕ) (row : TaskRow) (db : Db)
    → find_task row.id db.tasks ≡ some row
    → is_settled row ≡ false
    → Touched now row.id AnyChange db (recover_row now row db)
unfolding recover_row recovered is_settled
recover_row-Touched now row db found unsettled =
    put_row-Touched row _ _ _ _ _ found refl refl refl
      (Change.interrupt (recovered_state row.state) _ _ (or-false-left _ _ unsettled)
        (recovered_state-interrupted row.state) (recovered_state-unknown row.state) refl)
      tt

recover_row-lookup :
    (now : ℕ) (row : TaskRow) (db : Db) (j : String)
    → find_task row.id db.tasks ≡ some row
    → find_task j (recover_row now row db).tasks
      ≡ (if row.id == j then some (recovered now row) else find_task j db.tasks)
unfolding recover_row put_row log_event recovered
recover_row-lookup now row db j found = find_task-set_row _ j db.tasks found

recover-Effect :
    (now : ℕ) → Effect now (recover_step now) (recover_to now) (λ r. has_expired now r ≡ true)
recover-Effect now = record {
  steps = λ row db listed expired. elim (Bool-cases (is_settled row)) [
    | inl e ↦ rw e Steps.done
    | inr e ↦ rw e (one_Step (Step.change row.id (recover_row-Touched now row db listed e)))
  ];
  lookup = λ row db j listed expired. elim (Bool-cases (is_settled row)) [
    | inl e ↦ rw e (ground (arith, eq_iff row.id j))
    | inr e ↦ rw e (recover_row-lookup now row db j listed)
  ];
}

-- What `recover_expired` has done.
recovered_db :
    (now : ℕ) (db : Db)
    → (recover_expired now db).1 ≡ each (recover_step now) (query (has_expired now) db.tasks) db
unfolding recover_expired write finish
recovered_db now db = recover_rows-db now (query (has_expired now) db.tasks) [] db

pub recover_expired-Steps :
    (now : ℕ) (db : Db) → unique (ids db.tasks) ≡ true → Steps now db (recover_expired now db).1
recover_expired-Steps now db u = rw (recovered_db now db) (
    each-Steps (recover-Effect now) (query (has_expired now) db.tasks) db
      (query-unique (has_expired now) db.tasks u) (query-IsListed (has_expired now) db.tasks u))

-- What `recover_expired` does to a task, where keys are unique: a task whose lease has expired is
-- recovered unless it is finished or paused, and every other task keeps its row.
pub recover_expired-lookup :
    (now : ℕ) (db : Db)
    → unique (ids db.tasks) ≡ true
    → (j : String) (row : TaskRow) → find_task j db.tasks ≡ some row
    → find_task j (recover_expired now db).1.tasks
      ≡ some (if has_expired now row then recover_to now row else row)
recover_expired-lookup now db u j row found =
    rw (recovered_db now db) (query-each (has_expired now) db (recover-Effect now) u j row found)

pub recover_expired-names :
    (now : ℕ) (db : Db)
    → (recover_expired now db).0
      ≡ ok (ids (select (λ r. not (is_settled r)) (query (has_expired now) db.tasks)))
unfolding recover_expired write finish
recover_expired-names now db =
    ap ok (recover_rows-names now (query (has_expired now) db.tasks) [] db)

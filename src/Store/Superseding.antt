-- ===== src/Store/Superseding.antt =====
-- The loop of `ingest_event` of src/katydid/store.py over the tasks that a delivery supersedes.
use katydid.Base.{
  Bool, List, Option, String, [], arith, false, if◌then◌else◌, none, not, refl, some, true, ℕ, ◌&&◌,
  ◌==◌, ◌∷◌, ◌≡◌,
}
use katydid.Store.Ingest.{Delivery, group_tasks, in_group}
use katydid.Store.Loops.{Effect, each, each-Steps, one_Step, query-each}
use katydid.Store.Machine.{Change, Step, Steps, Touched, AnyChange, interrupted}
use katydid.Store.Rows.{ids, query-IsListed, query-unique, unique}
use katydid.Store.Schema.{Db, State, TaskRow, is_terminal, is_unknown_outcome, unresolved}
use katydid.Store.Supersede.{
  supersede_row, supersede_rows, superseded_by, superseded_row, superseded_state,
}
use katydid.Store.Tables.{find_task, find_task-set_row}
use katydid.Store.Touches.{put_row-Touched}
use katydid.Store.Transaction.{log_event, put_row}

-- The tasks that a delivery to the group supersedes.
abbrev pub supersedes : Option String → Delivery → Db → TaskRow → Bool
supersedes none d db row = false
supersedes (some group) d db row =
    in_group d.repository group db.event_task_groups row && not (is_terminal row.state)

supersede_rows-each :
    (d : Delivery) (version : Option ℕ) (replacement : Option String) (rows : List TaskRow)
    (db : Db)
    → supersede_rows d version replacement rows db
      ≡ each (supersede_row d version replacement) rows db
unfolding supersede_rows
supersede_rows-each d version replacement [] db = refl
supersede_rows-each d version replacement (r ∷ rs) db =
    supersede_rows-each d version replacement rs (supersede_row d version replacement r db)

superseded_state-interrupted : (s : State) → interrupted (superseded_state s) ≡ true
unfolding superseded_state
superseded_state-interrupted s = ground arith

superseded_state-unknown :
    (s : State) → is_unknown_outcome s ≡ true → superseded_state s ≡ unresolved
unfolding superseded_state
superseded_state-unknown s u = rw u

module _ (d : Delivery) (version : Option ℕ) (replacement : Option String) where
  supersede_row-Touched :
      (row : TaskRow) (db : Db)
      → find_task row.id db.tasks ≡ some row
      → is_terminal row.state ≡ false
      → Touched d.now row.id AnyChange db (supersede_row d version replacement row db)
  unfolding supersede_row superseded_row
  supersede_row-Touched row db found is_open =
      put_row-Touched row _ _ _ _ _ found refl refl refl
        (Change.interrupt (superseded_state row.state) _ _ is_open
          (superseded_state-interrupted row.state) (superseded_state-unknown row.state) refl)
        tt

  supersede_row-lookup :
      (row : TaskRow) (db : Db) (j : String)
      → find_task row.id db.tasks ≡ some row
      → find_task j (supersede_row d version replacement row db).tasks ≡ (
          if row.id == j
          then some (superseded_row d version replacement row)
          else find_task j db.tasks)
  unfolding supersede_row put_row log_event superseded_row
  supersede_row-lookup row db j found = find_task-set_row _ j db.tasks found

  supersede-Effect :
      (group : String) (db0 : Db)
      → Effect d.now
          (supersede_row d version replacement)
          (superseded_row d version replacement)
          (λ r. supersedes (some group) d db0 r ≡ true)
  supersede-Effect group db0 = record {
    steps = λ row db listed selected.
        one_Step (Step.change row.id (supersede_row-Touched row db listed (ground arith)));
    lookup = λ row db j listed selected. supersede_row-lookup row db j listed;
  }

  -- The loop is a sequence of steps of the machine.
  pub superseded-Steps :
      (group : Option String) (db : Db)
      → unique (ids db.tasks) ≡ true
      → Steps d.now db (supersede_rows d version replacement (superseded_by group d db) db)
  unfolding group_tasks
  superseded-Steps none db u = rw supersede_rows-each Steps.done
  superseded-Steps (some group) db u = rw supersede_rows-each (
      each-Steps (supersede-Effect group db) _ db (query-unique _ db.tasks u)
        (query-IsListed _ db.tasks u))

  -- It changes the tasks that the delivery supersedes, and no other.
  pub superseded-lookup :
      (group : Option String) (db : Db)
      → unique (ids db.tasks) ≡ true
      → (j : String) (row : TaskRow) → find_task j db.tasks ≡ some row
      → find_task j (supersede_rows d version replacement (superseded_by group d db) db).tasks
        ≡ some (if supersedes group d db row then superseded_row d version replacement row else row)
  unfolding group_tasks
  superseded-lookup none db u j row found = rw supersede_rows-each found
  superseded-lookup (some group) db u j row found =
      rw supersede_rows-each
        (query-each (supersedes (some group) d db) db (supersede-Effect group db) u j row found)

pub supersede_rows-deliveries :
    (d : Delivery) (version : Option ℕ) (replacement : Option String) (rows : List TaskRow)
    (db : Db)
    → (supersede_rows d version replacement rows db).provider_deliveries ≡ db.provider_deliveries
unfolding supersede_rows supersede_row log_event put_row
supersede_rows-deliveries d version replacement [] db = refl
supersede_rows-deliveries d version replacement (r ∷ rs) db =
    supersede_rows-deliveries d version replacement rs (supersede_row d version replacement r db)

-- ===== src/Controller/Settling.antt =====
-- How `Controller.execute` of src/katydid/controller.py leaves a task whose work has failed.
use katydid.Base.{
  Bool, Exception, Option, String, err, false, if◌then◌else◌, some, stale_lease, true, ℕ, ◌≤◌, ◌≡◌,
  ◌⊎◌,
}
use katydid.Controller.Execute.{is_external}
use katydid.Controller.Setting.{Fleet, Work, World}
use katydid.Json.{Value}
use katydid.Store.Leases.{assert_active, release, transition}
use katydid.Store.Schema.{Db, Lease, State, TaskRow, failed, is_unknown_outcome, queued, unresolved}
use katydid.Store.Tables.{find_task}
use katydid.Store.Transaction.{Task, is_held_by}

-- The task's row, at an epoch that is not before that of the lease, and in the state as long as it
-- is at that of the lease.
abbrev At : Lease → State → Db → Type 0
At lease state db =
    (row : TaskRow) × (find_task lease.task_id db.tasks ≡ some row)
    × (lease.epoch ≤ row.control_epoch)
    × (row.control_epoch ≡ lease.epoch → row.state ≡ state)

-- The task's row is there, at an epoch that is not before that of the lease.
abbrev pub Begun : Lease → Db → Type 0
Begun lease db =
    (row : TaskRow) × (find_task lease.task_id db.tasks ≡ some row)
    × (lease.epoch ≤ row.control_epoch)

-- What others do to the task: they do not delete it or take its epoch back, and they do not change
-- its state without a new epoch.
abbrev pub LeavesLeased : Lease → (Db → Db) → Type 0
LeavesLeased lease others =
    (db : Db) (row : TaskRow)
    → find_task lease.task_id db.tasks ≡ some row
    → lease.epoch ≤ row.control_epoch
    → (row' : TaskRow) × (find_task lease.task_id (others db).tasks ≡ some row')
      × (row.control_epoch ≤ row'.control_epoch)
      × (row'.control_epoch ≡ lease.epoch → row'.state ≡ row.state)

-- With effects outside that are unknown, or failed or at rest again.
abbrev pub Stopped : Bool → State → Type 0
Stopped true state = state ≡ unresolved
Stopped false state = (state ≡ failed) ⊎ (state ≡ queued)

-- The handler has changed the row that held the lease in the tables `db`.
pub record IsSettled (lease : Lease) (w : Work) : Type 0 where
  pub n : ℕ
  pub db : Db
  pub before : TaskRow
  pub found : find_task lease.task_id db.tasks ≡ some before
  pub held : is_held_by lease n before ≡ true
  pub after : TaskRow
  pub stays : find_task lease.task_id w.db.tasks ≡ some after
  pub stopped : Stopped (is_unknown_outcome before.state) after.state

-- A call of the store has found the lease stale, and changed nothing.
pub data IsStale (lease : Lease) (db : Db) : Type 0 where
  inactive : (n : ℕ) → (assert_active n lease db).0 ≡ err stale_lease → IsStale lease db
  unreleased : (n : ℕ) → (release n lease db).0 ≡ err stale_lease → IsStale lease db
  unmoved :
      (n : ℕ) (name : String) (details : Option Value)
      → (transition n lease name details db).0 ≡ err stale_lease
      → IsStale lease db

abbrev StaleIf : Lease → Exception → Work → Type 0
StaleIf lease e w = e ≡ stale_lease → IsStale lease w.db

module _ (world : World) (fleet : Fleet) (lease : Lease)
    (leaves : (n : ℕ) → LeavesLeased lease (world.others n)) where
  module _ (task : Task) where
    abbrev final : State
    final = if is_external task.state then unresolved else failed

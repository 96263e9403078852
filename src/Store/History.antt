-- ===== src/Store/History.antt =====
-- Histories of the store of src/katydid/store.py: the transactions of all workers, operators and
-- providers in the order in which SQLite commits them, each with its reading of the clock.

use mathlib.Core.Option
use katydid.Store.Creation
use katydid.Store.Supersede
use katydid.Store.Leases
use katydid.Store.Control
use katydid.Base.{
  Bool, Exec, List, Option, Result, String, [], err, false, ok, some, true, ℕ, ℤ, ◌∷◌, ◌≡◌, ◌≢◌,
  ◌≤◌,
}
use katydid.Json.{Value}
use katydid.Store.Claiming.{claim-Outcome, renew-Outcome}
use katydid.Store.Controlling.{control-Outcome}
use katydid.Store.Creating.{Creation-Steps, create_task-Outcome}
use katydid.Store.Ingest.{Delivery, Receipt}
use katydid.Store.Ingesting.{Ingested, ingest_event-Outcome}
use katydid.Store.Invariant.{IsSound, lease_sound, replay, status}
use katydid.Store.Invariant.Preserved.{IsSound-later, Steps-IsSound, new_db-IsSound}
use katydid.Store.Loops.{one_Step}
use katydid.Store.Machine.{Step, Steps, Touched}
use katydid.Store.Outcome.{Outcome, OnExit}
use katydid.Store.Recovering.{recover_expired-Steps}
use katydid.Store.Rows.{ids, unique}
use katydid.Store.Schema.{Db, Lease, TaskRow, new_db}
use katydid.Store.Tables.{find_task}
use katydid.Store.Transaction.{is_live}
use katydid.Store.Working.{release-Outcome, reserve_ai_call-Outcome, transition-Outcome}

-- The methods that write. A delivery carries its time and its identifier itself.
pub data Call : Type 0 where
  create_task : (new_id repository : String) (payload : Value) (key : Option String) → Call
  ingest_event : Delivery → Call
  claim : (task_id worker : String) (ttl : ℤ) → Call
  renew : Lease → ℤ → Call
  reserve_ai_call : Lease → String → ℤ → Call
  transition : Lease → String → Option Value → Call
  release : Lease → Call
  control : (task_id action : String) (instruction : Option String) → Call
  recover_expired : Call

-- The database after a call at the time `now`, whether it returns or raises.
unfoldable pub perform : ℕ → Call → Db → Db
perform now (Call.create_task new_id repository payload key) db =
    (Creation.create_task now new_id repository payload key db).1
perform now (Call.ingest_event d) db = (Supersede.ingest_event (record d { now = now }) db).1
perform now (Call.claim task_id worker ttl) db = (Leases.claim now task_id worker ttl db).1
perform now (Call.renew lease ttl) db = (Leases.renew now lease ttl db).1
perform now (Call.reserve_ai_call lease role limit) db =
    (Leases.reserve_ai_call now lease role limit db).1
perform now (Call.transition lease name details) db =
    (Leases.transition now lease name details db).1
perform now (Call.release lease) db = (Leases.release now lease db).1
perform now (Call.control task_id action instruction) db =
    (Control.control now task_id action instruction db).1
perform now Call.recover_expired db = (Control.recover_expired now db).1

unfoldable pub run : List (ℕ × Call) → Db → Db
run [] db = db
run ((now, call) ∷ rest) db = run rest (perform now call db)

-- The clock readings do not decrease in the order of the commits.
abbrev pub IsOrdered : ℕ → List (ℕ × Call) → Type 0
IsOrdered t [] = Unit
IsOrdered t ((now, call) ∷ rest) = (t ≤ now) × IsOrdered now rest

abbrev pub last_time : ℕ → List (ℕ × Call) → ℕ
last_time t [] = t
last_time t ((now, call) ∷ rest) = last_time now rest

exit-Steps :
    {A : Type 0} {now : ℕ} (Q : A → Db → Type 0) (db : Db) (m : Exec Db A)
    → ((a : A) (s : Db) → Q a s → Steps now db s)
    → Outcome Q db m
    → Steps now db (m db).1
exit-Steps {A} {now} Q db m h o = go (m db) o.holds
  where
    go : (r : Result A × Db) → OnExit Q db r → Steps now db r.1
    go (ok a, s) k = h a s k
    go (err e, s) k = rw k Steps.done

pub Touched-Steps :
    {now : ℕ} {task_id : String} {how : TaskRow → TaskRow → Type 0} {db db' : Db}
    → Touched now task_id how db db'
    → Steps now db db'
Touched-Steps {now} {task_id} t = one_Step (
    Step.change task_id (record {
      row = t.row;
      row' = t.row';
      found = t.found;
      same_id = t.same_id;
      changed = t.changed;
      lookup = t.lookup;
      ids = t.ids;
      logged = t.logged;
      detail = tt;
    }))

Ingested-Steps :
    {d : Delivery} {result : Receipt × Bool} {db db' : Db}
    → Ingested d result db db'
    → Steps d.now db db'
Ingested-Steps (Ingested.known row f b r dup t e) = rw e Steps.done
Ingested-Steps (Ingested.alias c n f b dup t s ts gs) = one_Step s
Ingested-Steps (Ingested.fresh n c f) = f.steps

-- Every call is a sequence of steps of the machine.
pub perform-Steps :
    (now : ℕ) (call : Call) (db : Db)
    → unique (ids db.tasks) ≡ true
    → Steps now db (perform now call db)
unfolding perform
perform-Steps now (Call.create_task new_id repository payload key) db u =
    exit-Steps _ db _ (λ task s (p, e, c). Creation-Steps c)
      (create_task-Outcome now new_id repository payload key db)
perform-Steps now (Call.ingest_event d) db u =
    exit-Steps _ db _ (λ result s i. Ingested-Steps i)
      (ingest_event-Outcome (record d { now = now }) db u)
perform-Steps now (Call.claim task_id worker ttl) db u =
    exit-Steps _ db _ (λ _ s t. Touched-Steps t) (claim-Outcome now task_id worker ttl db)
perform-Steps now (Call.renew lease ttl) db u =
    exit-Steps _ db _ (λ _ s t. Touched-Steps t) (renew-Outcome now lease ttl db)
perform-Steps now (Call.reserve_ai_call lease role limit) db u =
    exit-Steps _ db _ (λ _ s t. Touched-Steps t) (reserve_ai_call-Outcome now lease role limit db)
perform-Steps now (Call.transition lease name details) db u =
    exit-Steps _ db _ (λ _ s t. Touched-Steps t) (transition-Outcome now lease name details db)
perform-Steps now (Call.release lease) db u =
    exit-Steps _ db _ (λ _ s t. Touched-Steps t) (release-Outcome now lease db)
perform-Steps now (Call.control task_id action instruction) db u =
    exit-Steps _ db _ (λ _ s t. Touched-Steps t) (control-Outcome now task_id action instruction db)
perform-Steps now Call.recover_expired db u = recover_expired-Steps now db u

-- The invariant holds after every history.
pub run-IsSound :
    (t : ℕ) (history : List (ℕ × Call)) (db : Db)
    → IsOrdered t history
    → IsSound t db
    → IsSound (last_time t history) (run history db)
unfolding run
run-IsSound t [] db o s = s
run-IsSound t ((now, call) ∷ rest) db o s =
    run-IsSound now rest (perform now call db) o.1
      (Steps-IsSound (IsSound-later o.0 s) (perform-Steps now call db s.keys))

-- No two tasks of a repository hold live leases at the same time: after any history in which the
-- clock readings do not decrease, of two tasks of one repository that are found under different
-- keys, one has no lease that is live at the time of the last call.
pub exclusive_lease :
    (t : ℕ) (history : List (ℕ × Call))
    → IsOrdered t history
    → (i j : String) (r s : TaskRow) → find_task i (run history new_db).tasks ≡ some r
    → find_task j (run history new_db).tasks ≡ some s
    → i ≢ j
    → r.repository ≡ s.repository
    → is_live (last_time t history) r ≡ true
    → is_live (last_time t history) s ≡ false
exclusive_lease t history o = (run-IsSound t history new_db o (new_db-IsSound t)).apart

-- The event log tells the state and the control epoch of every task: after any history in which
-- the clock readings do not decrease, the last event of a key has the state and the epoch of the
-- task with that key, and there are events of a key only if there is a task.
pub audit_log :
    (t : ℕ) (history : List (ℕ × Call))
    → IsOrdered t history
    → (j : String)
    → replay j (run history new_db).task_events
      ≡ Option.map status (find_task j (run history new_db).tasks)
audit_log t history o = (run-IsSound t history new_db o (new_db-IsSound t)).audit

-- A lease belongs to its task's present epoch, and to a task that may be worked on: after any
-- history in which the clock readings do not decrease, each task has all three lease columns or
-- none, the epoch in them is the task's control epoch, and no finished or paused task has them.
pub leases_sound :
    (t : ℕ) (history : List (ℕ × Call))
    → IsOrdered t history
    → (j : String) (row : TaskRow) → find_task j (run history new_db).tasks ≡ some row
    → lease_sound row ≡ true
leases_sound t history o = (run-IsSound t history new_db o (new_db-IsSound t)).leases

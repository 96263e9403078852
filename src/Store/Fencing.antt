-- ===== src/Store/Fencing.antt =====
-- Fencing in src/katydid/store.py: calls with a lease of an earlier epoch.
use mathlib.Core.Option.{some-injective}
use katydid.Base.{
  Bool-cases, Exec, List, String, [], ap, arith, eq_iff, inl, inr, refl, some, sym, true, ℕ, ◌+◌,
  ◌<◌, ◌==◌, ◌∙◌, ◌∷◌, ◌≡◌, ◌≤◌,
}
use katydid.Store.Claiming.{renew-Outcome}
use katydid.Store.History.{Call, IsOrdered, perform, perform-Steps, run}
use katydid.Store.Invariant.{IsSound}
use katydid.Store.Invariant.Preserved.{IsSound-later, Steps-IsSound, inserted-lookup}
use katydid.Store.Leases.{moved}
use katydid.Store.Machine.{Change, Step, Steps}
use katydid.Store.Outcome.{Outcome, Outcome-cases}
use katydid.Store.Schema.{Db, Lease, TaskRow}
use katydid.Store.Tables.{find_task}
use katydid.Store.Touches.{Touched-row, held-epoch}
use katydid.Store.Transaction.{is_held_by}
use katydid.Store.Working.{release-Outcome, reserve_ai_call-Outcome, transition-Outcome}

-- A call of the task's worker, with this lease.
abbrev pub UsesLease : Lease → Call → Type 0
UsesLease lease (Call.renew l ttl) = l ≡ lease
UsesLease lease (Call.reserve_ai_call l role limit) = l ≡ lease
UsesLease lease (Call.transition l name details) = l ≡ lease
UsesLease lease (Call.release l) = l ≡ lease
UsesLease lease _ = ⊥

Change-epoch :
    (now : ℕ) (ts : List TaskRow) (row row' : TaskRow)
    → Change now ts row row'
    → row.control_epoch ≤ row'.control_epoch
unfolding moved
Change-epoch now ts row row' (Change.claim w t q l o e) = ground arith
Change-epoch now ts row row' (Change.renew t l e) = ground arith
Change-epoch now ts row row' (Change.note l e) = ground arith
Change-epoch now ts row row' (Change.work s d l nt np sp sq e) = ground arith
Change-epoch now ts row row' (Change.release l nt np e) = ground arith
Change-epoch now ts row row' (Change.interrupt s i r nt int u e) = ground arith

-- The task is there, with this epoch at least.
abbrev pub ReachedEpoch : String → ℕ → Db → Type 0
ReachedEpoch j epoch db =
    (row : TaskRow) × (find_task j db.tasks ≡ some row) × (epoch ≤ row.control_epoch)

Step-epoch :
    {now : ℕ} {db db' : Db} (j : String) (epoch : ℕ)
    → IsSound now db
    → Step now db db'
    → ReachedEpoch j epoch db
    → ReachedEpoch j epoch db'
Step-epoch j epoch sound (Step.quiet ts es n) (row, found, le) = (row, rw ts found, le)
Step-epoch {now} {db} {db'} j epoch sound (Step.insert t) (row, found, le) =
    (row, ground (arith, inserted-lookup now db db' sound t j, eq_iff t.row.id j, t.absent), le)
Step-epoch {now} {db} {db'} j epoch sound (Step.change task_id t) (row, found, le) =
    elim (Bool-cases (t.row.id == j)) [
      | inl same ↦ (t.row', t.lookup j ∙ rw same refl, changed same)
      | inr other ↦ (row, t.lookup j ∙ rw other found, le)
    ]
  where
    changed : (t.row.id == j) ≡ true → epoch ≤ t.row'.control_epoch
    changed same =
        let e : t.row.control_epoch ≡ row.control_epoch =
          ap (λ r. r.control_epoch) (Touched-row t j row found same) in
        omega (arith, Change-epoch now db.tasks t.row t.row' t.changed)

Steps-epoch :
    {now : ℕ} {db db' : Db} (j : String) (epoch : ℕ)
    → IsSound now db
    → Steps now db db'
    → ReachedEpoch j epoch db
    → ReachedEpoch j epoch db'
Steps-epoch j epoch sound Steps.done r = r
Steps-epoch j epoch sound (Steps.next rest s) r =
    Step-epoch j epoch (Steps-IsSound sound rest) s (Steps-epoch j epoch sound rest r)

run-epoch :
    (t : ℕ) (history : List (ℕ × Call)) (db : Db) (j : String) (epoch : ℕ)
    → IsSound t db
    → IsOrdered t history
    → ReachedEpoch j epoch db
    → ReachedEpoch j epoch (run history db)
unfolding run
run-epoch t [] db j epoch sound o r = r
run-epoch t ((now, call) ∷ rest) db j epoch sound o r =
    let steps = perform-Steps now call db sound.keys in
    let before = IsSound-later o.0 sound in
    run-epoch now rest (perform now call db) j epoch (Steps-IsSound before steps) o.1
      (Steps-epoch j epoch before steps r)

-- A lease of an earlier epoch is not held.
outdated :
    (lease : Lease) (now : ℕ) (db : Db) (row : TaskRow)
    → ReachedEpoch lease.task_id (lease.epoch + 1) db
    → find_task lease.task_id db.tasks ≡ some row
    → is_held_by lease now row ≡ true
    → ⊥
outdated lease now db row (r, found, le) found' held =
    let same : r.control_epoch ≡ row.control_epoch =
      ap (λ x. x.control_epoch) (some-injective r row (sym found ∙ found')) in
    omega (arith, held-epoch lease now row held)

unchanged :
    {A : Type 0} {Q : A → Db → Type 0} {db : Db} {m : Exec Db A}
    → Outcome Q db m
    → ((a : A) (s : Db) → Q a s → ⊥)
    → (m db).1 ≡ db
unchanged o h = elim (Outcome-cases o) [ inl same ↦ same | inr (a, returned, q) ↦ absurd (h a _ q) ]

powerless :
    (lease : Lease) (now : ℕ) (call : Call) (db : Db)
    → UsesLease lease call
    → ReachedEpoch lease.task_id (lease.epoch + 1) db
    → perform now call db ≡ db
unfolding perform
powerless lease now (Call.renew l ttl) db e r = rw e (
    unchanged (renew-Outcome now lease ttl db)
      (λ a s t. outdated lease now db t.row r t.found t.detail.0))
powerless lease now (Call.reserve_ai_call l role limit) db e r = rw e (
    unchanged (reserve_ai_call-Outcome now lease role limit db)
      (λ a s t. outdated lease now db t.row r t.found t.detail.0))
powerless lease now (Call.transition l name details) db e r = rw e (
    unchanged (transition-Outcome now lease name details db)
      (λ a s t. outdated lease now db t.row r t.found t.detail.0))
powerless lease now (Call.release l) db e r = rw e (
    unchanged (release-Outcome now lease db)
      (λ a s t. outdated lease now db t.row r t.found t.detail.0))
powerless lease now (Call.create_task a b c d) db e r = absurd e
powerless lease now (Call.ingest_event d) db e r = absurd e
powerless lease now (Call.claim a b c) db e r = absurd e
powerless lease now (Call.control a b c) db e r = absurd e
powerless lease now Call.recover_expired db e r = absurd e

-- Fencing: from tables that satisfy the invariant and hold a task whose control epoch is above
-- that of a lease for it, no call with that lease changes anything, at any time after any history
-- in which the clock readings do not decrease.
pub fenced :
    (t : ℕ) (history : List (ℕ × Call)) (db : Db) (lease : Lease) (row : TaskRow) (now : ℕ)
    (call : Call)
    → IsSound t db
    → IsOrdered t history
    → find_task lease.task_id db.tasks ≡ some row
    → lease.epoch < row.control_epoch
    → UsesLease lease call
    → perform now call (run history db) ≡ run history db
fenced t history db lease row now call sound o found above use_it =
    powerless lease now call (run history db) use_it
      (run-epoch t history db lease.task_id (lease.epoch + 1) sound o (row, found, omega arith))

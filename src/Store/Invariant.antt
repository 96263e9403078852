-- ===== src/Store/Invariant.antt =====
-- What holds of the tables of src/katydid/store.py between transactions, and that every step of
-- the machine keeps it.
pub mod Preserved
use mathlib.Core.Option
use katydid.Base.{
  Bool, List, Option, String, [], any, arith, eqb, false, if◌then◌else◌, inl, inr, none, not, refl,
  some, true, ℕ, ◌&&◌, ◌++◌, ◌==◌, ◌||◌, ◌∷◌, ◌≡◌, ◌≢◌, ◌⊎◌,
}
use katydid.Store.Leases.{moved, owns_repository}
use katydid.Store.Machine.{Change}
use katydid.Store.Rows.{ids, unique}
use katydid.Store.Schema.{Db, EventRow, State, TaskRow, is_paused, is_queued, is_terminal}
use katydid.Store.Tables.{find_task}
use katydid.Store.Transaction.{is_live}

-- The three lease columns are all NULL or all set, a lease carries its task's epoch, and a task
-- that is finished or paused has none.
lease_columns : Option String → Option ℕ → Option ℕ → ℕ → Bool → Bool
lease_columns none none none epoch idle = true
lease_columns (some w) (some e) (some t) epoch idle = eqb e epoch && not idle
lease_columns _ _ _ epoch idle = false

unfoldable pub lease_sound : TaskRow → Bool
unfolding lease_columns
lease_sound row =
    lease_columns row.lease_worker row.lease_epoch row.lease_expires_at row.control_epoch
      (is_terminal row.state || is_paused row.state)

-- The state and the epoch of a task, as its last event tells them.
unfoldable pub replay : String → List EventRow → Option (State × ℕ)
replay task_id [] = none
replay task_id (e ∷ es) = elim (replay task_id es) [
  | some x ↦ some x
  | none ↦ if e.task_id == task_id then some (e.state, e.epoch) else none
]

abbrev pub status : TaskRow → State × ℕ
status row = (row.state, row.control_epoch)

pub replay-append :
    (j : String) (es : List EventRow) (e : EventRow)
    → replay j (es ++ e ∷ []) ≡ (if e.task_id == j then some (e.state, e.epoch) else replay j es)
unfolding replay
replay-append j [] e = refl
replay-append j (x ∷ xs) e = ground (arith, replay-append j xs e)

pub record IsSound (now : ℕ) (db : Db) : Type 0 where
  pub keys : unique (ids db.tasks) ≡ true
  pub leases :
      (j : String) (row : TaskRow) → find_task j db.tasks ≡ some row → lease_sound row ≡ true
  pub audit : (j : String) → replay j db.task_events ≡ Option.map status (find_task j db.tasks)
  pub apart :
      (i j : String) (r s : TaskRow)
      → find_task i db.tasks ≡ some r
      → find_task j db.tasks ≡ some s
      → i ≢ j
      → r.repository ≡ s.repository
      → is_live now r ≡ true
      → is_live now s ≡ false

module _ (now : ℕ) (ts : List TaskRow) (row row' : TaskRow) where
  pub Change-lease_sound : Change now ts row row' → lease_sound row ≡ true → lease_sound row' ≡ true
  unfolding lease_sound is_live moved is_terminal is_paused is_queued
  Change-lease_sound (Change.claim w t q l o e) h = ground arith
  Change-lease_sound (Change.renew t l e) h = ground arith
  Change-lease_sound (Change.note l e) h = ground arith
  Change-lease_sound (Change.work s d l nt np sp sq e) h = ground arith
  Change-lease_sound (Change.release l nt np e) h = ground arith
  Change-lease_sound (Change.interrupt s i r nt int u e) h = ground arith

  pub Change-repository : Change now ts row row' → row'.repository ≡ row.repository
  unfolding moved
  Change-repository (Change.claim w t q l o e) = ground arith
  Change-repository (Change.renew t l e) = ground arith
  Change-repository (Change.note l e) = ground arith
  Change-repository (Change.work s d l nt np sp sq e) = ground arith
  Change-repository (Change.release l nt np e) = ground arith
  Change-repository (Change.interrupt s i r nt int u e) = ground arith

  -- A row that is live after a change was live before it, or no other of its repository was.
  pub Change-live :
      Change now ts row row'
      → is_live now row' ≡ true
      → (is_live now row ≡ true) ⊎ (any (owns_repository now row) ts ≡ false)
  unfolding moved is_live
  Change-live (Change.claim w t q l o e) h = inr o
  Change-live (Change.renew t l e) h = inl l
  Change-live (Change.note l e) h = inl l
  Change-live (Change.work s d l nt np sp sq e) h = inl l
  Change-live (Change.release l nt np e) h = inl l
  Change-live (Change.interrupt s i r nt int u e) h = ground arith

-- ===== src/Store/Finality.antt =====
-- Finished tasks of src/katydid/store.py under histories of calls.
use katydid.Base.{
  Bool-cases, List, String, [], arith, eq_iff, false, inl, inr, some, subst, sym, true, ℕ, ◌==◌,
  ◌∙◌, ◌∷◌, ◌≡◌,
}
use katydid.Store.History.{Call, IsOrdered, perform, perform-Steps, run}
use katydid.Store.Invariant.{IsSound, lease_sound}
use katydid.Store.Invariant.Preserved.{IsSound-later, Steps-IsSound, inserted-lookup}
use katydid.Store.Machine.{Change, Step, Steps}
use katydid.Store.Schema.{Db, TaskRow, is_terminal}
use katydid.Store.Tables.{find_task, find_task-id}
use katydid.Store.Touches.{Touched-row}
use katydid.Store.Transaction.{is_live}

-- A row with no lease is not live.
idle-not_live :
    (now : ℕ) (row : TaskRow)
    → lease_sound row ≡ true
    → is_terminal row.state ≡ true
    → is_live now row ≡ false
unfolding lease_sound is_live
idle-not_live now row sound final = ground arith

Change-final :
    (now : ℕ) (ts : List TaskRow) (row row' : TaskRow)
    → lease_sound row ≡ true
    → is_terminal row.state ≡ true
    → Change now ts row row'
    → ⊥
unfolding is_terminal
Change-final now ts row row' sound final (Change.claim w t q l o e) = ground arith
Change-final now ts row row' sound final (Change.renew t l e) =
    cc (idle-not_live now row sound final)
Change-final now ts row row' sound final (Change.note l e) = cc (idle-not_live now row sound final)
Change-final now ts row row' sound final (Change.work s d l nt np sp sq e) = cc
Change-final now ts row row' sound final (Change.release l nt np e) = cc
Change-final now ts row row' sound final (Change.interrupt s i r nt int u e) = cc

Step-final :
    {now : ℕ} {db db' : Db} (j : String) (row : TaskRow)
    → IsSound now db
    → Step now db db'
    → find_task j db.tasks ≡ some row
    → is_terminal row.state ≡ true
    → find_task j db'.tasks ≡ some row
Step-final j row sound (Step.quiet ts es n) found final = rw ts found
Step-final {now} {db} {db'} j row sound (Step.insert t) found final = ground (
  arith,
  inserted-lookup now db db' sound t j,
  find_task-id j db.tasks row,
  eq_iff t.row.id j,
  t.absent,
)
Step-final {now} {db} {db'} j row sound (Step.change task_id t) found final =
    elim (Bool-cases (t.row.id == j)) [
      | inl same ↦ absurd (touched_final same)
      | inr other ↦ t.lookup j ∙ rw other found
    ]
  where
    touched_final : (t.row.id == j) ≡ true → ⊥
    touched_final same =
        let e : row ≡ t.row = sym (Touched-row t j row found same) in
        Change-final now db.tasks t.row t.row'
          (subst (λ r. lease_sound r ≡ true) e (sound.leases j row found))
          (subst (λ r. is_terminal r.state ≡ true) e final) t.changed

Steps-final :
    {now : ℕ} {db db' : Db} (j : String) (row : TaskRow)
    → IsSound now db
    → Steps now db db'
    → find_task j db.tasks ≡ some row
    → is_terminal row.state ≡ true
    → find_task j db'.tasks ≡ some row
Steps-final j row sound Steps.done found final = found
Steps-final j row sound (Steps.next r s) found final =
    Step-final j row (Steps-IsSound sound r) s (Steps-final j row sound r found final) final

-- A finished task is never changed again: from tables that satisfy the invariant, a task that is
-- completed, failed, cancelled or unresolved has the very same row after any history in which the
-- clock readings do not decrease.
pub terminal_forever :
    (t : ℕ) (history : List (ℕ × Call)) (db : Db)
    → IsSound t db
    → IsOrdered t history
    → (j : String) (row : TaskRow) → find_task j db.tasks ≡ some row
    → is_terminal row.state ≡ true
    → find_task j (run history db).tasks ≡ some row
unfolding run
terminal_forever t [] db sound o j row found final = found
terminal_forever t ((now, call) ∷ rest) db sound o j row found final =
    let steps = perform-Steps now call db sound.keys in
    let before = IsSound-later o.0 sound in
    terminal_forever now rest (perform now call db) (Steps-IsSound before steps) o.1 j row
      (Steps-final j row before steps found final) final

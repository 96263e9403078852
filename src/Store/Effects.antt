-- ===== src/Store/Effects.antt =====
-- Tasks of src/katydid/store.py in a stage with possible effects outside.
use katydid.Store.Creation
use katydid.Store.Supersede
use katydid.Store.Control
use katydid.Base.{
  Bool, Bool-cases, Option, String, arith, eq_iff, false, if◌then◌else◌, inl, inr, none, refl, some,
  subst, sym, true, ℕ, ◌==◌, ◌∙◌, ◌≡◌, ◌⊎◌,
}
use katydid.Json.{Value}
use katydid.Store.Control.{controlled, recovered, recovered_state}
use katydid.Store.Controlling.{Controlled, control-Outcome, control_state-unknown}
use katydid.Store.Creating.{Creation, create_task-Outcome}
use katydid.Store.Creation.{new_row}
use katydid.Store.History.{Call, perform}
use katydid.Store.Ingest.{Delivery, Receipt}
use katydid.Store.Ingesting.{Ingested, ingest_event-Outcome}
use katydid.Store.Outcome.{Outcome-cases}
use katydid.Store.Recovering.{recover_expired-lookup}
use katydid.Store.Rows.{ids, unique}
use katydid.Store.Schema.{Db, TaskRow, is_unknown_outcome, queued, unresolved}
use katydid.Store.Supersede.{replacement_id, superseded_row, superseded_state}
use katydid.Store.Superseding.{supersedes}
use katydid.Store.Tables.{find_task, find_task-append}
use katydid.Store.Touches.{Touched-row}
use katydid.Store.Transaction.{Task, add_row, log_event}

-- A call of an operator, a provider or the recovery, and not of the task's worker.
abbrev pub by_others : Call → Bool
by_others (Call.create_task new_id repository payload key) = true
by_others (Call.ingest_event d) = true
by_others (Call.control task_id action instruction) = true
by_others Call.recover_expired = true
by_others _ = false

-- The task is as it was, or it is unresolved and has no lease.
abbrev pub KeptOrUnresolved : TaskRow → Option TaskRow → Type 0
KeptOrUnresolved row none = ⊥
KeptOrUnresolved row (some row') =
    (row' ≡ row) ⊎ ((row'.state ≡ unresolved) × (row'.lease_worker ≡ none))

kept : (row : TaskRow) (o : Option TaskRow) → o ≡ some row → KeptOrUnresolved row o
kept row o e = rw e (inl refl)

Controlled-unresolved :
    (now : ℕ) (name : String) (instruction : Option String) (task : Task) (row row' : TaskRow)
    → Controlled now name instruction task row row'
    → is_unknown_outcome row.state ≡ true
    → (row'.state ≡ unresolved) × (row'.lease_worker ≡ none)
unfolding controlled
Controlled-unresolved now name instruction task row row' c u =
    rw (c.update) (control_state-unknown row.state c.action c.may_resume u, refl)

control-KeptOrUnresolved :
    (now : ℕ) (task_id name : String) (instruction : Option String) (db : Db) (j : String)
    (row : TaskRow)
    → find_task j db.tasks ≡ some row
    → is_unknown_outcome row.state ≡ true
    → KeptOrUnresolved row (find_task j (Control.control now task_id name instruction db).1.tasks)
control-KeptOrUnresolved now task_id name instruction db j row found u =
    elim (Outcome-cases (control-Outcome now task_id name instruction db)) [
      | inl same ↦ kept row _ (rw same found)
      | inr (task, returned, t) ↦ elim (Bool-cases (t.row.id == j)) [
        | inl here ↦
            rw (t.lookup j, here)
              (inr (
                Controlled-unresolved now name instruction task t.row t.row' t.detail (
                  subst (λ r. is_unknown_outcome r.state ≡ true)
                    (sym (Touched-row t j row found here)) u)))
        | inr other ↦ kept row _ (t.lookup j ∙ rw other found)
      ]
    ]

recover-KeptOrUnresolved :
    (now : ℕ) (db : Db)
    → unique (ids db.tasks) ≡ true
    → (j : String) (row : TaskRow) → find_task j db.tasks ≡ some row
    → is_unknown_outcome row.state ≡ true
    → KeptOrUnresolved row (find_task j (Control.recover_expired now db).1.tasks)
unfolding recovered recovered_state
recover-KeptOrUnresolved now db u j row found unknown =
    rw (recover_expired-lookup now db u j row found) (ground arith)

ingest-KeptOrUnresolved :
    (d : Delivery) (db : Db)
    → unique (ids db.tasks) ≡ true
    → (j : String) (row : TaskRow) → find_task j db.tasks ≡ some row
    → is_unknown_outcome row.state ≡ true
    → KeptOrUnresolved row (find_task j (Supersede.ingest_event d db).1.tasks)
ingest-KeptOrUnresolved d db u j row found unknown =
    elim (Outcome-cases (ingest_event-Outcome d db u)) [
      | inl same ↦ kept row _ (rw same found)
      | inr (result, returned, i) ↦ by_kind i
    ]
  where
    superseded :
        (v : Option ℕ) (rep : Option String)
        → KeptOrUnresolved row
            (some (if supersedes d.group d db row then superseded_row d v rep row else row))
    superseded v rep = unfold superseded_row superseded_state in ground arith

    by_kind :
        {result : Receipt × Bool} {db' : Db}
        → Ingested d result db db'
        → KeptOrUnresolved row (find_task j db'.tasks)
    by_kind (Ingested.known r f b rp dup t e) = kept row _ (rw e found)
    by_kind (Ingested.alias c n f b dup t s ts gs) = kept row _ (rw ts found)
    by_kind (Ingested.fresh n c f) =
        rw (f.others j row found) (superseded f.version (replacement_id d.new_id f.payload))

create-KeptOrUnresolved :
    (now : ℕ) (new_id repository : String) (payload : Value) (key : Option String) (db : Db)
    (j : String) (row : TaskRow)
    → find_task j db.tasks ≡ some row
    → KeptOrUnresolved row
        (find_task j (Creation.create_task now new_id repository payload key db).1.tasks)
create-KeptOrUnresolved now new_id repository payload key db j row found =
    elim (Outcome-cases (create_task-Outcome now new_id repository payload key db)) [
      | inl same ↦ kept row _ (rw same found)
      | inr (task, returned, (p, s, c)) ↦ kept row _ (by_kind c)
    ]
  where
    by_kind :
        {p : Value} {task : Task} {db' : Db}
        → Creation now new_id repository p key task db db'
        → find_task j db'.tasks ≡ some row
    by_kind (Creation.again r f rp pl t e) = rw e found
    by_kind {p} (Creation.made k a t e) = rw e (
        unfold log_event add_row in
        ground (
          arith,
          find_task-append j db.tasks (new_row now new_id repository p key queued),
          eq_iff new_id j,
        ))

-- Effects outside are never repeated on the word of another: whatever an operator, a provider
-- delivery, the recovery of expired leases or a new task does at any time, a task in the stage
-- publishing, deploying or monitoring keeps its row or becomes unresolved without a lease. In
-- particular it is not queued again. The keys of the tasks are taken to be unique.
pub unknown_effects :
    (now : ℕ) (call : Call) (db : Db)
    → by_others call ≡ true
    → unique (ids db.tasks) ≡ true
    → (j : String) (row : TaskRow) → find_task j db.tasks ≡ some row
    → is_unknown_outcome row.state ≡ true
    → KeptOrUnresolved row (find_task j (perform now call db).tasks)
unfolding perform
unknown_effects now (Call.create_task new_id repository payload key) db o u j row found unknown =
    create-KeptOrUnresolved now new_id repository payload key db j row found
unknown_effects now (Call.ingest_event d) db o u j row found unknown =
    ingest-KeptOrUnresolved (record d { now = now }) db u j row found unknown
unknown_effects now (Call.control task_id action instruction) db o u j row found unknown =
    control-KeptOrUnresolved now task_id action instruction db j row found unknown
unknown_effects now Call.recover_expired db o u j row found unknown =
    recover-KeptOrUnresolved now db u j row found unknown
unknown_effects now (Call.claim a b c) db o u j row found unknown = cc
unknown_effects now (Call.renew a b) db o u j row found unknown = cc
unknown_effects now (Call.reserve_ai_call a b c) db o u j row found unknown = cc
unknown_effects now (Call.transition a b c) db o u j row found unknown = cc
unknown_effects now (Call.release a) db o u j row found unknown = cc

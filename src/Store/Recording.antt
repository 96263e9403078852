-- ===== src/Store/Recording.antt =====
-- `record_release_success` of src/katydid/store.py needs the lease of a task that is monitoring.
use katydid.Base.{Result, String, [], arith, ok, refl, some, subst, true, ℕ, ◌++◌, ◌+◌, ◌∷◌, ◌≡◌}
use katydid.Json.{end, field, normal, obj, text}
use katydid.Store.Machine.{Touched}
use katydid.Store.Outcome.{
  Outcome, Outcome-require, Returns-leased_task, Returns-lift, Returns-modify_last, Returns-require,
  write-Outcome,
}
use katydid.Store.Schema.{
  Db, EventRow, Lease, State, TaskRow, is_monitoring, monitoring, release_success,
}
use katydid.Store.Success.{is_commit_sha, record_release_success}
use katydid.Store.Tables.{find_task}
use katydid.Store.Touches.{held-epoch, held-live, log_event-Touched}
use katydid.Store.Transaction.{is_held_by, log_event}

is_monitoring-eq : (s : State) → is_monitoring s ≡ true → s ≡ monitoring
unfolding is_monitoring
is_monitoring-eq s h = ground arith

-- What a recorded success says of the task's row before and after.
abbrev pub Recorded :
    (directories pointer : Result (Unit {0})) (now : ℕ) (lease : Lease) (sha : String)
    (row row' : TaskRow)
    → Type 0
Recorded directories pointer now lease sha row row' =
    (is_commit_sha sha ≡ true)
    × (is_held_by lease now row ≡ true)
    × (row.state ≡ monitoring)
    × (directories ≡ ok tt)
    × (pointer ≡ ok tt)
    × (row' ≡ row)

-- The event of a recorded success.
abbrev pub success_event : ℕ → Lease → String → Db → EventRow
success_event now lease sha db = record {
  event_id = db.event_sequence + 1;
  task_id = lease.task_id;
  kind = release_success;
  state = monitoring;
  epoch = lease.epoch;
  details_json = obj (field "commit" (text sha) end);
  created_at = now;
}

-- What `record_release_success` does, whether it returns or raises: when it returns, the revision is
-- a full one, the lease is held by a task in the state monitoring, the directories and the pointer
-- were in order, the task's row is as it was, and exactly one event is appended: the release success
-- of the task in the state monitoring, at the epoch of the lease, with the revision. When it raises,
-- the tables are as they were.
pub record_release_success-Outcome :
    (directories pointer : Result (Unit {0})) (now : ℕ) (lease : Lease) (sha : String) (db : Db)
    → Outcome
        (λ _ db'.
          Touched now lease.task_id (Recorded directories pointer now lease sha) db db'
          × (db'.task_events ≡ db.task_events ++ success_event now lease sha db ∷ []))
        db
        (record_release_success directories pointer now lease sha)
unfolding record_release_success normal
record_release_success-Outcome directories pointer now lease sha db =
    Outcome-require _ _ _ _ _ λ full. write-Outcome _ _ _ (
      Returns-leased_task _ _ _ _ _ λ row found held. Returns-require _ _ _ _ _ λ in_monitoring.
        Returns-require _ _ _ _ _ λ named. Returns-lift _ _ _ _ λ done directories_ok.
          Returns-lift _ _ _ _ λ written pointer_ok. Returns-modify_last _ _ _ (
            (
              logged row found held full directories_ok pointer_ok
                  (is_monitoring-eq row.state in_monitoring),
              unfold log_event in refl,
            )))
  where
    logged :
        (row : TaskRow)
        → find_task lease.task_id db.tasks ≡ some row
        → is_held_by lease now row ≡ true
        → is_commit_sha sha ≡ true
        → directories ≡ ok tt
        → pointer ≡ ok tt
        → row.state ≡ monitoring
        → Touched now lease.task_id (Recorded directories pointer now lease sha) db (
            log_event lease.task_id release_success monitoring lease.epoch
              (obj (field "commit" (text sha) end))
              now
              db)
    logged row found held full d p e =
        subst
          (λ s. Touched now lease.task_id (Recorded directories pointer now lease sha) db (
            log_event lease.task_id release_success s lease.epoch
              (obj (field "commit" (text sha) end)) now db))
          e
          (log_event-Touched row _ _ _ found (held-epoch lease now row held)
            (held-live lease now row held) (full, held, e, d, p, refl))

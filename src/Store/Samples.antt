-- ===== src/Store/Samples.antt =====
-- The methods of src/katydid/store.py on the small histories of Store/Tests.
use katydid.Base.{
  List, String, [], count, false, if◌then◌else◌, none, ok, pos, some, true, ℕ, ◌+◌, ◌∷◌, ◌≡◌, ◌++◌,
}
use katydid.Json.{Value, end, obj}
use katydid.Store.Claiming.{Granted, claim-Outcome}
use katydid.Store.Control.{control, has_expired, recover_expired}
use katydid.Store.Controlling.{Controlled, control-Outcome}
use katydid.Store.Creating.{Creation, create_task-Outcome}
use katydid.Store.Creation.{create_task}
use katydid.Store.History.{Call, run}
use katydid.Store.Ingest.{Delivery}
use katydid.Store.Ingesting.{Ingested, ingest_event-Outcome}
use katydid.Store.Leases.{claim, is_ai_call, reserve_ai_call, transition}
use katydid.Store.Machine.{Touched}
use katydid.Store.Outcome.{Outcome}
use katydid.Store.Recording.{Recorded, record_release_success-Outcome, success_event}
use katydid.Store.Success.{record_release_success}
use katydid.Store.Recovering.{recover_expired-lookup, recover_to}
use katydid.Store.Schema.{Db, monitoring, is_queued, new_db, workflow_state}
use katydid.Store.Supersede.{ingest_event}
use katydid.Store.Tables.{find_task}
use katydid.Store.Tests.{
  keys_unique, publishing_row, publishing_task, t1_lease, t1_publishing, two_tasks,
}
use katydid.Store.Transaction.{is_held_by, json, to_task}
use katydid.Store.Working.{LimitCovers, reserve_ai_call-Outcome, transition-Outcome}

claim-Outcome_example :
    Outcome
      (λ lease db'.
        Touched 5 "t2"
          (Granted 5 "t2" "w2" lease (run two_tasks new_db).tasks)
          (run two_tasks new_db)
          db')
      (run two_tasks new_db)
      (claim 5 "t2" "w2" (pos 60))
claim-Outcome_example = claim-Outcome 5 "t2" "w2" (pos 60) (run two_tasks new_db)

reserve_ai_call-Outcome_example :
    Outcome
      (λ n db'.
        Touched 5 "t1"
          (λ row row'.
            (is_held_by t1_lease 5 row ≡ true)
            × (n ≡ count (is_ai_call "t1") (run publishing_task new_db).task_events + 1)
            × (n ≡ count (is_ai_call "t1") db'.task_events)
            × (LimitCovers (pos 3) n)
            × (row' ≡ row))
          (run publishing_task new_db)
          db')
      (run publishing_task new_db)
      (reserve_ai_call 5 t1_lease "planner" (pos 3))
reserve_ai_call-Outcome_example =
    reserve_ai_call-Outcome 5 t1_lease "planner" (pos 3) (run publishing_task new_db)

transition-Outcome_example :
    Outcome
      (λ task db'.
        Touched 5 "t1"
          (λ row row'.
            (is_held_by t1_lease 5 row ≡ true)
            × (task ≡ to_task row')
            × (workflow_state "completed" ≡ some row'.state)
            × (is_queued row'.state ≡ false))
          (run publishing_task new_db)
          db')
      (run publishing_task new_db)
      (transition 5 t1_lease "completed" none)
transition-Outcome_example =
    transition-Outcome 5 t1_lease "completed" none (run publishing_task new_db)

control-Outcome_example :
    Outcome
      (λ task db'. Touched 5 "t1" (Controlled 5 "pause" none task) (run publishing_task new_db) db')
      (run publishing_task new_db)
      (control 5 "t1" "pause" none)
control-Outcome_example = control-Outcome 5 "t1" "pause" none (run publishing_task new_db)

create_task-Outcome_example :
    Outcome
      (λ task db'.
        (p : Value) × (json (obj end) ≡ ok p)
        × Creation 5 "t3" "katydid" p (some "k") task (run two_tasks new_db) db')
      (run two_tasks new_db)
      (create_task 5 "t3" "katydid" (obj end) (some "k"))
create_task-Outcome_example =
    create_task-Outcome 5 "t3" "katydid" (obj end) (some "k") (run two_tasks new_db)

recover_expired-lookup_example :
    find_task "t1" (recover_expired 70000000 (run publishing_task new_db)).1.tasks
    ≡ some (
        if has_expired 70000000 publishing_row
        then recover_to 70000000 publishing_row
        else publishing_row)
recover_expired-lookup_example =
    recover_expired-lookup 70000000 (run publishing_task new_db) keys_unique "t1" publishing_row
      t1_publishing

abbrev push : String → Delivery
push id = record {
  now = 5;
  new_id = id;
  provider = "github";
  delivery_id = id;
  body_sha256 = "00000000000000000000000000000000000000000000000000000000000000aa";
  repository = "katydid";
  payload = some (obj end);
  group = some "github:push:main";
  expected_group_version = some (pos 0);
  replay_key = none;
}

ingest_event-Outcome_example :
    Outcome
      (λ result db'. Ingested (push "d1") result (run publishing_task new_db) db')
      (run publishing_task new_db)
      (ingest_event (push "d1"))
ingest_event-Outcome_example =
    ingest_event-Outcome (push "d1") (run publishing_task new_db) keys_unique

abbrev waiting : List (ℕ × Call)
waiting = (0, Call.create_task "t1" "katydid" (obj end) none) ∷ []

abbrev monitoring_db : Db
monitoring_db = record new_db { tasks = record publishing_row { state = monitoring } ∷ [] }

abbrev released_sha : String
released_sha = "cccccccccccccccccccccccccccccccccccccccc"

record_release_success-Outcome_example :
    Outcome
      (λ _ db'.
        Touched 5 "t1" (Recorded (ok tt) (ok tt) 5 t1_lease released_sha) monitoring_db db'
        × (db'.task_events
            ≡ monitoring_db.task_events
              ++ success_event 5 t1_lease released_sha monitoring_db ∷ []))
      monitoring_db
      (record_release_success (ok tt) (ok tt) 5 t1_lease released_sha)
record_release_success-Outcome_example =
    record_release_success-Outcome (ok tt) (ok tt) 5 t1_lease released_sha monitoring_db

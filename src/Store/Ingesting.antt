-- ===== src/Store/Ingesting.antt =====
-- `ingest_event` of src/katydid/store.py: what a new delivery does.
use mathlib.Core.Option.{some-injective}
use katydid.Base.{
  Bool, List, Option, String, [], and-true-left, and-true-right, arith, eq_iff, eq_refl, false,
  if◌then◌else◌, none, ok, refl, some, sym, true, ℕ, ◌++◌, ◌∷◌, ◌≡◌,
}
use katydid.Json.{Value}
use katydid.Store.Creation.{new_row}
use katydid.Store.Ingest.{
  Delivery, Receipt, add_delivery, alias_delivery, canonical_delivery, find_delivery, find_version,
  known_delivery, set_version,
}
use katydid.Store.Loops.{Steps-append}
use katydid.Store.Machine.{Step, Steps}
use katydid.Store.Outcome.{
  Outcome, Outcome-require, Returns, Returns-gets, Returns-lift, Returns-modify, Returns-pure,
  Returns-refuse, Returns-require, Returns-weaken, write-Outcome,
}
use katydid.Store.Replacing.{
  Returns-add_replacement, Returns-next_version, Returns-receipt, VersionFor,
  write_version-deliveries, write_version-quiet, write_version-tasks,
}
use katydid.Store.Rows.{ids, unique}
use katydid.Store.Schema.{Db, DeliveryRow, GroupRow, TaskRow}
use katydid.Store.Supersede.{
  delivery_row, ingest_event, new_delivery, or_known, or_new, payload_input, replacement_id,
  replacement_state, supersede_rows, superseded_by, superseded_row, write_replay, write_version,
}
use katydid.Store.Superseding.{
  supersede_rows-deliveries, superseded-Steps, superseded-lookup, supersedes,
}
use katydid.Store.Tables.{find_task}

write_replay-tasks :
    (key : Option String) (d : Delivery) (db : Db) → (write_replay key d db).tasks ≡ db.tasks
write_replay-tasks key d db = ground arith

write_replay-groups :
    (key : Option String) (d : Delivery) (db : Db)
    → (write_replay key d db).event_groups ≡ db.event_groups
write_replay-groups key d db = ground arith

write_replay-deliveries :
    (key : Option String) (d : Delivery) (db : Db)
    → (write_replay key d db).provider_deliveries ≡ db.provider_deliveries
write_replay-deliveries key d db = ground arith

write_replay-quiet :
    (key : Option String) (d : Delivery) (db : Db) → Step d.now db (write_replay key d db)
write_replay-quiet key d db = Step.quiet (write_replay-tasks key d db) (ground arith) (ground arith)

find_version-set_version :
    (now : ℕ) (repository group : String) (version : ℕ) (rows : List GroupRow)
    → find_version repository group (set_version now repository group version rows) ≡ some version
unfolding find_version set_version
find_version-set_version now repository group version [] = rw (eq_refl repository, eq_refl group)
find_version-set_version now repository group version (r ∷ rs) =
    ground (arith, find_version-set_version now repository group version rs)

version-recorded :
    (d : Delivery) (db : Db) (g : Option String) (version : Option ℕ)
    → VersionFor g d db version
    → (group : String) (db1 : Db) → g ≡ some group
    → find_version d.repository group (write_version g version d db1).event_groups ≡ version
version-recorded d db none version h group db1 e = cc
version-recorded d db (some g) none h group db1 e = cc (h.0)
version-recorded d db (some g) (some v) h group db1 e =
    rw (sym (some-injective g group e))
      (find_version-set_version d.now d.repository g v db1.event_groups)

-- What a new delivery has done.
pub record Fresh (d : Delivery) (result : Receipt × Bool) (db db' : Db) : Type 0 where
  pub payload : Option Value
  pub accepted : payload_input d.payload ≡ ok payload
  pub version : Option ℕ
  pub versioned : VersionFor d.group d db version
  pub not_duplicate : result.1 ≡ false
  pub task_id : result.0.task_id ≡ replacement_id d.new_id payload
  pub steps : Steps d.now db db'
  pub others :
      (j : String) (row : TaskRow)
      → find_task j db.tasks ≡ some row
      → find_task j db'.tasks
        ≡ some (
            if supersedes d.group d db row
            then superseded_row d version (replacement_id d.new_id payload) row
            else row)
  pub replacement :
      (p : Value)
      → payload ≡ some p
      → find_task d.new_id db'.tasks
        ≡ some (
            new_row d.now d.new_id d.repository p none
              (replacement_state (superseded_by d.group d db)))
  pub bumped :
      (group : String)
      → d.group ≡ some group
      → find_version d.repository group db'.event_groups ≡ version
  pub recorded :
      db'.provider_deliveries
      ≡ db.provider_deliveries ++ delivery_row d version (replacement_id d.new_id payload) ∷ []

new_delivery-Returns :
    (d : Delivery) (db : Db)
    → unique (ids db.tasks) ≡ true
    → Returns (λ result db'. Fresh d result db db') db (new_delivery d)
unfolding new_delivery
new_delivery-Returns d db u = Returns-lift _ _ _ _ λ payload accepted.
    Returns-next_version d d.group _ λ version versioned. Returns-gets _ _ _ _ (
      Returns-modify _ _ _ _ (
        Returns-modify _ _ _ _ (
          Returns-add_replacement d version (superseded_by d.group d db) payload _ λ db3 added.
            Returns-modify _ _ _ _ (
              Returns-modify _ _ _ _ (
                Returns-receipt d _ _ λ r same_task same_version. Returns-pure _ _ _ (
                  let replacement = replacement_id d.new_id payload in
                  let db1 = supersede_rows d version replacement (superseded_by d.group d db) db in
                  let db2 = write_version d.group version d db1 in
                  let db4 = add_delivery (delivery_row d version replacement) db3 in
                  record {
                    payload = payload;
                    accepted = accepted;
                    version = version;
                    versioned = versioned;
                    not_duplicate = refl;
                    task_id = same_task;
                    steps =
                        Steps.next
                          (Steps.next
                            (Steps-append
                              (Steps.next (superseded-Steps d version replacement d.group db u)
                                (write_version-quiet d.group version d db1))
                              added.steps)
                            (Step.quiet refl refl refl))
                          (write_replay-quiet d.replay_key d db4);
                    others = λ j row found. rw (write_replay-tasks d.replay_key d db4) (
                        added.kept j _ (
                          rw (write_version-tasks d.group version d db1)
                            (superseded-lookup d version replacement d.group db u j row found)));
                    replacement =
                        λ p e. rw (write_replay-tasks d.replay_key d db4) (added.replacement p e);
                    bumped = λ group e.
                        rw (write_replay-groups d.replay_key d db4, added.groups)
                          (version-recorded d db d.group version versioned group db1 e);
                    recorded =
                        rw
                          (
                            write_replay-deliveries d.replay_key d db4,
                            added.deliveries,
                            write_version-deliveries d.group version d db1,
                          )
                          (rw (
                            supersede_rows-deliveries d version replacement
                              (superseded_by d.group d db) db));
                  }))))))

-- What `ingest_event` has done when it returns, by what was known of the delivery.
pub data Ingested (d : Delivery) (result : Receipt × Bool) (db db' : Db) : Type 0 where
  known :
      (row : DeliveryRow)
      → find_delivery d.provider d.delivery_id db.provider_deliveries ≡ some row
      → row.body_sha256 ≡ d.body_sha256
      → row.repository ≡ d.repository
      → result.1 ≡ true
      → result.0.task_id ≡ row.task_id
      → db' ≡ db
      → Ingested d result db db'
  alias :
      (canonical : DeliveryRow)
      → find_delivery d.provider d.delivery_id db.provider_deliveries ≡ none
      → canonical_delivery d.provider d.repository d.replay_key db ≡ some canonical
      → canonical.body_sha256 ≡ d.body_sha256
      → result.1 ≡ true
      → result.0.task_id ≡ canonical.task_id
      → Step d.now db db'
      → db'.tasks ≡ db.tasks
      → db'.event_groups ≡ db.event_groups
      → Ingested d result db db'
  fresh :
      find_delivery d.provider d.delivery_id db.provider_deliveries ≡ none
      → canonical_delivery d.provider d.repository d.replay_key db ≡ none
      → Fresh d result db db'
      → Ingested d result db db'

module _ (d : Delivery) (db : Db) (u : unique (ids db.tasks) ≡ true) where
  known-Returns :
      (row : DeliveryRow)
      → find_delivery d.provider d.delivery_id db.provider_deliveries ≡ some row
      → Returns (λ result db'. Ingested d result db db') db (known_delivery d row)
  unfolding known_delivery
  known-Returns row found = Returns-receipt d row _ λ r same_task same_version.
      Returns-require _ _ _ _ _ λ same. Returns-refuse _ _ _ _ _ λ agrees. Returns-pure _ _ _ (
        Ingested.known row found ((eq_iff _ _).0 (and-true-left _ _ same))
          ((eq_iff _ _).0 (and-true-right _ _ same)) refl same_task refl)

  alias-Returns :
      (key : String) (canonical : DeliveryRow)
      → find_delivery d.provider d.delivery_id db.provider_deliveries ≡ none
      → canonical_delivery d.provider d.repository d.replay_key db ≡ some canonical
      → Returns (λ result db'. Ingested d result db db') db (alias_delivery d key canonical)
  unfolding alias_delivery
  alias-Returns key canonical absent found = Returns-require _ _ _ _ _ λ same.
      Returns-modify _ _ _ _ (
        Returns-modify _ _ _ _ (
          Returns-receipt d _ _ λ r same_task same_version. Returns-pure _ _ _ (
            Ingested.alias canonical absent found ((eq_iff _ _).0 same) refl same_task
              (Step.quiet refl refl refl) refl refl)))

  no_key :
      {c : DeliveryRow}
      → d.replay_key ≡ none
      → canonical_delivery d.provider d.repository d.replay_key db ≡ some c
      → ⊥
  unfolding canonical_delivery
  no_key e found = ground arith

  Returns-fresh :
      find_delivery d.provider d.delivery_id db.provider_deliveries ≡ none
      → canonical_delivery d.provider d.repository d.replay_key db ≡ none
      → Returns (λ result db'. Ingested d result db db') db (new_delivery d)
  Returns-fresh absent found =
      Returns-weaken (λ result db' f. Ingested.fresh absent found f) (new_delivery-Returns d db u)

  or_new-Returns :
      (key : Option String) (o : Option DeliveryRow)
      → find_delivery d.provider d.delivery_id db.provider_deliveries ≡ none
      → d.replay_key ≡ key
      → canonical_delivery d.provider d.repository d.replay_key db ≡ o
      → Returns (λ result db'. Ingested d result db db') db (or_new d key o)
  or_new-Returns none none absent e found = Returns-fresh absent found
  or_new-Returns none (some c) absent e found = absurd (no_key e found)
  or_new-Returns (some key) none absent e found = Returns-fresh absent found
  or_new-Returns (some key) (some c) absent e found = alias-Returns key c absent found

  or_known-Returns :
      (o : Option DeliveryRow)
      → find_delivery d.provider d.delivery_id db.provider_deliveries ≡ o
      → Returns (λ result db'. Ingested d result db db') db (or_known d o)
  or_known-Returns (some row) found = known-Returns row found
  or_known-Returns none absent =
      Returns-gets _ _ _ _ (or_new-Returns d.replay_key _ absent refl refl)

  -- What `ingest_event` does, whether it returns or raises, on tables whose tasks have unique keys.
  -- When it returns, one of three: the delivery was known, with the same body and repository, and the
  -- tables are as they were; or its replay key was known with the same body, and tasks and groups are
  -- as they were; or it is new, its group's version was the expected one and goes up by one, every
  -- open task of the group is superseded, every other task keeps its row, the replacement is
  -- inserted, and the delivery recorded. When it raises, the tables are as they were.
  pub ingest_event-Outcome : Outcome (λ result db'. Ingested d result db db') db (ingest_event d)
  unfolding ingest_event
  ingest_event-Outcome =
      Outcome-require _ _ _ _ _
        λ valid. write-Outcome _ _ _ (Returns-gets _ _ _ _ (or_known-Returns _ refl))

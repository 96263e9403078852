-- ===== src/Store/Replacing.antt =====
-- The replacement of `ingest_event` in src/katydid/store.py: its version, its row and its receipt.
use katydid.Base.{
  Exec, List, Option, String, arith, eq_iff, eq_refl, none, refl, some, true, ℕ, ◌+◌, ◌>>=◌, ◌≡◌,
}
use katydid.Json.{Value}
use katydid.Store.Creating.{created-Inserted, insert_task-Returns}
use katydid.Store.Creation.{new_row}
use katydid.Store.Ingest.{Delivery, Receipt, find_version, or_zero, receipt, receipt_task}
use katydid.Store.Loops.{one_Step}
use katydid.Store.Machine.{IsNew, Step, Steps}
use katydid.Store.Outcome.{
  Returns, Returns-bind_assoc, Returns-gets, Returns-modify, Returns-pure-bind, Returns-require,
  Returns-required_task,
}
use katydid.Store.Schema.{Db, DeliveryRow, TaskRow, created, is_terminal}
use katydid.Store.Supersede.{
  add_replacement, next_version, replacement_state, version_matches, write_task_group,
  write_version,
}
use katydid.Store.Tables.{find_task, find_task-append}
use katydid.Store.Transaction.{Task, add_row, log_event}

-- The version that a delivery gives its group: one more than it had, if that was the one expected.
abbrev pub VersionFor : Option String → Delivery → Db → Option ℕ → Type 0
VersionFor none d db v = v ≡ none
VersionFor (some group) d db v =
    (v ≡ some (or_zero (find_version d.repository group db.event_groups) + 1))
    × (version_matches d.expected_group_version
          (or_zero (find_version d.repository group db.event_groups))
        ≡ true)

-- What inserting the replacement leaves as it was, and what it adds.
pub record Added (d : Delivery) (rows : List TaskRow) (payload : Option Value) (db db' : Db)
    : Type 0 where
  pub steps : Steps d.now db db'
  pub kept :
      (j : String) (row : TaskRow)
      → find_task j db.tasks ≡ some row
      → find_task j db'.tasks ≡ some row
  pub replacement :
      (p : Value)
      → payload ≡ some p
      → find_task d.new_id db'.tasks
        ≡ some (new_row d.now d.new_id d.repository p none (replacement_state rows))
  pub groups : db'.event_groups ≡ db.event_groups
  pub deliveries : db'.provider_deliveries ≡ db.provider_deliveries

replacement-IsNew :
    (d : Delivery) (p : Value) (rows : List TaskRow)
    → IsNew d.now (new_row d.now d.new_id d.repository p none (replacement_state rows))
unfolding replacement_state is_terminal
replacement-IsNew d p rows = record {
  no_worker = refl;
  no_lease_epoch = refl;
  no_expiry = refl;
  first_epoch = refl;
  waits = ground arith;
}

module _ (group : Option String) (version : Option ℕ) (d : Delivery) (db : Db) where
  write_task_group-tasks : (write_task_group group version d db).tasks ≡ db.tasks
  write_task_group-tasks = ground arith

  write_task_group-quiet : Step d.now db (write_task_group group version d db)
  write_task_group-quiet = Step.quiet write_task_group-tasks (ground arith) (ground arith)

  write_task_group-groups : (write_task_group group version d db).event_groups ≡ db.event_groups
  write_task_group-groups = ground arith

  pub write_task_group-deliveries :
      (write_task_group group version d db).provider_deliveries ≡ db.provider_deliveries
  write_task_group-deliveries = ground arith

  pub write_version-tasks : (write_version group version d db).tasks ≡ db.tasks
  write_version-tasks = ground arith

  pub write_version-quiet : Step d.now db (write_version group version d db)
  write_version-quiet = Step.quiet write_version-tasks (ground arith) (ground arith)

  pub write_version-deliveries :
      (write_version group version d db).provider_deliveries ≡ db.provider_deliveries
  write_version-deliveries = ground arith

replacement-Added :
    (d : Delivery) (version : Option ℕ) (rows : List TaskRow) (p details : Value) (db : Db)
    → find_task d.new_id db.tasks ≡ none
    → Added d rows (some p) db (
        write_task_group d.group version d (
          log_event d.new_id created
            (replacement_state rows)
            0
            details
            d.now
            (add_row (new_row d.now d.new_id d.repository p none (replacement_state rows)) db)))
unfolding log_event add_row
replacement-Added d version rows p details db absent =
    let row = new_row d.now d.new_id d.repository p none (replacement_state rows) in
    let made =
      log_event d.new_id created (replacement_state rows) 0 details d.now (add_row row db) in
    record {
      steps =
          Steps.next
            (one_Step (
              Step.insert
                (created-Inserted d.now row details db (replacement-IsNew d p rows) absent)))
            (write_task_group-quiet d.group version d made);
      kept = λ j r found.
          rw (write_task_group-tasks d.group version d made)
            (ground (arith, find_task-append j db.tasks row, eq_iff d.new_id j));
      replacement = λ q e.
          rw (write_task_group-tasks d.group version d made)
            (ground (arith, find_task-append d.new_id db.tasks row, eq_refl d.new_id));
      groups = write_task_group-groups d.group version d made;
      deliveries = write_task_group-deliveries d.group version d made;
    }

module _ {A : Type 0} {Q : A → Db → Type 0} {db : Db} (d : Delivery) where
  pub Returns-next_version :
      (group : Option String) (f : Option ℕ → Exec Db A)
      → ((v : Option ℕ) → VersionFor group d db v → Returns Q db (f v))
      → Returns Q db (next_version group d >>= f)
  unfolding next_version
  Returns-next_version none f h = Returns-pure-bind Q db _ _ (h none refl)
  Returns-next_version (some group) f h = Returns-bind_assoc Q db _ _ _ (
      Returns-gets Q db _ _ (
        Returns-bind_assoc Q db _ _ _
          (Returns-require Q db _ _ _ λ matches. Returns-pure-bind Q db _ _ (h _ (refl, matches)))))

  Returns-receipt_task :
      (task_id : Option String) (f : Option Task → Exec Db A)
      → ((task : Option Task) → Returns Q db (f task))
      → Returns Q db (receipt_task task_id >>= f)
  Returns-receipt_task none f h = Returns-pure-bind Q db _ _ (h none)
  Returns-receipt_task (some id) f h =
      Returns-bind_assoc Q db _ _ _
        (Returns-required_task Q db _ _ λ row found. Returns-pure-bind Q db _ _ (h _))

  pub Returns-receipt :
      (row : DeliveryRow) (f : Receipt → Exec Db A)
      → ((r : Receipt)
          → r.task_id ≡ row.task_id
          → r.group_version ≡ row.group_version
          → Returns Q db (f r))
      → Returns Q db (receipt row >>= f)
  unfolding receipt
  Returns-receipt row f h = Returns-bind_assoc Q db _ _ _ (
      Returns-receipt_task row.task_id _ λ task.
        Returns-bind_assoc Q db _ _ _
          (Returns-gets Q db _ _ (Returns-pure-bind Q db _ _ (h _ refl refl))))

  pub Returns-add_replacement :
      (version : Option ℕ) (rows : List TaskRow) (payload : Option Value) (f : Unit {0} → Exec Db A)
      → ((db' : Db) → Added d rows payload db db' → Returns Q db' (f tt))
      → Returns Q db (add_replacement d version rows payload >>= f)
  unfolding add_replacement
  Returns-add_replacement version rows none f h = Returns-pure-bind Q db _ _ (
      h db (record {
        steps = Steps.done;
        kept = λ j row found. found;
        replacement = λ p e. cc;
        groups = refl;
        deliveries = refl;
      }))
  Returns-add_replacement version rows (some p) f h = Returns-bind_assoc Q db _ _ _ (
      insert_task-Returns d.now _ _ _
        λ absent. Returns-modify Q _ _ _ (h _ (replacement-Added d version rows p _ db absent)))

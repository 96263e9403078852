-- ===== src/Store/Supersede.antt =====
-- The part of `ingest_event` of src/katydid/store.py for a new delivery: it supersedes the
-- unfinished tasks of the delivery's group, and creates the task that replaces them.
use katydid.Base.{
  Bool, Exec, List, Option, Result, String, [], any, eqb, err, event_conflict, event_not_found,
  false, gets, if◌then◌else◌, is_hex, lift, modify, negsuc, none, ok, pos, pure, raise, require,
  some, true, value_error, ℕ, ℤ, ◌&&◌, ◌++◌, ◌+◌, ◌>>=◌, ◌>>◌, ◌||◌, ◌∷◌,
}
use katydid.Json.{Fields, Value, bool, end, field, normal, null, num, obj, text}
use katydid.Store.Creation.{insert_task, new_row}
use katydid.Store.Ingest.{
  Delivery, Receipt, add_delivery, alias_delivery, canonical_delivery, find_delivery, find_version,
  group_tasks, known_delivery, or_zero, receipt, set_version,
}
use katydid.Store.Schema.{
  Db, DeliveryRow, Kind, State, TaskRow, cancelled, is_paused, is_unknown_outcome, paused, queued,
  state_name, unresolved,
}
use katydid.Store.Transaction.{
  event_inputs_ok, is_bounded_id, is_object, json, log_event, put_row, without_lease, write,
}

abbrev optional_value : Option String → Value
optional_value none = null
optional_value (some s) = text s

abbrev optional_number : Option ℕ → Value
optional_number none = null
optional_number (some n) = num (pos n)

unfoldable pub superseded_state : State → State
superseded_state s = if is_unknown_outcome s then unresolved else cancelled

-- `result`, the details of the event too
unfoldable pub superseded_result : Delivery → Option ℕ → Option String → State → Value
superseded_result d version replacement s = obj (
    field "reason"
      (text (
        if is_unknown_outcome s
        then "provider delivery superseded a stage with possible external effects"
        else "superseded by a newer provider delivery"))
      (field "provider" (text d.provider) (
        field "delivery_id" (text d.delivery_id) (
          field "group" (optional_value d.group) (
            field "group_version" (optional_number version) (
              field "replacement_task_id" (optional_value replacement) (
                field "previous_state" (text (state_name s))
                  (field "reconciliation_required" (bool (is_unknown_outcome s)) end))))))))

unfoldable pub superseded_row : Delivery → Option ℕ → Option String → TaskRow → TaskRow
superseded_row d version replacement row = without_lease (record row {
  state = superseded_state row.state;
  control_epoch = row.control_epoch + 1;
  result_json = some (normal (superseded_result d version replacement row.state));
  updated_at = d.now;
})

-- The body of the loop over the superseded rows.
unfoldable pub supersede_row : Delivery → Option ℕ → Option String → TaskRow → Db → Db
supersede_row d version replacement row db =
    log_event row.id Kind.superseded (superseded_state row.state) (row.control_epoch + 1)
      (superseded_result d version replacement row.state) d.now
      (put_row (superseded_row d version replacement row) db)

unfoldable pub supersede_rows : Delivery → Option ℕ → Option String → List TaskRow → Db → Db
supersede_rows d version replacement [] db = db
supersede_rows d version replacement (row ∷ rows) db =
    supersede_rows d version replacement rows (supersede_row d version replacement row db)

-- `replacement_requires_reconciliation`
abbrev pub any_unknown : List TaskRow → Bool
any_unknown rows = any (λ r. is_unknown_outcome r.state) rows

-- The state of the replacement: a group that was paused, or has effects to reconcile, stays paused.
unfoldable pub replacement_state : List TaskRow → State
replacement_state rows =
    if any (λ r. is_paused r.state) rows || any_unknown rows then paused else queued

abbrev pub version_matches : Option ℤ → ℕ → Bool
version_matches none current = true
version_matches (some (pos n)) current = eqb n current
version_matches (some (negsuc n)) current = false

-- The version that the delivery gives its group, after the check of the one expected.
unfoldable pub next_version : Option String → Delivery → Exec Db (Option ℕ)
next_version none d = pure none
next_version (some group) d = do
  current ← gets (λ db. or_zero (find_version d.repository group db.event_groups))
  require (version_matches d.expected_group_version current) event_conflict
  pure (some (current + 1))

abbrev pub superseded_by : Option String → Delivery → Db → List TaskRow
superseded_by none d db = []
superseded_by (some group) d db = group_tasks d.repository group db

abbrev pub write_version : Option String → Option ℕ → Delivery → Db → Db
write_version (some group) (some version) d db = record db {
  event_groups = set_version d.now d.repository group version db.event_groups;
}
write_version _ _ d db = db

abbrev pub write_task_group : Option String → Option ℕ → Delivery → Db → Db
write_task_group (some group) (some version) d db = record db {
  event_task_groups =
      db.event_task_groups
      ++ record {
        task_id = d.new_id;
        repository = d.repository;
        group_key = group;
        group_version = version;
        created_at = d.now;
      }
        ∷ [];
}
write_task_group _ _ d db = db

abbrev reconciliation_fields : Bool → Fields
reconciliation_fields false = end
reconciliation_fields true =
    field "reconciliation_required" (bool true)
      (field "paused_reason" (text "a superseded task has a possible unknown external outcome") end)

-- The replacement task, where the delivery has a payload.
unfoldable pub add_replacement :
    Delivery → Option ℕ → List TaskRow → Option Value → Exec Db (Unit {0})
add_replacement d version rows none = pure tt
add_replacement d version rows (some payload_json) = do
  insert_task d.now (new_row d.now d.new_id d.repository payload_json none (replacement_state rows))
      (obj (
        field "provider" (text d.provider) (
          field "delivery_id" (text d.delivery_id) (
            field "group" (optional_value d.group) (
              field "group_version" (optional_number version)
                (reconciliation_fields (any_unknown rows)))))))
  modify (write_task_group d.group version d)

abbrev pub payload_input : Option Value → Result (Option Value)
payload_input none = ok none
payload_input (some v) =
    if is_object v then elim (json v) [ ok w ↦ ok (some w) | err e ↦ err e ] else err value_error

abbrev pub replacement_id : String → Option Value → Option String
replacement_id new_id none = none
replacement_id new_id (some payload_json) = some new_id

abbrev pub write_replay : Option String → Delivery → Db → Db
write_replay none d db = db
write_replay (some key) d db = record db {
  provider_delivery_replays =
      db.provider_delivery_replays
      ++ record { provider = d.provider; delivery_id = d.delivery_id; replay_key = key } ∷ [];
  provider_replays =
      db.provider_replays
      ++ record {
        provider = d.provider;
        repository = d.repository;
        replay_key = key;
        canonical_delivery_id = d.delivery_id;
        created_at = d.now;
      }
        ∷ [];
}

-- The row of a new delivery.
abbrev pub delivery_row : Delivery → Option ℕ → Option String → DeliveryRow
delivery_row d version replacement = record {
  provider = d.provider;
  delivery_id = d.delivery_id;
  body_sha256 = d.body_sha256;
  repository = d.repository;
  group_key = d.group;
  group_version = version;
  task_id = replacement;
  created_at = d.now;
}

unfoldable pub new_delivery : Delivery → Exec Db (Receipt × Bool)
new_delivery d = do
  payload_json ← lift (payload_input d.payload)
  version ← next_version d.group d
  rows ← gets (superseded_by d.group d)
  let replacement = replacement_id d.new_id payload_json
  modify (supersede_rows d version replacement rows)
  modify (write_version d.group version d)
  add_replacement d version rows payload_json
  modify (add_delivery (delivery_row d version replacement))
  modify (write_replay d.replay_key d)
  made ← receipt (delivery_row d version replacement)
  pure (made, false)

abbrev pub or_new : Delivery → Option String → Option DeliveryRow → Exec Db (Receipt × Bool)
or_new d (some key) (some canonical) = alias_delivery d key canonical
or_new d _ _ = new_delivery d

abbrev pub or_known : Delivery → Option DeliveryRow → Exec Db (Receipt × Bool)
or_known d (some existing) = known_delivery d existing
or_known d none = do
  canonical ← gets (canonical_delivery d.provider d.repository d.replay_key)
  or_new d d.replay_key canonical

-- The receipt, with its member `duplicate`.
unfoldable pub ingest_event : Delivery → Exec Db (Receipt × Bool)
ingest_event d = do
  require
      (event_inputs_ok d.provider d.delivery_id d.body_sha256 d.repository d.group
        d.expected_group_version d.replay_key)
      value_error
  write do
    existing ← gets (λ db. find_delivery d.provider d.delivery_id db.provider_deliveries)
    or_known d existing

abbrev pub or_not_found : Option DeliveryRow → Exec Db Receipt
or_not_found none = raise event_not_found
or_not_found (some row) = receipt row

unfoldable pub get_event : String → String → Exec Db Receipt
get_event provider delivery_id = do
  require (is_bounded_id 64 provider && is_bounded_id 256 delivery_id) value_error
  row ← gets (λ db. find_delivery provider delivery_id db.provider_deliveries)
  or_not_found row

unfoldable pub get_replay : String → String → String → Exec Db Receipt
get_replay provider repository replay_key = do
  require (is_bounded_id 64 provider && is_bounded_id 512 repository && is_hex 64 replay_key)
      value_error
  row ← gets (canonical_delivery provider repository (some replay_key))
  or_not_found row

unfoldable pub group_version : String → String → Exec Db ℕ
group_version repository group = do
  require (is_bounded_id 512 repository && is_bounded_id 256 group) value_error
  gets (λ db. or_zero (find_version repository group db.event_groups))

-- ===== src/Store/Transaction.antt =====
-- The private helpers of src/katydid/store.py: transactions, the required row, the event log, the
-- checks of arguments, and the view of a row that callers get.
use katydid.Base.{
  ℕ, suc, ◌+◌, ℤ, pos, String, Bool, true, false, not, ◌&&◌, ◌||◌, Option, none, some, List, [],
  ◌∷◌, ◌++◌, any, length, codes, is_stripped, is_hex, ltb, leb, eqb, ◌==◌, if◌then◌else◌, Exec,
  Result, ok, err, value_error, task_not_found, stale_lease, finish, pure, require, ◌>>=◌, ◌>>◌,
}
use katydid.Json.{Value, obj, serializable, normal}
use katydid.Store.Schema.{State, Kind, TaskRow, EventRow, Db, Lease}
use katydid.Store.Tables.{find_task, set_row}

-- `_write`: BEGIN IMMEDIATE, the body, then COMMIT, or ROLLBACK where the body raises.
unfoldable pub write : {A : Type 0} → Exec Db A → Exec Db A
unfolding finish
write body db = finish db (body db)

abbrev pub required : Option TaskRow → Result TaskRow
required none = err task_not_found
required (some row) = ok row

-- `_required_task`
unfoldable pub required_task : String → Exec Db TaskRow
required_task task_id db = (required (find_task task_id db.tasks), db)

-- `_event`. The details that the store makes itself hold only texts, numbers and Booleans, which
-- `json.dumps` takes; those of a caller are checked by `json` before.
unfoldable pub log_event : String → Kind → State → ℕ → Value → ℕ → Db → Db
log_event task_id kind state epoch details created_at db =
    let event : EventRow = record {
      event_id = db.event_sequence + 1;
      task_id = task_id;
      kind = kind;
      state = state;
      epoch = epoch;
      details_json = normal details;
      created_at = created_at;
    } in
    record db { task_events = db.task_events ++ event ∷ []; event_sequence = db.event_sequence + 1 }

-- UPDATE tasks SET … WHERE id = ?
unfoldable pub put_row : TaskRow → Db → Db
put_row row db = record db { tasks = set_row row db.tasks }

-- INSERT INTO tasks
unfoldable pub add_row : TaskRow → Db → Db
add_row row db = record db { tasks = db.tasks ++ row ∷ [] }

-- `_json`, followed by `json.loads` where the column is read.
unfoldable pub json : Value → Result Value
json v = if serializable v then ok (normal v) else err value_error

unfoldable pub is_object : Value → Bool
is_object (obj fs) = true
is_object _ = false

-- `_validate_ttl`, with the number that it accepts
unfoldable pub validate_ttl : ℤ → Result ℕ
validate_ttl (pos (suc n)) = ok (suc n)
validate_ttl _ = err value_error

-- `_bounded_id`
unfoldable pub is_bounded_id : ℕ → String → Bool
unfolding is_stripped
is_bounded_id maximum value =
    not (value == "")
    && is_stripped value
    && leb (length (codes value)) maximum
    && not (any (λ c. ltb c 32 || eqb c 127) (codes value))

abbrev pub optional : (String → Bool) → Option String → Bool
optional p none = true
optional p (some s) = p s

abbrev version_fits : Option String → Option ℤ → Bool
version_fits group none = true
version_fits none (some v) = false
version_fits (some g) (some (pos n)) = true
version_fits (some g) (some (ℤ.negsuc n)) = false

-- `_event_inputs`
unfoldable pub event_inputs_ok :
    (provider delivery_id body_sha256 repository : String) (group : Option String)
    (expected_group_version : Option ℤ) (replay_key : Option String)
    → Bool
unfolding is_bounded_id is_hex
event_inputs_ok provider delivery_id body_sha256 repository group expected replay_key =
    is_bounded_id 64 provider
    && is_bounded_id 256 delivery_id
    && is_bounded_id 512 repository
    && is_hex 64 body_sha256
    && optional (is_hex 64) replay_key
    && optional (is_bounded_id 256) group
    && version_fits group expected

-- `lease_expires_at IS NOT NULL AND lease_expires_at > now`
unfoldable pub is_live : ℕ → TaskRow → Bool
is_live now row = elim row.lease_expires_at [ none ↦ false | some t ↦ ltb now t ]

-- `_validate_lease`
abbrev pub holds_text : Option String → String → Bool
holds_text none s = false
holds_text (some t) s = t == s

abbrev pub holds_epoch : Option ℕ → ℕ → Bool
holds_epoch none n = false
holds_epoch (some m) n = eqb m n

unfoldable pub is_held_by : Lease → ℕ → TaskRow → Bool
is_held_by lease now row =
    row.id == lease.task_id
    && holds_text row.lease_worker lease.worker
    && holds_epoch row.lease_epoch lease.epoch
    && eqb row.control_epoch lease.epoch
    && is_live now row

-- The row of a lease that is still active.
unfoldable pub leased_task : ℕ → Lease → Exec Db TaskRow
leased_task now lease = do
  row ← required_task lease.task_id
  require (is_held_by lease now row) stale_lease
  pure row

pub record LeaseView : Type 0 where
  pub worker : String
  pub epoch : Option ℕ
  pub expires_at : Option ℕ

pub record Task : Type 0 where
  pub id : String
  pub repository : String
  pub payload : Value
  pub instructions : List String
  pub result : Option Value
  pub idempotency_key : Option String
  pub state : State
  pub epoch : ℕ
  pub lease : Option LeaseView
  pub created_at : ℕ
  pub updated_at : ℕ

-- `_task`
unfoldable pub to_task : TaskRow → Task
to_task row = record {
  id = row.id;
  repository = row.repository;
  payload = row.payload_json;
  instructions = row.instructions_json;
  result = row.result_json;
  idempotency_key = row.idempotency_key;
  state = row.state;
  epoch = row.control_epoch;
  lease = (elim row.lease_worker [
    | none ↦ none
    | some w ↦
        some (record { worker = w; epoch = row.lease_epoch; expires_at = row.lease_expires_at })
  ]);
  created_at = row.created_at;
  updated_at = row.updated_at;
}

-- SET lease_worker = NULL, lease_epoch = NULL, lease_expires_at = NULL
abbrev pub without_lease : TaskRow → TaskRow
without_lease row = record row { lease_worker = none; lease_epoch = none; lease_expires_at = none }

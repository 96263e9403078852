-- ===== src/Store/Ingest.antt =====
-- Provider deliveries in src/katydid/store.py: `ingest_event`, `get_event`, `get_replay` and
-- `group_version`.
use katydid.Base.{
  Bool, Exec, List, Option, String, [], any, event_conflict, false, gets, if◌then◌else◌, modify,
  none, not, pure, refuse, require, select, some, true, ℕ, ℤ, ◌&&◌, ◌++◌, ◌==◌, ◌>>=◌, ◌>>◌, ◌∷◌,
}
use katydid.Json.{Value}
use katydid.Store.Invariant.{replay}
use katydid.Store.Schema.{
  Db, DeliveryReplayRow, DeliveryRow, GroupRow, ReplayRow, TaskGroupRow, TaskRow, is_terminal,
}
use katydid.Store.Tables.{sort_rows}
use katydid.Store.Transaction.{Task, required_task, to_task}

-- WHERE provider = ? AND delivery_id = ?
unfoldable pub find_delivery : String → String → List DeliveryRow → Option DeliveryRow
find_delivery provider delivery_id [] = none
find_delivery provider delivery_id (r ∷ rs) =
    if r.provider == provider && r.delivery_id == delivery_id
    then some r
    else find_delivery provider delivery_id rs

unfoldable pub find_delivery_replay : String → String → List DeliveryReplayRow → Option String
find_delivery_replay provider delivery_id [] = none
find_delivery_replay provider delivery_id (r ∷ rs) =
    if r.provider == provider && r.delivery_id == delivery_id
    then some r.replay_key
    else find_delivery_replay provider delivery_id rs

-- provider_replays joined with the canonical delivery that each names
unfoldable pub find_canonical :
    String → String → String → List ReplayRow → List DeliveryRow → Option DeliveryRow
find_canonical provider repository replay_key [] deliveries = none
find_canonical provider repository replay_key (r ∷ rs) deliveries =
    let rest = find_canonical provider repository replay_key rs deliveries in
    if r.provider == provider && r.repository == repository && r.replay_key == replay_key
    then (elim (find_delivery r.provider r.canonical_delivery_id deliveries) [
      | some d ↦ some d
      | none ↦ rest
    ])
    else rest

unfoldable pub canonical_delivery : String → String → Option String → Db → Option DeliveryRow
canonical_delivery provider repository none db = none
canonical_delivery provider repository (some key) db =
    find_canonical provider repository key db.provider_replays db.provider_deliveries

unfoldable pub find_version : String → String → List GroupRow → Option ℕ
find_version repository group [] = none
find_version repository group (r ∷ rs) =
    if r.repository == repository && r.group_key == group
    then some r.version
    else find_version repository group rs

abbrev pub or_zero : Option ℕ → ℕ
or_zero none = 0
or_zero (some n) = n

-- INSERT INTO event_groups … ON CONFLICT DO UPDATE
unfoldable pub set_version : ℕ → String → String → ℕ → List GroupRow → List GroupRow
set_version now repository group version [] =
    record { repository = repository; group_key = group; version = version; updated_at = now } ∷ []
set_version now repository group version (r ∷ rs) =
    if r.repository == repository && r.group_key == group
    then record r { version = version; updated_at = now } ∷ rs
    else r ∷ set_version now repository group version rs

-- event_task_groups.task_id = tasks.id, in the group
unfoldable pub in_group : String → String → List TaskGroupRow → TaskRow → Bool
in_group repository group rows row =
    any (λ g. g.task_id == row.id && g.repository == repository && g.group_key == group) rows

-- The unfinished tasks of a group, in the order of the query.
unfoldable pub group_tasks : String → String → Db → List TaskRow
group_tasks repository group db = sort_rows (
    select (λ r. in_group repository group db.event_task_groups r && not (is_terminal r.state))
      db.tasks)

pub record Receipt : Type 0 where
  pub provider : String
  pub delivery_id : String
  pub body_sha256 : String
  pub repository : String
  pub group : Option String
  pub group_version : Option ℕ
  pub task_id : Option String
  pub task : Option Task
  pub replay_key : Option String
  pub created_at : ℕ

abbrev pub receipt_task : Option String → Exec Db (Option Task)
receipt_task none = pure none
receipt_task (some id) = do row ← required_task id; pure (some (to_task row))

-- `_receipt`
unfoldable pub receipt : DeliveryRow → Exec Db Receipt
receipt row = do
  task ← receipt_task row.task_id
  replay ←
      gets (λ db. find_delivery_replay row.provider row.delivery_id db.provider_delivery_replays)
  pure (record {
    provider = row.provider;
    delivery_id = row.delivery_id;
    body_sha256 = row.body_sha256;
    repository = row.repository;
    group = row.group_key;
    group_version = row.group_version;
    task_id = row.task_id;
    task = task;
    replay_key = replay;
    created_at = row.created_at;
  })

abbrev pub add_delivery : DeliveryRow → Db → Db
add_delivery row db = record db { provider_deliveries = db.provider_deliveries ++ row ∷ [] }

abbrev pub add_delivery_replay : DeliveryReplayRow → Db → Db
add_delivery_replay row db = record db {
  provider_delivery_replays = db.provider_delivery_replays ++ row ∷ [];
}

-- The arguments of `ingest_event`, and what it reads of the clock and of `uuid.uuid4()`.
pub record Delivery : Type 0 where
  pub now : ℕ
  pub new_id : String
  pub provider : String
  pub delivery_id : String
  pub body_sha256 : String
  pub repository : String
  pub payload : Option Value
  pub group : Option String
  pub expected_group_version : Option ℤ
  pub replay_key : Option String

abbrev pub disagrees : Option String → Option String → Bool
disagrees none given = false
disagrees (some key) none = true
disagrees (some key) (some given) = not (key == given)

-- A delivery ID that is known: the receipt again, if the content and the scope are the same.
unfoldable pub known_delivery : Delivery → DeliveryRow → Exec Db (Receipt × Bool)
known_delivery d existing = do
  known ← receipt existing
  require (existing.body_sha256 == d.body_sha256 && existing.repository == d.repository)
      event_conflict
  refuse (disagrees known.replay_key d.replay_key) event_conflict
  pure (known, true)

-- A replay key that is known: an alias of the canonical delivery.
unfoldable pub alias_delivery : Delivery → String → DeliveryRow → Exec Db (Receipt × Bool)
alias_delivery d key canonical = do
  require (canonical.body_sha256 == d.body_sha256) event_conflict
  let alias : DeliveryRow = record {
    provider = d.provider;
    delivery_id = d.delivery_id;
    body_sha256 = canonical.body_sha256;
    repository = d.repository;
    group_key = canonical.group_key;
    group_version = canonical.group_version;
    task_id = canonical.task_id;
    created_at = d.now;
  }
  modify (add_delivery alias)
  modify (
      add_delivery_replay
        (record { provider = d.provider; delivery_id = d.delivery_id; replay_key = key }))
  aliased ← receipt alias
  pure (aliased, true)

-- ===== src/Store/Schema.antt =====
-- The tables that `Store.__init__` of src/katydid/store.py creates, as lists of rows in the order
-- of insertion; the states of a task, and its leases. A time is a number of clock ticks.
use katydid.Base.{
  Bool, List, Option, String, [], any, arith, false, if◌then◌else◌, none, refl, some, true, ℕ, ◌*◌,
  ◌==◌, ◌∷◌, ◌≡◌,
}
use katydid.Json.{Value}

-- `time.time()` counts seconds; a second is a million ticks here.
abbrev pub seconds : ℕ → ℕ
seconds n = n * 1000000

pub data State : Type 0 where
  queued discovered preparing planning testing diagnosing executing verifying repairing : State
  reviewing eligible merging publishing deploying releasing monitoring paused : State
  completed failed cancelled unresolved : State

-- TERMINAL_STATES
unfoldable pub is_terminal : State → Bool
is_terminal completed = true
is_terminal failed = true
is_terminal cancelled = true
is_terminal unresolved = true
is_terminal _ = false

-- UNKNOWN_OUTCOME_STATES
unfoldable pub is_unknown_outcome : State → Bool
is_unknown_outcome publishing = true
is_unknown_outcome deploying = true
is_unknown_outcome monitoring = true
is_unknown_outcome _ = false

unfoldable pub is_paused : State → Bool
is_paused paused = true
is_paused _ = false

unfoldable pub is_queued : State → Bool
is_queued queued = true
is_queued _ = false

unfoldable pub is_monitoring : State → Bool
is_monitoring monitoring = true
is_monitoring _ = false

-- The text in the column `state`.
unfoldable pub state_name : State → String
state_name queued = "queued"
state_name discovered = "discovered"
state_name preparing = "preparing"
state_name planning = "planning"
state_name testing = "testing"
state_name diagnosing = "diagnosing"
state_name executing = "executing"
state_name verifying = "verifying"
state_name repairing = "repairing"
state_name reviewing = "reviewing"
state_name eligible = "eligible"
state_name merging = "merging"
state_name publishing = "publishing"
state_name deploying = "deploying"
state_name releasing = "releasing"
state_name monitoring = "monitoring"
state_name paused = "paused"
state_name completed = "completed"
state_name failed = "failed"
state_name cancelled = "cancelled"
state_name unresolved = "unresolved"

-- WORKFLOW_STATES: every state but `paused`.
abbrev workflow_states : List State
workflow_states =
    queued ∷ discovered ∷ preparing ∷ planning ∷ testing ∷ diagnosing ∷ executing ∷ verifying
    ∷ repairing ∷ reviewing ∷ eligible ∷ merging ∷ publishing ∷ deploying ∷ releasing ∷ monitoring
    ∷ completed ∷ failed ∷ cancelled ∷ unresolved ∷ []

state_named : String → List State → Option State
state_named name [] = none
state_named name (s ∷ ss) = if state_name s == name then some s else state_named name ss

-- `state in WORKFLOW_STATES`, with the state that is named
unfoldable pub workflow_state : String → Option State
unfolding state_named state_name
workflow_state name = state_named name workflow_states

-- CONTROL_ACTIONS
pub data Action : Type 0 where
  pause resume cancel steer : Action

-- The column `kind` of task_events.
pub data Kind : Type 0 where
  created claimed lease_renewed ai_call_reserved release_success transition released : Kind
  lease_expired superseded : Kind
  control : Action → Kind

-- A text column `…_json` holds the value that `json.loads` reads from it.
pub record TaskRow : Type 0 where
  pub id : String
  pub repository : String
  pub payload_json : Value
  pub instructions_json : List String
  pub result_json : Option Value
  pub idempotency_key : Option String
  pub state : State
  pub control_epoch : ℕ
  pub lease_worker : Option String
  pub lease_epoch : Option ℕ
  pub lease_expires_at : Option ℕ
  pub created_at : ℕ
  pub updated_at : ℕ

pub record EventRow : Type 0 where
  pub event_id : ℕ
  pub task_id : String
  pub kind : Kind
  pub state : State
  pub epoch : ℕ
  pub details_json : Value
  pub created_at : ℕ

pub record GroupRow : Type 0 where
  pub repository : String
  pub group_key : String
  pub version : ℕ
  pub updated_at : ℕ

pub record TaskGroupRow : Type 0 where
  pub task_id : String
  pub repository : String
  pub group_key : String
  pub group_version : ℕ
  pub created_at : ℕ

pub record DeliveryRow : Type 0 where
  pub provider : String
  pub delivery_id : String
  pub body_sha256 : String
  pub repository : String
  pub group_key : Option String
  pub group_version : Option ℕ
  pub task_id : Option String
  pub created_at : ℕ

pub record ReplayRow : Type 0 where
  pub provider : String
  pub repository : String
  pub replay_key : String
  pub canonical_delivery_id : String
  pub created_at : ℕ

pub record DeliveryReplayRow : Type 0 where
  pub provider : String
  pub delivery_id : String
  pub replay_key : String

-- `event_sequence` is the last value of the AUTOINCREMENT column event_id.
pub record Db : Type 0 where
  pub tasks : List TaskRow
  pub task_events : List EventRow
  pub event_sequence : ℕ
  pub event_groups : List GroupRow
  pub event_task_groups : List TaskGroupRow
  pub provider_deliveries : List DeliveryRow
  pub provider_replays : List ReplayRow
  pub provider_delivery_replays : List DeliveryReplayRow

-- A new database file.
abbrev pub new_db : Db
new_db = record {
  tasks = [];
  task_events = [];
  event_sequence = 0;
  event_groups = [];
  event_task_groups = [];
  provider_deliveries = [];
  provider_replays = [];
  provider_delivery_replays = [];
}

pub record Lease : Type 0 where
  pub task_id : String
  pub worker : String
  pub epoch : ℕ
  pub expires_at : ℕ

-- The names of the workflow states are read back, and `paused` is not a workflow state.
pub workflow_state-state_name :
    (s : State) → workflow_state (state_name s) ≡ (if is_paused s then none else some s)
unfolding workflow_state state_name is_paused
workflow_state-state_name queued = refl
workflow_state-state_name _ = refl

state_named-ne-paused :
    (name : String) (ss : List State) (s : State)
    → any is_paused ss ≡ false
    → state_named name ss ≡ some s
    → is_paused s ≡ false
unfolding state_named
state_named-ne-paused name [] s h e = cc
state_named-ne-paused name (x ∷ xs) s h e = ground (arith, state_named-ne-paused name xs s)

pub workflow_state-ne-paused :
    (name : String) (s : State) → workflow_state name ≡ some s → is_paused s ≡ false
workflow_state-ne-paused name s h =
    state_named-ne-paused name workflow_states s (unfold is_paused in refl)
      (unfold workflow_state in h)

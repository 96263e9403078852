-- ===== src/Controller/Setting.antt =====
-- What src/katydid/controller.py works with: the configuration of src/katydid/fleet.py, the plan, run
-- and AI answers that it gets, and the state of one call of `execute`.
use katydid.Base.{Bool, Exception, List, Option, Result, String, ℕ, ℤ}
use katydid.Environment.Session.{EnvironmentResult, PlannedEnvironment}
use katydid.Evidence.Results.{CheckKind, PlannedCheck}
use katydid.Json.{Fields, Value}
use katydid.Store.Schema.{Db, EventRow}
use katydid.Tasks.{Stage, TaskRequest}

-- `Check` of src/katydid/profile.py, less the stages.
pub record Check : Type 0 where
  pub id : String
  pub kind : CheckKind
  pub argv : List String
  pub working_directory : String
  pub timeout_seconds : ℕ
  pub required : Bool
  pub tool : Option String

pub data DeliveryMode : Type 0 where
  no_delivery local github : DeliveryMode

pub record DeliveryConfig : Type 0 where
  pub mode : DeliveryMode
  pub github_repository : Option String
  pub auto_merge : Bool
  pub github_required_checks : List String

pub record ReleaseConfig : Type 0 where
  pub auto_deploy : Bool
  pub deploy : Check
  pub health : Check
  pub rollback : Check

-- The fields of `RepositoryConfig` that the controller uses itself. `isolation_required` is the
-- field `required` of `isolation_policy`.
pub record RepositoryConfig : Type 0 where
  pub id : String
  pub source : String
  pub base_branch : String
  pub profile : String
  pub context_paths : List String
  pub editable_paths : List String
  pub requirements : String
  pub repair_attempts : ℕ
  pub delivery : DeliveryConfig
  pub release : Option ReleaseConfig
  pub isolation_required : Option Bool

-- The fields of `FleetConfig` that the controller uses, with the digest of the file.
pub record Fleet : Type 0 where
  pub repositories : List RepositoryConfig
  pub max_calls_per_task : ℤ
  pub max_context_bytes : ℕ
  pub digest : String

-- `GitWorkspace`
pub record GitWorkspace : Type 0 where
  pub path : String
  pub source : String
  pub base_branch : String
  pub base_sha : String
  pub branch : String

-- The fields of `Plan` that the controller and the runner read or set; `isolated` tells that
-- `isolation` is not None.
pub record Plan : Type 0 where
  pub repository : String
  pub stage : Stage
  pub root : String
  pub profile_sha256 : String
  pub checks : List PlannedCheck
  pub environment : Option PlannedEnvironment
  pub isolated : Bool

-- The fields of the dictionary `isolation` of a run.
pub record Isolation : Type 0 where
  pub ready : Bool
  pub cleanup_complete : Bool
  pub errors : List String

-- The fields of `Run` that the controller reads, with the dictionary that `_evidence` makes of it.
pub record Run : Type 0 where
  pub passed : Bool
  pub isolation : Option Isolation
  pub environment : Option EnvironmentResult
  pub shown : Value

pub record Diagnosis : Type 0 where
  pub repairable : Bool
  pub dump : Value

pub record Repair : Type 0 where
  pub edits : List (String × String)

pub record Review : Type 0 where
  pub approved : Bool
  pub concerns : List String
  pub dump : Value

pub data Role : Type 0 where
  diagnosis repair review : Role

unfoldable pub role_name : Role → String
role_name diagnosis = "diagnosis"
role_name Role.repair = "repair"
role_name review = "review"

pub record PullRequest : Type 0 where
  pub number : ℕ
  pub dump : Value

-- What a call of `execute` has seen and done, apart from the evidence.
pub data Entry : Type 0 where
  -- a call of the store, with the rows that it has appended to task_events
  stored : List EventRow → Entry
  -- a call of the AI for a task, with its context; a review, with the context that it answers
  asked : String → Role → Fields → Entry
  review_is : Fields → Review → Entry
  -- the head of the base branch, and the diff of the checkout with the same text stripped
  head_is : String → Entry
  diff_is : String → String → Entry
  -- what Git shows as the change of a commit
  committed_diff_is : String → String → Entry
  -- the end of a run of a plan: its stage and its gate
  ran : Stage → Bool → Entry
  -- the effects outside: publication, a pull request, a merge, a hook of the release, the record of
  -- its success, with the revision
  published requested merged recorded : String → Entry
  hook_started : Check → String → Entry
  hook_ended : Check → Bool → Entry

-- The state of a call: the store's tables, the dictionary `evidence`, what was done (newest first),
-- and the number of answers it has had from the world.
pub record Work : Type 0 where
  pub db : Db
  pub evidence : Fields
  pub log : List Entry
  pub asked_count : ℕ

-- The answers of the world to the question `n`: the clock, what other connections and the
-- heartbeat have committed, new identifiers, the digest of the policy file, whether the worker shall stop, and the
-- outcomes of the functions of the other modules and of Git.
pub record World : Type 0 where
  pub now : ℕ → ℕ
  pub others : ℕ → Db → Db
  pub new_id : ℕ → String
  pub policy_sha256 : ℕ → Result String
  pub stopped : ℕ → Bool
  pub make_folder : ℕ → Result (Unit {0})
  pub write_json : ℕ → Result (Unit {0})
  pub parse_request : Value → Result TaskRequest
  pub valid_ref : String → Bool
  pub source_head : ℕ → RepositoryConfig → Result String
  pub source_revision : ℕ → RepositoryConfig → String → Result String
  pub prepare_workspace : ℕ → RepositoryConfig → Option String → Option String → Result GitWorkspace
  pub git : ℕ → GitWorkspace → List String → Result String
  pub make_plan : ℕ → GitWorkspace → RepositoryConfig → Stage → Result Plan
  pub enforce_policy : RepositoryConfig → Plan → Result (Unit {0})
  pub snapshot_files : ℕ → GitWorkspace → List String → Option ℕ → Result (List (String × String))
  pub run_plan : ℕ → Plan → Result Run
  pub create_provider : ℕ → Result (Unit {0})
  pub diagnose : ℕ → Fields → Result Diagnosis
  pub propose : ℕ → Fields → Result Repair
  pub judge : ℕ → Fields → Result Review
  pub apply_edits : ℕ → GitWorkspace → List (String × String) → List String → Result (Unit {0})
  pub diff : ℕ → GitWorkspace → Result String
  pub commit : ℕ → GitWorkspace → Result String
  pub publish_local : ℕ → GitWorkspace → Result String
  pub merge_local : ℕ → GitWorkspace → RepositoryConfig → Result String
  pub open_pull_request : ℕ → GitWorkspace → String → RepositoryConfig → Result PullRequest
  pub wait_pull_request : ℕ → String → ℕ → String → List String → Result Value
  pub merge_pull_request : ℕ → String → ℕ → String → Result String
  pub wait_commit_checks : ℕ → String → String → List String → Result Value
  pub hook_directory : ℕ → GitWorkspace → String → Result (Option String)
  pub release_directory : String → String
  pub replace : (text old new : String) → String
  pub sorted_set : List String → List String
  pub splitlines : String → List String
  pub strip : String → String
  pub release_directories : ℕ → Result (Unit {0})
  pub write_pointer : ℕ → Result (Unit {0})
  pub describe : Exception → String

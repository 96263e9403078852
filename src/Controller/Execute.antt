-- ===== src/Controller/Execute.antt =====
-- `Controller.execute` and `work_once` of src/katydid/controller.py.
use katydid.Base.{
  Bool, Exec, List, Option, Result, String, [], attempt, concat, controller_error, err, false, gets,
  if◌then◌else◌, is_nil, lift, modify, none, not, ok, pos, profile_error, pure, raise, refuse,
  require, select, some, stale_lease, true, ◌&&◌, ◌==◌, ◌>>=◌, ◌>>◌, ◌||◌, ◌∷◌,
}
use katydid.Controller.Delivering.{deliver_candidate, test_release}
use katydid.Controller.Releasing.{current, release_configured}
use katydid.Controller.Repairing.{repair_candidate}
use katydid.Controller.Setting.{
  Fleet, GitWorkspace, Plan, ReleaseConfig, RepositoryConfig, Run, Work, World,
}
use katydid.Controller.Steps.{
  active, ask, assert_files, call_store, elem, ensure_environment, enter, file_fields, fresh,
  get_key, is_text, put, read_diff_of, run_checked, set_key, stage_plan,
}
use katydid.Json.{Fields, Value, end, field, null, num, obj, text}
use katydid.Store.Creation.{get_task}
use katydid.Store.Leases.{assert_active, release, transition}
use katydid.Store.Schema.{
  Lease, State, completed, deploying, failed, monitoring, preparing, publishing, state_name,
  testing, unresolved,
}
use katydid.Store.Transaction.{Task}
use katydid.Tasks.{
  TaskRequest, is_merge_stage, is_pull_ref, is_release_mode, is_repair_mode, mode_name, stage_name,
  validated,
}

abbrev has_repository_id : String → RepositoryConfig → Bool
has_repository_id name repo = repo.id == name

-- `FleetConfig.repository`
unfoldable pub repository_named : String → List RepositoryConfig → Result RepositoryConfig
repository_named name [] = err profile_error
repository_named name (r ∷ rs) = if has_repository_id name r then ok r else repository_named name rs

abbrev is_isolated : Option Bool → Bool
is_isolated none = false
is_isolated (some required) = required

abbrev pub has_release : Option ReleaseConfig → Bool
has_release none = false
has_release (some release) = true

-- `request.source_sha in (None, request.base_sha)`
abbrev pub is_none_or : Option String → String → Bool
is_none_or none sha = true
is_none_or (some s) sha = s == sha

-- `_request_policy`
unfoldable pub request_policy : RepositoryConfig → TaskRequest → Result (Unit {0})
request_policy repo request =
    if is_pull_ref request.source_ref && not (is_isolated repo.isolation_required)
    then err controller_error
    else if is_repair_mode request.mode && not (is_none_or request.source_sha request.base_sha)
    then err controller_error
    else if is_release_mode request.mode
        && (not (has_release repo.release) || not (is_none_or request.source_sha request.base_sha))
    then err controller_error
    else ok tt

abbrev pub deploys_itself : Option ReleaseConfig → Bool
deploys_itself none = false
deploys_itself (some release) = release.auto_deploy

unfoldable pub discovery_key : RepositoryConfig → String → String → String → String → String
discovery_key repo head digest stage period =
    concat ("discover:" ∷ repo.id ∷ ":" ∷ head ∷ ":" ∷ digest ∷ ":" ∷ stage ∷ ":" ∷ period ∷ [])

-- `watched_auto_deploy`
unfoldable pub watched_auto_deploy : Fleet → RepositoryConfig → TaskRequest → Task → Bool
watched_auto_deploy fleet repo request task =
    deploys_itself repo.release
    && is_merge_stage request.stage
    && is_repair_mode request.mode
    && is_text task.idempotency_key
        (discovery_key repo request.base_sha fleet.digest "merge" "None")

abbrev fields_of : Value → Fields
fields_of (obj fs) = fs
fields_of _ = end

abbrev is_text_value : Option Value → String → Bool
is_text_value (some (text s)) t = s == t
is_text_value _ t = false

abbrev or_branch : Option String → String → String
or_branch none branch = concat ("refs/heads/" ∷ branch ∷ [])
or_branch (some ref) branch = if ref == "" then concat ("refs/heads/" ∷ branch ∷ []) else ref

abbrev pub event_value : Option Fields → Value
event_value none = null
event_value (some fs) = obj fs

unfoldable pub is_external : State → Bool
is_external publishing = true
is_external deploying = true
is_external monitoring = true
is_external _ = false

module _ (world : World) (fleet : Fleet) (lease : Lease) where
  unfoldable pub describe_workspace :
      RepositoryConfig → TaskRequest → GitWorkspace → Exec Work String
  describe_workspace repo request workspace = do
    source_sha ← ask (λ n. world.git n workspace ("rev-parse" ∷ "HEAD" ∷ []))
    put "workspace" (text workspace.path)
    put "base_sha" (text workspace.base_sha)
    put "branch" (text workspace.branch)
    put "config_sha256" (text fleet.digest)
    put "stage" (text (stage_name request.stage))
    put "mode" (text (mode_name request.mode))
    put "source_sha" (text source_sha)
    put "source_ref" (text (or_branch request.source_ref repo.base_branch))
    put "event" (event_value request.event)
    pure source_sha

  abbrev pub is_editable : RepositoryConfig → String → Bool
  is_editable repo path = elem path repo.editable_paths

  -- A pull request does not change the profile or the context that is not editable.
  unfoldable pub protect_context :
      RepositoryConfig → TaskRequest → GitWorkspace → String → Exec Work (Unit {0})
  protect_context repo request workspace source_sha =
      if not (is_pull_ref request.source_ref) then pure tt else (do
        let protected_paths =
            world.sorted_set
              (repo.profile ∷ select (λ p. not (is_editable repo p)) repo.context_paths)
        changed ← ask (λ n.
            world.git n workspace
              ("diff" ∷ "--name-only" ∷ request.base_sha ∷ source_sha ∷ "--" ∷ protected_paths))
        require (changed == "") controller_error)

  abbrev finished_with : String → Fields → Fields
  finished_with outcome evidence =
      set_key "ai_calls" (num (pos 0)) (set_key "outcome" (text outcome) evidence)

  -- The transition to `completed`, and the task as it is then.
  unfoldable pub complete : String → Exec Work (Option Task)
  complete outcome = do
    evidence ← gets (λ w. w.evidence)
    enter world fleet lease completed (finished_with outcome evidence)
    task ← call_store world (λ now. get_task lease.task_id)
    pure (some task)

  module _ (task : Task) (request : TaskRequest) (repo : RepositoryConfig) where
    unfoldable pub release_source : String → Exec Work (Option Task)
    release_source source_sha = do
      release_configured world fleet lease repo source_sha (fresh world fleet lease repo request)
          repo.release
      complete "released"

    -- What follows a baseline that has passed.
    unfoldable pub when_healthy :
        GitWorkspace → String → List (String × String) → Exec Work (Option Task)
    when_healthy workspace source_sha protected = do
      fresh world fleet lease repo request
      if is_release_mode request.mode
          then release_source source_sha
          else (if watched_auto_deploy fleet repo request task
              then (do
                test_release world fleet lease repo workspace protected ""
                fresh world fleet lease repo request
                release_source source_sha)
              else complete "healthy")

    -- What follows a baseline that has not passed.
    unfoldable pub when_failing :
        GitWorkspace → Plan → Fields → List (String × String) → Exec Work (Option Task)
    when_failing workspace plan original protected = do
      require (is_repair_mode request.mode) controller_error
      refuse (is_nil repo.editable_paths) controller_error
      candidate ← repair_candidate world fleet lease repo workspace plan protected task original
      deliver_candidate world fleet lease repo workspace protected candidate
      pure none

    -- The baseline: the checks of the stage run on the source, and leave it as it is.
    unfoldable pub test_baseline : GitWorkspace → Plan → List (String × String) → Exec Work Run
    test_baseline workspace plan protected = do
      enter world fleet lease testing (field "profile_sha256" (text plan.profile_sha256) end)
      baseline ← run_checked world plan
      active world fleet lease
      put "baseline" baseline.shown
      ensure_environment baseline
      assert_files world fleet lease repo workspace protected
      changes ← read_diff_of world workspace
      require (changes == "") controller_error
      pure baseline

    unfoldable pub run_request : Exec Work (Option Task)
    run_request = do
      fresh world fleet lease repo request
      enter world fleet lease preparing end
      workspace ← ask (λ n. world.prepare_workspace n repo request.source_ref request.source_sha)
      source_sha ← describe_workspace repo request workspace
      require (is_text_value (get_key "base_sha" (fields_of task.payload)) workspace.base_sha)
          controller_error
      protect_context repo request workspace source_sha
      plan ← stage_plan world workspace repo request.stage
      lift (world.enforce_policy repo plan)
      original ←
          ask (λ n.
            world.snapshot_files n workspace repo.context_paths (some fleet.max_context_bytes))
      let protected = select (λ f. not (is_editable repo f.0)) original
      baseline ← test_baseline workspace plan protected
      if baseline.passed
          then when_healthy workspace source_sha protected
          else when_failing workspace plan (file_fields original) protected

  -- The body of the `try`: the task of an early return.
  unfoldable pub execute_body : Task → Exec Work (Option Task)
  execute_body task = do
    active world fleet lease
    parsed ← lift (world.parse_request task.payload)
    request ← lift (validated world.valid_ref parsed)
    require (request.config_sha256 == fleet.digest) controller_error
    repo ← lift (repository_named task.repository fleet.repositories)
    lift (request_policy repo request)
    run_request task request repo

  -- The state of the task that has failed: it is unresolved if its effects outside are unknown.
  unfoldable pub settle : Task → Exec Work (Unit {0})
  settle current = do
    call_store world (λ now. assert_active now lease)
    stop ← ask (λ n. ok (world.stopped n))
    evidence ← gets (λ w. w.evidence)
    if stop && not (is_external current.state)
        then call_store world (λ now. release now lease)
        else (do
          let final = if is_external current.state then unresolved else failed
          call_store world (λ now. transition now lease (state_name final) (some (obj evidence)))
          pure tt)

  -- `except StaleLease: pass`
  abbrev pub unless_stale : Result (Unit {0}) → Exec Work (Option Task)
  unless_stale (ok done) = pure none
  unless_stale (err stale_lease) = pure none
  unless_stale (err e) = raise e

  -- The `except` of `execute`.
  unfoldable pub handle : Result (Option Task) → Exec Work (Option Task)
  handle (ok returned) = pure returned
  handle (err e) = do
    put "error" (text (world.describe e))
    current ← call_store world (λ now. get_task lease.task_id)
    outcome ← attempt (settle current)
    unless_stale outcome

  unfoldable pub returned_task : Option Task → Exec Work Task
  returned_task (some task) = pure task
  returned_task none = call_store world (λ now. get_task lease.task_id)

  unfoldable pub execute : Exec Work Task
  execute = do
    task ← call_store world (λ now. get_task lease.task_id)
    ask world.make_folder
    modify (λ w. record w {
      evidence = field "task_id" (text lease.task_id) (field "epoch" (num (pos lease.epoch)) end);
    })
    outcome ← attempt (execute_body task)
    handled ← attempt (handle outcome)
    ask world.write_json
    returned ← lift handled
    returned_task returned

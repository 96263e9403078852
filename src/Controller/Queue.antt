-- ===== src/Controller/Queue.antt =====
-- How src/katydid/controller.py queues tasks and takes them up: `enqueue`, `discover`, `work_once`.
use katydid.Base.{
  Bool, Exec, List, Option, Result, String, [], arith, attempt, concat, decimal, err, if◌then◌else◌,
  is_nil, lease_conflict, lift, none, not, ok, pos, pure, raise, refl, some, true, ℕ, ◌&&◌, ◌>>=◌,
  ◌>>◌, ◌∷◌, ◌≡◌,
}
use katydid.Controller.Execute.{
  deploys_itself, discovery_key, event_value, execute, has_release, repository_named,
  request_policy,
}
use katydid.Controller.Setting.{Fleet, ReleaseConfig, RepositoryConfig, Work, World}
use katydid.Controller.Steps.{ask, call_store, unchanged_policy}
use katydid.Json.{Value, end, field, null, obj, text}
use katydid.Store.Control.{recover_expired}
use katydid.Store.Creation.{create_task, list_tasks}
use katydid.Store.Leases.{claim}
use katydid.Store.Schema.{Lease, is_queued}
use katydid.Store.Transaction.{Task}
use katydid.Tasks.{
  Mode, Stage, TaskRequest, check, coherent, is_given, is_pull_ref, is_release_mode,
  is_release_stage, is_repair_mode, merge, mode_name, nightly, pull_request, repair, stage_name,
  validated,
}

abbrev text_or_null : Option String → Value
text_or_null none = null
text_or_null (some s) = text s

-- `request.model_dump()`
unfoldable pub dump : TaskRequest → Value
dump r = obj (
    field "config_sha256" (text r.config_sha256) (
      field "base_sha" (text r.base_sha) (
        field "source_sha" (text_or_null r.source_sha) (
          field "source_ref" (text_or_null r.source_ref) (
            field "stage" (text (stage_name r.stage)) (
              field "mode" (text (mode_name r.mode)) (field "event" (event_value r.event) end)))))))

-- The request for the head of the base branch.
unfoldable pub new_request : Fleet → String → Stage → Mode → TaskRequest
new_request fleet head stage mode = record {
  config_sha256 = fleet.digest;
  base_sha = head;
  source_sha = none;
  source_ref = none;
  stage = stage;
  mode = mode;
  event = none;
}

-- The stage and the mode of a task that `discover` makes for a changed head or, in a period, for
-- the nightly checks.
unfoldable pub discovered_stage : RepositoryConfig → Option ℕ → Stage
discovered_stage repo none =
    if deploys_itself repo.release && is_nil repo.editable_paths then Stage.release else merge
discovered_stage repo (some period) = nightly

unfoldable pub discovered_mode : RepositoryConfig → Stage → Mode
discovered_mode repo stage =
    if is_release_stage stage
    then Mode.release
    else if not (is_nil repo.editable_paths)
    then repair
    else check

abbrev period_text : Option ℕ → String
period_text none = "None"
period_text (some n) = decimal n

module _ (world : World) (fleet : Fleet) where
  unfoldable pub create : RepositoryConfig → TaskRequest → Option String → Exec Work Task
  create repo request key = do
    id ← ask (λ n. ok (world.new_id n))
    call_store world (λ now. create_task now id repo.id (dump request) key)

  -- `enqueue`
  unfoldable pub enqueue : String → Option String → Stage → Mode → Exec Work Task
  enqueue name key stage mode = do
    repo ← lift (repository_named name fleet.repositories)
    unchanged_policy world fleet
    head ← ask (λ n. world.source_head n repo)
    request ← lift (validated world.valid_ref (new_request fleet head stage mode))
    lift (request_policy repo request)
    create repo request key

  -- The task of one repository.
  unfoldable pub discover_repository : Option ℕ → RepositoryConfig → Exec Work Task
  discover_repository period repo = do
    head ← ask (λ n. world.source_head n repo)
    let stage = discovered_stage repo period
    let key = discovery_key repo head fleet.digest (stage_name stage) (period_text period)
    request ←
        lift (validated world.valid_ref (new_request fleet head stage (discovered_mode repo stage)))
    create repo request (some key)

  unfoldable pub discover_each : Option ℕ → List RepositoryConfig → Exec Work (List Task)
  discover_each period [] = pure []
  discover_each period (repo ∷ repos) = do
    task ← discover_repository period repo
    tasks ← discover_each period repos
    pure (task ∷ tasks)

  -- `discover`
  unfoldable pub discover : Option ℕ → Exec Work (List Task)
  discover period = do unchanged_policy world fleet; discover_each period fleet.repositories

  -- What follows an attempt to claim a task; `next` goes on to the others.
  unfoldable pub claimed_or_next : Exec Work (Option Task) → Result Lease → Exec Work (Option Task)
  claimed_or_next next (err lease_conflict) = next
  claimed_or_next next (err e) = raise e
  claimed_or_next next (ok lease) = do task ← execute world fleet lease; pure (some task)

  unfoldable pub work_on : List Task → Exec Work (Option Task)
  work_on [] = pure none
  work_on (task ∷ tasks) =
      let next = work_on tasks in
      if not (is_queued task.state) then next else (do
        id ← ask (λ n. ok (world.new_id n))
        lease ←
            attempt
              (call_store world (λ now. claim now task.id (concat ("worker-" ∷ id ∷ [])) (pos 60)))
        claimed_or_next next lease)

  -- `work_once`
  unfoldable pub work_once : Exec Work (Option Task)
  work_once = do
    stop ← ask (λ n. ok (world.stopped n))
    if stop then pure none else (do
      call_store world recover_expired
      tasks ← call_store world (λ now. list_tasks)
      work_on tasks)

mode-coherent :
    (fleet : Fleet) (repo : RepositoryConfig) (head : String) (stage : Stage)
    → coherent (new_request fleet head stage (discovered_mode repo stage)) ≡ true
unfolding coherent new_request discovered_mode is_release_stage is_repair_mode is_release_mode
    is_pull_ref is_given
mode-coherent fleet repo head Stage.release = ground arith
mode-coherent fleet repo head pull_request = ground arith
mode-coherent fleet repo head merge = ground arith
mode-coherent fleet repo head nightly = ground arith

mode-allowed :
    (fleet : Fleet) (repo : RepositoryConfig) (head : String) (stage : Stage)
    → (is_release_stage stage ≡ true → has_release repo.release ≡ true)
    → request_policy repo (new_request fleet head stage (discovered_mode repo stage)) ≡ ok tt
unfolding request_policy new_request discovered_mode is_release_stage is_repair_mode is_release_mode
    is_pull_ref
mode-allowed fleet repo head Stage.release h = ground (arith, h refl)
mode-allowed fleet repo head pull_request h = ground arith
mode-allowed fleet repo head merge h = ground arith
mode-allowed fleet repo head nightly h = ground arith

release-configured :
    (repo : RepositoryConfig) (period : Option ℕ)
    → is_release_stage (discovered_stage repo period) ≡ true
    → has_release repo.release ≡ true
unfolding discovered_stage is_release_stage
release-configured repo none e = by_release repo.release (is_nil repo.editable_paths) e
  where
    by_release :
        (release : Option ReleaseConfig) (b : Bool)
        → is_release_stage (if deploys_itself release && b then Stage.release else merge) ≡ true
        → has_release release ≡ true
    by_release none b e = cc
    by_release (some release) b e = refl
release-configured repo (some n) e = cc

-- Whatever the repository and the period, the request that `discover` makes for a head is coherent
-- and within the central policy: a release is queued only where its hooks are configured.
pub discovered-Allowed :
    (fleet : Fleet) (repo : RepositoryConfig) (period : Option ℕ) (head : String)
    → let stage = discovered_stage repo period in
      let request = new_request fleet head stage (discovered_mode repo stage) in
      (coherent request ≡ true) × (request_policy repo request ≡ ok tt)
discovered-Allowed fleet repo period head =
    let stage = discovered_stage repo period in
    (
      mode-coherent fleet repo head stage,
      mode-allowed fleet repo head stage (release-configured repo period),
    )

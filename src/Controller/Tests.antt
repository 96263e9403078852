-- ===== src/Controller/Tests.antt =====
-- A task that repairs a repository, publishes and merges the candidate, and deploys it, in a world
-- that answers by a table.
use katydid.Base.{
  Bool, List, String, Triple, [], attempt, concat, false, if◌then◌else◌, is_hex, ltb, none, ok, pos,
  refl, some, true, ℕ, ◌&&◌, ◌>>=◌, ◌∷◌, ◌≡◌,
}
use katydid.Controller.Delivering.{
  commit_candidate, deliver, deliver_candidate, deliver_github, deliver_local, release_merged,
  require_base, test_candidate_release, test_release,
}
use katydid.Controller.Execute.{
  complete, describe_workspace, discovery_key, execute, execute_body, handle, is_external,
  protect_context, release_source, repository_named, request_policy, returned_task, run_request,
  settle, test_baseline, watched_auto_deploy, when_failing, when_healthy,
}
use katydid.Controller.Executed.{execute-Guarded}
use katydid.Controller.Guards.{is_guarded}
use katydid.Controller.Queue.{discovered-Allowed, discovered_mode, discovered_stage, new_request}
use katydid.Controller.Releasing.{
  await_checks, current, deploy_hooks, health_after, hook_plan, pristine, release_configured,
  release_revision, replaced, roll_back, run_hook,
}
use katydid.Controller.Repairing.{
  accepts, apply_proposal, ask_role, attempts, first_context, judge_candidate, read_diff,
  read_files, repair_candidate, review_candidate, verify,
}
use katydid.Controller.Setting.{
  Check, Entry, Fleet, GitWorkspace, RepositoryConfig, Run, Work, World, asked, hook_started, local,
  merged, published, recorded, role_name, stored,
}
use katydid.Controller.Steps.{
  active, add_hook, ask, assert_files, call_store, elem, ensure_environment, enter,
  environment_works, file_fields, fresh, fresh_revision, get_key, has_passed, is_delivered,
  is_github, is_local, isolation_works, note, observe, put, read_diff_of, read_head, run_checked,
  same_files, set_key, shown_or_null, stage_plan, texts, unchanged_policy, without_key,
}
use katydid.Evidence.Results.{command}
use katydid.Json.{end, field, normal, null, obj, serializable, text}
use katydid.Store.Creation.{get_task}
use katydid.Store.Leases.{
  assert_active, details_or_empty, is_ai_call, moved, reserve_ai_call, transition, worker_state,
}
use katydid.Store.Schema.{
  Lease, TaskRow, is_monitoring, is_paused, is_queued, is_terminal, new_db, queued, state_name,
  workflow_state,
}
use katydid.Store.Success.{is_commit_sha, is_repository_id, record_release_success}
use katydid.Store.Tables.{find_task, set_row}
use katydid.Store.Transaction.{
  is_held_by, is_live, is_object, json, leased_task, log_event, put_row, required_task, to_task,
  validate_ttl, write,
}
use katydid.Tasks.{
  TaskRequest, coherent, is_check_mode, is_given, is_merge_stage, is_pull_ref,
  is_pull_request_stage, is_release_mode, is_release_stage, is_repair_mode, is_revision,
  is_revision_or_none, is_valid_ref, merge, mode_name, repair, stage_name, validated,
}

abbrev digest : String
digest = "aaaaaaaaaaaaaaaaaaaaaaaaaaaaaaaaaaaaaaaaaaaaaaaaaaaaaaaaaaaaaaaa"

abbrev base : String
base = "bbbbbbbbbbbbbbbbbbbbbbbbbbbbbbbbbbbbbbbb"

abbrev fixed : String
fixed = "cccccccccccccccccccccccccccccccccccccccc"

abbrev hook_named : String → Check
hook_named id = record {
  id = id;
  kind = command;
  argv = id ∷ [];
  working_directory = ".";
  timeout_seconds = 60;
  required = true;
  tool = none;
}

abbrev shop : RepositoryConfig
shop = record {
  id = "shop";
  source = "/srv/shop";
  base_branch = "main";
  profile = "quality.yaml";
  context_paths = "cart.py" ∷ "quality.yaml" ∷ [];
  editable_paths = "cart.py" ∷ [];
  requirements = "the cart adds up";
  repair_attempts = 2;
  delivery = record {
    mode = local;
    github_repository = none;
    auto_merge = true;
    github_required_checks = [];
  };
  release = some (record {
    auto_deploy = false;
    deploy = hook_named "deploy";
    health = hook_named "health";
    rollback = hook_named "rollback";
  });
  isolation_required = none;
}

abbrev shop_fleet : Fleet
shop_fleet = record {
  repositories = shop ∷ [];
  max_calls_per_task = pos 6;
  max_context_bytes = 100000;
  digest = digest;
}

abbrev repair_request : TaskRequest
repair_request = record {
  config_sha256 = digest;
  base_sha = base;
  source_sha = none;
  source_ref = none;
  stage = merge;
  mode = repair;
  event = none;
}

abbrev shop_workspace : GitWorkspace
shop_workspace = record {
  path = "/work";
  source = "/srv/shop";
  base_branch = "main";
  base_sha = base;
  branch = "katydid/shop/t1-1";
}

abbrev answer_git : ℕ → List String → String
answer_git n args =
    if elem "--binary" args
    then "patch"
    else (if elem "rev-parse" args then (if ltb 70 n then fixed else base) else "")

abbrev run_with : Bool → Run
run_with passed = record {
  passed = passed;
  isolation = none;
  environment = none;
  shown = text "run";
}

-- The checks fail until the proposal is applied; the head of the base branch never moves.
abbrev shop_world : World
shop_world = record {
  now = λ n. n;
  others = λ n db. db;
  new_id = λ n. "id";
  policy_sha256 = λ n. ok digest;
  stopped = λ n. false;
  make_folder = λ n. ok tt;
  write_json = λ n. ok tt;
  parse_request = λ v. ok repair_request;
  valid_ref = λ ref. true;
  source_head = λ n repo. ok (if ltb 118 n then fixed else base);
  source_revision = λ n repo ref. ok base;
  prepare_workspace = λ n repo ref sha. ok shop_workspace;
  git = λ n workspace args. ok (answer_git n args);
  make_plan = λ n workspace repo stage. ok (record {
    repository = "shop";
    stage = stage;
    root = "/work";
    profile_sha256 = digest;
    checks = [];
    environment = none;
    isolated = false;
  });
  enforce_policy = λ repo plan. ok tt;
  snapshot_files = λ n workspace paths bound. ok [];
  run_plan = λ n plan. ok (run_with (ltb 30 n));
  create_provider = λ n. ok tt;
  diagnose = λ n context. ok (record { repairable = true; dump = null });
  propose = λ n context. ok (record { edits = ("cart.py", "sum(items)") ∷ [] });
  judge = λ n context. ok (record { approved = true; concerns = []; dump = null });
  apply_edits = λ n workspace edits editable. ok tt;
  diff = λ n workspace. ok (if ltb 40 n && ltb n 101 then "patch" else "");
  commit = λ n workspace. ok fixed;
  publish_local = λ n workspace. ok fixed;
  merge_local = λ n workspace repo. ok fixed;
  open_pull_request = λ n workspace name repo. ok (record { number = 1; dump = null });
  wait_pull_request = λ n name number sha checks. ok null;
  merge_pull_request = λ n name number sha. ok fixed;
  wait_commit_checks = λ n name sha checks. ok null;
  hook_directory = λ n workspace path. ok (some "/work");
  release_directories = λ n. ok tt;
  write_pointer = λ n. ok tt;
  release_directory = λ id. "/releases/shop";
  replace = λ s old new. s;
  sorted_set = λ xs. xs;
  splitlines = λ s. [];
  strip = λ s. s;
  describe = λ e. "error";
}

abbrev t1_lease : Lease
t1_lease = record { task_id = "t1"; worker = "w1"; epoch = 1; expires_at = 1000000 }

abbrev t1_row : TaskRow
t1_row = record {
  id = "t1";
  repository = "shop";
  payload_json = obj (field "base_sha" (text base) end);
  instructions_json = [];
  result_json = none;
  idempotency_key = none;
  state = queued;
  control_epoch = 1;
  lease_worker = some "w1";
  lease_epoch = some 1;
  lease_expires_at = some 1000000;
  created_at = 0;
  updated_at = 0;
}

abbrev t1_work : Work
t1_work = record {
  db = record new_db { tasks = t1_row ∷ [] };
  evidence = end;
  log = [];
  asked_count = 0;
}

abbrev summary : List Entry → List String
summary [] = []
summary (stored (row ∷ rows) ∷ log) =
    if is_ai_call row.task_id row then summary log else state_name row.state ∷ summary log
summary (asked task_id role context ∷ log) = concat ("ask " ∷ role_name role ∷ []) ∷ summary log
summary (published sha ∷ log) = "publish" ∷ summary log
summary (merged sha ∷ log) = "merge" ∷ summary log
summary (hook_started hook sha ∷ log) = hook.id ∷ summary log
summary (recorded sha ∷ log) = "success" ∷ summary log
summary (e ∷ log) = summary log

-- Opens every definition that the run below computes with.
unfoldable program : Unit {0}
unfolding set_key get_key same_files without_key texts file_fields note put ask call_store observe
    read_diff_of run_checked stage_plan unchanged_policy active enter read_head fresh_revision fresh
    assert_files is_github is_local is_delivered has_passed shown_or_null add_hook isolation_works
    environment_works ensure_environment current await_checks pristine replaced hook_plan run_hook
    health_after roll_back deploy_hooks release_revision release_configured ask_role read_diff
    read_files apply_proposal verify accepts review_candidate judge_candidate attempts first_context
    repair_candidate test_release test_candidate_release commit_candidate require_base deliver_local
    deliver_github deliver release_merged deliver_candidate repository_named request_policy
    discovery_key watched_auto_deploy is_external describe_workspace protect_context complete
    release_source when_healthy when_failing test_baseline run_request execute_body settle handle
    returned_task execute stage_name mode_name is_release_stage is_pull_request_stage is_merge_stage
    is_release_mode is_repair_mode is_check_mode is_pull_ref is_given is_revision
    is_revision_or_none coherent is_valid_ref validated is_live is_held_by find_task set_row write
    required_task log_event put_row json is_object validate_ttl leased_task to_task assert_active
    reserve_ai_call worker_state details_or_empty moved transition get_task is_terminal is_queued
    is_paused workflow_state state_name normal is_ai_call serializable is_hex role_name attempt
    ◌>>=◌ record_release_success is_monitoring is_commit_sha is_repository_id
program = tt

-- The newest entry comes first.
repairs_and_releases : summary (execute shop_world shop_fleet t1_lease t1_work).1.log ≡ (
    "completed" ∷ "monitoring" ∷ "success" ∷ "health" ∷ "monitoring" ∷ "deploy" ∷ "deploying"
    ∷ "merge" ∷ "publish" ∷ "publishing" ∷ "verifying" ∷ "ask review" ∷ "reviewing" ∷ "verifying"
    ∷ "ask repair" ∷ "repairing" ∷ "ask diagnosis" ∷ "diagnosing" ∷ "testing" ∷ "preparing" ∷ [])
unfolding program
repairs_and_releases = refl

execute-Guarded_example :
    Triple
      (λ w. is_guarded w.log ≡ true)
      (execute shop_world shop_fleet t1_lease)
      (λ task w. is_guarded w.log ≡ true)
      (λ e w. is_guarded w.log ≡ true)
execute-Guarded_example = execute-Guarded shop_world shop_fleet t1_lease

discovered-Allowed_example :
    let request =
      new_request shop_fleet base
        (discovered_stage shop none)
        (discovered_mode shop (discovered_stage shop none)) in
    (coherent request ≡ true) × (request_policy shop request ≡ ok tt)
discovered-Allowed_example = discovered-Allowed shop_fleet shop none base

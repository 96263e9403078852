-- ===== src/Controller/Releasing.antt =====
-- `Controller._release` of src/katydid/controller.py: the hooks that deploy a revision, test it, and
-- bring the earlier one back.
use katydid.Base.{
  Exec, Option, Result, String, [], assertion_error, concat, controller_error, err, false, gets,
  if◌then◌else◌, is_nil, lift, map, modify, none, not, ok, profile_error, pure, raise, require,
  some, true, ◌&&◌, ◌==◌, ◌>>=◌, ◌>>◌, ◌∷◌,
}
use katydid.Controller.Setting.{
  Check, DeliveryConfig, Fleet, GitWorkspace, Plan, ReleaseConfig, RepositoryConfig, Run, Work,
  World, hook_ended, hook_started, recorded,
}
use katydid.Controller.Steps.{
  add_hook, ask, call_store, enter, has_passed, is_github, note, observe, put, read_head,
  required_text, set_key, shown_or_null,
}
use katydid.Json.{end, field, text}
use katydid.Store.Control.{recovered}
use katydid.Store.Schema.{Lease, deploying, failed, monitoring, verifying}
use katydid.Store.Success.{record_release_success}
use katydid.Tasks.{Stage}

module _ (world : World) (fleet : Fleet) (lease : Lease) (repo : RepositoryConfig) (sha : String)
    (before_hook : Exec Work (Unit {0})) where
  -- `current`
  unfoldable pub current : Exec Work (Unit {0})
  current = do
    before_hook
    head ← read_head world fleet lease repo
    require (head == sha) controller_error

  -- `wait_commit_checks`, where the delivery names checks of GitHub.
  unfoldable pub await_checks : DeliveryConfig → Exec Work (Unit {0})
  await_checks delivery =
      if is_github delivery.mode && not (is_nil delivery.github_required_checks)
      then (do
        enter world fleet lease verifying
            (field "stage" (text "github-release-checks") (field "release_sha" (text sha) end))
        name ← lift (required_text delivery.github_repository)
        checks ← ask (λ n. world.wait_commit_checks n name sha delivery.github_required_checks)
        put "github_release_checks" checks
        current)
      else pure tt

  module _ (workspace : GitWorkspace) where
    -- `pristine`
    unfoldable pub pristine : Exec Work (Unit {0})
    pristine = do
      current
      head ← ask (λ n. world.git n workspace ("rev-parse" ∷ "HEAD" ∷ []))
      require (head == sha) controller_error
      status ← ask (λ n.
          world.git n workspace
            ("status" ∷ "--porcelain" ∷ "--untracked-files=all" ∷ "--ignored" ∷ []))
      require (status == "") controller_error

    abbrev directory_found : Option String → Result String
    directory_found none = err profile_error
    directory_found (some cwd) = ok cwd

    -- The replacements in an argument of a hook.
    unfoldable pub replaced : String → String → String
    replaced release_directory arg =
        world.replace
          (world.replace (world.replace arg "{workspace}" workspace.path) "{commit}" sha)
          "{release_dir}" release_directory

    -- The plan of a hook: its one check, which is required.
    unfoldable pub hook_plan : String → Check → String → Plan
    hook_plan release_directory check cwd = record {
      repository = repo.id;
      stage = Stage.release;
      root = workspace.path;
      profile_sha256 = fleet.digest;
      checks =
          (record {
            id = check.id;
            kind = check.kind;
            argv = map (replaced release_directory) check.argv;
            working_directory = cwd;
            timeout_seconds = check.timeout_seconds;
            required = true;
            tool = check.tool;
          })
          ∷ [];
      environment = none;
      isolated = false;
    }

    -- `hook`
    unfoldable pub run_hook : Check → Exec Work Run
    run_hook check = do
      pristine
      resolved ← ask (λ n. world.hook_directory n workspace check.working_directory)
      cwd ← lift (directory_found resolved)
      note (hook_started check sha)
      result ←
          observe (λ n. world.run_plan n (hook_plan (world.release_directory repo.id) check cwd))
            (λ result. hook_ended check result.passed)
      modify (λ w. record w { evidence = add_hook result.shown w.evidence })
      pristine
      pure result

    -- The health of what a hook has deployed, which is asked only where that passed.
    unfoldable pub health_after : Check → Run → Exec Work (Option Run)
    health_after health deployed =
        if deployed.passed then (do result ← run_hook health; pure (some result)) else pure none

    -- The rollback: the task fails where it works, and always raises.
    unfoldable pub roll_back : ReleaseConfig → Exec Work (Unit {0})
    roll_back release = do
      enter world fleet lease deploying
          (field "operation" (text "rollback") (field "merged_sha" (text sha) end))
      rollback ← run_hook release.rollback
      put "rollback" rollback.shown
      enter world fleet lease monitoring (field "operation" (text "rollback-health") end)
      recovered ← health_after release.health rollback
      put "rollback_health" (shown_or_null recovered)
      if has_passed recovered
          then (do
            evidence ← gets (λ w. w.evidence)
            enter world fleet lease failed (
                set_key "error" (text "Release failed; previous deployment restored and healthy")
                  evidence)
            raise controller_error)
          else raise controller_error

    unfoldable pub deploy_hooks : ReleaseConfig → Exec Work (Unit {0})
    deploy_hooks release = do
      enter world fleet lease deploying (field "merged_sha" (text sha) end)
      deploy ← run_hook release.deploy
      put "deploy" deploy.shown
      enter world fleet lease monitoring (field "merged_sha" (text sha) end)
      health ← health_after release.health deploy
      put "health" (shown_or_null health)
      if has_passed health
          then (do
            pristine
            directories ← ask (λ n. ok (world.release_directories n))
            pointer ← ask (λ n. ok (world.write_pointer n))
            note (recorded sha)
            call_store world (λ now. record_release_success directories pointer now lease sha)
            pure tt)
          else roll_back release

  -- `_release`
  unfoldable pub release_revision : ReleaseConfig → Exec Work (Unit {0})
  release_revision release = do
    current
    await_checks repo.delivery
    workspace ← ask (λ n.
        world.prepare_workspace n repo (some (concat ("refs/heads/" ∷ repo.base_branch ∷ [])))
          (some sha))
    put "release_workspace" (text workspace.path)
    pristine workspace
    ask world.make_folder
    deploy_hooks workspace release

  -- `assert release is not None`
  unfoldable pub release_configured : Option ReleaseConfig → Exec Work (Unit {0})
  release_configured none = raise assertion_error
  release_configured (some release) = release_revision release

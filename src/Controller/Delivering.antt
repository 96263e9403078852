-- ===== src/Controller/Delivering.antt =====
-- The delivery of an accepted candidate in `Controller.execute` of src/katydid/controller.py.
use katydid.Base.{
  Exec, List, Option, Result, String, [], concat, controller_error, err, gets, if◌then◌else◌,
  key_error, lift, none, not, ok, pure, raise, require, some, ◌==◌, ◌>>=◌, ◌>>◌, ◌∷◌,
}
use katydid.Controller.Releasing.{release_revision}
use katydid.Controller.Repairing.{Candidate}
use katydid.Controller.Setting.{
  Fleet, GitWorkspace, ReleaseConfig, RepositoryConfig, Work, World, committed_diff_is, merged,
  published, requested,
}
use katydid.Controller.Steps.{
  active, ask, assert_files, ensure_environment, enter, get_key, is_delivered, is_local, note,
  observe, put, read_diff_of, read_head, required_text, run_checked, set_key, stage_plan,
}
use katydid.Json.{Fields, Value, end, field, text}
use katydid.Store.Schema.{Lease, completed, publishing, verifying}
use katydid.Tasks.{Stage}

module _ (world : World) (fleet : Fleet) (lease : Lease) (repo : RepositoryConfig)
    (workspace : GitWorkspace) (protected : List (String × String)) where
  abbrev stage_fields : String → Fields
  stage_fields s = field "stage" (text s) end

  -- The run of the release-stage checks, which leaves the diff as it is.
  unfoldable pub test_release : String → Exec Work (Unit {0})
  test_release expected_diff = do
    plan ← stage_plan world workspace repo Stage.release
    lift (world.enforce_policy repo plan)
    enter world fleet lease verifying (stage_fields "release")
    result ← run_checked world plan
    active world fleet lease
    put "release_verification" result.shown
    ensure_environment result
    assert_files world fleet lease repo workspace protected
    if not result.passed then raise controller_error else (do
      after ← read_diff_of world workspace
      require (after == expected_diff) controller_error)

  unfoldable pub test_candidate_release : Option ReleaseConfig → String → Exec Work (Unit {0})
  test_candidate_release none candidate_diff = pure tt
  test_candidate_release (some release) candidate_diff = test_release candidate_diff

  -- The commit of the candidate, whose diff is the one reviewed, with its tree.
  unfoldable pub commit_candidate : Candidate → Exec Work String
  commit_candidate candidate = do
    active world fleet lease
    sha ← ask (λ n. world.commit n workspace)
    after ← read_diff_of world workspace
    require (after == "") controller_error
    committed_diff ←
        observe
          (λ n.
            world.git n workspace
              ("diff" ∷ "--binary" ∷ "--no-ext-diff" ∷ workspace.base_sha ∷ sha ∷ "--" ∷ []))
          (committed_diff_is sha)
    require (committed_diff == world.strip candidate.diff) controller_error
    put "candidate_sha" (text sha)
    tree ← ask (λ n. world.git n workspace ("rev-parse" ∷ "HEAD^{tree}" ∷ []))
    put "candidate_tree" (text tree)
    ask world.write_json
    pure sha

  -- The head of the base branch is still the one that the candidate was made from.
  unfoldable pub require_base : Exec Work (Unit {0})
  require_base = do
    head ← read_head world fleet lease repo
    require (head == workspace.base_sha) controller_error

  unfoldable pub deliver_local : String → Exec Work (Unit {0})
  deliver_local sha = do
    note (published sha)
    published_sha ← ask (λ n. world.publish_local n workspace)
    put "published_sha" (text published_sha)
    if not repo.delivery.auto_merge then pure tt else (do
      active world fleet lease
      note (merged sha)
      merged_sha ← ask (λ n. world.merge_local n workspace repo)
      put "merged_sha" (text merged_sha))

  unfoldable pub deliver_github : String → Exec Work (Unit {0})
  deliver_github sha = do
    name ← lift (required_text repo.delivery.github_repository)
    note (requested sha)
    pr ← ask (λ n. world.open_pull_request n workspace name repo)
    put "pull_request" pr.dump
    enter world fleet lease publishing
        (field "pull_request" pr.dump (field "candidate_sha" (text sha) end))
    if not repo.delivery.auto_merge then pure tt else (do
      checks ←
          ask
            (λ n. world.wait_pull_request n name pr.number sha repo.delivery.github_required_checks)
      put "github_checks" checks
      active world fleet lease
      require_base
      note (merged sha)
      merged_sha ← ask (λ n. world.merge_pull_request n name pr.number sha)
      put "merged_sha" (text merged_sha))

  unfoldable pub deliver : String → Exec Work (Unit {0})
  deliver sha = if not (is_delivered repo.delivery.mode) then pure tt else (do
    active world fleet lease
    require_base
    enter world fleet lease publishing (field "candidate_sha" (text sha) end)
    if is_local repo.delivery.mode then deliver_local sha else deliver_github sha
    active world fleet lease)

  abbrev pub text_of : Option Value → Result String
  text_of (some (text s)) = ok s
  text_of _ = err key_error

  -- The release of what was merged, whose tree is the one tested.
  unfoldable pub release_merged : Option ReleaseConfig → Exec Work (Unit {0})
  release_merged none = pure tt
  release_merged (some release) = do
    evidence ← gets (λ w. w.evidence)
    merged_sha ← lift (text_of (get_key "merged_sha" evidence))
    ask (λ n. world.git n workspace ("fetch" ∷ "origin" ∷ repo.base_branch ∷ []))
    actual_tree ←
        ask (λ n. world.git n workspace ("rev-parse" ∷ concat (merged_sha ∷ "^{tree}" ∷ []) ∷ []))
    candidate_tree ← lift (text_of (get_key "candidate_tree" evidence))
    require (actual_tree == candidate_tree) controller_error
    release_revision world fleet lease repo merged_sha (active world fleet lease) release

  -- What follows the acceptance of a candidate.
  unfoldable pub deliver_candidate : Candidate → Exec Work (Unit {0})
  deliver_candidate candidate = do
    assert_files world fleet lease repo workspace protected
    after ← read_diff_of world workspace
    require (after == candidate.diff) controller_error
    test_candidate_release repo.release candidate.diff
    sha ← commit_candidate candidate
    deliver sha
    release_merged repo.release
    evidence ← gets (λ w. w.evidence)
    enter world fleet lease completed (set_key "outcome" (text "repaired") evidence)

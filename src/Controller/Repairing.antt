-- ===== src/Controller/Repairing.antt =====
-- The repair loop of `Controller.execute` in src/katydid/controller.py: the diagnosis, the proposals,
-- their verification and the independent review.
use katydid.Base.{
  Bool, Exec, List, Result, String, attempt, controller_error, gets, if◌then◌else◌, is_nil, not,
  pos, pure, raise, refuse, require, some, suc, zero, ℕ, ◌&&◌, ◌+◌, ◌==◌, ◌>>=◌, ◌>>◌,
}
use katydid.Controller.Setting.{
  Fleet, GitWorkspace, Plan, Repair, RepositoryConfig, Review, Role, Run, Work, World, asked,
  review_is, role_name,
}
use katydid.Controller.Steps.{
  active, ask, assert_files, call_store, ensure_environment, enter, file_fields, get_key, note, put,
  read_diff_of, run_checked, set_key, texts, value_or_null, without_key,
}
use katydid.Json.{Fields, arr, end, field, num, obj, text}
use katydid.Store.Leases.{reserve_ai_call}
use katydid.Store.Schema.{Lease, diagnosing, repairing, reviewing, verifying}
use katydid.Store.Transaction.{Task}

-- A candidate that was accepted: its diff and the review.
pub record Candidate : Type 0 where
  pub diff : String
  pub review : Review

module _ (world : World) (fleet : Fleet) (lease : Lease) (repo : RepositoryConfig) where
  -- The inner function `ask`: the lease is active and the store has reserved the call.
  unfoldable pub ask_role : {A : Type 0} → Role → Fields → (ℕ → Fields → Result A) → Exec Work A
  ask_role role context answer = do
    active world fleet lease
    call_store world (λ now. reserve_ai_call now lease (role_name role) fleet.max_calls_per_task)
    note (asked lease.task_id role context)
    ask (λ n. answer n context)

  module _ (workspace : GitWorkspace) (plan : Plan) (protected : List (String × String)) where
    unfoldable pub read_diff : Exec Work String
    read_diff = read_diff_of world workspace

    unfoldable pub read_files : Exec Work Fields
    read_files = do
      files ←
          ask (λ n.
            world.snapshot_files n workspace repo.context_paths (some fleet.max_context_bytes))
      pure (file_fields files)

    -- `apply_edits` with the proposal, and the diff that it makes.
    unfoldable pub apply_proposal : Repair → Exec Work String
    apply_proposal proposal = do
      ask (λ n. world.apply_edits n workspace proposal.edits repo.editable_paths)
      assert_files world fleet lease repo workspace protected
      candidate_diff ← read_diff
      refuse (candidate_diff == "") controller_error
      pure candidate_diff

    -- A run of the checks that finds and leaves the candidate as it is.
    unfoldable pub verify : String → Exec Work Run
    verify candidate_diff = do
      result ← run_checked world plan
      active world fleet lease
      put "verification" result.shown
      ensure_environment result
      assert_files world fleet lease repo workspace protected
      after ← read_diff
      require (after == candidate_diff) controller_error
      pure result

    unfoldable pub accepts : Review → Bool
    accepts review = review.approved && is_nil review.concerns

    -- The review, which sees the evidence and the diff, without the diagnosis.
    unfoldable pub review_candidate : Fields → Exec Work Review
    review_candidate context = do
      let shown = without_key "diagnosis" context
      given ← ask_role Role.review shown world.judge
      note (review_is shown given)
      active world fleet lease
      put "review" given.dump
      pure given

    abbrev with_attempt : ℕ → Fields
    with_attempt n = field "attempt" (num (pos n)) end

    -- What follows the verification of an attempt, where `next` are the further attempts.
    unfoldable pub judge_candidate :
        (Fields → Exec Work Candidate) → ℕ → Fields → String → Run → Exec Work Candidate
    judge_candidate next attempt context candidate_diff result = do
      files ← read_files
      let seen =
          set_key "files" (obj files)
            (set_key "diff" (text candidate_diff) (set_key "verification" result.shown context))
      if not result.passed then next seen else (do
        enter world fleet lease reviewing (with_attempt attempt)
        given ← review_candidate seen
        if accepts given
            then pure (record { diff = candidate_diff; review = given })
            else next (set_key "review_feedback" given.dump seen))

    -- The attempts from the number `attempt` on, with the number of those left.
    unfoldable pub attempts : ℕ → ℕ → Fields → Exec Work Candidate
    attempts zero attempt context = raise controller_error
    attempts (suc left) attempt context = do
      enter world fleet lease repairing (with_attempt attempt)
      files ← read_files
      let given = set_key "files" (obj files) context
      proposal ← ask_role Role.repair given world.propose
      active world fleet lease
      candidate_diff ← apply_proposal proposal
      enter world fleet lease verifying (with_attempt attempt)
      result ← verify candidate_diff
      judge_candidate (attempts left (attempt + 1)) attempt given candidate_diff result

    -- `context`
    unfoldable pub first_context : Task → Fields → Fields → Fields
    first_context task original evidence = field "standing_requirements" (text repo.requirements) (
        field "operator_instructions" (arr (texts task.instructions)) (
          field "editable_paths" (arr (texts repo.editable_paths)) (
            field "files" (obj original)
              (field "baseline" (value_or_null (get_key "baseline" evidence)) end))))

    unfoldable pub repair_candidate : Task → Fields → Exec Work Candidate
    repair_candidate task original = do
      ask world.create_provider
      evidence ← gets (λ w. w.evidence)
      let context = first_context task original evidence
      enter world fleet lease diagnosing end
      cause ← ask_role Role.diagnosis context world.diagnose
      active world fleet lease
      put "diagnosis" cause.dump
      require cause.repairable controller_error
      attempts repo.repair_attempts 1 (set_key "diagnosis" cause.dump context)

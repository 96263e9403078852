-- ===== src/Controller/Executed.antt =====
-- `Controller.execute` of src/katydid/controller.py does nothing outside before its guards.
use katydid.Base.{
  Bool, List, Option, Result, String, Triple, Triple-before, Triple-bind, Triple-if, Triple-lift,
  Triple-pure, Triple-then, [], and-true-left, and-true-right, arith, controller_error, err, lift,
  none, ok, require, some, stale_lease, true, ◌&&◌, ◌==◌, ◌>>=◌, ◌>>◌, ◌∷◌, ◌≡◌,
}
use katydid.Controller.Delivered.{deliver_candidate-keeps, test_release-gains}
use katydid.Controller.Execute.{
  complete, describe_workspace, execute, execute_body, handle, protect_context, release_source,
  repository_named, request_policy, returned_task, run_request, settle, test_baseline, unless_stale,
  watched_auto_deploy, when_failing, when_healthy,
}
use katydid.Controller.Guards.{Fact, approved_as, ever, is_guarded, release_tested}
use katydid.Controller.Observing.{run_checked-gains, stage_plan-step}
use katydid.Controller.Released.{release_configured-keeps}
use katydid.Controller.Releasing.{current}
use katydid.Controller.Reviewing.{repair_candidate-gains}
use katydid.Controller.Setting.{Fleet, GitWorkspace, Plan, RepositoryConfig, Run, Work, World}
use katydid.Controller.Steadiness.{
  Steady-active, Steady-assert_files, Steady-ensure_environment, Steady-enter, Steady-fresh,
}
use katydid.Controller.Steady.{
  Holds, Holds-Safe, Safe, Steady, Steady-ask, Steady-call_store, Steady-evidence, Steady-lift,
  Steady-pure, Steady-put, Steady-raise, Steady-read_diff_of, Steady-refuse, Steady-require, caught,
  gained, gained-drop, rest, steady_rules, step, use-gained, weaken-to,
}
use katydid.Json.{Fields}
use katydid.Store.Schema.{Lease}
use katydid.Store.Transaction.{Task}
use katydid.Tasks.{TaskRequest, coherent, is_release_mode, is_release_stage, validated}

validated-coherent :
    (valid_ref : String → Bool) (r request : TaskRequest)
    → validated valid_ref r ≡ ok request
    → coherent request ≡ true
unfolding validated
validated-coherent valid_ref r request e = ground arith

release-coherent :
    (request : TaskRequest)
    → coherent request ≡ true
    → is_release_mode request.mode ≡ true
    → is_release_stage request.stage ≡ true
unfolding coherent
release-coherent request c e = ground arith

module _ (world : World) (fleet : Fleet) (lease : Lease) where
  Steady-describe_workspace :
      (repo : RepositoryConfig) (request : TaskRequest) (workspace : GitWorkspace)
      → Steady (describe_workspace world fleet lease repo request workspace)
  unfolding describe_workspace
  Steady-describe_workspace repo request workspace = search (steady_rules) depth 30

  Steady-protect_context :
      (repo : RepositoryConfig) (request : TaskRequest) (workspace : GitWorkspace) (sha : String)
      → Steady (protect_context world fleet lease repo request workspace sha)
  unfolding protect_context
  Steady-protect_context repo request workspace sha = search (steady_rules) depth 10

  Steady-complete : (outcome : String) → Steady (complete world fleet lease outcome)
  unfolding complete
  Steady-complete outcome = search (steady_rules, Steady-enter world fleet lease) depth 10

  module _ (task : Task) (request : TaskRequest) (repo : RepositoryConfig)
      (is_coherent : coherent request ≡ true) where
    release_source-keeps :
        (F : List Fact) (sha : String)
        → ((w : Work) → Holds F w → ever release_tested w.log ≡ true)
        → Triple
            (Holds F)
            (release_source world fleet lease task request repo sha)
            (λ _. Holds F)
            Safe
    unfolding release_source
    release_source-keeps F sha are_tested =
        Triple-then (Holds F)
          (release_configured-keeps world fleet lease repo sha _
            (Steady-fresh world fleet lease repo request) F are_tested repo.release)
          λ _. rest F (Steady-complete "released")

    -- The baseline, with the fact that the release needs where it has passed.
    abbrev for_release : Run → Bool
    for_release run = run.passed && is_release_stage request.stage

    test_baseline-gains :
        (F : List Fact) (workspace : GitWorkspace) (plan : Plan)
        (protected : List (String × String))
        → plan.stage ≡ request.stage
        → Triple
            (Holds F)
            (test_baseline world fleet lease task request repo workspace plan protected)
            (λ run. Holds (gained (for_release run) release_tested F))
            Safe
    unfolding test_baseline
    test_baseline-gains F workspace plan protected same =
        step F (Steady-enter world fleet lease _ _) λ _.
          Triple-bind (λ run. Holds (Tested run))
            (run_checked-gains world F plan for_release
              (λ run e. (and-true-left run.passed _ e, rw same (and-true-right run.passed _ e))))
            λ run. step (Tested run) (Steady-active world fleet lease) λ _.
              step (Tested run) (Steady-put _ _) λ _.
                step (Tested run) (Steady-ensure_environment run) λ _.
                  step (Tested run) (Steady-assert_files world fleet lease repo workspace protected)
                    λ _. step (Tested run) (Steady-read_diff_of world workspace) λ changes.
                      step (Tested run) (Steady-require _ _) λ _. Triple-pure run (λ w h. h)
      where
        Tested : Run → List Fact
        Tested run = gained (for_release run) release_tested F

    when_healthy-keeps :
        (F : List Fact) (run : Run) (workspace : GitWorkspace) (sha : String)
        (protected : List (String × String))
        → run.passed ≡ true
        → Triple
            (Holds (gained (for_release run) release_tested F))
            (when_healthy world fleet lease task request repo workspace sha protected)
            (λ _. Holds F)
            Safe
    unfolding when_healthy
    when_healthy-keeps F run workspace sha protected passed =
        step (gained (for_release run) release_tested F)
          (Steady-fresh world fleet lease repo request)
          λ _.
            Triple-if (is_release_mode request.mode)
              (λ mode.
                use-gained (for_release run) release_tested F
                  (ground (arith, release-coherent request is_coherent mode, passed))
                  (weaken-to (release_tested ∷ F) F (λ w h. h.1)
                    (release_source-keeps (release_tested ∷ F) sha (λ w h. h.0))))
              λ _. Triple-before (gained-drop (for_release run) release_tested F) (
                Triple-if (watched_auto_deploy fleet repo request task)
                  (λ _.
                    Triple-then (Holds (release_tested ∷ F))
                      (test_release-gains world fleet lease repo workspace protected F "")
                      λ _.
                        weaken-to (release_tested ∷ F) F (λ w h. h.1)
                          (step (release_tested ∷ F) (Steady-fresh world fleet lease repo request)
                            λ _. release_source-keeps (release_tested ∷ F) sha (λ w h. h.0)))
                  λ _. rest F (Steady-complete "healthy"))

    when_failing-keeps :
        (F : List Fact) (workspace : GitWorkspace) (plan : Plan) (original : Fields)
        (protected : List (String × String))
        → Triple
            (Holds F)
            (when_failing world fleet lease task request repo workspace plan original protected)
            (λ _. Holds F)
            Safe
    unfolding when_failing
    when_failing-keeps F workspace plan original protected = step F (Steady-require _ _) λ _.
        step F (Steady-refuse _ _) λ _.
          Triple-bind (λ c. Holds (approved_as (world.strip c.diff) ∷ F))
            (repair_candidate-gains world fleet lease repo workspace plan protected F task original)
            λ candidate.
              Triple-then (Holds F)
                (weaken-to (approved_as (world.strip candidate.diff) ∷ F) F (λ w h. h.1)
                  (deliver_candidate-keeps world fleet lease repo workspace protected
                    (approved_as (world.strip candidate.diff) ∷ F) candidate (λ w h. h.0)))
                λ _. Triple-pure none (λ w h. h)

    run_request-keeps :
        (F : List Fact)
        → Triple (Holds F) (run_request world fleet lease task request repo) (λ _. Holds F) Safe
    unfolding run_request
    run_request-keeps F = step F (Steady-fresh world fleet lease repo request) λ _.
        step F (Steady-enter world fleet lease _ _) λ _. step F (Steady-ask _) λ workspace.
          step F (Steady-describe_workspace repo request workspace) λ sha.
            step F (Steady-require _ _) λ _.
              step F (Steady-protect_context repo request workspace sha) λ _.
                stage_plan-step world F workspace repo request.stage λ plan same.
                  step F (Steady-lift _) λ _. step F (Steady-ask _) λ original.
                    Triple-bind (λ run. Holds (gained (for_release run) release_tested F))
                      (test_baseline-gains F workspace plan _ same)
                      λ run.
                        Triple-if run.passed
                          (λ passed. when_healthy-keeps F run workspace sha _ passed)
                          λ _.
                            Triple-before (gained-drop (for_release run) release_tested F)
                              (when_failing-keeps F workspace plan _ _)

  execute_body-keeps :
      (F : List Fact) (task : Task)
      → Triple (Holds F) (execute_body world fleet lease task) (λ _. Holds F) Safe
  unfolding execute_body
  execute_body-keeps F task = step F (Steady-active world fleet lease) λ _.
      step F (Steady-lift _) λ parsed.
        Triple-bind (λ request w. (coherent request ≡ true) × Holds F w)
          (Triple-lift _ (λ request w e h. (validated-coherent world.valid_ref parsed request e, h))
            (λ x w e h. Holds-Safe F w h))
          λ request. under_coherent request
    where
      under_coherent :
          (request : TaskRequest)
          → Triple
              (λ w. (coherent request ≡ true) × Holds F w)
              (do
                require (request.config_sha256 == fleet.digest) controller_error
                repo ← lift (repository_named task.repository fleet.repositories)
                lift (request_policy repo request)
                run_request world fleet lease task request repo)
              (λ _. Holds F)
              Safe
      under_coherent request = record {
        holds = λ w (is_coherent, h).
            let t : Triple (Holds F) _ (λ _. Holds F) Safe = step F (Steady-require _ _) λ _.
              step F (Steady-lift _) λ repo.
                step F (Steady-lift _) λ _. run_request-keeps task request repo is_coherent F in
            t.holds w h;
      }

  Steady-settle : (current : Task) → Steady (settle world fleet lease current)
  unfolding settle
  Steady-settle current = search (steady_rules) depth 10

  handle-guarded :
      (r : Result (Option Task))
      → Triple (Holds []) (handle world fleet lease r) (λ _. Holds []) Safe
  unfolding handle
  handle-guarded (ok returned) = Triple-pure returned (λ w h. h)
  handle-guarded (err e) = step [] (Steady-put _ _) λ _. step [] (Steady-call_store _ _) λ current.
      Triple-bind (λ _. Holds [])
        (caught (settle world fleet lease current) (rest [] (Steady-settle current)))
        λ r. rest [] (unless_stale-Steady r)
    where
      unless_stale-Steady : (r : Result (Unit {0})) → Steady (unless_stale world fleet lease r)
      unless_stale-Steady (ok done) = Steady-pure none
      unless_stale-Steady (err stale_lease) = Steady-pure none
      unless_stale-Steady (err e) = Steady-raise e

  -- What is done outside comes after what must come before it, whatever the store, Git, the checks,
  -- the AI and other connections answer, and however the call ends: every entry of the log is
  -- allowed by those before it, where that held of the log that the call began with. A question to
  -- the AI comes right after a call of the store that has logged its reservation, and a review does
  -- not see the diagnosis. Publication and pull requests come after the store has logged that the
  -- task is publishing, and before that Git has shown, as the change of the same revision, a diff
  -- whose checks have passed between two readings of it and which a review that was shown it has
  -- then approved without concerns. A merge comes after the offer of its revision. A hook comes
  -- after the head of the base branch was read to be its revision, and before that the store has
  -- logged that the task is deploying, after a run of the release stage that has passed. A success
  -- is recorded after two hooks on the revision have passed.
  pub execute-Guarded :
      Triple
        (λ w. is_guarded w.log ≡ true)
        (execute world fleet lease)
        (λ task w. is_guarded w.log ≡ true)
        (λ e w. is_guarded w.log ≡ true)
  unfolding execute
  execute-Guarded = step [] (Steady-call_store _ _) λ task. step [] (Steady-ask _) λ _.
      step [] (Steady-evidence _) λ _.
        Triple-bind (λ _. Holds [])
          (caught (execute_body world fleet lease task) (execute_body-keeps [] task))
          λ outcome.
            Triple-bind (λ _. Holds [])
              (caught (handle world fleet lease outcome) (handle-guarded outcome))
              λ handled.
                step [] (Steady-ask _)
                  λ _. step [] (Steady-lift _) λ returned. rest [] (Steady-returned returned)
    where
      Steady-returned : (o : Option Task) → Steady (returned_task world fleet lease o)
      Steady-returned (some task) = unfold returned_task in Steady-pure task
      Steady-returned none = unfold returned_task in Steady-call_store _ _

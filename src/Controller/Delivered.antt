-- ===== src/Controller/Delivered.antt =====
-- The delivery of src/katydid/controller.py publishes and merges only the committed candidate that
-- was approved.
use katydid.Base.{
  Bool, Exec, List, Option, String, Triple, Triple-bind, Triple-if, Triple-pure, Triple-raise,
  Triple-require, Triple-then, Triple-weaken, arith, controller_error, eq_iff, eq_refl, none, not,
  refl, some, subst, sym, true, ◌==◌, ◌>>=◌, ◌∷◌, ◌≡◌,
}
use katydid.Controller.Delivering.{
  commit_candidate, deliver, deliver_candidate, deliver_github, deliver_local, release_merged,
  require_base, test_candidate_release, test_release,
}
use katydid.Controller.Execute.{has_release}
use katydid.Controller.Guards.{
  Fact, approved_as, candidate_committed, ever, is_offered, may_publish, release_tested,
}
use katydid.Controller.Observing.{observe-gained, run_checked-gains, stage_plan-step}
use katydid.Controller.Released.{release_revision-keeps}
use katydid.Controller.Repairing.{Candidate}
use katydid.Controller.Setting.{
  Fleet, GitWorkspace, ReleaseConfig, RepositoryConfig, Work, World, merged, published, requested,
}
use katydid.Controller.Steadiness.{
  Steady-active, Steady-assert_files, Steady-ensure_environment, Steady-enter, Steady-read_head,
  enter-gains,
}
use katydid.Controller.Steady.{
  Holds, Holds-Safe, Safe, Steady, Steady-ask, Steady-gets, Steady-lift, Steady-put,
  Steady-read_diff_of, Steady-require, gained, gained-drop, gained-true, note-gains, note-keeps,
  rest, steady_rules, step, use-gained, weaken-to,
}
use katydid.Controller.Steps.{is_delivered, is_local, note}
use katydid.Evidence.Gate.{expected}
use katydid.Store.Schema.{Lease, is_paused, publishing}
use katydid.Tasks.{Stage, is_release_stage}

module _ (world : World) (fleet : Fleet) (lease : Lease) (repo : RepositoryConfig)
    (workspace : GitWorkspace) (protected : List (String × String)) where
  pub test_release-gains :
      (F : List Fact) (expected : String)
      → Triple
          (Holds F)
          (test_release world fleet lease repo workspace protected expected)
          (λ _. Holds (release_tested ∷ F))
          Safe
  unfolding test_release
  test_release-gains F expected =
      stage_plan-step world F workspace repo Stage.release λ plan of_release.
        step F (Steady-lift _) λ _. step F (Steady-enter world fleet lease _ _) λ _.
          Triple-bind (λ result. Holds (Tested result.passed))
            (run_checked-gains world F plan (λ run. run.passed)
              (λ run e. (e, rw of_release (unfold is_release_stage in refl))))
            λ result. step (Tested result.passed) (Steady-active world fleet lease) λ _.
              step (Tested result.passed) (Steady-put _ _) λ _.
                step (Tested result.passed) (Steady-ensure_environment result) λ _.
                  step (Tested result.passed)
                    (Steady-assert_files world fleet lease repo workspace protected)
                    λ _.
                      Triple-if (not result.passed)
                        (λ _. Triple-raise _ (Holds-Safe (Tested result.passed)))
                        λ e. use-gained result.passed release_tested F (ground (arith, e)) (
                          step (Tested true) (Steady-read_diff_of world workspace)
                            λ after. rest (Tested true) (Steady-require _ _))
    where
      Tested : Bool → List Fact
      Tested passed = gained passed release_tested F

  test_candidate_release-gains :
      (F : List Fact) (release : Option ReleaseConfig) (diff : String)
      → Triple
          (Holds F)
          (test_candidate_release world fleet lease repo workspace protected release diff)
          (λ _. Holds (gained (has_release release) release_tested F))
          Safe
  unfolding test_candidate_release
  test_candidate_release-gains F none diff = Triple-pure tt (λ w h. h)
  test_candidate_release-gains F (some release) diff = test_release-gains F diff

  commit_candidate-gains :
      (F : List Fact) (candidate : Candidate)
      → ((w : Work) → Holds F w → ever (approved_as (world.strip candidate.diff)) w.log ≡ true)
      → Triple
          (Holds F)
          (commit_candidate world fleet lease repo workspace protected candidate)
          (λ sha. Holds (candidate_committed sha ∷ F))
          Safe
  unfolding commit_candidate
  commit_candidate-gains F candidate approved = step F (Steady-active world fleet lease) λ _.
      step F (Steady-ask _) λ sha. step F (Steady-read_diff_of world workspace) λ after.
        step F (Steady-require _ _) λ _.
          Triple-bind (λ d. Holds (gained (d == reviewed) (candidate_committed sha) F))
            (observe-gained F _ _ (λ d. d == reviewed) (λ _. candidate_committed sha)
              (λ d w h. refl) (λ d w h e. ground (arith, eq_refl sha, was_approved d w h e)))
            λ d.
              Triple-then (Holds (candidate_committed sha ∷ F))
                (Triple-weaken
                  (λ _ w (same, h).
                    gained-true (d == reviewed) (candidate_committed sha) F w same h)
                  (λ e w s. s)
                  (Triple-require (d == reviewed) controller_error
                    (λ w h. Holds-Safe (gained (d == reviewed) (candidate_committed sha) F) w h)))
                λ _. step (candidate_committed sha ∷ F) (Steady-put _ _) λ _.
                  step (candidate_committed sha ∷ F) (Steady-ask _) λ tree.
                    step (candidate_committed sha ∷ F) (Steady-put _ _) λ _.
                      step (candidate_committed sha ∷ F) (Steady-ask _)
                        λ _. Triple-pure sha (λ w h. h)
    where
      reviewed : String
      reviewed = world.strip candidate.diff

      was_approved :
          (d : String) (w : Work)
          → Holds F w
          → (d == reviewed) ≡ true
          → ever (approved_as d) w.log ≡ true
      was_approved d w h e =
          subst (λ x. ever (approved_as x) w.log ≡ true) (sym ((eq_iff d reviewed).0 e))
            (approved w h)

  Steady-require_base : Steady (require_base world fleet lease repo workspace protected)
  unfolding require_base
  Steady-require_base = search (steady_rules, Steady-read_head world fleet lease repo)

  -- The merge of a revision that was offered.
  merge-keeps :
      {A : Type 0} (F : List Fact) (sha : String) (m : Exec Work A)
      → Steady m
      → Triple (Holds (is_offered sha ∷ F)) (note (merged sha) >>= λ _. m) (λ _. Holds F) Safe
  merge-keeps F sha m h =
      Triple-then (Holds F)
        (weaken-to (is_offered sha ∷ F) F (λ w h. h.1)
          (note-keeps (is_offered sha ∷ F) (merged sha) (λ w h. h.0)))
        λ _. rest F h

  abbrev publishing_facts : List Fact → String → List Fact
  publishing_facts F sha = may_publish sha ∷ F

  deliver_local-keeps :
      (F : List Fact) (sha : String)
      → Triple
          (Holds (publishing_facts F sha))
          (deliver_local world fleet lease repo workspace protected sha)
          (λ _. Holds F)
          Safe
  unfolding deliver_local
  deliver_local-keeps F sha =
      Triple-then (Holds (is_offered sha ∷ publishing_facts F sha))
        (note-gains (publishing_facts F sha) (published sha) _ (λ w h. h.0) (λ w h. eq_refl sha))
        λ _. step (is_offered sha ∷ publishing_facts F sha) (Steady-ask _) λ published_sha.
          step (is_offered sha ∷ publishing_facts F sha) (Steady-put _ _) λ _.
            Triple-if (not repo.delivery.auto_merge) (λ _. Triple-pure tt (λ w h. h.1.1))
              λ _.
                weaken-to (publishing_facts F sha) F (λ w h. h.1)
                  (step (is_offered sha ∷ publishing_facts F sha) (Steady-active world fleet lease)
                    λ _. merge-keeps (publishing_facts F sha) sha _ (search (steady_rules)))

  deliver_github-keeps :
      (F : List Fact) (sha : String)
      → Triple
          (Holds (publishing_facts F sha))
          (deliver_github world fleet lease repo workspace protected sha)
          (λ _. Holds F)
          Safe
  unfolding deliver_github
  deliver_github-keeps F sha = step (publishing_facts F sha) (Steady-lift _) λ name.
      Triple-then (Holds Offered)
        (note-gains (publishing_facts F sha) (requested sha) _ (λ w h. h.0) (λ w h. eq_refl sha))
        λ _. step Offered (Steady-ask _) λ pr. step Offered (Steady-put _ _) λ _.
          step Offered (Steady-enter world fleet lease _ _) λ _.
            Triple-if (not repo.delivery.auto_merge) (λ _. Triple-pure tt (λ w h. h.1.1))
              λ _. step Offered (Steady-ask _) λ checks. step Offered (Steady-put _ _) λ _.
                step Offered (Steady-active world fleet lease) λ _.
                  step Offered Steady-require_base λ _.
                    weaken-to (publishing_facts F sha) F (λ w h. h.1)
                      (merge-keeps (publishing_facts F sha) sha _ (search (steady_rules)))
    where
      Offered : List Fact
      Offered = is_offered sha ∷ publishing_facts F sha

  pub deliver-keeps :
      (F : List Fact) (sha : String)
      → ((w : Work) → Holds F w → ever (candidate_committed sha) w.log ≡ true)
      → Triple
          (Holds F)
          (deliver world fleet lease repo workspace protected sha)
          (λ _. Holds F)
          Safe
  unfolding deliver
  deliver-keeps F sha was_committed =
      Triple-if (not (is_delivered repo.delivery.mode)) (λ _. Triple-pure tt (λ w h. h))
        λ _. step F (Steady-active world fleet lease) λ _. step F Steady-require_base λ _.
          Triple-then (Holds (publishing_facts F sha))
            (enter-gains world fleet lease F publishing _ (may_publish sha)
              (unfold is_paused in refl)
              (λ rows w h shown. ground (arith, shown, was_committed w h)))
            λ _.
              Triple-then (Holds F)
                (Triple-if (is_local repo.delivery.mode) (λ _. deliver_local-keeps F sha)
                  λ _. deliver_github-keeps F sha)
                λ _. rest F (Steady-active world fleet lease)

  release_merged-keeps :
      (F : List Fact) (release : Option ReleaseConfig)
      → Triple
          (Holds (gained (has_release release) release_tested F))
          (release_merged world fleet lease repo workspace protected release)
          (λ _. Holds F)
          Safe
  unfolding release_merged
  release_merged-keeps F none = Triple-pure tt (λ w h. h)
  release_merged-keeps F (some release) = step Tested (Steady-gets _) λ evidence.
      step Tested (Steady-lift _) λ merged_sha. step Tested (Steady-ask _) λ _.
        step Tested (Steady-ask _) λ actual_tree. step Tested (Steady-lift _) λ candidate_tree.
          step Tested (Steady-require _ _) λ _.
            weaken-to Tested F (λ w h. h.1)
              (release_revision-keeps world fleet lease repo merged_sha _
                (Steady-active world fleet lease) Tested (λ w h. h.0) release)
    where
      Tested : List Fact
      Tested = release_tested ∷ F

  pub deliver_candidate-keeps :
      (F : List Fact) (candidate : Candidate)
      → ((w : Work) → Holds F w → ever (approved_as (world.strip candidate.diff)) w.log ≡ true)
      → Triple
          (Holds F)
          (deliver_candidate world fleet lease repo workspace protected candidate)
          (λ _. Holds F)
          Safe
  unfolding deliver_candidate
  deliver_candidate-keeps F candidate approved =
      step F (Steady-assert_files world fleet lease repo workspace protected) λ _.
        step F (Steady-read_diff_of world workspace) λ after. step F (Steady-require _ _) λ _.
          Triple-then (Holds Ready) (test_candidate_release-gains F repo.release candidate.diff)
            λ _.
              Triple-bind (λ sha. Holds (candidate_committed sha ∷ Ready))
                (commit_candidate-gains Ready candidate
                  (λ w h. approved w (gained-drop (has_release repo.release) _ F w h)))
                λ sha.
                  Triple-then (Holds Ready)
                    (weaken-to (candidate_committed sha ∷ Ready) Ready (λ w h. h.1)
                      (deliver-keeps (candidate_committed sha ∷ Ready) sha (λ w h. h.0)))
                    λ _.
                      Triple-then (Holds F) (release_merged-keeps F repo.release)
                        λ _. rest F (search (steady_rules, Steady-enter world fleet lease) depth 10)
    where
      Ready : List Fact
      Ready = gained (has_release repo.release) release_tested F

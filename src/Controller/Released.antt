-- ===== src/Controller/Released.antt =====
-- `Controller._release` records a success only after the deployment and its health have passed.
use katydid.Base.{
  Bool, Exec, List, Option, String, Triple, Triple-before, Triple-bind, Triple-if, Triple-then,
  Triple-weaken, arith, if◌then◌else◌, none, ok, pure, refl, some, true, ◌&&◌, ◌>>=◌, ◌>>◌, ◌∷◌,
  ◌≡◌,
}
use katydid.Controller.Deploying.{
  Steady-await_checks, Steady-current, Steady-pristine, health_after-gains, run_hook-gains,
  run_hook-keeps,
}
use katydid.Controller.Guards.{
  Fact, ever, head_confirmed, hook_begun, hook_passed, hooks_passed, may_deploy, release_tested,
}
use katydid.Controller.Releasing.{
  deploy_hooks, pristine, release_configured, release_revision, roll_back,
}
use katydid.Controller.Setting.{
  Fleet, GitWorkspace, ReleaseConfig, RepositoryConfig, Run, Work, World, recorded,
}
use katydid.Controller.Steadiness.{Steady-enter, enter-gains}
use katydid.Controller.Steady.{
  Holds, Safe, Steady, Steady-ask, Steady-put, Steady-raise, gained, gained-drop, gained-true,
  gained-under, note-keeps, rest, steady_rules, step, use-gained, weaken-to,
}
use katydid.Controller.Steps.{ask, call_store, has_passed, note}
use katydid.Store.Schema.{Lease, deploying, is_paused}
use katydid.Store.Success.{record_release_success}

module _ (world : World) (fleet : Fleet) (lease : Lease) (repo : RepositoryConfig) (sha : String)
    (before_hook : Exec Work (Unit {0})) (before : Steady before_hook) where
  module _ (workspace : GitWorkspace) (F : List Fact) where
    roll_back-keeps :
        ((w : Work) → Holds F w → ever may_deploy w.log ≡ true)
        → (release : ReleaseConfig)
        → Triple
            (Holds F)
            (roll_back world fleet lease repo sha before_hook workspace release)
            (λ _. Holds F)
            Safe
    unfolding roll_back
    roll_back-keeps ready release = step F (Steady-enter world fleet lease _ _) λ _.
        Triple-bind (λ _. Holds F)
          (run_hook-keeps world fleet lease repo sha before_hook before F ready workspace
            release.rollback)
          λ rollback. step F (Steady-put _ _) λ _. step F (Steady-enter world fleet lease _ _) λ _.
            Triple-bind (λ _. Holds F)
              (Triple-weaken (λ o w h. gained-drop (has_passed o) (λ e log. true) F w h)
                (λ e w s. s)
                (health_after-gains world fleet lease repo sha before_hook before F ready workspace
                  (λ e log. true) release.health rollback (λ e w passed h same. refl)))
              λ recovered. rest F (search (steady_rules, Steady-enter world fleet lease) depth 10)

  module _ (workspace : GitWorkspace) (F : List Fact) where
    abbrev deploying_facts : List Fact
    deploying_facts = may_deploy ∷ F

    abbrev deployed_facts : Run → List Fact
    deployed_facts run = gained run.passed (hook_passed sha) deploying_facts

    deployed_ready :
        (run : Run) (w : Work) → Holds (deployed_facts run) w → ever may_deploy w.log ≡ true
    deployed_ready run w h = (gained-drop run.passed (hook_passed sha) deploying_facts w h).0

    health-passed :
        (run : Run)
        → run.passed ≡ true
        → (w : Work) (passed : Bool)
        → Holds (hook_begun sha ∷ head_confirmed sha ∷ deployed_facts run) w
        → passed ≡ true
        → (passed && ever (hook_passed sha) w.log) ≡ true
    health-passed run e w passed (begun, (head, h)) same =
        ground (arith, (gained-true run.passed (hook_passed sha) deploying_facts w e h).0)

    record_success :
        (release : ReleaseConfig) (health : Option Run)
        → Triple
            (Holds (gained (has_passed health) (hooks_passed sha) deploying_facts))
            (if has_passed health
              then (do
                pristine world fleet lease repo sha before_hook workspace
                directories ← ask (λ n. ok (world.release_directories n))
                pointer ← ask (λ n. ok (world.write_pointer n))
                note (recorded sha)
                call_store world (λ now. record_release_success directories pointer now lease sha)
                pure tt)
              else roll_back world fleet lease repo sha before_hook workspace release)
            (λ _. Holds F)
            Safe
    record_success release health =
        Triple-if (has_passed health)
          (λ e. use-gained (has_passed health) (hooks_passed sha) deploying_facts e (
            step Success (Steady-pristine world fleet lease repo sha before_hook before workspace)
              λ _. step Success (Steady-ask _) λ directories. step Success (Steady-ask _) λ pointer.
                Triple-then (Holds F)
                  (weaken-to Success F (λ w (a, (b, h)). h)
                    (note-keeps Success (recorded sha) (λ w h. h.0)))
                  λ _. rest F (search (steady_rules))))
          λ _.
            weaken-to deploying_facts F (λ w h. h.1)
              (Triple-before (gained-drop (has_passed health) (hooks_passed sha) deploying_facts)
                (roll_back-keeps workspace deploying_facts (λ w h. h.0) release))
      where
        Success : List Fact
        Success = hooks_passed sha ∷ deploying_facts

    deploy_hooks-keeps :
        ((w : Work) → Holds F w → ever release_tested w.log ≡ true)
        → (release : ReleaseConfig)
        → Triple
            (Holds F)
            (deploy_hooks world fleet lease repo sha before_hook workspace release)
            (λ _. Holds F)
            Safe
    unfolding deploy_hooks
    deploy_hooks-keeps are_tested release =
        Triple-then (Holds deploying_facts)
          (enter-gains world fleet lease F deploying _ may_deploy (unfold is_paused in refl)
            (λ rows w h shown. ground (arith, shown, are_tested w h)))
          λ _.
            Triple-bind (λ run. Holds (deployed_facts run))
              (run_hook-gains world fleet lease repo sha before_hook before deploying_facts
                (λ w h. h.0) workspace (hook_passed sha) release.deploy
                (λ w passed h e. ground (arith, h.0)))
              λ deploy. step (deployed_facts deploy) (Steady-put _ _) λ _.
                step (deployed_facts deploy) (Steady-enter world fleet lease _ _) λ _.
                  Triple-bind
                    (λ o. Holds (gained (has_passed o) (hooks_passed sha) deploying_facts))
                    (Triple-weaken (λ o w h. forget deploy o w h) (λ e w s. s)
                      (health_after-gains world fleet lease repo sha before_hook before
                        (deployed_facts deploy) (deployed_ready deploy) workspace (hooks_passed sha)
                        release.health deploy (health-passed deploy)))
                    λ health.
                      step (gained (has_passed health) (hooks_passed sha) deploying_facts)
                        (Steady-put _ _) λ _. record_success release health
      where
        forget :
            (deploy : Run) (o : Option Run) (w : Work)
            → Holds (gained (has_passed o) (hooks_passed sha) (deployed_facts deploy)) w
            → Holds (gained (has_passed o) (hooks_passed sha) deploying_facts) w
        forget deploy o w h =
            gained-under (has_passed o) (hooks_passed sha) (deployed_facts deploy) deploying_facts w
              (gained-drop deploy.passed (hook_passed sha) deploying_facts w) h

  pub release_revision-keeps :
      (F : List Fact)
      → ((w : Work) → Holds F w → ever release_tested w.log ≡ true)
      → (release : ReleaseConfig)
      → Triple
          (Holds F)
          (release_revision world fleet lease repo sha before_hook release)
          (λ _. Holds F)
          Safe
  unfolding release_revision
  release_revision-keeps F are_tested release =
      step F (Steady-current world fleet lease repo sha before_hook before) λ _.
        step F (Steady-await_checks world fleet lease repo sha before_hook before _) λ _.
          step F (Steady-ask _) λ workspace. step F (Steady-put _ _) λ _.
            step F (Steady-pristine world fleet lease repo sha before_hook before workspace)
              λ _. step F (Steady-ask _) λ _. deploy_hooks-keeps workspace F are_tested release

  -- The release keeps the facts, where the checks of the release stage have passed.
  pub release_configured-keeps :
      (F : List Fact)
      → ((w : Work) → Holds F w → ever release_tested w.log ≡ true)
      → (release : Option ReleaseConfig)
      → Triple
          (Holds F)
          (release_configured world fleet lease repo sha before_hook release)
          (λ _. Holds F)
          Safe
  unfolding release_configured
  release_configured-keeps F are_tested none = rest F (Steady-raise _)
  release_configured-keeps F are_tested (some release) = release_revision-keeps F are_tested release

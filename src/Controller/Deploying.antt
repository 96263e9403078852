-- ===== src/Controller/Deploying.antt =====
-- The hooks of `Controller._release` run only on the confirmed head, after the release-stage checks.
use katydid.Base.{
  Bool, Exec, List, String, Triple, Triple-bind, Triple-if, Triple-pure, Triple-require,
  Triple-then, Triple-weaken, arith, controller_error, eq_iff, eq_refl, false, none, refl, some,
  subst, true, ◌==◌, ◌∷◌, ◌≡◌,
}
use katydid.Controller.Guards.{Fact, ever, head_confirmed, hook_begun, may_deploy}
use katydid.Controller.Observing.{observe-gained}
use katydid.Controller.Releasing.{await_checks, current, health_after, pristine, run_hook}
use katydid.Controller.Setting.{
  Check, DeliveryConfig, Fleet, GitWorkspace, RepositoryConfig, Run, Work, World, head_is,
  hook_ended, hook_started,
}
use katydid.Controller.Steadiness.{Steady-enter, Steady-read_head}
use katydid.Controller.Steady.{
  Holds, Holds-Safe, Safe, Steady, Steady-ask, Steady-evidence, Steady-lift, gained, gained-drop,
  note-gains, rest, steady_rules, step,
}
use katydid.Controller.Steps.{has_passed, read_head}
use katydid.Store.Schema.{Lease}

module _ (world : World) (fleet : Fleet) (lease : Lease) (repo : RepositoryConfig) (sha : String)
    (before_hook : Exec Work (Unit {0})) (before : Steady before_hook) where
  pub Steady-current : Steady (current world fleet lease repo sha before_hook)
  unfolding current
  Steady-current = search (steady_rules, before, Steady-read_head world fleet lease repo) depth 10

  pub Steady-await_checks :
      (delivery : DeliveryConfig)
      → Steady (await_checks world fleet lease repo sha before_hook delivery)
  unfolding await_checks
  Steady-await_checks delivery =
      search (steady_rules, Steady-current, Steady-enter world fleet lease) depth 20

  pub Steady-pristine :
      (workspace : GitWorkspace)
      → Steady (pristine world fleet lease repo sha before_hook workspace)
  unfolding pristine
  Steady-pristine workspace = search (steady_rules, Steady-current) depth 10

  module _ (F : List Fact) (ready : (w : Work) → Holds F w → ever may_deploy w.log ≡ true) where
    read_head-confirms :
        Triple
          (Holds F)
          (read_head world fleet lease repo)
          (λ head. Holds (head_confirmed head ∷ F))
          Safe
    unfolding read_head
    read_head-confirms =
        observe-gained F _ head_is (λ head. true) (λ head. head_confirmed head) (λ head w h. refl)
          (λ head w h e. ground (arith, eq_refl head, ready w h))

    current-confirms :
        Triple
          (Holds F)
          (current world fleet lease repo sha before_hook)
          (λ _. Holds (head_confirmed sha ∷ F))
          Safe
    unfolding current
    current-confirms = step F before λ _.
        Triple-bind (λ head. Holds (head_confirmed head ∷ F)) read_head-confirms
          λ head.
            Triple-weaken
              (λ _ w (same, h).
                subst (λ s. Holds (head_confirmed s ∷ F) w) ((eq_iff head sha).0 same) h)
              (λ e w s. s)
              (Triple-require (head == sha) controller_error
                (λ w h. Holds-Safe (head_confirmed head ∷ F) w h))

    module _ (workspace : GitWorkspace) where
      pristine-confirms :
          Triple
            (Holds F)
            (pristine world fleet lease repo sha before_hook workspace)
            (λ _. Holds (head_confirmed sha ∷ F))
            Safe
      unfolding pristine
      pristine-confirms =
          Triple-then (Holds (head_confirmed sha ∷ F)) current-confirms
            λ _. rest (head_confirmed sha ∷ F) (search (steady_rules) depth 10)

      abbrev pub confirmed_facts : List Fact
      confirmed_facts = head_confirmed sha ∷ F

      abbrev pub begun_facts : List Fact
      begun_facts = hook_begun sha ∷ confirmed_facts

      -- A hook that has passed makes the fact true.
      pub run_hook-gains :
          (f : Fact) (check : Check)
          → ((w : Work) (passed : Bool)
              → Holds begun_facts w
              → passed ≡ true
              → f (hook_ended check passed) w.log ≡ true)
          → Triple
              (Holds F)
              (run_hook world fleet lease repo sha before_hook workspace check)
              (λ run. Holds (gained run.passed f F))
              Safe
      unfolding run_hook
      run_hook-gains f check gain = Triple-then (Holds confirmed_facts) pristine-confirms λ _.
          step confirmed_facts (Steady-ask _) λ resolved.
            step confirmed_facts (Steady-lift _) λ cwd.
              Triple-then (Holds begun_facts)
                (note-gains confirmed_facts (hook_started check sha) _ (λ w h. h.0)
                  (λ w h. eq_refl sha))
                λ _.
                  Triple-bind (λ result. Holds (gained result.passed f begun_facts))
                    (observe-gained begun_facts _ _ (λ result. result.passed) (λ result. f)
                      (λ result w h. refl) (λ result w h e. gain w result.passed h e))
                    λ result. step (gained result.passed f begun_facts) (Steady-evidence _) λ _.
                      step (gained result.passed f begun_facts) (Steady-pristine workspace)
                        λ _. Triple-pure result (λ w h. drop result.passed w h)
        where
          drop : (b : Bool) (w : Work) → Holds (gained b f begun_facts) w → Holds (gained b f F) w
          drop true w (here, (begun, (head, h))) = (here, h)
          drop false w (begun, (head, h)) = h

      pub run_hook-keeps :
          (check : Check)
          → Triple
              (Holds F)
              (run_hook world fleet lease repo sha before_hook workspace check)
              (λ _. Holds F)
              Safe
      run_hook-keeps check =
          Triple-weaken (λ run w h. gained-drop run.passed (λ e log. true) F w h) (λ e w s. s)
            (run_hook-gains (λ e log. true) check (λ w passed h e. refl))

      -- The health hook, after a hook that may have made a fact true.
      pub health_after-gains :
          (f : Fact) (health : Check) (deployed : Run)
          → (deployed.passed ≡ true
              → (w : Work) (passed : Bool) → Holds begun_facts w
              → passed ≡ true
              → f (hook_ended health passed) w.log ≡ true)
          → Triple
              (Holds F)
              (health_after world fleet lease repo sha before_hook workspace health deployed)
              (λ o. Holds (gained (has_passed o) f F))
              Safe
      unfolding health_after has_passed
      health_after-gains f health deployed gain =
          Triple-if deployed.passed
            (λ e.
              Triple-bind (λ run. Holds (gained run.passed f F)) (run_hook-gains f health (gain e))
                λ run. Triple-pure (some run) (λ w h. h))
            λ _. Triple-pure none (λ w h. h)

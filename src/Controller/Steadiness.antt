-- ===== src/Controller/Steadiness.antt =====
-- The parts of `Controller.execute` that do nothing which needs a guard: they keep what the log has
-- shown.
use katydid.Base.{
  List, Option, String, Triple, Triple-pure, Triple-then, false, none, refl, some, true, ◌∷◌, ◌≡◌,
}
use katydid.Controller.Guards.{Fact, in_state}
use katydid.Controller.Observing.{transition-gains}
use katydid.Controller.Setting.{Fleet, GitWorkspace, RepositoryConfig, Run, Work, World, stored}
use katydid.Controller.Steady.{Holds, Safe, Steady, Steady-observe, steady_rules, step}
use katydid.Controller.Steps.{
  active, assert_files, ensure_environment, enter, fresh, fresh_revision, read_head,
  unchanged_policy,
}
use katydid.Json.{Fields}
use katydid.Store.Schema.{EventRow, Lease, State, is_paused}
use katydid.Tasks.{TaskRequest}

pub Steady-ensure_environment : (run : Run) → Steady (ensure_environment run)
unfolding ensure_environment
Steady-ensure_environment run = search (steady_rules)

module _ (world : World) (fleet : Fleet) where
  Steady-unchanged_policy : Steady (unchanged_policy world fleet)
  unfolding unchanged_policy
  Steady-unchanged_policy = search (steady_rules)

  module _ (lease : Lease) where
    pub Steady-active : Steady (active world fleet lease)
    unfolding active
    Steady-active = search (steady_rules, Steady-unchanged_policy)

    pub Steady-enter :
        (state : State) (details : Fields) → Steady (enter world fleet lease state details)
    unfolding enter
    Steady-enter state details = search (steady_rules, Steady-active)

    -- A transition that makes a fact true.
    pub enter-gains :
        (F : List Fact) (state : State) (details : Fields) (f : Fact)
        → is_paused state ≡ false
        → ((rows : List EventRow) (w : Work)
            → Holds F w
            → in_state state rows ≡ true
            → f (stored rows) w.log ≡ true)
        → Triple (Holds F) (enter world fleet lease state details) (λ _. Holds (f ∷ F)) Safe
    unfolding enter
    enter-gains F state details f np g = step F Steady-active λ _.
        Triple-then (Holds (f ∷ F)) (transition-gains world lease F state _ f np g)
          λ _. Triple-pure tt (λ w h. h)

    module _ (repo : RepositoryConfig) where
      pub Steady-read_head : Steady (read_head world fleet lease repo)
      unfolding read_head
      Steady-read_head = Steady-observe _ _ (λ head log. refl)

      Steady-fresh_revision :
          (ref sha : Option String) → Steady (fresh_revision world fleet lease repo ref sha)
      unfolding fresh_revision
      Steady-fresh_revision none sha = search (steady_rules)
      Steady-fresh_revision (some ref) sha = search (steady_rules)

      pub Steady-fresh : (request : TaskRequest) → Steady (fresh world fleet lease repo request)
      unfolding fresh
      Steady-fresh request =
          search (steady_rules, Steady-active, Steady-read_head, Steady-fresh_revision)

      pub Steady-assert_files :
          (workspace : GitWorkspace) (protected : List (String × String))
          → Steady (assert_files world fleet lease repo workspace protected)
      unfolding assert_files
      Steady-assert_files workspace protected = search (steady_rules)

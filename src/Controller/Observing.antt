-- ===== src/Controller/Observing.antt =====
-- What an answer or a call of the store shows in the log of src/katydid/controller.py.
use katydid.Base.{
  After, Bool, Exec, List, Option, Result, String, Triple, Triple-bind, Triple-pure, Triple-then,
  [], any, ap, arith, count, count-append, eq_refl, err, false, length, ok, refl, some, sym, true,
  ℕ, ℤ, ◌++◌, ◌+◌, ◌>>=◌, ◌∙◌, ◌∷◌, ◌≡◌,
}
use katydid.Controller.Guards.{Fact, allowed, in_state, release_tested}
use katydid.Controller.Setting.{
  Entry, GitWorkspace, Plan, RepositoryConfig, Run, Work, World, ran, stored,
}
use katydid.Controller.Steady.{
  Holds, Holds-Safe, Safe, Steady-ask, add_entry, gained, note-gained, same_log, step,
}
use katydid.Controller.Steps.{after_first, call_store, observe, run_checked, stage_plan}
use katydid.Json.{Value}
use katydid.Store.Leases.{is_ai_call, reserve_ai_call, transition}
use katydid.Store.Outcome.{OnExit, Outcome}
use katydid.Store.Schema.{
  Db, EventRow, Lease, State, is_paused, state_name, workflow_state, workflow_state-state_name,
}
use katydid.Store.Working.{reserve_ai_call-Outcome, transition-Outcome}
use katydid.Tasks.{Stage, is_release_stage}

after_first-append : (xs ys : List EventRow) → after_first (length xs) (xs ++ ys) ≡ ys
after_first-append [] ys = refl
after_first-append (x ∷ xs) ys = after_first-append xs ys

-- An answer that makes a fact true if its test holds.
pub observe-gained :
    {A : Type 0} (F : List Fact) (f : ℕ → Result A) (entry : A → Entry) (b : A → Bool)
    (fact : A → Fact)
    → ((a : A) (w : Work) → Holds F w → allowed (entry a) w.log ≡ true)
    → ((a : A) (w : Work) → Holds F w → b a ≡ true → fact a (entry a) w.log ≡ true)
    → Triple (Holds F) (observe f entry) (λ a. Holds (gained (b a) (fact a) F)) Safe
unfolding observe
observe-gained F f entry b fact free gain = step F (Steady-ask f) λ a.
    Triple-then (Holds (gained (b a) (fact a) F))
      (note-gained F (entry a) (b a) (fact a) (free a) (gain a)) λ _. Triple-pure a (λ w h. h)

-- The plan that `make_plan` makes is one of the stage.
pub stage_plan-step :
    {B : Type 0} (world : World) (F : List Fact) (workspace : GitWorkspace)
    (repo : RepositoryConfig) (stage : Stage) {Q : B → Work → Type 0} {k : Plan → Exec Work B}
    → ((plan : Plan) → plan.stage ≡ stage → Triple (Holds F) (k plan) Q Safe)
    → Triple (Holds F) (stage_plan world workspace repo stage >>= k) Q Safe
unfolding stage_plan
stage_plan-step world F workspace repo stage t =
    Triple-bind (λ plan w. Holds F w × (plan.stage ≡ stage))
      (step F (Steady-ask _) λ plan. Triple-pure _ (λ w h. (h, refl)))
      λ plan. record { holds = λ w (h, e). (t plan e).holds w h }

module _ (world : World) {A : Type 0} (F : List Fact) {Q : Work → Type 0} (f : ℕ → Exec Db A)
    (shows : List EventRow → Bool)
    (shown : (n : ℕ) (db : Db)
      → Outcome
          (λ _ db'. shows (after_first (length db.task_events) db'.task_events) ≡ true)
          db
          (f n)) where
  -- A call of the store whose events show something, where it returns.
  pub call_store-logs :
      ((rows : List EventRow) (w v : Work)
        → Holds F w
        → shows rows ≡ true
        → stored rows ∷ w.log ≡ v.log
        → Q v)
      → Triple (Holds F) (call_store world f) (λ _. Q) Safe
  unfolding call_store
  call_store-logs k = record {
    holds = λ w h.
        let n = world.now w.asked_count in
        let db = world.others w.asked_count w.db in
        exit db (w.asked_count + 1) w (f n db) (shown n db).holds h;
  }
    where
      exit :
          (db : Db) (n : ℕ) (w : Work) (r : Result A × Db)
          → OnExit
              (λ _ db'. shows (after_first (length db.task_events) db'.task_events) ≡ true)
              db
              r
          → Holds F w
          → After
              (λ _. Q)
              Safe
              (
                r.0,
                record w {
                  db = r.1;
                  asked_count = n;
                  log = stored (after_first (length db.task_events) r.1.task_events) ∷ w.log;
                },
              )
      exit db n w (ok a, db') o h = k _ w _ h o refl
      exit db n w (err e, db') o h =
          let rows = after_first (length db.task_events) db'.task_events in
          Holds-Safe F (record w { log = stored rows ∷ w.log }) (add_entry F (stored rows) w refl h)

Outcome-weaken :
    {A : Type 0} {Q R : A → Db → Type 0} (db : Db) (m : Exec Db A)
    → ((a : A) (db' : Db) → Q a db' → R a db')
    → Outcome Q db m
    → Outcome R db m
Outcome-weaken {A} {Q} {R} db m h o = record { holds = exit (m db) o.holds }
  where
    exit : (r : Result A × Db) → OnExit Q db r → OnExit R db r
    exit (ok a, db') q = h a db' q
    exit (err e, db') q = q

pub state-named :
    (state s : State)
    → is_paused state ≡ false
    → workflow_state (state_name state) ≡ some s
    → s ≡ state
state-named state s np e = ground (arith, workflow_state-state_name state)

-- The event of a transition shows the state.
pub transition-shows :
    (state : State) (details : Option Value) (lease : Lease)
    → is_paused state ≡ false
    → (n : ℕ) (db : Db)
    → Outcome
        (λ _ db'. in_state state (after_first (length db.task_events) db'.task_events) ≡ true)
        db
        (transition n lease (state_name state) details)
transition-shows state details lease np n db =
    Outcome-weaken db _
      (λ task db' t.
        rw (t.logged.appended, after_first-append db.task_events)
          (rw (state-named state t.row'.state np t.detail.2)
            (ground (arith, eq_refl (state_name state)))))
      (transition-Outcome n lease (state_name state) details db)

count-one :
    (p : EventRow → Bool) (row : EventRow) → count p (row ∷ []) ≡ 1 → any p (row ∷ []) ≡ true
count-one p row e = ground arith

-- The event of a reservation is that of a call of the AI.
pub reserve_ai_call-shows :
    (lease : Lease) (role : String) (limit : ℤ) (n : ℕ) (db : Db)
    → Outcome
        (λ _ db'.
          any (is_ai_call lease.task_id) (after_first (length db.task_events) db'.task_events)
          ≡ true)
        db
        (reserve_ai_call n lease role limit)
reserve_ai_call-shows lease role limit n db =
    Outcome-weaken db _
      (λ k db' t.
        rw (t.logged.appended, after_first-append db.task_events)
          (count-one (is_ai_call lease.task_id) _
            (one db db' _ t.logged.appended (sym t.detail.1 ∙ t.detail.2))))
      (reserve_ai_call-Outcome n lease role limit db)
  where
    one :
        (db db' : Db) (row : EventRow)
        → db'.task_events ≡ db.task_events ++ row ∷ []
        → count (is_ai_call lease.task_id) db.task_events + 1
          ≡ count (is_ai_call lease.task_id) db'.task_events
        → count (is_ai_call lease.task_id) (row ∷ []) ≡ 1
    one db db' row a e = omega (
      arith,
      ap (count (is_ai_call lease.task_id)) a,
      count-append (is_ai_call lease.task_id) db.task_events (row ∷ []),
    )

-- A transition that makes a fact true.
pub transition-gains :
    (world : World) (lease : Lease) (F : List Fact) (state : State) (details : Option Value)
    (f : Fact)
    → is_paused state ≡ false
    → ((rows : List EventRow) (w : Work)
        → Holds F w
        → in_state state rows ≡ true
        → f (stored rows) w.log ≡ true)
    → Triple
        (Holds F)
        (call_store world (λ now. transition now lease (state_name state) details))
        (λ _. Holds (f ∷ F))
        Safe
transition-gains world lease F state details f np g =
    call_store-logs world F _ (in_state state) (transition-shows state details lease np)
      (λ rows w v h shown e.
        same_log (f ∷ F) (record w { log = stored rows ∷ w.log }) v e
          (ground (arith, g rows w h shown), add_entry F (stored rows) w refl h))

tested-release :
    (stage : Stage) (passed : Bool) (log : List Entry)
    → is_release_stage stage ≡ true
    → passed ≡ true
    → release_tested (ran stage passed) log ≡ true
unfolding is_release_stage
tested-release Stage.release passed log e p = p
tested-release Stage.pull_request passed log e p = cc
tested-release Stage.merge passed log e p = cc
tested-release Stage.nightly passed log e p = cc

-- A run of the checks of the release stage makes the fact true if it passes.
pub run_checked-gains :
    (world : World) (F : List Fact) (plan : Plan) (b : Run → Bool)
    → ((run : Run) → b run ≡ true → (run.passed ≡ true) × (is_release_stage plan.stage ≡ true))
    → Triple
        (Holds F)
        (run_checked world plan)
        (λ run. Holds (gained (b run) release_tested F))
        Safe
unfolding run_checked
run_checked-gains world F plan b passes =
    observe-gained F _ _ b (λ _. release_tested) (λ run w h. refl)
      (λ run w h e. tested-release plan.stage run.passed w.log (passes run e).1 (passes run e).0)

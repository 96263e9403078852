-- ===== src/Controller/Reviewing.antt =====
-- A candidate of the repair loop of src/katydid/controller.py has passed its checks, and then the
-- review has approved it.
use katydid.Base.{
  Bool, Exec, List, Result, String, Triple, Triple-before, Triple-bind, Triple-if, Triple-pure,
  Triple-raise, Triple-require, Triple-then, Triple-weaken, and-true-left, any, ap, arith, attempt,
  controller_error, eq_iff, eq_refl, false, is_nil, not, refl, some, subst, suc, true, zero, ℕ,
  ◌&&◌, ◌+◌, ◌==◌, ◌>>=◌, ◌∷◌, ◌≡◌,
}
use katydid.Controller.Guards.{
  Fact, approved_as, checked_as, ever, is_independent, is_missing, just_reserved, read_as,
  shows_verified, verified_as,
}
use katydid.Controller.Observing.{call_store-logs, observe-gained, reserve_ai_call-shows}
use katydid.Controller.Repairing.{
  Candidate, accepts, apply_proposal, ask_role, attempts, judge_candidate, read_diff, read_files,
  repair_candidate, review_candidate, verify,
}
use katydid.Controller.Setting.{
  Entry, Fleet, GitWorkspace, Plan, Repair, RepositoryConfig, Review, Role, Run, Work, World, asked,
  diff_is, stored,
}
use katydid.Controller.Steadiness.{
  Steady-active, Steady-assert_files, Steady-ensure_environment, Steady-enter,
}
use katydid.Controller.Steady.{
  Holds, Holds-Safe, Safe, Steady, Steady-ask, Steady-gets, Steady-put, Steady-refuse,
  Steady-require, add_entry, gained, gained-drop, gained-true, note-gained, same_log, steady_rules,
  step, use-gained,
}
use katydid.Controller.Steps.{get_key, note, read_diff_of, run_checked, set_key, without_key}
use katydid.Json.{Fields, Value, end, field, text}
use katydid.Store.Leases.{is_ai_call}
use katydid.Store.Schema.{Lease}
use katydid.Store.Transaction.{Task}

module _ (world : World) (fleet : Fleet) (lease : Lease) (repo : RepositoryConfig) where
  -- The question to the AI comes right after the store has logged its reservation.
  asks-guarded :
      {A : Type 0} (F : List Fact) (role : Role) (context : Fields) (m : Exec Work A)
      → is_independent role context ≡ true
      → Steady m
      → Triple
          (λ w. Holds F w × (just_reserved lease.task_id w.log ≡ true))
          (note (asked lease.task_id role context) >>= λ _. m)
          (λ _. Holds F)
          Safe
  unfolding note ◌>>=◌
  asks-guarded F role context m free h = record {
    holds = λ w (held, reserved).
        (h.keeps F).holds (record w { log = asked lease.task_id role context ∷ w.log })
          (add_entry F (asked lease.task_id role context) w (ground (arith, reserved, free)) held);
  }

  Steady-ask_role :
      {A : Type 0} (role : Role) (context : Fields) (answer : ℕ → Fields → Result A)
      → is_independent role context ≡ true
      → Steady (ask_role world fleet lease repo role context answer)
  unfolding ask_role
  Steady-ask_role role context answer free = record {
    keeps = λ F. step F (Steady-active world fleet lease) λ _.
        Triple-bind (λ _ w. Holds F w × (just_reserved lease.task_id w.log ≡ true))
          (call_store-logs world F _ (any (is_ai_call lease.task_id))
            (reserve_ai_call-shows lease _ _)
            (λ rows w v h shown e. (
              same_log F (record w { log = stored rows ∷ w.log }) v e
                  (add_entry F (stored rows) w refl h),
              subst (λ log. just_reserved lease.task_id log ≡ true) e shown,
            )))
          λ _. asks-guarded F role context _ free (Steady-ask _);
  }

  missing-without_key :
      (key : String) (fs : Fields) → is_missing (get_key key (without_key key fs)) ≡ true
  unfolding get_key without_key
  missing-without_key key end = refl
  missing-without_key key (field k v fs) = ground (arith, missing-without_key key fs)

  get_key-set_key :
      (key : String) (v : Value) (fs : Fields) → get_key key (set_key key v fs) ≡ some v
  unfolding get_key set_key
  get_key-set_key key v end = ground (arith, eq_refl key)
  get_key-set_key key v (field k x fs) = ground (arith, get_key-set_key key v fs)

  get_key-set_other :
      (key other : String) (v : Value) (fs : Fields)
      → (other == key) ≡ false
      → get_key key (set_key other v fs) ≡ get_key key fs
  unfolding get_key set_key
  get_key-set_other key other v end ne = ground (arith, ne)
  get_key-set_other key other v (field k x fs) ne =
      ground (arith, get_key-set_other key other v fs ne, eq_iff k other)

  get_key-without_other :
      (key other : String) (fs : Fields)
      → (other == key) ≡ false
      → get_key key (without_key other fs) ≡ get_key key fs
  unfolding get_key without_key
  get_key-without_other key other end ne = refl
  get_key-without_other key other (field k x fs) ne =
      ground (arith, get_key-without_other key other fs ne, eq_iff k other)

  module _ (workspace : GitWorkspace) (plan : Plan) (protected : List (String × String)) where
    Steady-read_files : Steady (read_files world fleet lease repo workspace plan protected)
    unfolding read_files
    Steady-read_files = search (steady_rules)

    -- The text of a candidate that was verified.
    abbrev verified : String → Fact
    verified diff = verified_as diff (world.strip diff)

    abbrev approved : String → Fact
    approved diff = approved_as (world.strip diff)

    read_diff-gained :
        (F : List Fact) (b : String → Bool) (f : Fact)
        → ((diff : String) (w : Work)
            → Holds F w
            → b diff ≡ true
            → f (diff_is diff (world.strip diff)) w.log ≡ true)
        → Triple
            (Holds F)
            (read_diff world fleet lease repo workspace plan protected)
            (λ diff. Holds (gained (b diff) f F))
            Safe
    unfolding read_diff read_diff_of
    read_diff-gained F b f gain = observe-gained F _ _ b (λ _. f) (λ diff w h. refl) gain

    read_diff-gains :
        (F : List Fact)
        → Triple
            (Holds F)
            (read_diff world fleet lease repo workspace plan protected)
            (λ diff. Holds (read_as diff ∷ F))
            Safe
    unfolding read_diff read_diff_of
    read_diff-gains F =
        observe-gained F _ _ (λ diff. true) (λ diff. read_as diff) (λ diff w h. refl)
          (λ diff w h e. eq_refl diff)

    apply_proposal-gains :
        (F : List Fact) (proposal : Repair)
        → Triple
            (Holds F)
            (apply_proposal world fleet lease repo workspace plan protected proposal)
            (λ diff. Holds (read_as diff ∷ F))
            Safe
    unfolding apply_proposal
    apply_proposal-gains F proposal = step F (Steady-ask _) λ _.
        step F (Steady-assert_files world fleet lease repo workspace protected) λ _.
          Triple-bind (λ diff. Holds (read_as diff ∷ F)) (read_diff-gains F)
            λ diff. step (read_as diff ∷ F) (Steady-refuse _ _) λ _. Triple-pure diff (λ w h. h)

    verify-gains :
        (F : List Fact) (diff : String)
        → Triple
            (Holds (read_as diff ∷ F))
            (verify world fleet lease repo workspace plan protected diff)
            (λ run. Holds (gained run.passed (verified diff) F))
            Safe
    unfolding verify run_checked
    verify-gains F diff =
        Triple-bind (λ run. Holds (Checked run.passed))
          (observe-gained Read _ _ (λ run. run.passed) (λ _. checked_as diff) (λ run w h. refl)
            (λ run w h e. ground (arith, e, h.0)))
          λ result. step (Checked result.passed) (Steady-active world fleet lease) λ _.
            step (Checked result.passed) (Steady-put _ _) λ _.
              step (Checked result.passed) (Steady-ensure_environment result) λ _.
                step (Checked result.passed)
                  (Steady-assert_files world fleet lease repo workspace protected)
                  λ _.
                    Triple-bind
                      (λ after. Holds (
                        gained (after == diff && result.passed) (verified diff)
                          (Checked result.passed)))
                      (read_diff-gained (Checked result.passed)
                        (λ after. after == diff && result.passed) (verified diff)
                        (λ after w h e. unchanged after result.passed w e h))
                      λ after.
                        Triple-then (Holds (gained result.passed (verified diff) F))
                          (Triple-weaken (λ _ w (same, h). verdict after result.passed w same h)
                            (λ e w s. s)
                            (Triple-require (after == diff) controller_error (λ w h.
                              Holds-Safe
                                (gained (after == diff && result.passed) (verified diff)
                                  (Checked result.passed))
                                w h)))
                          λ _. Triple-pure result (λ w h. h)
      where
        Read : List Fact
        Read = read_as diff ∷ F

        Checked : Bool → List Fact
        Checked passed = gained passed (checked_as diff) Read

        unchanged :
            (after : String) (passed : Bool) (w : Work)
            → (after == diff && passed) ≡ true
            → Holds (Checked passed) w
            → verified diff (diff_is after (world.strip after)) w.log ≡ true
        unchanged after true w e h =
            let same : (after == diff) ≡ true = and-true-left _ _ e in
            let path : after ≡ diff = (eq_iff after diff).0 same in
            ground (
              arith,
              same,
              h.0,
              (eq_iff (world.strip after) (world.strip diff)).1 (ap world.strip path),
            )
        unchanged after false w e h = absurd (ground (arith, e))

        verdict :
            (after : String) (passed : Bool) (w : Work)
            → (after == diff) ≡ true
            → Holds (gained (after == diff && passed) (verified diff) (Checked passed)) w
            → Holds (gained passed (verified diff) F) w
        verdict after true w e h =
            let (v, (c, (r, k))) =
              gained-true (after == diff && true) (verified diff) (Checked true) w (ground arith)
                h in
            (v, k)
        verdict after false w e h =
            (gained-drop (after == diff && false) (verified diff) (Checked false) w h).1

    review-gains :
        (F : List Fact) (context : Fields) (stripped : String)
        → ((w : Work) → Holds F w → shows_verified (get_key "diff" context) stripped w.log ≡ true)
        → Triple
            (Holds F)
            (review_candidate world fleet lease repo workspace plan protected context)
            (λ given. Holds (
              gained
                (accepts world fleet lease repo workspace plan protected given)
                (approved_as stripped)
                F))
            Safe
    unfolding review_candidate accepts
    review-gains F context stripped shown =
        step F (Steady-ask_role _ _ _ (missing-without_key "diagnosis" context)) λ given.
          let ok = given.approved && is_nil given.concerns in
          Triple-then (Holds (gained ok (approved_as stripped) F))
            (note-gained F _ ok _ (λ w h. refl)
              (λ w h e.
                rw (get_key-without_other "diff" "diagnosis" context refl)
                  (ground (arith, e, shown w h))))
            λ _. step (gained ok (approved_as stripped) F) (Steady-active world fleet lease) λ _.
              step (gained ok (approved_as stripped) F) (Steady-put _ _)
                λ _. Triple-pure given (λ w h. h)

    shows_diff :
        (diff : String) (files shown : Value) (context : Fields) (log : List Entry)
        → ever (verified diff) log ≡ true
        → shows_verified
            (get_key "diff" (
              set_key "files" files
                (set_key "diff" (text diff) (set_key "verification" shown context))))
            (world.strip diff)
            log
          ≡ true
    shows_diff diff files shown context log h =
        rw (get_key-set_other "diff" "files" files _ refl, get_key-set_key "diff" (text diff) _) h

    -- What follows the verification of an attempt: the candidate that is accepted has passed its
    -- checks, and then its review.
    judge-gains :
        (F : List Fact) (next : Fields → Exec Work Candidate) (attempt : ℕ) (context : Fields)
        (diff : String) (result : Run)
        → ((c : Fields) → Triple (Holds F) (next c) (λ c. Holds (approved c.diff ∷ F)) Safe)
        → Triple
            (Holds (gained result.passed (verified diff) F))
            (judge_candidate world fleet lease repo workspace plan protected next attempt context
              diff result)
            (λ c. Holds (approved c.diff ∷ F))
            Safe
    unfolding judge_candidate
    judge-gains F next attempt context diff result again =
        step (gained result.passed (verified diff) F) Steady-read_files λ files.
          Triple-if (not result.passed)
            (λ _. Triple-before (gained-drop result.passed (verified diff) F) (again _))
            λ e. use-gained result.passed _ F (ground (arith, e)) (
              step Verified (Steady-enter world fleet lease _ _) λ _.
                Triple-bind (λ given. Holds (gained (accepts_it given) (approved diff) Verified))
                  (review-gains Verified _ (world.strip diff)
                    (λ w h. shows_diff diff _ _ context w.log h.0))
                  λ given.
                    Triple-if (accepts_it given)
                      (λ good.
                        use-gained (accepts_it given) _ Verified good
                          (Triple-pure _ (λ w (a, (b, h)). (a, h))))
                      λ _.
                        Triple-before (λ w h. (gained-drop (accepts_it given) _ Verified w h).1)
                          (again _))
      where
        Verified : List Fact
        Verified = verified diff ∷ F

        accepts_it : Review → Bool
        accepts_it = accepts world fleet lease repo workspace plan protected

    attempts-gains :
        (F : List Fact) (left attempt : ℕ) (context : Fields)
        → Triple
            (Holds F)
            (attempts world fleet lease repo workspace plan protected left attempt context)
            (λ c. Holds (approved c.diff ∷ F))
            Safe
    unfolding attempts
    attempts-gains F zero attempt context = Triple-raise _ (Holds-Safe F)
    attempts-gains F (suc left) attempt context = step F (Steady-enter world fleet lease _ _) λ _.
        step F Steady-read_files λ files. step F (Steady-ask_role Role.repair _ _ refl) λ proposal.
          step F (Steady-active world fleet lease) λ _.
            Triple-bind (λ diff. Holds (read_as diff ∷ F)) (apply_proposal-gains F proposal)
              λ diff. step (read_as diff ∷ F) (Steady-enter world fleet lease _ _) λ _.
                Triple-bind (λ run. Holds (gained run.passed (verified diff) F))
                  (verify-gains F diff)
                  λ result.
                    judge-gains F _ attempt _ diff result
                      (λ c. attempts-gains F left (attempt + 1) c)

    -- The candidate that the loop returns is approved.
    pub repair_candidate-gains :
        (F : List Fact) (task : Task) (original : Fields)
        → Triple
            (Holds F)
            (repair_candidate world fleet lease repo workspace plan protected task original)
            (λ c. Holds (approved_as (world.strip c.diff) ∷ F))
            Safe
    unfolding repair_candidate
    repair_candidate-gains F task original = step F (Steady-ask _) λ _.
        step F (Steady-gets _) λ evidence. step F (Steady-enter world fleet lease _ _) λ _.
          step F (Steady-ask_role Role.diagnosis _ _ refl) λ cause.
            step F (Steady-active world fleet lease) λ _.
              step F (Steady-put _ _) λ _. step F (Steady-require _ _) λ _. attempts-gains F _ _ _

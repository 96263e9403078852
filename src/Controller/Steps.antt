-- ===== src/Controller/Steps.antt =====
-- The steps that the parts of `Controller.execute` in src/katydid/controller.py share.
use katydid.Base.{
  Bool, Exec, List, Option, Result, String, [], all, any, controller_error, eqb, err, false,
  if◌then◌else◌, is_nil, length, map, modify, none, ok, pure, refuse, require, some, suc, true,
  zero, ℕ, ◌&&◌, ◌+◌, ◌==◌, ◌>>=◌, ◌>>◌, ◌∷◌,
}
use katydid.Controller.Setting.{
  DeliveryMode, Entry, Fleet, GitWorkspace, Isolation, Plan, RepositoryConfig, Run, Work, World,
  diff_is, github, head_is, local, no_delivery, ran, stored,
}
use katydid.Environment.Session.{EnvironmentResult}
use katydid.Json.{Fields, Items, Value, arr, cons, end, field, nil, null, obj, text}
use katydid.Store.Leases.{assert_active, transition}
use katydid.Store.Schema.{Db, EventRow, Lease, State, state_name}
use katydid.Tasks.{Stage, TaskRequest}

-- `evidence[key] = value`
unfoldable pub set_key : String → Value → Fields → Fields
set_key key value end = field key value end
set_key key value (field k v fs) =
    let others = set_key key value fs in if k == key then field k value fs else field k v others

unfoldable pub get_key : String → Fields → Option Value
get_key key end = none
get_key key (field k v fs) = let found = get_key key fs in if k == key then some v else found

abbrev pub elem : String → List String → Bool
elem x ys = any (λ y. y == x) ys

abbrev pub is_text : Option String → String → Bool
is_text none s = false
is_text (some t) s = t == s

abbrev content_of : String → List (String × String) → Option String
content_of path [] = none
content_of path (f ∷ fs) = if f.0 == path then some f.1 else content_of path fs

-- The equality of two dictionaries of files, whose paths are unique.
unfoldable pub same_files : List (String × String) → List (String × String) → Bool
same_files fs gs = eqb (length fs) (length gs) && all (λ g. is_text (content_of g.0 fs) g.1) gs

abbrev pub paths : List (String × String) → List String
paths fs = map (λ f. f.0) fs

-- The dictionary without a key.
unfoldable pub without_key : String → Fields → Fields
without_key key end = end
without_key key (field k v fs) =
    let others = without_key key fs in if k == key then others else field k v others

abbrev pub value_or_null : Option Value → Value
value_or_null none = null
value_or_null (some v) = v

unfoldable pub texts : List String → Items
texts [] = nil
texts (s ∷ ss) = cons (text s) (texts ss)

-- `dict(files)`, of paths and contents
unfoldable pub file_fields : List (String × String) → Fields
file_fields [] = end
file_fields (f ∷ fs) = field f.0 (text f.1) (file_fields fs)

unfoldable pub note : Entry → Exec Work (Unit {0})
note e = modify (λ w. record w { log = e ∷ w.log })

unfoldable pub put : String → Value → Exec Work (Unit {0})
put key value = modify (λ w. record w { evidence = set_key key value w.evidence })

-- The rows after the first so many.
abbrev pub after_first : ℕ → List EventRow → List EventRow
after_first zero rows = rows
after_first (suc n) [] = []
after_first (suc n) (row ∷ rows) = after_first n rows

-- An answer of the world.
unfoldable pub ask : {A : Type 0} → (ℕ → Result A) → Exec Work A
ask f w = (f w.asked_count, record w { asked_count = w.asked_count + 1 })

-- An answer of the world that is kept in the log.
unfoldable pub observe : {A : Type 0} → (ℕ → Result A) → (A → Entry) → Exec Work A
observe f entry = do a ← ask f; note (entry a); pure a

module _ (world : World) where
  -- A call of the store, after what others have committed until then.
  unfoldable pub call_store : {A : Type 0} → (ℕ → Exec Db A) → Exec Work A
  call_store f w =
      let db = world.others w.asked_count w.db in
      let r = f (world.now w.asked_count) db in
      let new_rows = after_first (length db.task_events) r.1.task_events in
      (r.0, record w { db = r.1; asked_count = w.asked_count + 1; log = stored new_rows ∷ w.log })

  unfoldable pub read_diff_of : GitWorkspace → Exec Work String
  read_diff_of workspace =
      observe (λ n. world.diff n workspace) (λ diff. diff_is diff (world.strip diff))

  -- A run of a plan.
  unfoldable pub run_checked : Plan → Exec Work Run
  run_checked plan = observe (λ n. world.run_plan n plan) (λ result. ran plan.stage result.passed)

  -- `make_plan`, which makes the plan of the stage that it is given.
  unfoldable pub stage_plan : GitWorkspace → RepositoryConfig → Stage → Exec Work Plan
  stage_plan workspace repo stage = do
    plan ← ask (λ n. world.make_plan n workspace repo stage)
    pure (record plan { stage = stage })

  module _ (fleet : Fleet) where
    -- `_unchanged_policy`
    unfoldable pub unchanged_policy : Exec Work (Unit {0})
    unchanged_policy = do
      digest ← ask world.policy_sha256
      require (digest == fleet.digest) controller_error

    module _ (lease : Lease) where
      -- `active`
      unfoldable pub active : Exec Work (Unit {0})
      active = do
        call_store (λ now. assert_active now lease)
        unchanged_policy
        stop ← ask (λ n. ok (world.stopped n))
        refuse stop controller_error

      -- `state`
      unfoldable pub enter : State → Fields → Exec Work (Unit {0})
      enter state details = do
        active
        call_store (λ now. transition now lease (state_name state) (some (obj details)))
        pure tt

      module _ (repo : RepositoryConfig) where
        unfoldable pub read_head : Exec Work String
        read_head = observe (λ n. world.source_head n repo) head_is

        -- The event revision of a task that names a ref.
        unfoldable pub fresh_revision : Option String → Option String → Exec Work (Unit {0})
        fresh_revision none sha = pure tt
        fresh_revision (some ref) sha = if ref == "" then pure tt else (do
          revision ← ask (λ n. world.source_revision n repo ref)
          require (is_text sha revision) controller_error)

        -- `fresh`
        unfoldable pub fresh : TaskRequest → Exec Work (Unit {0})
        fresh request = do
          active
          head ← read_head
          require (head == request.base_sha) controller_error
          fresh_revision request.source_ref request.source_sha

        -- `_assert_files`: the protected files are as they were, and the changes editable.
        unfoldable pub assert_files : GitWorkspace → List (String × String) → Exec Work (Unit {0})
        assert_files workspace protected = do
          files ← ask (λ n. world.snapshot_files n workspace (paths protected) none)
          require (same_files files protected) controller_error
          changed ← ask (λ n. world.git n workspace ("diff" ∷ "--name-only" ∷ "HEAD" ∷ "--" ∷ []))
          require (all (λ path. elem path repo.editable_paths) (world.splitlines changed))
              controller_error

unfoldable pub is_github : DeliveryMode → Bool
is_github github = true
is_github _ = false

unfoldable pub is_local : DeliveryMode → Bool
is_local local = true
is_local _ = false

unfoldable pub is_delivered : DeliveryMode → Bool
is_delivered no_delivery = false
is_delivered _ = true

-- `if github is None: raise`
abbrev pub required_text : Option String → Result String
required_text none = err controller_error
required_text (some s) = ok s

unfoldable pub has_passed : Option Run → Bool
has_passed none = false
has_passed (some run) = run.passed

unfoldable pub shown_or_null : Option Run → Value
shown_or_null none = null
shown_or_null (some run) = run.shown

abbrev append_item : Items → Value → Items
append_item nil v = cons v nil
append_item (cons x xs) v = cons x (append_item xs v)

abbrev appended : Option Value → Value → Value
appended (some (arr xs)) v = arr (append_item xs v)
appended _ v = arr (cons v nil)

-- `evidence.setdefault("release_hooks", []).append(…)`
unfoldable pub add_hook : Value → Fields → Fields
add_hook v fs = set_key "release_hooks" (appended (get_key "release_hooks" fs) v) fs

-- `_ensure_environment`
unfoldable pub isolation_works : Option Isolation → Bool
isolation_works none = true
isolation_works (some i) = i.ready && i.cleanup_complete && is_nil i.errors

unfoldable pub environment_works : Option EnvironmentResult → Bool
environment_works none = true
environment_works (some e) = e.ready && e.cleanup_complete

unfoldable pub ensure_environment : Run → Exec Work (Unit {0})
ensure_environment run = do
  require (isolation_works run.isolation) controller_error
  require (environment_works run.environment) controller_error

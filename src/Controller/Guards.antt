-- ===== src/Controller/Guards.antt =====
-- What must come before each entry of the log of `Controller.execute` in src/katydid/controller.py.
-- The newest entry of a log is the first.
use katydid.Base.{
  Bool, List, Option, String, [], any, false, is_nil, none, some, true, ◌&&◌, ◌==◌, ◌||◌, ◌∷◌,
}
use katydid.Controller.Setting.{
  Entry, Role, asked, committed_diff_is, diff_is, head_is, hook_ended, hook_started, merged,
  published, ran, recorded, requested, review_is, stored,
}
use katydid.Controller.Steps.{get_key}
use katydid.Json.{Fields, Value, text}
use katydid.Store.Leases.{is_ai_call}
use katydid.Store.Schema.{EventRow, State, state_name}
use katydid.Tasks.{Stage}

-- A fact about an entry and what came before it.
abbrev pub Fact : Type 0
Fact = Entry → List Entry → Bool

-- The fact was true of some entry when it was added.
abbrev pub ever : Fact → List Entry → Bool
ever f [] = false
ever f (e ∷ log) = f e log || ever f log

-- One of the events shows its task in the state.
abbrev pub in_state : State → List EventRow → Bool
in_state state rows = any (λ row. state_name row.state == state_name state) rows

-- The checks of the release stage have passed.
abbrev pub release_tested : Fact
release_tested (ran Stage.release passed) log = passed
release_tested _ log = false

-- The store has logged that the task is deploying after those checks have passed.
abbrev pub may_deploy : Fact
may_deploy (stored rows) log = in_state State.deploying rows && ever release_tested log
may_deploy _ log = false

-- After that, the head of the base branch was read, and is the revision.
abbrev pub head_confirmed : String → Fact
head_confirmed sha (head_is head) log = head == sha && ever may_deploy log
head_confirmed sha _ log = false

abbrev pub read_as : String → Fact
read_as diff (diff_is d s) log = d == diff
read_as diff _ log = false

-- The checks have passed after the diff was read.
abbrev pub checked_as : String → Fact
checked_as diff (ran stage passed) log = passed && ever (read_as diff) log
checked_as diff _ log = false

-- The diff was the same after that, and is this text when stripped.
abbrev pub verified_as : String → String → Fact
verified_as diff stripped (diff_is d s) log =
    d == diff && s == stripped && ever (checked_as diff) log
verified_as diff stripped _ log = false

-- The context shows a diff that was verified.
abbrev pub shows_verified : Option Value → String → List Entry → Bool
shows_verified (some (text diff)) stripped log = ever (verified_as diff stripped) log
shows_verified _ stripped log = false

-- The review has approved, without concerns, what its context shows: a diff that was verified.
abbrev pub approved_as : String → Fact
approved_as stripped (review_is context given) log =
    given.approved && is_nil given.concerns && shows_verified (get_key "diff" context) stripped log
approved_as stripped _ log = false

-- What Git shows as the change of the revision is such a diff.
abbrev pub candidate_committed : String → Fact
candidate_committed sha (committed_diff_is s diff) log = s == sha && ever (approved_as diff) log
candidate_committed sha _ log = false

-- After that, the store has logged that the task is publishing.
abbrev pub may_publish : String → Fact
may_publish sha (stored rows) log =
    in_state State.publishing rows && ever (candidate_committed sha) log
may_publish sha _ log = false

-- The revision was published, or a pull request asks to merge it.
abbrev pub is_offered : String → Fact
is_offered sha (published s) log = s == sha
is_offered sha (requested s) log = s == sha
is_offered sha _ log = false

abbrev pub hook_begun : String → Fact
hook_begun sha (hook_started check s) log = s == sha
hook_begun sha _ log = false

-- A hook on the revision has passed.
abbrev pub hook_passed : String → Fact
hook_passed sha (hook_ended check passed) log = passed && ever (hook_begun sha) log
hook_passed sha _ log = false

-- So has another after it.
abbrev pub hooks_passed : String → Fact
hooks_passed sha (hook_ended check passed) log = passed && ever (hook_passed sha) log
hooks_passed sha _ log = false

-- The newest entry is a call of the store that has logged the reservation of a call of the AI.
abbrev pub just_reserved : String → List Entry → Bool
just_reserved task_id [] = false
just_reserved task_id (stored rows ∷ log) = any (is_ai_call task_id) rows
just_reserved task_id (_ ∷ log) = false

-- The reviewer does not see the diagnosis.
abbrev pub is_missing : Option Value → Bool
is_missing none = true
is_missing (some v) = false

abbrev pub is_independent : Role → Fields → Bool
is_independent Role.review context = is_missing (get_key "diagnosis" context)
is_independent _ context = true

-- Whether an entry may follow those of the log.
abbrev pub allowed : Entry → List Entry → Bool
allowed (asked task_id role context) log = just_reserved task_id log && is_independent role context
allowed (published sha) log = ever (may_publish sha) log
allowed (requested sha) log = ever (may_publish sha) log
allowed (merged sha) log = ever (is_offered sha) log
allowed (hook_started check sha) log = ever (head_confirmed sha) log
allowed (recorded sha) log = ever (hooks_passed sha) log
allowed _ log = true

-- Every entry was allowed when it was added.
abbrev pub is_guarded : List Entry → Bool
is_guarded [] = true
is_guarded (e ∷ log) = allowed e log && is_guarded log

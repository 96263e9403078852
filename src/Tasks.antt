-- ===== src/Tasks.antt =====
-- The intent of a task: src/katydid/tasks.py, with the stages of src/katydid/profile.py and the
-- test of a source ref in src/katydid/workspace.py.
use katydid.Base.{
  Bool, Option, Result, String, err, false, if◌then◌else◌, is_hex, none, not, ok, some, starts_with,
  true, value_error, ◌&&◌, ◌||◌,
}
use katydid.Json.{Fields}

pub data Stage : Type 0 where
  pull_request merge nightly release : Stage

pub data Mode : Type 0 where
  check repair release : Mode

-- The fields of `TaskRequest`.
pub record TaskRequest : Type 0 where
  pub config_sha256 : String
  pub base_sha : String
  pub source_sha : Option String
  pub source_ref : Option String
  pub stage : Stage
  pub mode : Mode
  pub event : Option Fields

unfoldable pub stage_name : Stage → String
stage_name pull_request = "pull-request"
stage_name merge = "merge"
stage_name nightly = "nightly"
stage_name Stage.release = "release"

unfoldable pub mode_name : Mode → String
mode_name check = "check"
mode_name repair = "repair"
mode_name Mode.release = "release"

unfoldable pub is_release_stage : Stage → Bool
is_release_stage Stage.release = true
is_release_stage _ = false

unfoldable pub is_pull_request_stage : Stage → Bool
is_pull_request_stage pull_request = true
is_pull_request_stage _ = false

unfoldable pub is_merge_stage : Stage → Bool
is_merge_stage merge = true
is_merge_stage _ = false

unfoldable pub is_release_mode : Mode → Bool
is_release_mode Mode.release = true
is_release_mode _ = false

unfoldable pub is_repair_mode : Mode → Bool
is_repair_mode repair = true
is_repair_mode _ = false

unfoldable pub is_check_mode : Mode → Bool
is_check_mode check = true
is_check_mode _ = false

-- `source_ref and source_ref.startswith("refs/pull/")`
unfoldable pub is_pull_ref : Option String → Bool
is_pull_ref none = false
is_pull_ref (some ref) = starts_with ref "refs/pull/"

unfoldable pub is_given : Option String → Bool
is_given none = false
is_given (some s) = true

-- The pattern of a revision: 40 or 64 lowercase hexadecimal digits.
unfoldable pub is_revision : String → Bool
is_revision sha = is_hex 40 sha || is_hex 64 sha

unfoldable pub is_revision_or_none : Option String → Bool
is_revision_or_none none = true
is_revision_or_none (some sha) = is_revision sha

abbrev same : Bool → Bool → Bool
same a b = if a then b else not b

-- `coherent`
unfoldable pub coherent : TaskRequest → Bool
coherent r =
    same (is_given r.source_ref) (is_given r.source_sha)
    && (not (is_release_mode r.mode) || is_release_stage r.stage)
    && not (is_repair_mode r.mode && is_release_stage r.stage)
    && (not (is_pull_ref r.source_ref) || (is_check_mode r.mode && is_pull_request_stage r.stage))

-- `model_validate` of a payload whose fields have been read: the patterns, the test of the source
-- ref, and the coherence.
module _ (valid_ref : String → Bool) where
  unfoldable pub is_valid_ref : Option String → Bool
  is_valid_ref none = true
  is_valid_ref (some ref) = valid_ref ref

  unfoldable pub validated : TaskRequest → Result TaskRequest
  validated r =
      if is_hex 64 r.config_sha256
        && is_revision r.base_sha
        && is_revision_or_none r.source_sha
        && is_valid_ref r.source_ref
        && coherent r
      then ok r
      else err value_error

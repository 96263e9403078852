-- ===== src/Ingress/Readers.antt =====
-- What src/katydid/events.py reads and answers: the configured repository of src/katydid/fleet.py,
-- the readers of GitHub and Git, and the answer with its status.
use katydid.Base.{
  Bool, List, Option, Result, String, [], err, false, if◌then◌else◌, none, ok, select, some,
  starts_with, true, unknown_repository, ℕ, ◌==◌, ◌∷◌,
}
use katydid.Ingress.Payload.{object_member, string_member}
use katydid.Json.{Fields, Value}
use katydid.Store.Ingest.{Receipt}
use katydid.Store.Schema.{Db}

pub record GitHubEvents : Type 0 where
  pub github_repository : String
  pub pull_requests : Bool
  pub pushes : Bool
  pub releases : Bool

-- The fields of `RepositoryConfig` that the ingress uses. `isolation_required` is the field
-- `required` of `isolation_policy`, and `has_release` tells that `release` is not None.
pub record RepositoryConfig : Type 0 where
  pub id : String
  pub source : String
  pub base_branch : String
  pub events : Option GitHubEvents
  pub isolation_required : Option Bool
  pub has_release : Bool

-- The points of `_store_grouped` and `ingest` at which other connections may have committed.
pub data Moment : Type 0 where
  after_duplicate after_replay : Moment
  before_version before_build before_ingest after_conflict : ℕ → Moment

-- Everything outside the program: the decoder and the digests, the two readers in the attempt
-- `n`, the clock and the identifiers of the attempt `n`, and what other connections commit.
pub record Outside : Type 0 where
  pub loads : List ℕ → Option Value
  pub sha256 : List ℕ → String
  pub digest : String → String
  pub casefold : String → String
  pub pull_request : ℕ → String → ℕ → Result Fields
  pub revision : ℕ → String → String → Result String
  pub now : ℕ → ℕ
  pub new_id : ℕ → String
  pub others : Moment → Db → Db

pub data Status : Type 0 where
  enqueued ignored cancelled : Status

pub record Answer : Type 0 where
  pub receipt : Receipt
  pub duplicate : Bool
  pub status : Status
  pub reason : Option String

abbrev is_release_group : Option String → Bool
is_release_group none = true
is_release_group (some group) = starts_with group "github:release:"

-- `_receipt_status`
unfoldable pub receipt_status : Receipt × Bool → Answer
receipt_status (receipt, duplicate) = record {
  receipt = receipt;
  duplicate = duplicate;
  status = (elim receipt.task_id [
    | some id ↦ enqueued
    | none ↦ if is_release_group receipt.group then ignored else cancelled
  ]);
  reason = none;
}

-- The repositories whose events are those of the GitHub repository.
abbrev has_events_of : (String → String) → String → RepositoryConfig → Bool
has_events_of casefold name repository = elim repository.events [
  | none ↦ false
  | some e ↦ casefold e.github_repository == casefold name
]

-- `_repository`
unfoldable pub find_repository :
    (String → String) → List RepositoryConfig → Fields → Result (RepositoryConfig × String)
find_repository casefold repositories payload = named (object_member payload "repository")
  where
    only : String → List RepositoryConfig → Result (RepositoryConfig × String)
    only name (r ∷ []) = ok (r, name)
    only name _ = err unknown_repository

    of_name : Result String → Result (RepositoryConfig × String)
    of_name (ok name) = only name (select (has_events_of casefold name) repositories)
    of_name (err e) = err e

    named : Result Fields → Result (RepositoryConfig × String)
    named (ok fs) = of_name (string_member 200 fs "full_name")
    named (err e) = err e

-- ===== src/Ingress/Dispatch.antt =====
-- `_push`, `_release` and `ingest` of src/katydid/events.py.
use katydid.Base.{
  Bool, Exec, List, Option, Result, String, [], all, codes, concat, eqb, err, false, if◌then◌else◌,
  invalid_event, leb, length, lift, modify, none, not, ok, pure, raise, require, some,
  unknown_repository, ℕ, ◌&&◌, ◌++◌, ◌==◌, ◌>>=◌, ◌>>◌, ◌||◌, ◌∷◌,
}
use katydid.Ingress.Events.{current_push, current_release, pull_request_event}
use katydid.Ingress.Payload.{get, group_key, json_object, object_member, sha_member, string_member}
use katydid.Ingress.Readers.{
  Answer, GitHubEvents, Outside, RepositoryConfig, after_duplicate, after_replay, find_repository,
  ignored,
}
use katydid.Ingress.Reconcile.{Ingest, duplicate, ignore, replay, store_grouped}
use katydid.Json.{Fields, Value, bool}
use katydid.Store.Creation.{events}
use katydid.Store.Schema.{Db}

module _ (outside : Outside) (config_sha256 : String) (i : Ingest) where
  abbrev flag : Option Value → Result Bool
  flag (some (bool b)) = ok b
  flag _ = err invalid_event

  -- `_push`
  unfoldable pub push_event : GitHubEvents → Fields → Exec Db Answer
  push_event events payload = do
    source_ref ← lift (string_member 300 payload "ref")
    deleted ← lift (flag (get "deleted" payload))
    if not (source_ref == concat ("refs/heads/" ∷ i.repository.base_branch ∷ []))
        then ignore outside i "push targets another branch"
        else if deleted
        then ignore outside i "deleted push"
        else if not events.pushes
        then ignore outside i "push events are disabled"
        else (do
          source_sha ← lift (sha_member payload "after")
          store_grouped outside i (group_key outside.digest "push" i.repository.base_branch)
              (λ n moment. current_push outside config_sha256 i source_sha source_ref n))

  abbrev not_current : Answer → Answer
  not_current answer = elim answer.receipt.task_id [
    | some id ↦ answer
    | none ↦ record answer {
      status = ignored;
      reason = some "release tag is not the current base commit";
    }
  ]

  -- `_release`
  unfoldable pub release_event : GitHubEvents → Fields → Exec Db Answer
  release_event events payload = do
    action ← lift (string_member 64 payload "action")
    if not (action == "published")
        then ignore outside i (concat ("unsupported release action: " ∷ action ∷ []))
        else if not events.releases || not i.repository.has_release
        then ignore outside i "release events are disabled"
        else (do
          release ← lift (object_member payload "release")
          tag ← lift (string_member 255 release "tag_name")
          answer ←
              store_grouped outside i (group_key outside.digest "release" tag)
                (λ n moment. current_release outside config_sha256 i action tag n)
          pure (not_current answer))

  abbrev dispatch : String → GitHubEvents → Fields → Exec Db Answer
  dispatch event events payload =
      if event == "pull_request"
      then pull_request_event outside config_sha256 i events payload
      else if event == "push"
      then push_event events payload
      else if event == "release"
      then release_event events payload
      else ignore outside i (concat ("unsupported GitHub event: " ∷ event ∷ []))

  abbrev or_dispatch : String → GitHubEvents → Fields → Option Answer → Exec Db Answer
  or_dispatch event events payload (some answer) = pure answer
  or_dispatch event events payload none = do
    modify (outside.others after_replay)
    dispatch event events payload

  abbrev or_replay : String → GitHubEvents → Fields → Option Answer → Exec Db Answer
  or_replay event events payload (some answer) = pure answer
  or_replay event events payload none = do
    modify (outside.others after_duplicate)
    known ← replay outside i
    or_dispatch event events payload known

abbrev is_lower : ℕ → Bool
is_lower c = leb b'a' c && leb c b'z'

abbrev is_alphanumeric : ℕ → Bool
is_alphanumeric c = is_lower c || (leb b'A' c && leb c b'Z') || (leb b'0' c && leb c b'9')

-- One character, then up to `maximum` of another class.
abbrev is_name : (ℕ → Bool) → (ℕ → Bool) → ℕ → List ℕ → Bool
is_name first rest maximum [] = false
is_name first rest maximum (c ∷ cs) = first c && leb (length cs) maximum && all rest cs

-- `_EVENT.fullmatch`
unfoldable pub is_event : String → Bool
is_event s = is_name is_lower (λ c. is_lower c || eqb c b'_') 63 (codes s)

-- `_DELIVERY.fullmatch`
unfoldable pub is_delivery : String → Bool
is_delivery s = is_name is_alphanumeric (λ c. is_alphanumeric c || eqb c b'-') 127 (codes s)

-- `find_repository` has found a repository with events.
abbrev with_events : {A : Type 0} → Option GitHubEvents → (GitHubEvents → Exec Db A) → Exec Db A
with_events none f = raise unknown_repository
with_events (some events) f = f events

-- `ingest`
unfoldable pub ingest :
    (outside : Outside) (config_sha256 : String) (repositories : List RepositoryConfig)
    (event delivery_id : String) (body : List ℕ)
    → Exec Db Answer
ingest outside config_sha256 repositories event delivery_id body = do
  require (is_event event) invalid_event
  require (is_delivery delivery_id) invalid_event
  payload ← lift (json_object outside.loads body)
  found ← lift (find_repository outside.casefold repositories payload)
  let i : Ingest = record {
    delivery_id = delivery_id;
    body_sha256 = outside.sha256 body;
    replay_key = outside.sha256 (codes event ++ 0 ∷ body);
    repository = found.0;
    github_repository = found.1;
  }
  known ← duplicate outside i
  with_events found.0.events λ events. or_replay outside config_sha256 i event events payload known

-- ===== src/Ingress/Events.antt =====
-- The events of src/katydid/events.py: `_pull_request`, and what `_push` and `_release`
-- build.
use katydid.Base.{
  Bool, Exception, Exec, Option, Result, String, [], any, concat, decimal, eqb, err, event_race,
  false, if◌then◌else◌, invalid_event, lift, none, not, ok, pos, require, some, true,
  workspace_error, ℕ, ◌==◌, ◌>>=◌, ◌>>◌, ◌||◌, ◌∷◌,
}
use katydid.Ingress.Payload.{group_key, integer_member, object_member, sha_member, string_member}
use katydid.Ingress.Readers.{Answer, GitHubEvents, Outside}
use katydid.Ingress.Reconcile.{Ingest, ignore, store_grouped}
use katydid.Json.{Fields, Value, end, field, num, obj, text}
use katydid.Store.Creation.{events}
use katydid.Store.Schema.{Db}
use katydid.Store.Transaction.{required}

-- `_event_metadata`, with the details that follow.
abbrev action_field : Option String → Fields → Fields
action_field none details = details
action_field (some action) details = field "action" (text action) details

unfoldable pub event_metadata : Ingest → String → Option String → Fields → Value
event_metadata i event action details = obj (
    field "provider" (text "github") (
      field "delivery_id" (text i.delivery_id) (
        field "type" (text event)
          (field "repository" (text i.github_repository) (action_field action details)))))

-- The task that an event asks for.
unfoldable pub task_payload :
    (config_sha256 base_sha source_sha source_ref stage mode : String) → Value → Value
task_payload config_sha256 base_sha source_sha source_ref stage mode event = obj (
    field "config_sha256" (text config_sha256) (
      field "base_sha" (text base_sha) (
        field "source_sha" (text source_sha) (
          field "source_ref" (text source_ref)
            (field "stage" (text stage) (field "mode" (text mode) (field "event" event end)))))))

-- A chain of tests on the payload.
unfoldable pub chain : {A B : Type 0} → Result A → (A → Result B) → Result B
chain (ok a) f = f a
chain (err e) f = err e

unfoldable pub ensure : {B : Type 0} → Bool → Exception → Result B → Result B
ensure true e rest = rest
ensure false e rest = err e

-- `except WorkspaceError` of `_release`
unfoldable pub as_invalid : Result String → Result String
as_invalid (err workspace_error) = err invalid_event
as_invalid r = r

module _ (outside : Outside) (config_sha256 : String) (i : Ingest) where
  -- `current` of `_pull_request`, in the attempt `n`
  unfoldable pub current_pull_request : (action : String) (number n : ℕ) → Result (Option Value)
  current_pull_request action number n =
      chain (outside.pull_request n i.github_repository number) λ pull.
        chain (integer_member pull "number") λ found. ensure (eqb found number) invalid_event (
          chain (string_member 16 pull "state") λ state. chain (object_member pull "base") λ base.
            chain (object_member base "repo") λ repo.
              chain (string_member 200 repo "full_name") λ base_repo.
                ensure (outside.casefold base_repo == outside.casefold i.github_repository)
                  invalid_event
                  (chain (string_member 255 base "ref") λ ref.
                    if not (ref == i.repository.base_branch) || state == "closed"
                    then ok none
                    else ensure (state == "open") invalid_event (open_pull_request pull base)))
    where
      revision_is : String → String → Result Value → Result Value
      revision_is ref sha rest =
          chain (outside.revision n i.repository.source ref)
            λ found. ensure (found == sha) event_race rest

      payload : String → String → String → String → Result Value
      payload base_sha source_sha source_ref head_ref = ok (
          task_payload config_sha256 base_sha source_sha source_ref "pull-request" "check" (
            event_metadata i "pull_request" (some action)
              (field "number" (num (pos number)) (field "head_ref" (text head_ref) end))))

      open_pull_request : Fields → Fields → Result (Option Value)
      open_pull_request pull base = chain (object_member pull "head") λ head.
          chain (sha_member head "sha") λ source_sha. chain (sha_member base "sha") λ base_sha.
            let source_ref = concat ("refs/pull/" ∷ decimal number ∷ "/head" ∷ []) in
            let base_ref = concat ("refs/heads/" ∷ i.repository.base_branch ∷ []) in
            chain
              (revision_is source_ref source_sha (
                revision_is base_ref base_sha (
                  chain (string_member 255 head "ref")
                    λ head_ref. payload base_sha source_sha source_ref head_ref)))
              λ v. ok (some v)

  -- `_pull_request`
  unfoldable pub pull_request_event : GitHubEvents → Fields → Exec Db Answer
  pull_request_event events payload = do
    (action, number) ← lift described
    if not events.pull_requests
        then ignore outside i "pull request events are disabled"
        else if not (is_pull_action action)
        then ignore outside i (concat ("unsupported pull request action: " ∷ action ∷ []))
        else (do
          require (is_isolated i.repository.isolation_required) invalid_event
          store_grouped outside i (group_key outside.digest "pull_request" (decimal number))
              (λ n moment. current_pull_request action number n))
    where
      is_pull_action : String → Bool
      is_pull_action action =
          any (λ a. a == action)
            ("opened" ∷ "reopened" ∷ "synchronize" ∷ "ready_for_review" ∷ "edited" ∷ "closed" ∷ [])

      is_isolated : Option Bool → Bool
      is_isolated none = false
      is_isolated (some required) = required

      described : Result (String × ℕ)
      described = chain (string_member 64 payload "action") λ action.
          chain (integer_member payload "number") λ number.
            chain (object_member payload "pull_request") λ webhook_pull.
              chain (integer_member webhook_pull "number") λ found.
                ensure (eqb found number) invalid_event (
                  chain (object_member webhook_pull "head") λ head.
                    chain (sha_member head "sha") λ sha.
                      chain (object_member webhook_pull "base")
                        λ base. chain (string_member 255 base "ref") λ ref. ok (action, number))

  -- `current` of `_push`
  unfoldable pub current_push : (source_sha source_ref : String) (n : ℕ) → Result (Option Value)
  current_push source_sha source_ref n =
      chain (outside.revision n i.repository.source source_ref) λ found.
        ensure (found == source_sha) event_race (
          ok (
            some (
              task_payload config_sha256 source_sha source_sha source_ref "merge" "check"
                (event_metadata i "push" none (field "ref" (text source_ref) end)))))

  -- `current` of `_release`: an unresolved revision makes the event invalid.
  unfoldable pub current_release : (action tag : String) (n : ℕ) → Result (Option Value)
  current_release action tag n = chain (resolved source_ref) λ source_sha.
      chain (resolved (concat ("refs/heads/" ∷ i.repository.base_branch ∷ []))) λ base_sha.
        if source_sha == base_sha
        then ok (
            some (
              task_payload config_sha256 base_sha source_sha source_ref "release" "release"
                (event_metadata i "release" (some action) (field "tag" (text tag) end))))
        else ok none
    where
      source_ref : String
      source_ref = concat ("refs/tags/" ∷ tag ∷ [])

      resolved : String → Result String
      resolved ref = as_invalid (outside.revision n i.repository.source ref)

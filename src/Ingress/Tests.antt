-- ===== src/Ingress/Tests.antt =====
-- The ingress of src/katydid/events.py with readers that answer from a table.
use katydid.Base.{
  Bool, Option, Result, String, [], concat, decimal, false, is_hex, is_space, is_stripped, none, ok,
  pos, refl, some, true, ◌∷◌, ◌≡◌,
}
use katydid.Ingress.Authority.{Asks, Yields, current_pull_request-Asks, current_release-Asks}
use katydid.Ingress.Current.{IsReconciled, store_grouped-IsReconciled}
use katydid.Ingress.Events.{chain, current_pull_request, current_push, current_release, ensure}
use katydid.Ingress.Payload.{
  get, integer_member, is_normalized, object_member, sha_member, string_member,
}
use katydid.Ingress.Readers.{Outside, RepositoryConfig}
use katydid.Ingress.Reconcile.{Ingest, store_grouped}
use katydid.Json.{Fields, Value, end, field, num, obj, text}
use katydid.Store.Outcome.{Returns}
use katydid.Store.Schema.{new_db}

abbrev pub katydid_repository : RepositoryConfig
katydid_repository = record {
  id = "katydid";
  source = "/srv/katydid";
  base_branch = "main";
  events = some (record {
    github_repository = "o/katydid";
    pull_requests = true;
    pushes = true;
    releases = true;
  });
  isolation_required = some true;
  has_release = true;
}

abbrev sha_a : String
sha_a = "aaaaaaaaaaaaaaaaaaaaaaaaaaaaaaaaaaaaaaaa"

abbrev pub digest_b : String
digest_b = "bbbbbbbbbbbbbbbbbbbbbbbbbbbbbbbbbbbbbbbbbbbbbbbbbbbbbbbbbbbbbbbb"

abbrev reference : String → Fields
reference sha =
    field "ref" (text "main")
      (field "sha" (text sha) (field "repo" (obj (field "full_name" (text "o/katydid") end)) end))

abbrev pub quiet_outside : Outside
quiet_outside = record {
  loads = λ body. none;
  sha256 = λ body. digest_b;
  digest = λ s. digest_b;
  casefold = λ s. s;
  pull_request = λ n name number. ok (
      field "number" (num (pos number)) (
        field "state" (text "open")
          (field "base" (obj (reference sha_a)) (field "head" (obj (reference sha_a)) end))));
  revision = λ n source ref. ok sha_a;
  now = λ n. 5;
  new_id = λ n. "t9";
  others = λ m db. db;
}

abbrev delivered : Ingest
delivered = record {
  delivery_id = "d9";
  body_sha256 = digest_b;
  replay_key = digest_b;
  repository = katydid_repository;
  github_repository = "o/katydid";
}

abbrev is_task : Result (Option Value) → Bool
is_task (ok (some v)) = true
is_task _ = false

-- The pull request leads to a task.
pull_request_task :
    is_task (current_pull_request quiet_outside digest_b delivered "opened" 7 0) ≡ true
unfolding current_pull_request chain ensure integer_member string_member object_member sha_member
    is_normalized is_space is_stripped is_hex get decimal
pull_request_task = refl

current_pull_request-Asks_example :
    Yields
      (Asks quiet_outside digest_b delivered 0
        (λ source base. Unit)
        (concat ("refs/pull/" ∷ decimal 7 ∷ "/head" ∷ []))
        "pull-request"
        "check")
      (current_pull_request quiet_outside digest_b delivered "opened" 7 0)
current_pull_request-Asks_example =
    current_pull_request-Asks quiet_outside digest_b delivered 0 "opened" 7

current_release-Asks_example :
    Yields
      (Asks quiet_outside digest_b delivered 0
        (λ source base. source ≡ base)
        (concat ("refs/tags/" ∷ "v1" ∷ []))
        "release"
        "release")
      (current_release quiet_outside digest_b delivered "published" "v1" 0)
current_release-Asks_example =
    current_release-Asks quiet_outside digest_b delivered 0 "published" "v1"

store_grouped-IsReconciled_example :
    Returns
      (IsReconciled quiet_outside delivered "github:push:main"
        (λ n moment. current_push quiet_outside digest_b delivered sha_a "refs/heads/main" n))
      new_db
      (store_grouped quiet_outside delivered "github:push:main"
        (λ n moment. current_push quiet_outside digest_b delivered sha_a "refs/heads/main" n))
store_grouped-IsReconciled_example =
    store_grouped-IsReconciled quiet_outside delivered "github:push:main"
      (λ n moment. current_push quiet_outside digest_b delivered sha_a "refs/heads/main" n) new_db

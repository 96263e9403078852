-- ===== src/Webhook/Tests.antt =====
-- Posts to src/katydid/webhook.py with a library that answers from a table.
use katydid.Base.{
  List, Option, String, [], concat, false, if◌then◌else◌, is_hex, none, ok, refl, some, ℕ, ◌==◌,
  ◌>>=◌, ◌∷◌, ◌≡◌, ◌⊎◌,
}
use katydid.Ingress.Dispatch.{ingest, is_delivery, is_event}
use katydid.Ingress.Payload.{json_object}
use katydid.Ingress.Tests.{digest_b, katydid_repository, quiet_outside}
use katydid.Store.Schema.{new_db}
use katydid.Webhook.Authentic.{IsAuthentic, do_post-IsAuthentic, is_accepted}
use katydid.Webhook.Post.{
  Delivered, HttpStatus, Library, Request, answered, check_request, checked_body, checked_length,
  content_length, count_name, delivered_headers, do_post, forbidden, has_duplicates, is_json_type,
  is_signature, number_of, read_headers, status_of, unprocessable_entity,
}

abbrev first_named : String → List (String × String) → Option String
first_named name [] = none
first_named name (h ∷ hs) = if h.0 == name then some h.1 else first_named name hs

abbrev table_library : Library
table_library = record {
  casefold = λ s. s;
  strip = λ s. s;
  header = λ headers name. first_named name headers;
  partition = λ s. (s, "", "");
  hmac_sha256 = λ secret body. digest_b;
}

abbrev post_with : String → Request
post_with signature = record {
  path = "/webhooks/github";
  headers =
      ("Content-Length", "2")
      ∷ ("Content-Type", "application/json")
      ∷ ("X-GitHub-Event", "push")
      ∷ ("X-GitHub-Delivery", "d9")
      ∷ ("X-Hub-Signature-256", signature)
      ∷ [];
  read = λ n. ok (123 ∷ 125 ∷ []);
}

abbrev post_status : Request → HttpStatus
post_status request =
    (do_post table_library [] quiet_outside digest_b (katydid_repository ∷ []) request new_db).0

-- Opens every definition that the runs below compute with.
unfoldable program : Unit {0}
unfolding number_of content_length is_signature count_name has_duplicates is_json_type
    delivered_headers checked_length read_headers checked_body check_request status_of do_post
    ingest json_object is_event is_delivery is_hex ◌>>=◌
program = tt

forged : post_status (post_with "sha256=00") ≡ forbidden
unfolding program
forged = refl

signed_without_repository :
    post_status (post_with (concat ("sha256=" ∷ digest_b ∷ []))) ≡ unprocessable_entity
unfolding program
signed_without_repository = refl

do_post-IsAuthentic_example :
    (let reply =
        do_post table_library [] quiet_outside digest_b
          (katydid_repository ∷ [])
          (post_with (concat ("sha256=" ∷ digest_b ∷ [])))
          new_db in
      ((is_accepted reply.0 ≡ false) × (reply.1 ≡ new_db))
      ⊎ ((d : Delivered) × (body : List ℕ) × IsAuthentic table_library []
            (post_with (concat ("sha256=" ∷ digest_b ∷ [])))
            d
            body
          × (reply
              ≡ answered table_library [] quiet_outside digest_b (katydid_repository ∷ []) (
                  ingest quiet_outside digest_b
                    (katydid_repository ∷ [])
                    d.event
                    d.delivery
                    body
                    new_db))))
do_post-IsAuthentic_example =
    do_post-IsAuthentic table_library [] (post_with (concat ("sha256=" ∷ digest_b ∷ [])))
      quiet_outside digest_b (katydid_repository ∷ []) new_db

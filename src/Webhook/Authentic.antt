-- ===== src/Webhook/Authentic.antt =====
-- What src/katydid/webhook.py passes on to the ingress is signed.
use katydid.Base.{
  Bool, List, Option, Result, String, arith, codes, eq_iff, eqb, err, false, if◌then◌else◌, inl,
  inr, leb, length, none, not, ok, os_error, refl, some, true, ℕ, ◌<◌, ◌==◌, ◌||◌, ◌≡◌, ◌≤◌, ◌⊎◌,
}
use katydid.Ingress.Dispatch.{ingest}
use katydid.Ingress.Payload.{max_body_bytes}
use katydid.Ingress.Readers.{Outside, RepositoryConfig}
use katydid.Store.Schema.{Db}
use katydid.Webhook.Post.{
  Checked, Delivered, HttpStatus, Library, Request, accepted, after_check, answered, bad_request,
  check_request, checked, checked_body, checked_length, content_length, delivered_headers, do_post,
  expected_signature, forbidden, has_duplicates, internal_server_error, is_json_type, is_present,
  is_signature, length_required, not_found, or_empty, read_headers, refused,
  request_entity_too_large, request_timeout, unsupported_media_type, with_headers,
}

abbrev pub is_accepted : HttpStatus → Bool
is_accepted accepted = true
is_accepted _ = false

-- A check that refuses does not accept, and `Q` holds of what it lets pass.
abbrev OnChecked : {A : Type 0} → (A → Type 0) → Checked A → Type 0
OnChecked Q (refused status) = is_accepted status ≡ false
OnChecked Q (checked a) = Q a

record Sound {A : Type 0} (Q : A → Type 0) (r : Checked A) : Type 0 where
  holds : OnChecked Q r

module _ {A : Type 0} {Q : A → Type 0} where
  Sound-if :
      (b : Bool) {m n : Checked A}
      → (b ≡ true → Sound Q m)
      → (b ≡ false → Sound Q n)
      → Sound Q (if b then m else n)
  Sound-if true h k = h refl
  Sound-if false h k = k refl

  Sound-refused : (status : HttpStatus) → is_accepted status ≡ false → Sound Q (refused status)
  Sound-refused status h = record { holds = h }

abbrev IsBounded : Delivered → Type 0
IsBounded d = (0 < d.size) × (d.size ≤ max_body_bytes)

-- The request that a signed body came with.
pub record IsAuthentic (library : Library) (secret : List ℕ) (request : Request) (d : Delivered)
    (body : List ℕ) : Type 0 where
  pub path : request.path ≡ "/webhooks/github"
  pub headers : read_headers library request.headers ≡ checked d
  pub bounded : (0 < d.size) × (d.size ≤ max_body_bytes)
  pub body_read : request.read d.size ≡ ok body
  pub whole : length body ≡ d.size
  pub signed : expected_signature library secret body ≡ d.signature

module _ (library : Library) where
  delivered-IsBounded :
      (event delivery signature : Option String) (n : ℕ)
      → 0 < n
      → n ≤ max_body_bytes
      → Sound IsBounded (delivered_headers library event delivery signature n)
  unfolding delivered_headers
  delivered-IsBounded (some event) (some delivery) (some signature) n h k = record {
    holds = (h, k);
  }
  delivered-IsBounded (some event) (some delivery) none n h k = Sound-refused bad_request refl
  delivered-IsBounded (some event) none signature n h k = Sound-refused bad_request refl
  delivered-IsBounded none delivery signature n h k = Sound-refused bad_request refl

  length-IsBounded :
      (headers : List (String × String)) (o : Option ℕ)
      → Sound IsBounded (checked_length library headers o)
  unfolding checked_length
  length-IsBounded headers none = Sound-refused length_required refl
  length-IsBounded headers (some n) =
      Sound-if (eqb n 0) (λ e. Sound-refused bad_request refl)
        λ positive.
          Sound-if (not (leb n max_body_bytes)) (λ e. Sound-refused request_entity_too_large refl)
            λ small.
              Sound-if
                (not
                  (is_json_type library (or_empty library (library.header headers "Content-Type"))))
                (λ e. Sound-refused unsupported_media_type refl)
                λ e.
                  delivered-IsBounded (library.header headers "X-GitHub-Event")
                    (library.header headers "X-GitHub-Delivery")
                    (library.header headers "X-Hub-Signature-256") n (ground (arith, positive))
                    (ground (arith, small))

  headers-IsBounded :
      (headers : List (String × String)) → Sound IsBounded (read_headers library headers)
  unfolding read_headers
  headers-IsBounded headers =
      Sound-if (has_duplicates library headers) (λ e. Sound-refused bad_request refl)
        λ single.
          Sound-if (is_present library (library.header headers "Transfer-Encoding"))
            (λ e. Sound-refused bad_request refl)
            λ plain.
              length-IsBounded headers (content_length (library.header headers "Content-Length"))

  module _ (secret : List ℕ) (request : Request) where
    abbrev Authentic : Delivered × List ℕ → Type 0
    Authentic (d, body) = IsAuthentic library secret request d body

    body-Authentic :
        (d : Delivered) (r : Result (List ℕ))
        → request.path ≡ "/webhooks/github"
        → read_headers library request.headers ≡ checked d
        → IsBounded d
        → request.read d.size ≡ r
        → Sound Authentic (checked_body library secret d r)
    unfolding checked_body
    body-Authentic d (err os_error) p h b e = Sound-refused request_timeout refl
    body-Authentic d (err x) p h b e = Sound-refused internal_server_error refl
    body-Authentic d (ok body) p h b e =
        Sound-if (not (eqb (length body) d.size)) (λ x. Sound-refused bad_request refl)
          λ whole.
            Sound-if
              (not (is_signature (codes "sha256=") d.signature)
                || not (expected_signature library secret body == d.signature))
              (λ x. Sound-refused forbidden refl)
              λ signed. record {
                holds = record {
                  path = p;
                  headers = h;
                  bounded = b;
                  body_read = e;
                  whole = ground (arith, whole);
                  signed =
                      (eq_iff (expected_signature library secret body) d.signature).0
                        (ground (arith, signed));
                };
              }

    headers-Authentic :
        (r : Checked Delivered)
        → request.path ≡ "/webhooks/github"
        → read_headers library request.headers ≡ r
        → Sound IsBounded r
        → Sound Authentic (with_headers library secret request r)
    headers-Authentic (refused status) p h b = Sound-refused status b.holds
    headers-Authentic (checked d) p h b = body-Authentic d (request.read d.size) p h b.holds refl

    request-Authentic : Sound Authentic (check_request library secret request)
    unfolding check_request
    request-Authentic =
        Sound-if (not (request.path == "/webhooks/github")) (λ x. Sound-refused not_found refl)
          λ here.
            headers-Authentic (read_headers library request.headers)
              ((eq_iff request.path "/webhooks/github").0 (ground (arith, here))) refl
              (headers-IsBounded request.headers)

    module _ (outside : Outside) (config_sha256 : String)
        (repositories : List RepositoryConfig) where
      abbrev Posted : Db → HttpStatus × Db → Type 0
      Posted db reply =
          ((is_accepted reply.0 ≡ false) × (reply.1 ≡ db))
          ⊎ ((d : Delivered) × (body : List ℕ) × IsAuthentic library secret request d body
              × (reply
                  ≡ answered library secret outside config_sha256 repositories
                      (ingest outside config_sha256 repositories d.event d.delivery body db)))

      posted :
          (r : Checked (Delivered × List ℕ)) (db : Db)
          → Sound Authentic r
          → Posted db (after_check library secret outside config_sha256 repositories r db)
      posted (refused status) db h = inl (h.holds, refl)
      posted (checked (d, body)) db h = inr (d, body, h.holds, refl)

      -- Only signed bodies reach the ingress: either the reply does not accept and the tables are as
      -- they were, or the path and the headers are right, the body has the announced length, which
      -- is positive and within the limit, its signature is the one that the secret gives it, and the
      -- reply and the tables are those of the ingress with that body.
      pub do_post-IsAuthentic :
          (db : Db)
          → (let reply = do_post library secret outside config_sha256 repositories request db in
              ((is_accepted reply.0 ≡ false) × (reply.1 ≡ db))
              ⊎ ((d : Delivered) × (body : List ℕ) × IsAuthentic library secret request d body
                  × (reply
                      ≡ answered library secret outside config_sha256 repositories
                          (ingest outside config_sha256 repositories d.event d.delivery body db))))
      unfolding do_post
      do_post-IsAuthentic db = posted (check_request library secret request) db request-Authentic

-- ===== src/Webhook/Post.antt =====
-- `do_POST` of src/katydid/webhook.py: the checks of a request, and its reply.
use katydid.Base.{
  Bool, List, Option, Result, String, [], all, any, codes, concat, count, eqb, err, event_conflict,
  event_error, event_race, false, if◌then◌else◌, invalid_event, is_nil, leb, length, none, not, ok,
  os_error, some, true, unknown_repository, ℕ, ◌&&◌, ◌*◌, ◌+◌, ◌-◌, ◌==◌, ◌||◌, ◌∷◌,
}
use katydid.Ingress.Dispatch.{ingest}
use katydid.Ingress.Payload.{max_body_bytes}
use katydid.Ingress.Readers.{Answer, Outside, RepositoryConfig}
use katydid.Store.Schema.{Db}

-- The codes of `HTTPStatus` that a POST is answered with.
pub data HttpStatus : Type 0 where
  accepted bad_request forbidden not_found request_timeout conflict length_required : HttpStatus
  request_entity_too_large unsupported_media_type unprocessable_entity : HttpStatus
  internal_server_error bad_gateway : HttpStatus

-- A request: its path, its headers as they came, and what reading so many bytes gives.
pub record Request : Type 0 where
  pub path : String
  pub headers : List (String × String)
  pub read : ℕ → Result (List ℕ)

-- The functions of Python's library that the checks use; `header` is `headers.get`.
pub record Library : Type 0 where
  pub casefold : String → String
  pub strip : String → String
  pub header : List (String × String) → String → Option String
  pub partition : String → String × String × String
  pub hmac_sha256 : List ℕ → List ℕ → String

-- What `_headers` returns.
pub record Delivered : Type 0 where
  pub event : String
  pub delivery : String
  pub signature : String
  pub size : ℕ

-- `_RequestError`, or a value
pub data Checked (A : Type 0) : Type 0 where
  refused : HttpStatus → Checked A
  checked : A → Checked A

abbrev is_digit : ℕ → Bool
is_digit c = leb b'0' c && leb c b'9'

unfoldable pub number_of : List ℕ → ℕ → ℕ
number_of [] n = n
number_of (c ∷ cs) n = number_of cs (n * 10 + (c - b'0'))

-- The number of `[0-9]+`, of at most 7 digits.
unfoldable pub content_length : Option String → Option ℕ
content_length none = none
content_length (some s) =
    if leb (length (codes s)) 7 && not (is_nil (codes s)) && all is_digit (codes s)
    then some (number_of (codes s) 0)
    else none

-- `^sha256=[0-9a-f]{64}$`
unfoldable pub is_signature : List ℕ → String → Bool
is_signature prefix s = has_hex (codes s) prefix
  where
    has_hex : List ℕ → List ℕ → Bool
    has_hex cs [] = eqb (length cs) 64 && all (λ c. is_digit c || (leb b'a' c && leb c b'f')) cs
    has_hex [] (p ∷ ps) = false
    has_hex (c ∷ cs) (p ∷ ps) = eqb c p && has_hex cs ps

module _ (library : Library) where
  unfoldable pub count_name : String → List (String × String) → ℕ
  count_name name headers = count (λ h. library.casefold h.0 == name) headers

  unfoldable pub has_duplicates : List (String × String) → Bool
  has_duplicates headers =
      any (λ h. not (eqb (count_name (library.casefold h.0) headers) 1)) headers

  abbrev pub or_empty : Option String → String
  or_empty none = ""
  or_empty (some s) = s

  unfoldable pub is_json_type : String → Bool
  is_json_type content_type =
      let parts = library.partition content_type in
      library.casefold (library.strip parts.0) == "application/json"
      && (parts.1 == "" || library.casefold (library.strip parts.2) == "charset=utf-8")

  unfoldable pub delivered_headers :
      (event delivery signature : Option String) → ℕ → Checked Delivered
  delivered_headers (some event) (some delivery) (some signature) n =
      checked (record { event = event; delivery = delivery; signature = signature; size = n })
  delivered_headers _ _ _ n = refused bad_request

  unfoldable pub checked_length : List (String × String) → Option ℕ → Checked Delivered
  checked_length headers none = refused length_required
  checked_length headers (some n) =
      if eqb n 0
      then refused bad_request
      else if not (leb n max_body_bytes)
      then refused request_entity_too_large
      else if not (is_json_type (or_empty (library.header headers "Content-Type")))
      then refused unsupported_media_type
      else delivered_headers (library.header headers "X-GitHub-Event")
          (library.header headers "X-GitHub-Delivery")
          (library.header headers "X-Hub-Signature-256") n

  abbrev pub is_present : Option String → Bool
  is_present none = false
  is_present (some s) = true

  -- `_headers`
  unfoldable pub read_headers : List (String × String) → Checked Delivered
  read_headers headers =
      if has_duplicates headers
      then refused bad_request
      else if is_present (library.header headers "Transfer-Encoding")
      then refused bad_request
      else checked_length headers (content_length (library.header headers "Content-Length"))

  module _ (secret : List ℕ) where
    abbrev pub expected_signature : List ℕ → String
    expected_signature body = concat ("sha256=" ∷ library.hmac_sha256 secret body ∷ [])

    -- The body that was read, and its signature.
    unfoldable pub checked_body : Delivered → Result (List ℕ) → Checked (Delivered × List ℕ)
    checked_body d (err os_error) = refused request_timeout
    checked_body d (err e) = refused internal_server_error
    checked_body d (ok body) =
        if not (eqb (length body) d.size)
        then refused bad_request
        else if not (is_signature (codes "sha256=") d.signature)
            || not (expected_signature body == d.signature)
        then refused forbidden
        else checked (d, body)

    abbrev pub with_headers : Request → Checked Delivered → Checked (Delivered × List ℕ)
    with_headers request (refused status) = refused status
    with_headers request (checked d) = checked_body d (request.read d.size)

    -- The part of `do_POST` before the ingress.
    unfoldable pub check_request : Request → Checked (Delivered × List ℕ)
    check_request request =
        if not (request.path == "/webhooks/github")
        then refused not_found
        else with_headers request (read_headers request.headers)

    -- The status of what the ingress returns or raises.
    unfoldable pub status_of : Result Answer → HttpStatus
    status_of (ok answer) = accepted
    status_of (err unknown_repository) = not_found
    status_of (err invalid_event) = unprocessable_entity
    status_of (err event_conflict) = conflict
    status_of (err event_race) = conflict
    status_of (err event_error) = bad_gateway
    status_of (err e) = internal_server_error

    module _ (outside : Outside) (config_sha256 : String)
        (repositories : List RepositoryConfig) where
      abbrev pub answered : Result Answer × Db → HttpStatus × Db
      answered (r, db) = (status_of r, db)

      abbrev pub after_check : Checked (Delivered × List ℕ) → Db → HttpStatus × Db
      after_check (refused status) db = (status, db)
      after_check (checked (d, body)) db =
          answered (ingest outside config_sha256 repositories d.event d.delivery body db)

      -- `do_POST`: the status of the reply, with the tables after it.
      unfoldable pub do_post : Request → Db → HttpStatus × Db
      do_post request db = after_check (check_request request) db

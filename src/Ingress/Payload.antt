-- ===== src/Ingress/Payload.antt =====
-- The JSON of a delivery in src/katydid/events.py: `_json_object`, `_object`, `_string`, `_integer`,
-- `_sha` and `_group`.
use katydid.Base.{
  Bool, List, Option, Result, String, [], any, codes, concat, eqb, err, false, if◌then◌else◌,
  invalid_event, is_hex, is_nil, is_stripped, leb, length, ltb, none, not, ok, pos, some, suc, true,
  ℕ, ◌&&◌, ◌==◌, ◌||◌, ◌∷◌,
}
use katydid.Json.{Fields, Items, Value, arr, cons, end, field, nil, num, obj, opaque, text}

abbrev pub max_body_bytes : ℕ
max_body_bytes = 1048576

abbrev has_member : String → Fields → Bool
has_member key end = false
has_member key (field k v fs) = k == key || has_member key fs

-- Whether an object, at any depth, has a member twice (`pairs`) or a number is not finite
-- (`constant`), which the decoder gives as `opaque`.
unfoldable mutual
  pub is_refused : Value → Bool
  is_refused (arr xs) = any_refused xs
  is_refused (obj fs) = fields_refused fs
  is_refused opaque = true
  is_refused _ = false

  any_refused : Items → Bool
  any_refused nil = false
  any_refused (cons v xs) = is_refused v || any_refused xs

  fields_refused : Fields → Bool
  fields_refused end = false
  fields_refused (field k v fs) = has_member k fs || is_refused v || fields_refused fs

-- What `json.loads` and `body.decode` make of the bytes: none where they raise.
unfoldable pub json_object : (List ℕ → Option Value) → List ℕ → Result Fields
json_object loads body =
    if is_nil body || ltb max_body_bytes (length body)
    then err invalid_event
    else elim (loads body) [
      | none ↦ err invalid_event
      | some v ↦ if is_refused v then err invalid_event else object_of v
    ]
  where
    object_of : Value → Result Fields
    object_of (obj fs) = ok fs
    object_of _ = err invalid_event

-- `dict.get`
unfoldable pub get : String → Fields → Option Value
get key end = none
get key (field k v fs) = let rest = get key fs in if k == key then some v else rest

unfoldable pub object_member : Fields → String → Result Fields
object_member parent key = go (get key parent)
  where
    go : Option Value → Result Fields
    go (some (obj fs)) = ok fs
    go _ = err invalid_event

unfoldable pub is_normalized : ℕ → String → Bool
unfolding is_stripped
is_normalized maximum value =
    not (value == "")
    && is_stripped value
    && leb (length (codes value)) maximum
    && not (any (λ c. eqb c 0) (codes value))

unfoldable pub string_member : ℕ → Fields → String → Result String
string_member maximum parent key = go (get key parent)
  where
    go : Option Value → Result String
    go (some (text s)) = if is_normalized maximum s then ok s else err invalid_event
    go _ = err invalid_event

unfoldable pub integer_member : Fields → String → Result ℕ
integer_member parent key = go (get key parent)
  where
    go : Option Value → Result ℕ
    go (some (num (pos (suc n)))) = ok (suc n)
    go _ = err invalid_event

unfoldable pub sha_member : Fields → String → Result String
unfolding is_hex
sha_member parent key = go (string_member 40 parent key)
  where
    go : Result String → Result String
    go (ok s) = if is_hex 40 s then ok s else err invalid_event
    go (err e) = err e

-- `digest` is the hexadecimal SHA-256 of a text in UTF-8.
unfoldable pub group_key : (String → String) → String → String → String
group_key digest kind value =
    let candidate = concat ("github:" ∷ kind ∷ ":" ∷ value ∷ []) in
    if leb (length (codes candidate)) 256
    then candidate
    else concat ("github:" ∷ kind ∷ ":sha256:" ∷ digest value ∷ [])

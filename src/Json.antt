-- ===== src/Json.antt =====
-- JSON values, as `json.dumps` and `json.loads` of the standard library exchange them.
use Prim.Native.Nat.{Ordering}
use Prim.Native.String.{compare}
use native.Mathlib.Decide.{ℕ_discrete}
use katydid.Base.{
  ℕ, ℤ, String, Bool, true, false, ◌&&◌, if◌then◌else◌, inl, inr, Bool-cases, ◌==◌, eq_iff,
}

mutual
  pub data Value : Type 0 where
    null : Value
    bool : Bool → Value
    num : ℤ → Value
    -- a finite float: a clock reading by its ticks
    real : ℕ → Value
    text : String → Value
    arr : Items → Value
    obj : Fields → Value
    -- a Python object that `json.dumps` refuses
    opaque : Value

  pub data Items : Type 0 where
    nil : Items
    cons : Value → Items → Items

  pub data Fields : Type 0 where
    end : Fields
    field : String → Value → Fields → Fields

-- Whether `json.dumps(value, allow_nan=False)` returns.
unfoldable mutual
  pub serializable : Value → Bool
  serializable null = true
  serializable (bool b) = true
  serializable (num n) = true
  serializable (real t) = true
  serializable (text s) = true
  serializable (arr xs) = serializable_items xs
  serializable (obj fs) = serializable_fields fs
  serializable opaque = false

  pub serializable_items : Items → Bool
  serializable_items nil = true
  serializable_items (cons v xs) = serializable v && serializable_items xs

  pub serializable_fields : Fields → Bool
  serializable_fields end = true
  serializable_fields (field k v fs) = serializable v && serializable_fields fs

abbrev pub text_leb : String → String → Bool
text_leb a b = elim (compare a b) [ Ordering.gt ↦ false | _ ↦ true ]

insert_field : String → Value → Fields → Fields
insert_field k v end = field k v end
insert_field k v (field j w fs) =
    if text_leb k j then field k v (field j w fs) else field j w (insert_field k v fs)

-- What `json.loads` reads back from `json.dumps(value, sort_keys=True)`: the keys are in order.
unfoldable mutual
  unfolding insert_field

  pub normal : Value → Value
  normal (arr xs) = arr (normal_items xs)
  normal (obj fs) = obj (normal_fields fs)
  normal null = null
  normal (bool b) = bool b
  normal (num n) = num n
  normal (real t) = real t
  normal (text s) = text s
  normal opaque = opaque

  pub normal_items : Items → Items
  normal_items nil = nil
  normal_items (cons v xs) = cons (normal v) (normal_items xs)

  pub normal_fields : Fields → Fields
  normal_fields end = end
  normal_fields (field k v fs) = insert_field k (normal v) (normal_fields fs)

unfoldable pub String-discrete : Discrete String
String-discrete s t = elim (Bool-cases (s == t)) [
  | inl e ↦ yes ((eq_iff s t).0 e)
  | inr e ↦ no (λ p. cc (e, (eq_iff s t).1 p))
]

ℤ-discrete : Discrete ℤ
ℤ-discrete = hlevel ℕ_discrete

unfoldable pub Value-discrete : Discrete Value
unfolding String-discrete ℤ-discrete
Value-discrete = hlevel (ℕ_discrete, ℤ-discrete, String-discrete)

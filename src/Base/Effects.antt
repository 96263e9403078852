-- ===== src/Base/Effects.antt =====
-- Python's exceptions and methods that may raise: `Result` for pure code, `Exec` for code that
-- changes a state. What was written before a raise stays written, so the state comes back too.
use mathlib.Core.Bool.{Bool, true, false}

-- The classes raised by store.py and events.py, `sqlite3.IntegrityError` and `OSError`.
pub data Exception : Type 0 where
  value_error task_not_found lease_conflict stale_lease invalid_transition store_error : Exception
  event_conflict event_not_found integrity_error : Exception
  os_error invalid_event unknown_repository event_race event_error workspace_error
        controller_error :
      Exception
  profile_error provider_error assertion_error key_error : Exception
  -- Not Python's: a loop of the model has run out of fuel.
  out_of_fuel : Exception

pub data Result {ℓ} (A : Type ℓ) : Type ℓ where
  ok : A → Result A
  err : Exception → Result A

abbrev pub Exec {ℓ} : Type ℓ → Type ℓ → Type ℓ
Exec S A = S → Result A × S

module _ {ℓ} {S A : Type ℓ} where
  unfoldable pub pure : A → Exec S A
  pure a s = (ok a, s)

  unfoldable pub raise : Exception → Exec S A
  raise e s = (err e, s)

  unfoldable pub lift : Result A → Exec S A
  lift r s = (r, s)

  unfoldable pub gets : (S → A) → Exec S A
  gets f s = (ok (f s), s)

  -- A transaction: where the body raises, the state is rolled back.
  unfoldable pub finish : S → Result A × S → Result A × S
  finish s (ok a, s') = (ok a, s')
  finish s (err e, s') = (err e, s)

module _ {ℓ} {S : Type ℓ} where
  unfoldable pub modify : (S → S) → Exec S (Unit {ℓ})
  modify f s = (ok tt, f s)

  -- `if not test: raise e`
  unfoldable pub require : Bool → Exception → Exec S (Unit {ℓ})
  require true e s = (ok tt, s)
  require false e s = (err e, s)

  -- `if test: raise e`
  unfoldable pub refuse : Bool → Exception → Exec S (Unit {ℓ})
  refuse true e s = (err e, s)
  refuse false e s = (ok tt, s)

module _ {ℓ} {S A B : Type ℓ} where
  abbrev pub continue : (A → Exec S B) → Result A × S → Result B × S
  continue f (ok a, s) = f a s
  continue f (err e, s) = (err e, s)

  infixl 10 ◌>>=◌ ◌>>◌
  -- Opening this opens the actions above too.
  unfoldable pub ◌>>=◌ : Exec S A → (A → Exec S B) → Exec S B
  unfolding pure raise lift gets modify require refuse finish
  ◌>>=◌ m f s = continue f (m s)

  abbrev pub ◌>>◌ : Exec S A → Exec S B → Exec S B
  m >> n = m >>= λ _. n

-- `try`: the outcome as a value, with the state as it is then.
unfoldable pub attempt {ℓ} : {S A : Type ℓ} → Exec S A → Exec S (Result A)
attempt m s = (ok (m s).0, (m s).1)

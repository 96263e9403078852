-- ===== src/Base/Triples.antt =====
-- A program logic for `Exec`: what holds after code that starts where `P` holds, `Q` of the result
-- if it returns and `E` of the exception if it raises.
use mathlib.Core.Bool.{Bool, true, false}
use mathlib.Core.Path.{◌≡◌, refl}
use katydid.Base.Tests.{if◌then◌else◌}
use katydid.Base.Effects.{
  Exception, Result, ok, err, Exec, continue, pure, raise, lift, gets, modify, require, refuse,
  ◌>>=◌, attempt,
}

module _ {S A : Type 0} where
  abbrev pub After : (A → S → Type 0) → (Exception → S → Type 0) → Result A × S → Type 0
  After Q E (ok a, s) = Q a s
  After Q E (err e, s) = E e s

  pub record Triple (P : S → Type 0) (m : Exec S A) (Q : A → S → Type 0)
      (E : Exception → S → Type 0) : Type 0 where
    pub holds : (s : S) → P s → After Q E (m s)

  After-weaken :
      (Q R : A → S → Type 0) (E F : Exception → S → Type 0) (r : Result A × S)
      → ((a : A) (s : S) → Q a s → R a s)
      → ((e : Exception) (s : S) → E e s → F e s)
      → After Q E r
      → After R F r
  After-weaken Q R E F (ok a, s) h k q = h a s q
  After-weaken Q R E F (err e, s) h k q = k e s q

  -- What was raised comes back as a value.
  abbrev pub Caught : (A → S → Type 0) → (Exception → S → Type 0) → Result A → S → Type 0
  Caught Q X (ok a) s = Q a s
  Caught Q X (err e) s = X e s

  Caught-After :
      (Q : A → S → Type 0) (X : Exception → S → Type 0) (r : Result A × S)
      → After Q X r
      → Caught Q X r.0 r.1
  Caught-After Q X (ok a, s) h = h
  Caught-After Q X (err e, s) h = h

module _ {S A : Type 0} where
  pub Triple-attempt :
      {P : S → Type 0} {E X : Exception → S → Type 0} {Q : A → S → Type 0} {m : Exec S A}
      → Triple P m Q X
      → Triple P (attempt m) (Caught Q X) E
  unfolding attempt
  Triple-attempt {X} {Q} {m} t = record { holds = λ s p. Caught-After Q X (m s) (t.holds s p) }

module _ {S A : Type 0} {P : S → Type 0} {Q : A → S → Type 0} {E : Exception → S → Type 0} where
  pub Triple-pure : (a : A) → ((s : S) → P s → Q a s) → Triple P (pure a) Q E
  unfolding ◌>>=◌
  Triple-pure a h = record { holds = h }

  pub Triple-raise : (e : Exception) → ((s : S) → P s → E e s) → Triple P (raise e) Q E
  unfolding ◌>>=◌
  Triple-raise e h = record { holds = h }

  pub Triple-gets : (g : S → A) → ((s : S) → P s → Q (g s) s) → Triple P (gets g) Q E
  unfolding ◌>>=◌
  Triple-gets g h = record { holds = h }

  pub Triple-lift :
      (r : Result A)
      → ((a : A) (s : S) → r ≡ ok a → P s → Q a s)
      → ((e : Exception) (s : S) → r ≡ err e → P s → E e s)
      → Triple P (lift r) Q E
  unfolding ◌>>=◌
  Triple-lift (ok a) h k = record { holds = λ s p. h a s refl p }
  Triple-lift (err e) h k = record { holds = λ s p. k e s refl p }

  pub Triple-if :
      (b : Bool) {m n : Exec S A}
      → (b ≡ true → Triple P m Q E)
      → (b ≡ false → Triple P n Q E)
      → Triple P (if b then m else n) Q E
  Triple-if true h k = h refl
  Triple-if false h k = k refl

  pub Triple-before :
      {P' : S → Type 0} {m : Exec S A} → ((s : S) → P' s → P s) → Triple P m Q E → Triple P' m Q E
  Triple-before h t = record { holds = λ s p. t.holds s (h s p) }

  pub Triple-weaken :
      {R : A → S → Type 0} {F : Exception → S → Type 0} {m : Exec S A}
      → ((a : A) (s : S) → Q a s → R a s)
      → ((e : Exception) (s : S) → E e s → F e s)
      → Triple P m Q E
      → Triple P m R F
  Triple-weaken {R} {F} {m} h k t = record {
    holds = λ s p. After-weaken Q R E F (m s) h k (t.holds s p);
  }

module _ {S : Type 0} {P : S → Type 0} {E : Exception → S → Type 0} where
  pub Triple-modify :
      {Q : Unit {0} → S → Type 0} (g : S → S)
      → ((s : S) → P s → Q tt (g s))
      → Triple P (modify g) Q E
  unfolding ◌>>=◌
  Triple-modify g h = record { holds = h }

  pub Triple-require :
      (b : Bool) (e : Exception)
      → ((s : S) → P s → E e s)
      → Triple P (require b e) (λ _ s. (b ≡ true) × P s) E
  unfolding ◌>>=◌
  Triple-require true e h = record { holds = λ s p. (refl, p) }
  Triple-require false e h = record { holds = h }

  pub Triple-refuse :
      (b : Bool) (e : Exception)
      → ((s : S) → P s → E e s)
      → Triple P (refuse b e) (λ _ s. (b ≡ false) × P s) E
  unfolding ◌>>=◌
  Triple-refuse true e h = record { holds = h }
  Triple-refuse false e h = record { holds = λ s p. (refl, p) }

module _ {S A B : Type 0} {Q : B → S → Type 0} {E : Exception → S → Type 0} where
  bind-After :
      (R : A → S → Type 0) (f : A → Exec S B) (r : Result A × S)
      → ((a : A) → Triple (R a) (f a) Q E)
      → After R E r
      → After Q E (continue f r)
  bind-After R f (ok a, s) h q = (h a).holds s q
  bind-After R f (err e, s) h q = q

  pub Triple-bind :
      {P : S → Type 0} (R : A → S → Type 0) {m : Exec S A} {f : A → Exec S B}
      → Triple P m R E
      → ((a : A) → Triple (R a) (f a) Q E)
      → Triple P (m >>= f) Q E
  unfolding ◌>>=◌
  Triple-bind R {m} {f} t h = record { holds = λ s p. bind-After R f (m s) h (t.holds s p) }

  -- A statement that returns nothing.
  pub Triple-then :
      {P : S → Type 0} (R : S → Type 0) {m : Exec S A} {f : A → Exec S B}
      → Triple P m (λ _. R) E
      → ((a : A) → Triple R (f a) Q E)
      → Triple P (m >>= f) Q E
  Triple-then R t h = Triple-bind (λ _. R) t h

-- Nothing is claimed of what the code does.
pub Triple-any :
    {S A : Type 0} {P : S → Type 0} (m : Exec S A) → Triple P m (λ a s. Unit {0}) (λ e s. Unit {0})
Triple-any m = record { holds = λ s p. any-after (m s) }
  where
    any-after : {S A : Type 0} (r : Result A × S) → After (λ a s. Unit {0}) (λ e s. Unit {0}) r
    any-after (ok a, s) = tt
    any-after (err e, s) = tt

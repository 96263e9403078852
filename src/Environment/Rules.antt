-- ===== src/Environment/Rules.antt =====
-- Rules for the statements of the session of src/katydid/environment.py.
use katydid.Base.{
  After, Exception, Option, Result, Triple, err, none, ok, refl, some, ℕ, ◌+◌, ◌>>=◌, ◌∷◌, ◌≡◌,
}
use katydid.Environment.Session.{
  Phase, Session, World, ask, changed, checkpoint, hook, invoke, snapshot, written,
}
use katydid.Evidence.Results.{CheckResult, PlannedCheck}

module _ {P : Session → Type 0} {E : Exception → Session → Type 0} where
  pub Triple-ask :
      {A : Type 0} {Q : A → Session → Type 0} (f : ℕ → A)
      → ((s : Session) → P s → Q (f s.asked) (record s { asked = s.asked + 1 }))
      → Triple P (ask f) Q E
  unfolding ask
  Triple-ask f h = record { holds = h }

module _ (world : World) {P : Session → Type 0} {E : Exception → Session → Type 0} where
  -- A checkpoint is written with the fields as they are, or it raises and writes nothing.
  pub Triple-changed_by :
      {Q : Unit {0} → Session → Type 0}
      → ((s : Session)
          → P s
          → Q tt (record s { asked = s.asked + 1; log = checkpoint (snapshot s) ∷ s.log }))
      → ((e : Exception) (s : Session)
          → world.write s.asked ≡ some e
          → P s
          → E e (record s { asked = s.asked + 1 }))
      → Triple P (changed world) Q E
  unfolding changed ask ◌>>=◌ snapshot
  Triple-changed_by {Q} h k = record { holds = λ s p. go (world.write s.asked) s refl p }
    where
      go :
          (o : Option Exception) (s : Session)
          → world.write s.asked ≡ o
          → P s
          → After Q E (written world o (record s { asked = s.asked + 1 }))
      go none s w p = h s p
      go (some e) s w p = k e s w p

  pub Triple-changed :
      {Q : Unit {0} → Session → Type 0}
      → ((s : Session)
          → P s
          → Q tt (record s { asked = s.asked + 1; log = checkpoint (snapshot s) ∷ s.log }))
      → ((e : Exception) (s : Session) → P s → E e (record s { asked = s.asked + 1 }))
      → Triple P (changed world) Q E
  Triple-changed h k = Triple-changed_by h (λ e s w p. k e s p)

  -- A hook returns or raises what the world answers.
  pub Triple-invoke_by :
      {Q : CheckResult → Session → Type 0} (phase : Phase) (index : ℕ) (check : PlannedCheck)
      → ((result : CheckResult) (s : Session)
          → world.execute s.asked check ≡ ok result
          → P s
          → Q result (record s { asked = s.asked + 1; log = hook phase index check ∷ s.log }))
      → ((e : Exception) (s : Session)
          → world.execute s.asked check ≡ err e
          → P s
          → E e (record s { asked = s.asked + 1; log = hook phase index check ∷ s.log }))
      → Triple P (invoke world phase index check) Q E
  unfolding invoke ask ◌>>=◌
  Triple-invoke_by {Q} phase index check h k = record {
    holds = λ s p. go (world.execute s.asked check) s refl p;
  }
    where
      go :
          (r : Result CheckResult) (s : Session)
          → world.execute s.asked check ≡ r
          → P s
          → After Q E (r, record s { asked = s.asked + 1; log = hook phase index check ∷ s.log })
      go (ok result) s w p = h result s w p
      go (err e) s w p = k e s w p

  pub Triple-invoke :
      {Q : CheckResult → Session → Type 0} (phase : Phase) (index : ℕ) (check : PlannedCheck)
      → ((result : CheckResult) (s : Session)
          → P s
          → Q result (record s { asked = s.asked + 1; log = hook phase index check ∷ s.log }))
      → ((e : Exception) (s : Session)
          → P s
          → E e (record s { asked = s.asked + 1; log = hook phase index check ∷ s.log }))
      → Triple P (invoke world phase index check) Q E
  Triple-invoke phase index check h k =
      Triple-invoke_by phase index check (λ r s w p. h r s p) (λ e s w p. k e s p)

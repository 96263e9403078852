-- ===== src/Environment/Delay.antt =====
-- The delay between two probes of src/katydid/environment.py ends.
use katydid.Base.{
  Triple, Triple-before, Triple-bind, Triple-gets, Triple-if, Triple-modify, Triple-pure,
  Triple-then, arith, false, ltb, not, suc, true, zero, ℕ, ◌+◌, ◌-◌, ◌<◌, ◌||◌, ◌≡◌, ◌≤◌,
}
use katydid.Environment.Prepare.{delay, longest_wait, min}
use katydid.Environment.Rules.{Triple-ask}
use katydid.Environment.Session.{Session, World, set_cancel}

module _ (world : World) (keeps_on : (n : ℕ) → world.monotonic n ≤ world.monotonic (n + 1))
    (takes : (n t : ℕ)
      → world.wait n t ≡ false
      → world.monotonic n + t ≤ world.monotonic (n + 1)) where
  abbrev Enough : ℕ → ℕ → Session → Type 0
  Enough fuel retry_at s = (retry_at < world.monotonic s.asked + fuel) × (0 < fuel)

  -- The clock was read before, and the delay was not over.
  abbrev Waiting : ℕ → ℕ → ℕ → Session → Type 0
  Waiting fuel retry_at now s =
      (now < retry_at) × (retry_at < now + suc fuel) × (now ≤ world.monotonic s.asked)

  -- The wait was for this long.
  abbrev Waited : ℕ → ℕ → ℕ → ℕ → Session → Type 0
  Waited fuel retry_at now later s =
      Waiting fuel retry_at now s
      × (now ≤ later)
      × (later + min longest_wait (retry_at - later) ≤ world.monotonic s.asked)

  Waited-Enough :
      (fuel retry_at now later : ℕ) (s : Session)
      → Waited fuel retry_at now later s
      → Enough fuel retry_at s
  Waited-Enough fuel retry_at now later s ((a, b, c), d, e) = (ground arith, omega arith)

  delay-Triple :
      (fuel retry_at : ℕ)
      → Triple (Enough fuel retry_at) (delay world fuel retry_at) (λ _ _. Unit {0}) (λ _ _. ⊥)
  unfolding delay set_cancel
  delay-Triple zero retry_at = record { holds = λ s h. absurd (omega arith) }
  delay-Triple (suc fuel) retry_at =
      Triple-bind (λ now s. ltb now retry_at ≡ true → Waiting fuel retry_at now s)
        (Triple-ask _ (λ s h before. (ground arith, h.0, keeps_on s.asked)))
        λ now.
          Triple-if (not (ltb now retry_at)) (λ _. Triple-pure false (λ s h. tt))
            λ early.
              Triple-bind (λ own. Waiting fuel retry_at now)
                (Triple-gets _ (λ s h. h (ground arith)))
                λ own.
                  Triple-bind
                    (λ later s.
                      Waiting fuel retry_at now s
                      × (now ≤ later)
                      × (later ≤ world.monotonic s.asked))
                    (Triple-ask _ (λ s (a, b, c).
                      ((a, b, omega (arith, keeps_on s.asked)), c, keeps_on s.asked)))
                    λ later.
                      Triple-bind (λ woken s. woken ≡ false → Waited fuel retry_at now later s)
                        (Triple-ask _ (λ s ((a, b, c), d, e) out. (
                          (a, b, omega (arith, keeps_on s.asked)),
                          d,
                          omega (arith, takes s.asked _ out),
                        )))
                        λ woken.
                          Triple-if (own || woken) (λ _. Triple-pure true (λ s h. tt))
                            λ out.
                              Triple-bind (λ there. Waited fuel retry_at now later)
                                (Triple-ask _ (λ s h.
                                  let ((a, b, c), d, e) = h (ground (arith, out)) in
                                  (
                                    (a, b, omega (arith, keeps_on s.asked)),
                                    d,
                                    omega (arith, keeps_on s.asked),
                                  )))
                                λ there.
                                  Triple-if there
                                    (λ _.
                                      Triple-then (λ s. Unit) (Triple-modify _ (λ s h. tt))
                                        λ _. Triple-pure true (λ s h. tt))
                                    λ _.
                                      Triple-before (Waited-Enough fuel retry_at now later)
                                        (delay-Triple fuel retry_at)

  -- The delay before the next probe ends: where the clock never goes back, and a wait that times out
  -- has taken its timeout, it returns from every session, with the fuel that the loop of probes
  -- gives it.
  pub delay-returns :
      (retry_at : ℕ)
      → Triple (λ s. Unit {0}) (delay world (retry_at + 1) retry_at) (λ _ _. Unit {0}) (λ _ _. ⊥)
  delay-returns retry_at = Triple-before (λ s h. omega arith) (delay-Triple (retry_at + 1) retry_at)

-- ===== src/Ratchet/Skip/Fuel.antt =====
-- The loop of `skipMessageKeys` ends (ratchet/skipped.go).
use signal.Common.{
  ℕ, zero, suc, ◌+◌, ◌-◌, ◌≤◌, ◌≡◌, refl, ap, Bool-cases, Result-cases, inl, inr, ok, false, ltb,
  arith,
}
use signal.Common.Words.{IsU32}
use signal.Crypto.{Primitives}
use signal.Ratchet.{State}
use signal.Ratchet.Skip.{skip_one, skip_loop, skip_message_keys}
use signal.Ratchet.Skip.Rounds.{skip_one-ok}

module _ (P : Primitives) where
  skip_loop-done :
      (fuel until : ℕ) (s : State) → until ≤ s.nr → skip_loop P fuel until s ≡ (ok tt, s)
  unfolding skip_loop
  skip_loop-done zero until s h = refl
  skip_loop-done (suc fuel) until s h =
      let over : ltb s.nr until ≡ false = ground arith in rw over refl

  -- A round moves the counter on by one.
  skip_one-nr :
      (s u : State) → IsU32 s.nr → skip_one P s ≡ (ok tt, u) → (u.nr ≡ s.nr + 1) × IsU32 u.nr
  skip_one-nr s u small e =
      let (d, _, same, _, below) = skip_one-ok P s u small e in
      let nr : u.nr ≡ s.nr + 1 = ap State.nr same in (nr, omega (arith, nr, below))

  skip_loop-agrees :
      (f g until : ℕ) (s : State)
      → IsU32 s.nr
      → until ≤ s.nr + f
      → until ≤ s.nr + g
      → skip_loop P f until s ≡ skip_loop P g until s
  unfolding skip_loop
  skip_loop-agrees zero g until s small hf hg = rw (skip_loop-done g until s (omega arith)) refl
  skip_loop-agrees (suc f) zero until s small hf hg = skip_loop-done (suc f) until s (omega arith)
  skip_loop-agrees (suc f) (suc g) until s small hf hg = elim (Bool-cases (ltb s.nr until)) [
    | inr over ↦ rw over refl
    | inl more ↦ elim (Result-cases (skip_one P s).0) [
      | inr (e, failed) ↦ rw (more, failed) refl
      | inl (tt, done) ↦
          let u = (skip_one P s).1 in
          let (nr, small') = skip_one-nr s u small (λ i. (done i, u)) in
          rw (more, done)
            (skip_loop-agrees f g until u small' (omega (arith, nr, hf)) (omega (arith, nr, hg)))
    ]
  ]

  -- The loop's test is false, or a round has failed, after `until - nr` rounds at the latest: with that many rounds
  -- or any more, the loop gives the same result and the same state.
  pub skip_loop-skip_message_keys :
      (fuel until : ℕ) (s : State)
      → IsU32 s.nr
      → until - s.nr ≤ fuel
      → skip_loop P fuel until s ≡ skip_message_keys P until s
  unfolding skip_message_keys
  skip_loop-skip_message_keys fuel until s small enough =
      skip_loop-agrees fuel (until - s.nr) until s small (omega arith) (omega arith)

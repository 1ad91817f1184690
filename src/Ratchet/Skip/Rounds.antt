-- ===== src/Ratchet/Skip/Rounds.antt =====
-- The loop of `skipMessageKeys`, round by round.
use Prim.Native.Nat.{max}
use signal.Common.{
  ℕ, zero, suc, ◌+◌, ◌-◌, ◌<◌, ◌≡◌, some, Bytes, ok, length, arith, Option-cases, inl, inr,
}
use native.Mathlib.Decide.{dec_le}
use signal.Common.Map
use signal.Common.Words.{IsU32, max_uint32}
use signal.Common.Exec.{bind-ok}
use signal.Crypto.{Primitives}
use signal.Ratchet.{skipped_key_eq, State, max_skip}
use signal.Ratchet.Chain.{kdf_chain}
use signal.Ratchet.Skip.{skip_one, skip_loop, skip_message_keys}

module _ (P : Primitives) where
  -- The state after a round that stores the key of message `nr`.
  abbrev pub with_stored : Bytes → State → State
  with_stored d s = record s {
    ckr = (kdf_chain P s.ckr).0;
    skipped = Map.insert (record { public_key = d; n = s.nr }) (kdf_chain P s.ckr).1 s.skipped;
    nr = s.nr + 1;
  }

  pub skip_one-ok :
      (s t : State)
      → IsU32 s.nr
      → skip_one P s ≡ (ok tt, t)
      → (d : Bytes) × (s.dhr ≡ some d)
        × (t ≡ with_stored d s)
        × (length s.skipped < max_skip)
        × (s.nr < max_uint32)
  unfolding skip_one
  skip_one-ok s t small e = elim (Option-cases s.dhr) [
    | inl missing ↦ absurd (ground (arith, missing))
    | inr (d, set) ↦ (d, set, ground arith, ground arith, ground arith)
  ]

  pub skip_one-stores :
      (s : State) (d : Bytes)
      → s.dhr ≡ some d
      → s.nr < max_uint32
      → length s.skipped < max_skip
      → skip_one P s ≡ (ok tt, with_stored d s)
  unfolding skip_one
  skip_one-stores s d e small room = ground (arith)

  -- What each round keeps holds after the loop.
  pub skip_loop-keeps {ℓ} :
      (Q : State → Type ℓ) (fuel until : ℕ) (s t : State)
      → IsU32 until
      → s.nr + fuel ≡ until
      → ((u : State) (d : Bytes)
          → u.dhr ≡ some d
          → u.nr < until
          → length u.skipped < max_skip
          → Q u
          → Q (with_stored d u))
      → Q s
      → skip_loop P fuel until s ≡ (ok tt, t)
      → Q t × (t.nr ≡ until)
  unfolding skip_loop
  skip_loop-keeps Q zero until s t small total keep q e =
      let e' : s ≡ t = ground arith in rw (← e') (q, omega arith)
  skip_loop-keeps Q (suc fuel) until s t small total keep q e =
      let (_, u, one, rest) =
        bind-ok (skip_one P) (λ _. skip_loop P fuel until) s {b = tt} {t = t} (ground arith) in
      let (d, set, same, room, below) = skip_one-ok s u (omega arith) one in
      skip_loop-keeps Q fuel until u t small (ground arith) keep
        (rw same (keep s d set (omega arith) room q)) rest

  pub skip_message_keys-keeps {ℓ} :
      (Q : State → Type ℓ) (until : ℕ) (s t : State)
      → IsU32 until
      → ((u : State) (d : Bytes)
          → u.dhr ≡ some d
          → u.nr < until
          → length u.skipped < max_skip
          → Q u
          → Q (with_stored d u))
      → Q s
      → skip_message_keys P until s ≡ (ok tt, t)
      → Q t × (t.nr ≡ max s.nr until)
  unfolding skip_message_keys
  skip_message_keys-keeps Q until s t small keep q e = elim (dec_le s.nr until) [
    | yes h ↦
        let (q', n) = skip_loop-keeps Q (until - s.nr) until s t small (omega arith) keep q e in
        (q', omega arith)
    | no h ↦
        let none_left : until - s.nr ≡ 0 = omega arith in
        let e' : s ≡ t = ground arith in rw (← e') (q, omega arith)
  ]

-- ===== src/Ratchet/Skip/Stored.antt =====
-- The state that `skipMessageKeys` leaves when it succeeds, in closed form.
use signal.Common.{
  ℕ, zero, suc, ◌+◌, ◌-◌, ◌≤◌, ◌<◌, ◌≡◌, refl, ap, ◌∙◌, some, Bytes, ok, length, arith, ltb, leb,
  bytes_beq, bytes_beq_iff, if◌then◌else◌, ◌&&◌,
}
use signal.Common.Map
use signal.Common.Words.{IsU32}
use signal.Crypto.{Primitives}
use signal.Ratchet.{skipped_key_eq, State, max_skip}
use signal.Ratchet.Chain.{kdf_chain, chain_key, message_key}
use signal.Ratchet.Skip.{skip_loop}
use signal.Ratchet.Skip.Rounds.{with_stored, skip_one-stores}

module _ (P : Primitives) where
  -- `k` rounds that all store a key.
  pub stored : ℕ → Bytes → State → State
  stored zero d s = s
  stored (suc k) d s = stored k d (with_stored P d s)

  chain_key-next :
      (start : Bytes) (k : ℕ) → chain_key P (kdf_chain P start).0 k ≡ chain_key P start (suc k)
  unfolding chain_key
  chain_key-next start zero = refl
  chain_key-next start (suc k) = ap (λ c. (kdf_chain P c).0) (chain_key-next start k)

  pub message_key-next :
      (start : Bytes) (k : ℕ) → message_key P (kdf_chain P start).0 k ≡ message_key P start (suc k)
  unfolding message_key
  message_key-next start k = ap (λ c. (kdf_chain P c).1) (chain_key-next start k)

  pub chain_key-add :
      (start : Bytes) (a k : ℕ) → chain_key P (chain_key P start a) k ≡ chain_key P start (a + k)
  unfolding chain_key
  chain_key-add start a zero = let e : a + 0 ≡ a = omega arith in rw e refl
  chain_key-add start a (suc k) =
      let e : a + suc k ≡ suc (a + k) = omega arith in
      rw e (ap (λ c. (kdf_chain P c).0) (chain_key-add start a k))

  pub chain_key-stored : (k : ℕ) (d : Bytes) (s : State) → (stored k d s).ckr ≡ chain_key P s.ckr k
  unfolding stored
  chain_key-stored zero d s = unfold chain_key in refl
  chain_key-stored (suc k) d s = chain_key-stored k d (with_stored P d s) ∙ chain_key-next s.ckr k

  pub nr-stored : (k : ℕ) (d : Bytes) (s : State) → (stored k d s).nr ≡ s.nr + k
  unfolding stored
  nr-stored zero d s = omega arith
  nr-stored (suc k) d s = omega (arith, nr-stored k d (with_stored P d s))

  pub dhr-stored : (k : ℕ) (d : Bytes) (s : State) → (stored k d s).dhr ≡ s.dhr
  unfolding stored
  dhr-stored zero d s = refl
  dhr-stored (suc k) d s = dhr-stored k d (with_stored P d s)

  -- Skipping does not touch our key pair, the root key and what was seen.
  pub others-stored :
      (k : ℕ) (d : Bytes) (s : State)
      → ((stored k d s).dhs ≡ s.dhs) × ((stored k d s).rk ≡ s.rk) × ((stored k d s).seen ≡ s.seen)
  unfolding stored
  others-stored zero d s = (refl, refl, refl)
  others-stored (suc k) d s = others-stored k d (with_stored P d s)

  pub sending-stored :
      (k : ℕ) (d : Bytes) (s : State) → ((stored k d s).cks ≡ s.cks) × ((stored k d s).ns ≡ s.ns)
  unfolding stored
  sending-stored zero d s = (refl, refl)
  sending-stored (suc k) d s = sending-stored k d (with_stored P d s)

  pub length-stored-le :
      (k : ℕ) (d : Bytes) (s : State) → length (stored k d s).skipped ≤ length s.skipped + k
  unfolding stored
  length-stored-le zero d s = omega arith
  length-stored-le (suc k) d s = omega (
    arith,
    length-stored-le k d (with_stored P d s),
    Map.length-insert-le (record { public_key = d; n = s.nr }) (kdf_chain P s.ckr).1 s.skipped,
  )

  -- With room for them all, the loop stores the keys of every message up to `until`.
  pub skip_loop-stores :
      (k : ℕ) (d : Bytes) (until : ℕ) (s : State)
      → IsU32 until
      → s.dhr ≡ some d
      → s.nr + k ≡ until
      → length s.skipped + k ≤ max_skip
      → skip_loop P k until s ≡ (ok tt, stored k d s)
  unfolding skip_loop stored
  skip_loop-stores zero d until s small set total room = refl
  skip_loop-stores (suc k) d until s small set total room = ground (
    arith,
    skip_one-stores P s d set,
    Map.length-insert-le (record { public_key = d; n = s.nr }) (kdf_chain P s.ckr).1 s.skipped,
    skip_loop-stores k d until (with_stored P d s) small set,
  )

  message_key_at :
      (start : Bytes) (r n : ℕ)
      → r < n
      → message_key P (kdf_chain P start).0 (n - (r + 1)) ≡ message_key P start (n - r)
  message_key_at start r n h =
      let e : n - r ≡ suc (n - (r + 1)) = omega arith in rw e (message_key-next start (n - (r + 1)))

  message_key_first :
      (start : Bytes) (r n : ℕ) → r ≡ n → (kdf_chain P start).1 ≡ message_key P start (n - r)
  unfolding message_key chain_key
  message_key_first start r n h = let e : n - r ≡ 0 = omega arith in rw e refl

  -- What is found under a key afterwards: the new message keys of `d`, and all that was there before.
  pub lookup-stored :
      (k : ℕ) (d : Bytes) (s : State) (j : Bytes) (n : ℕ)
      → Map.lookup (record { public_key = j; n = n }) (stored k d s).skipped ≡ (
          if bytes_beq d j && (leb s.nr n && ltb n (s.nr + k))
          then some (message_key P s.ckr (n - s.nr))
          else Map.lookup (record { public_key = j; n = n }) s.skipped)
  unfolding stored
  lookup-stored zero d s j n = ground arith
  lookup-stored (suc k) d s j n = ground (
    arith,
    lookup-stored k d (with_stored P d s) j n,
    Map.lookup-insert (record { public_key = d; n = s.nr }) (record { public_key = j; n = n })
        (kdf_chain P s.ckr).1 s.skipped,
    bytes_beq_iff d j,
    message_key_at s.ckr s.nr n,
    message_key_first s.ckr s.nr n,
  )

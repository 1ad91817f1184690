-- ===== src/Ratchet/Delivery.antt =====
-- Receiving along one chain of ratchet/message.go: what the receiver's state knows of the chain that
-- the sender's messages come from.
pub mod Order
pub mod Stream
use signal.Common.{
  ℕ, ◌+◌, ◌-◌, ◌≤◌, ◌<◌, ◌≡◌, ◌≢◌, refl, sym, ap, ◌∙◌, Option, none, some, Bytes, bytes_eq, Result,
  ok, err, arith, Option-cases, inl, inr, ◌⊎◌, bytes_beq, bytes_beq_iff, length, true, false,
}
use signal.Common.Map
use signal.Common.Words.{IsU32, max_uint32, inc32, zero_key}
use signal.Crypto.{Primitives}
use signal.Ratchet.{
  State, Header, Message, SkippedKey, skipped_key_eq, skipped_key_beq_iff, max_skip,
}
use signal.Ratchet.Chain.{kdf_chain, chain_key, message_key}
use signal.Ratchet.Skip.{skipped_key_for_header, skip_message_keys}
use signal.Ratchet.Skip.Stored.{
  stored, chain_key-stored, chain_key-add, nr-stored, dhr-stored, length-stored-le,
  skip_loop-stores, lookup-stored,
}
use signal.Ratchet.Receive.{
  decrypt, decrypt_with_message_key, advance, reject_old, turn_if_new, receiving_key, is_current,
}

-- The receiver's chain is the one that starts at `start` under the remote key `d`, its stored keys are
-- the message keys of that chain, and at most as many as messages have passed since `base`.
pub record Tracks (P : Primitives) (start d : Bytes) (base : ℕ) (s : State) : Type 0 where
  pub current : s.dhr ≡ some d
  pub chain : s.ckr ≡ chain_key P start s.nr
  pub holds :
      (n : ℕ) (mk : Bytes)
      → Map.lookup (record { public_key = d; n = n }) s.skipped ≡ some mk
      → mk ≡ message_key P start n
  pub window : length s.skipped + base ≤ s.nr

-- The n-th message of the chain was not decrypted yet.
abbrev pub Pending : Bytes → State → ℕ → Type 0
Pending d s n =
    (s.nr ≤ n)
    ⊎ ((mk : Bytes) × (Map.lookup (record { public_key = d; n = n }) s.skipped ≡ some mk))

-- The message is the n-th of the chain, sealed over the text.
pub record IsGenuine (P : Primitives) (start d : Bytes) (n : ℕ) (text ad : Bytes) (msg : Message)
    : Type 0 where
  pub dh : msg.header.dh ≡ d
  pub number : msg.header.n ≡ n
  pub opens : decrypt_with_message_key P (message_key P start n) msg ad ≡ ok text

-- The receiver may reach the n-th message: few enough are skipped, and its chain key is not zero.
pub record InReach (P : Primitives) (start : Bytes) (base n : ℕ) : Type 0 where
  pub near : n ≤ base + max_skip
  pub small : n < max_uint32
  pub live : chain_key P start n ≢ zero_key

module _ (P : Primitives) (start d : Bytes) (base n : ℕ) where
  -- The state behind the n-th message, when no key was stored for it.
  abbrev pub past : State → State
  past s = record (stored P (n - s.nr) d s) {
    ckr = (kdf_chain P (chain_key P start n)).0;
    nr = n + 1;
  }

  abbrev pub key : SkippedKey
  key = record { public_key = d; n = n }

  abbrev pub taken : State → State
  taken s = record s { skipped = Map.delete key s.skipped }

  module _ (s : State) (tracks : Tracks P start d base s) (reach : InReach P start base n) where
    skip-Tracks : s.nr ≤ n → skip_message_keys P n s ≡ (ok tt, stored P (n - s.nr) d s)
    unfolding skip_message_keys
    skip-Tracks ahead =
        skip_loop-stores P (n - s.nr) d n s (omega (arith, reach.small)) tracks.current
          (omega arith) (omega (arith, reach.near, tracks.window))

    chain-at : s.nr ≤ n → (stored P (n - s.nr) d s).ckr ≡ chain_key P start n
    chain-at ahead =
        let e : s.nr + (n - s.nr) ≡ n = omega arith in
        chain_key-stored P (n - s.nr) d s
        ∙ ap (λ c. chain_key P c (n - s.nr)) tracks.chain
        ∙ chain_key-add P start s.nr (n - s.nr)
        ∙ ap (chain_key P start) e

    pub advance-Tracks :
        (entropy : Option Bytes) (h : Header)
        → h.dh ≡ d
        → h.n ≡ n
        → s.nr ≤ n
        → advance P entropy h s ≡ (ok (message_key P start n), past s)
    unfolding advance reject_old turn_if_new receiving_key is_current message_key
    advance-Tracks entropy h dh number ahead = ground (
      arith,
      dh,
      number,
      tracks.current,
      bytes_beq_iff d d,
      skip-Tracks ahead,
      chain-at ahead,
      nr-stored P (n - s.nr) d s,
      reach.small,
      reach.live,
      bytes_beq_iff (chain_key P start n) zero_key,
    )

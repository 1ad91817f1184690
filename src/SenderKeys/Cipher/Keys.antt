-- ===== src/SenderKeys/Cipher/Keys.antt =====
-- What getSenderMessageKey of senderkeys/cipher.go gives for a message ahead of the chain.
use signal.Common.{
  ℕ, zero, suc, ◌+◌, ◌-◌, ◌≤◌, ◌<◌, ◌≡◌, refl, ap, Bytes, ok, arith, ◌∙◌, take, drop, [],
}
use signal.Common.Words.{max_uint32}
use signal.Crypto.{Primitives}
use signal.Crypto.Laws.{IsSound, hkdf_total}
use signal.SenderKeys.{
  State, MessageKey, SenderChainKey, SenderMessageKey, max_message_keys_per_state,
}
use signal.SenderKeys.Chain.{
  chain_at, next, sender_message_key, new_sender_message_key, derive, group_info,
}
use signal.SenderKeys.Record.{add_message_key}
use signal.SenderKeys.Cipher.{get_sender_message_key, skip_to, skip_round}

module _ (P : Primitives) (sound : IsSound P) where
  new_sender_message_key_total :
      (iteration : ℕ) (seed : Bytes)
      → (mk : SenderMessageKey) × (new_sender_message_key P iteration seed ≡ ok mk)
  unfolding new_sender_message_key
  new_sender_message_key_total iteration seed =
      let (okm, e, l) = hkdf_total sound seed [] group_info 48 (omega arith) in
      (
        record { iteration = iteration; seed = seed; iv = take 16 okm; cipher_key = drop 16 okm },
        ground (arith, e),
      )

  sender_message_key_total :
      (k : SenderChainKey) → (mk : SenderMessageKey) × (sender_message_key P k ≡ ok mk)
  unfolding sender_message_key
  sender_message_key_total k = new_sender_message_key_total k.iteration (derive P 1 k)

  module _ (origin : Bytes) where
    pub chain_at-iteration : (n : ℕ) → (chain_at P origin n).iteration ≡ n
    unfolding chain_at
    chain_at-iteration zero = refl
    chain_at-iteration (suc n) = refl

    next-chain_at :
        (n : ℕ) → n < max_uint32 → next P (chain_at P origin n) ≡ ok (chain_at P origin (suc n))
    unfolding next chain_at
    next-chain_at n h =
        let e : (chain_at P origin n).iteration ≡ n = chain_at-iteration n in ground (arith, e, h)

    skip_to-chain_at :
        (fuel n j : ℕ) (s : State)
        → j + fuel ≡ n
        → n < max_uint32
        → (u : State) × (skip_to P fuel n (chain_at P origin j) s ≡ (ok (chain_at P origin n), u))
    unfolding skip_to skip_round
    skip_to-chain_at zero n j s e h = let same : j ≡ n = omega arith in (s, rw same refl)
    skip_to-chain_at (suc fuel) n j s e h =
        let (mk, made) = sender_message_key_total (chain_at P origin j) in
        let key : MessageKey = record {
          iteration = (chain_at P origin j).iteration;
          seed = mk.seed;
        } in
        let (u, rest) = skip_to-chain_at fuel n (suc j) (add_message_key key s) (omega arith) h in
        (u, ground (arith, chain_at-iteration j, made, next-chain_at j (omega arith), rest))

    -- For an iteration at or ahead of the chain, by at most 2000, and below the last uint32, the key that
    -- is returned is the message key of that iteration on the sender's chain, and the chain stands behind it.
    pub get_sender_message_key-ahead :
        (n : ℕ) (s : State)
        → s.chain_seed ≡ (chain_at P origin s.chain_iteration).seed
        → s.chain_iteration ≤ n
        → n ≤ s.chain_iteration + max_message_keys_per_state
        → n < max_uint32
        → (mk : SenderMessageKey) × (t : State) × (get_sender_message_key P n s ≡ (ok mk, t))
          × (sender_message_key P (chain_at P origin n) ≡ ok mk)
          × (t.chain_iteration ≡ n + 1)
          × (t.chain_seed ≡ (chain_at P origin (n + 1)).seed)
    unfolding get_sender_message_key
    get_sender_message_key-ahead n s chain behind near small =
        let (mk, made) = sender_message_key_total (chain_at P origin n) in
        let start : record { iteration = s.chain_iteration; seed = s.chain_seed }
            ≡ chain_at P origin s.chain_iteration =
          ground (arith, chain, chain_at-iteration s.chain_iteration) in
        let (u, skipped) =
          skip_to-chain_at (n - s.chain_iteration) n s.chain_iteration s (omega arith) small in
        let later : SenderChainKey = chain_at P origin (suc n) in
        let e : suc n ≡ n + 1 = omega arith in
        (
          mk,
          record u { chain_iteration = later.iteration; chain_seed = later.seed },
          ground (arith, start, skipped, next-chain_at n small, made),
          made,
          chain_at-iteration (suc n) ∙ e,
          ap (λ m. (chain_at P origin m).seed) e,
        )

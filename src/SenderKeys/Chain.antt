-- ===== src/SenderKeys/Chain.antt =====
-- The chain keys and message keys of senderkeys/ratchet.go.
use signal.Common.{
  ℕ, zero, suc, ◌+◌, [], ◌∷◌, Bytes, Result, ok, err, counter_overflow, ◌>>=◌, eqb, take, drop,
  if◌then◌else◌,
}
use signal.Common.Words.{array32, max_uint32}
use signal.Crypto.{Primitives, hkdf}
use signal.SenderKeys.{SenderChainKey, SenderMessageKey}

-- []byte("WhisperGroup")
abbrev pub group_info : Bytes
group_info = b'W' ∷ b'h' ∷ b'i' ∷ b's' ∷ b'p' ∷ b'e' ∷ b'r' ∷ b'G' ∷ b'r' ∷ b'o' ∷ b'u' ∷ b'p' ∷ []

module _ (P : Primitives) where
  unfoldable pub derive : ℕ → SenderChainKey → Bytes
  derive constant k = array32 (P.hmac_sha256 k.seed (constant ∷ []))

  unfoldable pub new_sender_message_key : ℕ → Bytes → Result SenderMessageKey
  new_sender_message_key iteration seed = do
    derivative ← hkdf P seed [] group_info 48
    ok (record {
      iteration = iteration;
      seed = seed;
      iv = take 16 derivative;
      cipher_key = drop 16 derivative;
    })

  unfoldable pub sender_message_key : SenderChainKey → Result SenderMessageKey
  unfolding derive new_sender_message_key
  sender_message_key k = new_sender_message_key k.iteration (derive 1 k)

  unfoldable pub next : SenderChainKey → Result SenderChainKey
  unfolding derive
  next k =
      if eqb k.iteration max_uint32
      then err counter_overflow
      else ok (record { iteration = k.iteration + 1; seed = derive 2 k })

  -- The chain key of the n-th message of the chain that starts with `seed`.
  unfoldable pub chain_at : Bytes → ℕ → SenderChainKey
  chain_at seed zero = record { iteration = 0; seed = seed }
  chain_at seed (suc n) = record { iteration = suc n; seed = derive 2 (chain_at seed n) }

-- ===== src/Ratchet/Chain.antt =====
-- ratchet/chain.go, and KDFRoot of ratchet/dh_ratchet.go.
use signal.Common.{ℕ, zero, suc, [], ◌∷◌, Bytes, Result, ok, err, ◌>>=◌, take, drop}
use signal.Common.Words.{array32}
use signal.Crypto.{Primitives, hkdf}
use signal.Ratchet.{MessageKeys}

-- []byte("WhisperRatchet") and []byte("WhisperMessageKeys")
abbrev pub ratchet_info : Bytes
ratchet_info =
    b'W' ∷ b'h' ∷ b'i' ∷ b's' ∷ b'p' ∷ b'e' ∷ b'r' ∷ b'R' ∷ b'a' ∷ b't' ∷ b'c' ∷ b'h' ∷ b'e' ∷ b't'
    ∷ []

abbrev pub message_keys_info : Bytes
message_keys_info =
    b'W' ∷ b'h' ∷ b'i' ∷ b's' ∷ b'p' ∷ b'e' ∷ b'r' ∷ b'M' ∷ b'e' ∷ b's' ∷ b's' ∷ b'a' ∷ b'g' ∷ b'e'
    ∷ b'K' ∷ b'e' ∷ b'y' ∷ b's' ∷ []

module _ (P : Primitives) where
  unfoldable pub hmac_sha256 : Bytes → Bytes → Bytes
  hmac_sha256 key text = array32 (P.hmac_sha256 key text)

  -- (new chain key, message key)
  unfoldable pub kdf_chain : Bytes → Bytes × Bytes
  unfolding hmac_sha256
  kdf_chain chain_key = (hmac_sha256 chain_key (2 ∷ []), hmac_sha256 chain_key (1 ∷ []))

  -- The code drops the error of HKDF and would panic on the empty slice; 80 bytes are below the limit
  -- of HKDF, so that `IsSound` excludes it.
  expanded : Result Bytes → Bytes
  expanded (ok okm) = okm
  expanded (err e) = []

  unfoldable pub derive_message_keys_with_salt : Bytes → Bytes → MessageKeys
  unfolding expanded
  derive_message_keys_with_salt message_key salt =
      let okm = expanded (hkdf P message_key salt message_keys_info 80) in
      record { enc_key = take 32 okm; auth_key = take 32 (drop 32 okm); iv = take 16 (drop 64 okm) }

  unfoldable pub derive_message_keys : Bytes → MessageKeys
  unfolding derive_message_keys_with_salt
  derive_message_keys message_key = derive_message_keys_with_salt message_key []

  -- (new root key, chain key)
  unfoldable pub kdf_root : Bytes → Bytes → Result (Bytes × Bytes)
  kdf_root root_key dh_output = do
    okm ← hkdf P dh_output root_key ratchet_info 64
    ok (array32 (take 32 okm), array32 (take 32 (drop 32 okm)))

  -- The chain key and the message key of the n-th message of the chain that starts at `start`.
  unfoldable pub chain_key : Bytes → ℕ → Bytes
  chain_key start zero = start
  chain_key start (suc n) = (kdf_chain (chain_key start n)).0

  unfoldable pub message_key : Bytes → ℕ → Bytes
  message_key start n = (kdf_chain (chain_key start n)).1

-- ===== src/Crypto/CtrHmac.antt =====
-- AES-256-CTR with a truncated HMAC, crypto/aes_ctr_hmac.go.

use signal.Common.{
  ℕ, ◌+◌, ◌-◌, ◌≤◌, ◌≡◌, refl, ap, ◌∙◌, not, ◌++◌, Bytes, bytes_beq, bytes_beq_iff, Result, ok, err,
  plain, ◌>>=◌, ltb, true, length, take, drop, replicate, if◌then◌else◌, length-append, length-take,
  take-append, drop-append, arith,
}
use signal.Crypto.{Primitives}
use signal.Crypto.Padding.{is_key_size}

abbrev pub aes_ctr_hmac_size : ℕ
aes_ctr_hmac_size = 10

module _ (P : Primitives) (ctr : Bytes → Bytes → Bytes → Bytes) where
  -- `ctr` is XORKeyStream of NewCTR: key, nonce, text.
  unfoldable pub aes_ctr_hmac_encrypt : Bytes → Bytes → Bytes → Result Bytes
  aes_ctr_hmac_encrypt plaintext cipher_key mac_key =
      let ciphertext : Bytes = ctr cipher_key (replicate 16 0) plaintext in
      if not (is_key_size (length cipher_key))
      then err (plain "aes-ctr-hmac: init cipher")
      else ok (ciphertext ++ take aes_ctr_hmac_size (P.hmac_sha256 mac_key ciphertext))

  unfoldable pub aes_ctr_hmac_decrypt : Bytes → Bytes → Bytes → Result Bytes
  aes_ctr_hmac_decrypt ciphertext cipher_key mac_key =
      let msg_len : ℕ = length ciphertext - aes_ctr_hmac_size in
      let msg : Bytes = take msg_len ciphertext in
      if ltb (length ciphertext) aes_ctr_hmac_size
      then err (plain "aes-ctr-hmac: invalid ciphertext")
      else if not (is_key_size (length cipher_key))
      then err (plain "aes-ctr-hmac: init cipher")
      else if not
          (bytes_beq (take aes_ctr_hmac_size (P.hmac_sha256 mac_key msg)) (drop msg_len ciphertext))
      then err (plain "aes-ctr-hmac: invalid ciphertext")
      else ok (ctr cipher_key (replicate 16 0) msg)

  -- With a key of a valid size, a MAC of at least 10 bytes, and a stream cipher that undoes itself, decrypting
  -- what was encrypted gives the text back.
  pub aes_ctr_hmac_decrypt-aes_ctr_hmac_encrypt :
      (text cipher_key mac_key : Bytes)
      → is_key_size (length cipher_key) ≡ true
      → ((key nonce stream : Bytes) → ctr key nonce (ctr key nonce stream) ≡ stream)
      → ((key input : Bytes) → 10 ≤ length (P.hmac_sha256 key input))
      → (aes_ctr_hmac_encrypt text cipher_key mac_key >>= λ c.
          aes_ctr_hmac_decrypt c cipher_key mac_key)
        ≡ ok text
  unfolding aes_ctr_hmac_encrypt aes_ctr_hmac_decrypt
  aes_ctr_hmac_decrypt-aes_ctr_hmac_encrypt text cipher_key mac_key size undoes long =
      let msg : Bytes = ctr cipher_key (replicate 16 0) text in
      let mac : Bytes = take 10 (P.hmac_sha256 mac_key msg) in
      let ten : length mac ≡ 10 =
        omega (arith, length-take 10 (P.hmac_sha256 mac_key msg), long mac_key msg) in
      let whole : length (msg ++ mac) ≡ length msg + 10 =
        length-append msg mac ∙ ap (λ n. length msg + n) ten in
      let cut : length msg + 10 - 10 ≡ length msg = omega arith in
      let front : take (length msg) (msg ++ mac) ≡ msg = take-append (length msg) msg mac refl in
      let back : drop (length msg) (msg ++ mac) ≡ mac = drop-append (length msg) msg mac refl in
      rw size (
        rw (whole, cut, front, back)
          (ground (arith, bytes_beq_iff mac mac, undoes cipher_key (replicate 16 0) text)))

  -- What is decrypted ends in the MAC of the rest: anything else is refused.
  pub aes_ctr_hmac_decrypt-authentic :
      (ciphertext cipher_key mac_key text : Bytes)
      → aes_ctr_hmac_decrypt ciphertext cipher_key mac_key ≡ ok text
      → (drop (length ciphertext - 10) ciphertext
          ≡ take 10 (P.hmac_sha256 mac_key (take (length ciphertext - 10) ciphertext)))
        × (text ≡ ctr cipher_key (replicate 16 0) (take (length ciphertext - 10) ciphertext))
  unfolding aes_ctr_hmac_decrypt
  aes_ctr_hmac_decrypt-authentic ciphertext cipher_key mac_key text e =
      let msg : Bytes = take (length ciphertext - 10) ciphertext in
      let check =
        bytes_beq_iff (take 10 (P.hmac_sha256 mac_key msg))
          (drop (length ciphertext - 10) ciphertext) in
      (ground (arith, check), ground (arith, check))

-- ===== src/Ratchet/Exchange.antt =====
-- A sender and a receiver of ratchet/message.go: what `Encrypt` writes is what `Decrypt` reads.
pub mod Chain
pub mod Exact
use signal.Common.{
  ℕ, ◌+◌, ◌≤◌, ◌<◌, ◌≡◌, refl, sym, ap, ◌∙◌, Option, none, some, Bytes, Result, ok, err, arith,
  ◌++◌, length, take, drop, length-take, length-drop, take-append, drop-append, length-append, [],
  ◌∷◌,
}
use signal.Crypto.{Primitives, hkdf, hkdf_max_length, aes_gcm_encrypt_with_nonce}
use signal.Crypto.Laws.{IsSound, hkdf_total, aes_gcm_decrypt-encrypt}
use signal.Ratchet.{Header, Message, MessageKeys}
use signal.Ratchet.Chain.{derive_message_keys, message_keys_info}
use signal.Ratchet.Send.{seal, message_ad}
use signal.Ratchet.Receive.{decrypt_with_message_key}

module _ {P : Primitives} (sound : IsSound P) where
  derived_sizes :
      (mk : Bytes)
      → (length (derive_message_keys P mk).enc_key ≡ 32)
        × (length (take 12 (derive_message_keys P mk).iv) ≡ 12)
  unfolding derive_message_keys
  derived_sizes mk =
      let (okm, e, l) = hkdf_total sound mk [] message_keys_info 80 (omega arith) in
      rw e (
        omega (arith, length-take 32 okm, l),
        omega (
          arith,
          length-take 12 (take 16 (drop 64 okm)),
          length-take 16 (drop 64 okm),
          length-drop 64 okm,
          l,
        ),
      )

  -- Sealing succeeds, keeps the header, and opens under the same key and associated data.
  pub seal-opens :
      (plaintext ad : Bytes) (h : Header) (mk : Bytes)
      → (msg : Message) × (seal P plaintext ad (h, mk) ≡ ok msg)
        × (msg.header ≡ h)
        × (decrypt_with_message_key P mk msg ad ≡ ok plaintext)
  unfolding seal decrypt_with_message_key aes_gcm_encrypt_with_nonce
  seal-opens plaintext ad h mk =
      let keys : MessageKeys = derive_message_keys P mk in
      let nonce : Bytes = take 12 keys.iv in
      let body : Bytes = P.gcm_seal keys.enc_key nonce plaintext (message_ad ad h) in
      let (long, short) = derived_sizes mk in
      (
        record { header = h; ciphertext = nonce ++ body },
        ground (arith, long, short),
        refl,
        ground (
          arith,
          take-append 12 nonce body short,
          drop-append 12 nonce body short,
          length-append nonce body,
          short,
          aes_gcm_decrypt-encrypt sound keys.enc_key nonce plaintext (message_ad ad h) long short,
        ),
      )

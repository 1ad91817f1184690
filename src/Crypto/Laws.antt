-- ===== src/Crypto/Laws.antt =====
-- What the development relies on of the primitives, and the laws of the wrappers that follow.
use signal.Common.{
  ℕ, ◌≤◌, ◌≡◌, refl, Option, none, some, Bytes, ok, length, take-append, drop-append, length-append,
  arith, Option-cases, inl, inr,
}
use signal.Common.Words.{zero_key, array32}
use signal.Crypto.{
  Primitives, KeyPair, hkdf_max_length, hkdf, dh, key_pair_from_private, generate_key_pair,
  aes_gcm_decrypt_combined, aes_gcm_decrypt,
}

-- Documented behaviour: HKDF-Expand gives every length up to its limit, and GCM opens what it sealed.
pub record IsSound (P : Primitives) : Type 0 where
  pub expands :
      (prk info : Bytes) (n : ℕ)
      → n ≤ hkdf_max_length
      → (okm : Bytes) × (P.hkdf_expand prk info n ≡ some okm) × (length okm ≡ n)
  pub opens :
      (key nonce text ad : Bytes)
      → length key ≡ 32
      → length nonce ≡ 12
      → P.gcm_open key nonce (P.gcm_seal key nonce text ad) ad ≡ some text

module _ {P : Primitives} (sound : IsSound P) where
  pub hkdf_total :
      (ikm salt info : Bytes) (n : ℕ)
      → n ≤ hkdf_max_length
      → (okm : Bytes) × (hkdf P ikm salt info n ≡ ok okm) × (length okm ≡ n)
  unfolding hkdf
  hkdf_total ikm salt info n h =
      let (okm, e, l) = sound.expands (P.hkdf_extract salt ikm) info n h in (okm, ground arith, l)

  pub aes_gcm_decrypt-encrypt :
      (key nonce text ad : Bytes)
      → length key ≡ 32
      → length nonce ≡ 12
      → aes_gcm_decrypt P key (P.gcm_seal key nonce text ad) nonce ad ≡ ok text
  unfolding aes_gcm_decrypt aes_gcm_decrypt_combined
  aes_gcm_decrypt-encrypt key nonce text ad hk hn =
      let body : Bytes = P.gcm_seal key nonce text ad in
      ground (
        arith,
        take-append 12 nonce body hn,
        drop-append 12 nonce body hn,
        length-append nonce body,
        sound.opens key nonce text ad hk hn,
      )

-- Documented behaviour: X25519 gives 32 bytes, and both sides of an exchange get the same.
pub record IsAgreement (P : Primitives) : Type 0 where
  pub sized : (scalar point out : Bytes) → P.x25519 scalar point ≡ some out → length out ≡ 32
  pub commutes :
      (a b : Bytes) (a_point b_point : Bytes)
      → P.x25519 a P.base_point ≡ some a_point
      → P.x25519 b P.base_point ≡ some b_point
      → P.x25519 a b_point ≡ P.x25519 b a_point

-- The public key is that of the private key.
abbrev pub IsKeyPair : Primitives → KeyPair → Type 0
IsKeyPair P kp = key_pair_from_private P kp.private_key ≡ ok kp

pub array32_self : (b : Bytes) → length b ≡ 32 → array32 b ≡ b
unfolding array32
array32_self b h = take-append 32 b zero_key h

module _ {P : Primitives} (agrees : IsAgreement P) where
  public-point :
      (kp : KeyPair) → IsKeyPair P kp → P.x25519 kp.private_key P.base_point ≡ some kp.public_key
  unfolding key_pair_from_private
  public-point kp h = elim (Option-cases (P.x25519 kp.private_key P.base_point)) [
    | inl missing ↦ absurd (ground (arith, missing))
    | inr (out, e) ↦
        ground (arith, e, array32_self out (agrees.sized kp.private_key P.base_point out e))
  ]

  -- Both sides of a Diffie-Hellman exchange get the same secret, or the same error.
  pub dh_comm :
      (a b : KeyPair)
      → IsKeyPair P a
      → IsKeyPair P b
      → dh P a.private_key b.public_key ≡ dh P b.private_key a.public_key
  unfolding dh
  dh_comm a b ha hb =
      rw
        (agrees.commutes a.private_key b.private_key a.public_key b.public_key (public-point a ha)
          (public-point b hb))
        refl

pub generate_key_pair-IsKeyPair :
    (P : Primitives) (entropy : Option Bytes) (kp : KeyPair)
    → generate_key_pair P entropy ≡ ok kp
    → IsKeyPair P kp
unfolding generate_key_pair
generate_key_pair-IsKeyPair P none kp e = cc
generate_key_pair-IsKeyPair P (some private) kp e = ground arith

-- ===== src/Crypto.antt =====
-- crypto/hkdf.go, crypto/hmac.go, crypto/curve25519.go and the AES-GCM part of crypto/aead.go.
-- The standard library and golang.org/x/crypto are the parameter `Primitives`.
pub mod Laws
pub mod Toy
pub mod Kyber
pub mod Padding
pub mod CtrHmac
pub mod Xeddsa
pub mod Runs
use signal.Common.{
  ℕ, ◌*◌, ◌+◌, String, Bool, not, Option, none, some, [], ◌∷◌, ◌++◌, Bytes, Result, ok, err,
  invalid_key, invalid_public_key, ciphertext_too_short, hkdf_length, plain, or_fail, ◌>>=◌, length,
  take, drop, ltb, eqb, bytes_beq, if◌then◌else◌,
}
use signal.Common.Words.{zero_key, array32}

-- What the package calls and does not implement.
pub record Primitives : Type 0 where
  -- crypto/hmac over crypto/sha256: key, data
  pub hmac_sha256 : Bytes → Bytes → Bytes
  -- hkdf.Extract: salt, input key material
  pub hkdf_extract : Bytes → Bytes → Bytes
  -- io.ReadFull from hkdf.Expand: pseudorandom key, info, length
  pub hkdf_expand : Bytes → Bytes → ℕ → Option Bytes
  -- curve25519.X25519: scalar, point; `none` is its error
  pub x25519 : Bytes → Bytes → Option Bytes
  pub base_point : Bytes
  -- gcm.Seal and gcm.Open of AES-256: key, nonce, text, associated data
  pub gcm_seal : Bytes → Bytes → Bytes → Bytes → Bytes
  pub gcm_open : Bytes → Bytes → Bytes → Bytes → Option Bytes

pub record KeyPair : Type 0 where
  pub public_key : Bytes
  pub private_key : Bytes

-- 255 * sha256.Size
abbrev pub hkdf_max_length : ℕ
hkdf_max_length = 255 * 32

module _ (P : Primitives) where
  open P use {hmac_sha256, hkdf_extract, hkdf_expand, x25519, base_point, gcm_seal, gcm_open}

  unfoldable pub hkdf : Bytes → Bytes → Bytes → ℕ → Result Bytes
  hkdf ikm salt info len =
      if ltb hkdf_max_length len
      then err hkdf_length
      else or_fail (hkdf_expand (hkdf_extract salt ikm) info len) (plain "hkdf expand")

  reject_zero : Bytes → Result Bytes
  reject_zero out = if bytes_beq out zero_key then err invalid_public_key else ok out

  unfoldable pub dh : Bytes → Bytes → Result Bytes
  unfolding reject_zero
  dh private public = do
    shared ← or_fail (x25519 private public) invalid_public_key
    reject_zero (array32 shared)

  unfoldable pub key_pair_from_private : Bytes → Result KeyPair
  key_pair_from_private private = do
    out ← or_fail (x25519 private base_point) (plain "derive public key")
    ok (record { public_key = array32 out; private_key = private })

  -- `entropy` is what io.ReadFull reads from the random source, `none` its error.
  unfoldable pub generate_key_pair : Option Bytes → Result KeyPair
  unfolding key_pair_from_private
  generate_key_pair entropy = do
    private ← or_fail entropy (plain "generate private key")
    key_pair_from_private private

  -- A key of 32 bytes makes a cipher, so aes.NewCipher and cipher.NewGCM do not fail behind the test.
  unfoldable pub aes_gcm_encrypt_with_nonce : Bytes → Bytes → Bytes → Bytes → Result Bytes
  aes_gcm_encrypt_with_nonce key plaintext nonce ad =
      if not (eqb (length key) 32)
      then err invalid_key
      else if not (eqb (length nonce) 12)
      then err ciphertext_too_short
      else ok (gcm_seal key nonce plaintext ad)

  -- (*AESGCM).Decrypt of nonce||ciphertext||tag
  unfoldable pub aes_gcm_decrypt_combined : Bytes → Bytes → Bytes → Result Bytes
  aes_gcm_decrypt_combined key combined ad =
      if not (eqb (length key) 32)
      then err invalid_key
      else if ltb (length combined) 12
      then err ciphertext_too_short
      else or_fail (gcm_open key (take 12 combined) (drop 12 combined) ad) (plain "gcm open")

  unfoldable pub aes_gcm_decrypt : Bytes → Bytes → Bytes → Bytes → Result Bytes
  aes_gcm_decrypt key ciphertext nonce ad =
      if not (eqb (length nonce) 12)
      then err ciphertext_too_short
      else aes_gcm_decrypt_combined key (nonce ++ ciphertext) ad

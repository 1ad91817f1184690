-- ===== src/X3dh/Derive.antt =====
-- x3dh/derive.go and x3dh/shared_secret.go.
use signal.Common.{
  none, some, Option, [], ◌∷◌, ◌++◌, Bytes, Result, ok, ◌>>=◌, take, drop, replicate,
}
use signal.Common.Words.{array32}
use signal.Crypto.{Primitives, hkdf}
use signal.Keys.{IdentityKey}
use signal.Keys.Wire.{serialize_wire_public_key}

-- []byte("X3DH")
abbrev pub legacy_info : Bytes
legacy_info = b'X' ∷ b'3' ∷ b'D' ∷ b'H' ∷ []

-- []byte("WhisperText_X25519_SHA-256_CRYSTALS-KYBER-1024")
abbrev pub pq_info : Bytes
pq_info =
    b'W' ∷ b'h' ∷ b'i' ∷ b's' ∷ b'p' ∷ b'e' ∷ b'r' ∷ b'T' ∷ b'e' ∷ b'x' ∷ b't' ∷ b'_' ∷ b'X' ∷ b'2'
    ∷ b'5' ∷ b'5' ∷ b'1' ∷ b'9' ∷ b'_' ∷ b'S' ∷ b'H' ∷ b'A' ∷ b'-' ∷ b'2' ∷ b'5' ∷ b'6' ∷ b'_'
    ∷ b'C' ∷ b'R' ∷ b'Y' ∷ b'S' ∷ b'T' ∷ b'A' ∷ b'L' ∷ b'S' ∷ b'-' ∷ b'K' ∷ b'Y' ∷ b'B' ∷ b'E'
    ∷ b'R' ∷ b'-' ∷ b'1' ∷ b'0' ∷ b'2' ∷ b'4' ∷ []

abbrev pub discontinuity : Bytes
discontinuity = replicate 32 255

-- What the key agreement gives: the root, and with Kyber a chain key and a key for the triple ratchet.
pub record Secrets : Type 0 where
  pub root : Bytes
  pub chain : Option Bytes
  pub pqr : Option Bytes

module _ (P : Primitives) where
  unfoldable pub derive_legacy_secret : Bytes → Result Secrets
  derive_legacy_secret ikm = do
    secret ← hkdf P ikm [] legacy_info 32
    ok (record { root = array32 secret; chain = none; pqr = none })

  unfoldable pub derive_pq_secret : Bytes → Result Secrets
  derive_pq_secret ikm = do
    secret ← hkdf P ikm [] pq_info 96
    ok (record {
      root = array32 (take 32 secret);
      chain = some (array32 (take 32 (drop 32 secret)));
      pqr = some (array32 (take 32 (drop 64 secret)));
    })

unfoldable pub associated_data : IdentityKey → IdentityKey → Bytes
associated_data initiator responder =
    serialize_wire_public_key initiator.public_key ++ serialize_wire_public_key responder.public_key

-- ===== src/Crypto/Xeddsa/Verified.antt =====
-- XEdDSAVerify accepts what XEdDSASign signed (crypto/xeddsa.go).
use signal.Common.{
  ℕ, ◌*◌, ◌/◌, ◌%◌, ◌+◌, ◌<◌, ◌≡◌, refl, ◌∙◌, eqb, ◌⊎◌, inl, inr, false, ap, true, some, List, ◌++◌,
  Bytes, ok, length, replicate, arith, bytes_beq_iff, length-append, take-append, drop-append,
}
use signal.Crypto.{Primitives, KeyPair, key_pair_from_private}
use signal.Crypto.Xeddsa.{
  Edwards, byte_at, put_at, clamp_curve25519_scalar, written, with_sign_bit, signature_of,
  scalar_from_bytes_mod_order, scalar_from_hash, montgomery_to_edwards, hash_to_scalar, point_of,
  xeddsa_sign, xeddsa_verify, checked_scalars, verify_with, xeddsa_hash_prefix,
}
use signal.Crypto.Xeddsa.Bytes32.{
  byte_at-put_at, put_at-put_at, put_at_same, length-put_at, put_at-append, byte_at-append,
}
use signal.Crypto.Xeddsa.Laws.{IsCoding, IsGroup, IsBirational, check_equation}

sign_bit_cases :
    (b : ℕ)
    → b < 256
    → ((eqb (b / 128 % 2 % 2) 1 ≡ true) × (b % 128 % 128 + 128 ≡ b))
      ⊎ ((eqb (b / 128 % 2 % 2) 1 ≡ false) × (b % 128 % 128 ≡ b))
sign_bit_cases b small = ground arith

-- The sign bit of an encoded point, put back.
with_sign_bit-cleared :
    (point : Bytes)
    → length point ≡ 32
    → byte_at 31 point < 256
    → with_sign_bit (byte_at 31 point / 128 % 2) (put_at 31 (byte_at 31 point % 128) point) ≡ point
unfolding with_sign_bit
with_sign_bit-cleared point sized small =
    let b : ℕ = byte_at 31 point in
    let read : byte_at 31 (put_at 31 (b % 128) point) ≡ b % 128 =
      byte_at-put_at 31 (b % 128) point (omega (arith, sized)) in
    rw
      (
        read,
        put_at-put_at 31 (b % 128) (b % 128 % 128 + 128) point,
        put_at-put_at 31 (b % 128) (b % 128 % 128) point,
      )
      (elim (sign_bit_cases b small) [
        | inl (set, e) ↦ rw (set, e) (put_at_same 31 point)
        | inr (unset, e) ↦ rw (unset, e) (put_at_same 31 point)
      ])

-- The last 32 bytes of a signature: a scalar, with the sign bit of the signer's point in its last byte.
unfoldable signed_scalar : Bytes → ℕ → Bytes
signed_scalar s b = put_at 31 (byte_at 31 s % 128 + b / 128 % 2 * 128) s

signature_of-append :
    (r s : Bytes) (b : ℕ)
    → length r ≡ 32
    → signature_of r s (b / 128 % 2 * 128) ≡ r ++ signed_scalar s b
unfolding signature_of signed_scalar
signature_of-append r s b sized =
    rw (byte_at-append 32 63 31 r s sized refl)
      (put_at-append 32 63 31 (byte_at 31 s % 128 + b / 128 % 2 * 128) r s sized refl)

module _ (s : Bytes) (b : ℕ) (sized : length s ≡ 32) where
  length-signed_scalar : length (signed_scalar s b) ≡ 32
  unfolding signed_scalar
  length-signed_scalar = length-put_at 31 _ s ∙ sized

  last_byte : byte_at 31 (signed_scalar s b) ≡ byte_at 31 s % 128 + b / 128 % 2 * 128
  unfolding signed_scalar
  last_byte = byte_at-put_at 31 _ s (omega (arith, sized))

  put_at-signed_scalar : (v : ℕ) → put_at 31 v (signed_scalar s b) ≡ put_at 31 v s
  unfolding signed_scalar
  put_at-signed_scalar v = put_at-put_at 31 _ v s

  -- Without the sign bit it is the scalar.
  scalar_read :
      byte_at 31 s < 32 → put_at 31 (byte_at 31 (signed_scalar s b) % 128) (signed_scalar s b) ≡ s
  scalar_read small =
      let masked : (byte_at 31 s % 128 + b / 128 % 2 * 128) % 128 ≡ byte_at 31 s =
        omega (arith, small) in
      rw (last_byte, masked, put_at-signed_scalar (byte_at 31 s)) (put_at_same 31 s)

  -- The sign bit is the highest bit of the signature.
  sign_bit_read :
      (r : Bytes) → length r ≡ 32 → byte_at 63 (r ++ signed_scalar s b) / 128 % 2 ≡ b / 128 % 2
  sign_bit_read r r_sized =
      rw (byte_at-append 32 63 31 r (signed_scalar s b) r_sized refl, last_byte) (omega arith)

module _ (P : Primitives) (E : Edwards) (coding : IsCoding E) (group : IsGroup E) where
  scalar_of_bytes :
      (raw : Bytes) → length raw ≡ 32 → (a : E.Scalar) × (scalar_from_bytes_mod_order E raw ≡ ok a)
  unfolding scalar_from_bytes_mod_order
  scalar_of_bytes raw sized =
      let (a, e) =
        coding.uniform (raw ++ replicate 32 0)
          (length-append raw (replicate 32 0) ∙ omega (arith, sized)) in
      (a, rw e refl)

  scalar_of_hash : (text : Bytes) → (a : E.Scalar) × (scalar_from_hash E (E.sha512 text) ≡ ok a)
  unfolding scalar_from_hash
  scalar_of_hash text =
      let (a, e) = coding.uniform (E.sha512 text) (coding.hashed text) in
      (a, rw (coding.hashed text, e) refl)

  length-clamp : (raw : Bytes) → length (clamp_curve25519_scalar raw) ≡ length raw
  unfolding clamp_curve25519_scalar
  length-clamp raw = length-put_at 31 _ (put_at 0 _ raw) ∙ length-put_at 0 _ raw

  -- The verifier takes the point from the X25519 key and the sign bit that the signer took.
  montgomery_to_edwards-signer :
      IsBirational P E
      → (private : Bytes) (kp : KeyPair) (a : E.Scalar) → key_pair_from_private P private ≡ ok kp
      → scalar_from_bytes_mod_order E (clamp_curve25519_scalar private) ≡ ok a
      → montgomery_to_edwards E kp.public_key
          (byte_at 31 (E.point_bytes (E.scalar_base_mult a)) / 128 % 2)
        ≡ some (E.scalar_base_mult a)
  unfolding montgomery_to_edwards point_of
  montgomery_to_edwards-signer birational private kp a pair scalar =
      let point : E.Point = E.scalar_base_mult a in
      let (u, read, fine, y) = birational.montgomery private kp a pair scalar in
      rw
        (
          read,
          fine,
          y,
          with_sign_bit-cleared (E.point_bytes point) (coding.point_sized point)
              (coding.point_byte point),
          coding.point_reads point,
        )
        refl

  challenge :
      (r public : E.Point) (pieces : List Bytes)
      → (h : E.Scalar) × (hash_to_scalar E r public pieces ≡ ok h)
  unfolding hash_to_scalar
  challenge r public pieces = scalar_of_hash _

  hash_to_scalar-written :
      (r public : E.Point) (signed verified : List Bytes)
      → written signed ≡ written verified
      → hash_to_scalar E r public verified ≡ hash_to_scalar E r public signed
  unfolding hash_to_scalar
  hash_to_scalar-written r public signed verified same = rw same refl

  -- The verifier, with the signer's point, on the signature of a commitment and its response.
  verify_with-signed :
      (public r : E.Point) (s h : E.Scalar) (pieces : List Bytes)
      → hash_to_scalar E r public pieces ≡ ok h
      → E.double_scalar_base_mult h (E.negate public) s ≡ r
      → verify_with E
          (some public)
          (E.point_bytes r)
          (signed_scalar (E.scalar_bytes s) (byte_at 31 (E.point_bytes public)))
          pieces
        ≡ true
  unfolding verify_with hash_to_scalar checked_scalars scalar_from_bytes_mod_order
  verify_with-signed public r s h pieces hashed balanced =
      let top : byte_at 31 (E.scalar_bytes s) / 32 % 8 ≡ 0 = omega (arith, coding.scalar_small s) in
      rw
        (
          scalar_read (E.scalar_bytes s) (byte_at 31 (E.point_bytes public)) (coding.scalar_sized s)
              (coding.scalar_small s),
          top,
          coding.scalar_reads s,
          hashed,
          balanced,
        )
        ((bytes_beq_iff (E.point_bytes r) (E.point_bytes r)).1 refl)

  -- A signature that XEdDSASign makes with a private key of 32 bytes, XEdDSAVerify accepts under the X25519 public key of
  -- that private key, for any way to cut the message into pieces. With 64 random bytes XEdDSASign makes one, of 64 bytes.
  pub xeddsa_verify-xeddsa_sign :
      IsBirational P E
      → (private random : Bytes) (signed verified : List Bytes) (kp : KeyPair) → length private ≡ 32
      → key_pair_from_private P private ≡ ok kp
      → written signed ≡ written verified
      → (signature : Bytes) × (xeddsa_sign E (some random) private signed ≡ ok signature)
        × (length signature ≡ 64)
        × (xeddsa_verify E kp.public_key signature verified ≡ true)
  unfolding xeddsa_sign xeddsa_verify
  xeddsa_verify-xeddsa_sign birational private random signed verified kp sized pair same =
      let clamped = clamp_curve25519_scalar private in
      let (a, made) = scalar_of_bytes clamped (length-clamp private ∙ sized) in
      let public = E.scalar_base_mult a in
      let (r, commitment) =
        scalar_of_hash (xeddsa_hash_prefix ++ (clamped ++ (written signed ++ random))) in
      let point = E.scalar_base_mult r in
      let (h, hashed) = challenge point public signed in
      let s = E.scalar_bytes (E.multiply_add h a r) in
      let b = byte_at 31 (E.point_bytes public) in
      let last = signed_scalar s b in
      let rs : length (E.point_bytes point) ≡ 32 = coding.point_sized point in
      let long : length (E.point_bytes point ++ last) ≡ 64 =
        length-append (E.point_bytes point) last
        ∙ omega
            (arith, rs, length-signed_scalar s b (coding.scalar_sized (E.multiply_add h a r))) in
      (
        E.point_bytes point ++ last,
        rw (made, commitment, hashed) (ap ok (signature_of-append (E.point_bytes point) s b rs)),
        long,
        rw
            (
              long,
              sign_bit_read s b (coding.scalar_sized (E.multiply_add h a r)) (E.point_bytes point)
                  rs,
              montgomery_to_edwards-signer birational private kp a pair made,
              take-append 32 (E.point_bytes point) last rs,
              drop-append 32 (E.point_bytes point) last rs,
            )
            (verify_with-signed public point (E.multiply_add h a r) h verified
              (hash_to_scalar-written point public signed verified same ∙ hashed)
              (check_equation group h a r)),
      )

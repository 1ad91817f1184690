-- ===== src/Crypto/Xeddsa.antt =====
-- crypto/xeddsa.go and the clamping of crypto/random.go. The packages filippo.io/edwards25519 and crypto/sha512 are the
-- parameter `Edwards`.
pub mod Bytes32
pub mod Laws
pub mod Verified
pub mod Runs
use signal.Common.{
  ℕ, zero, suc, ◌+◌, ◌*◌, ◌/◌, ◌%◌, Bool, true, false, not, Option, none, some, List, [], ◌∷◌, ◌++◌,
  Bytes, bytes_beq, Result, ok, err, plain, or_fail, ◌>>=◌, length, take, drop, replicate, eqb,
  if◌then◌else◌,
}

-- What the file calls and does not implement. `none` is an error of the call.
pub record Edwards : Type 1 where
  pub Point : Type 0
  pub Scalar : Type 0
  pub Field : Type 0
  pub sha512 : Bytes → Bytes
  -- Scalar: SetUniformBytes, Bytes, MultiplyAdd x y z = x * y + z
  pub set_uniform_bytes : Bytes → Option Scalar
  pub scalar_bytes : Scalar → Bytes
  pub multiply_add : Scalar → Scalar → Scalar → Scalar
  -- Point: SetBytes, Bytes, Negate, ScalarBaseMult, VarTimeDoubleScalarBaseMult a A b = a * A + b * B
  pub point_set_bytes : Bytes → Option Point
  pub point_bytes : Point → Bytes
  pub negate : Point → Point
  pub scalar_base_mult : Scalar → Point
  pub double_scalar_base_mult : Scalar → Point → Scalar → Point
  -- field.Element: SetBytes, Bytes, the zero value and One, Add, Subtract, Multiply, Invert, Equal
  pub field_set_bytes : Bytes → Option Field
  pub field_bytes : Field → Bytes
  pub field_zero : Field
  pub field_one : Field
  pub field_add : Field → Field → Field
  pub field_subtract : Field → Field → Field
  pub field_multiply : Field → Field → Field
  pub field_invert : Field → Field
  pub field_equal : Field → Field → Bool

-- bs[i]; the callers' arrays are long enough
unfoldable pub byte_at : ℕ → Bytes → ℕ
byte_at i [] = 0
byte_at zero (b ∷ bs) = b
byte_at (suc i) (b ∷ bs) = byte_at i bs

-- bs[i] = v
unfoldable pub put_at : ℕ → ℕ → Bytes → Bytes
put_at i v [] = []
put_at zero v (b ∷ bs) = v ∷ bs
put_at (suc i) v (b ∷ bs) = b ∷ put_at i v bs

unfoldable pub xeddsa_hash_prefix : Bytes
xeddsa_hash_prefix = 254 ∷ replicate 31 255

-- s[0] &= 248, s[31] &= 127, s[31] |= 64
unfoldable pub clamp_curve25519_scalar : Bytes → Bytes
unfolding byte_at put_at
clamp_curve25519_scalar s =
    put_at 31 (byte_at 31 s % 64 + 64) (put_at 0 (byte_at 0 s % 256 / 8 * 8) s)

-- The pieces of a message as they are written to a hash, one after the other.
unfoldable pub written : List Bytes → Bytes
written [] = []
written (piece ∷ pieces) = piece ++ written pieces

-- The sign bit in the last byte of an encoded y: yBytes[31] &^= 0x80, and |= 0x80 if the bit is set.
unfoldable pub with_sign_bit : ℕ → Bytes → Bytes
unfolding byte_at put_at
with_sign_bit sign bytes =
    let y : ℕ = byte_at 31 bytes % 128 in
    if eqb (sign % 2) 1 then put_at 31 (y + 128) bytes else put_at 31 y bytes

-- copy(sig[:32], r), copy(sig[32:], s), sig[63] &= 0x7f, sig[63] |= signBit
unfoldable pub signature_of : Bytes → Bytes → ℕ → Bytes
unfolding byte_at put_at
signature_of r s sign = let sig : Bytes = r ++ s in put_at 63 (byte_at 63 sig % 128 + sign) sig

module _ (E : Edwards) where
  unfoldable pub scalar_from_bytes_mod_order : Bytes → Result E.Scalar
  scalar_from_bytes_mod_order input =
      or_fail (E.set_uniform_bytes (input ++ replicate 32 0)) (plain "set uniform bytes")

  unfoldable pub scalar_from_hash : Bytes → Result E.Scalar
  scalar_from_hash sum =
      if not (eqb (length sum) 64)
      then err (plain "xeddsa: invalid hash length")
      else or_fail (E.set_uniform_bytes sum) (plain "set uniform bytes")

  unfoldable pub edwards_y : E.Field → E.Field
  edwards_y u =
      E.field_multiply (E.field_subtract u E.field_one) (E.field_invert (E.field_add u E.field_one))

  -- The point with y = (u - 1) / (u + 1) and the sign bit.
  point_of : Option E.Field → ℕ → Option E.Point
  unfolding edwards_y with_sign_bit
  point_of none sign = none
  point_of (some u) sign =
      if E.field_equal (E.field_add u E.field_one) E.field_zero
      then none
      else E.point_set_bytes (with_sign_bit sign (E.field_bytes (edwards_y u)))

  unfoldable pub montgomery_to_edwards : Bytes → ℕ → Option E.Point
  unfolding point_of
  montgomery_to_edwards u sign = point_of (E.field_set_bytes u) sign

  unfoldable pub hash_to_scalar : E.Point → E.Point → List Bytes → Result E.Scalar
  unfolding scalar_from_hash written
  hash_to_scalar r public pieces =
      scalar_from_hash (E.sha512 (E.point_bytes r ++ (E.point_bytes public ++ written pieces)))

  unfoldable pub xeddsa_signing_public_key : Bytes → Result Bytes
  unfolding scalar_from_bytes_mod_order clamp_curve25519_scalar
  xeddsa_signing_public_key private = do
    a ← scalar_from_bytes_mod_order (clamp_curve25519_scalar private)
    ok (E.point_bytes (E.scalar_base_mult a))

  -- `entropy` is what io.ReadFull reads from the random source, `none` its error.
  unfoldable pub xeddsa_sign : Option Bytes → Bytes → List Bytes → Result Bytes
  unfolding scalar_from_bytes_mod_order scalar_from_hash hash_to_scalar clamp_curve25519_scalar
      xeddsa_hash_prefix written signature_of byte_at
  xeddsa_sign entropy private pieces =
      let key_data : Bytes = clamp_curve25519_scalar private in
      do
        random ← or_fail entropy (plain "xeddsa: random")
        a ← scalar_from_bytes_mod_order key_data
        let public = E.scalar_base_mult a
        r ←
            scalar_from_hash
              (E.sha512 (xeddsa_hash_prefix ++ (key_data ++ (written pieces ++ random))))
        h ← hash_to_scalar (E.scalar_base_mult r) public pieces
        ok (
            signature_of (E.point_bytes (E.scalar_base_mult r))
              (E.scalar_bytes (E.multiply_add h a r))
              (byte_at 31 (E.point_bytes public) / 128 % 2 * 128))

  checked_scalars : E.Point → Bytes → Result E.Scalar → Result E.Scalar → Bool
  checked_scalars public r (ok s) (ok h) =
      bytes_beq (E.point_bytes (E.double_scalar_base_mult h (E.negate public) s)) r
  checked_scalars public r _ _ = false

  -- sBytes[31] &= 0x7f; the three highest bits that are left must be 0
  verify_with : Option E.Point → Bytes → Bytes → List Bytes → Bool
  unfolding scalar_from_bytes_mod_order scalar_from_hash written checked_scalars byte_at put_at
  verify_with none r s pieces = false
  verify_with (some public) r s pieces =
      let s_bytes : Bytes = put_at 31 (byte_at 31 s % 128) s in
      if not (eqb (byte_at 31 s_bytes / 32 % 8) 0)
      then false
      else checked_scalars public r (scalar_from_bytes_mod_order s_bytes)
          (scalar_from_hash (E.sha512 (r ++ (E.point_bytes public ++ written pieces))))

  unfoldable pub xeddsa_verify : Bytes → Bytes → List Bytes → Bool
  unfolding montgomery_to_edwards verify_with byte_at
  xeddsa_verify public signature pieces =
      if not (eqb (length signature) 64)
      then false
      else verify_with (montgomery_to_edwards public (byte_at 63 signature / 128 % 2))
          (take 32 signature) (drop 32 signature) pieces

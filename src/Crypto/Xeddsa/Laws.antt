-- ===== src/Crypto/Xeddsa/Laws.antt =====
-- What is relied on of edwards25519 and SHA-512: documented behaviour of the packages, the group laws of the curve, and
-- the map between the Montgomery and the Edwards form (RFC 7748, section 4.1).
use signal.Common.{◌%◌, ◌<◌, ◌≡◌, sym, ◌∙◌, ap, false, some, ◌++◌, Bytes, ok, length, replicate}
use signal.Crypto.{Primitives, KeyPair, key_pair_from_private}
use signal.Crypto.Xeddsa.{
  Edwards, byte_at, put_at, edwards_y, clamp_curve25519_scalar, scalar_from_bytes_mod_order,
}

-- The documented formats: 64 bytes make a scalar, a scalar is written below 2^253 and reads back, a point is written
-- in 32 bytes and reads back.
pub record IsCoding (E : Edwards) : Type 0 where
  pub hashed : (text : Bytes) → length (E.sha512 text) ≡ 64
  pub uniform :
      (raw : Bytes) → length raw ≡ 64 → (s : E.Scalar) × (E.set_uniform_bytes raw ≡ some s)
  pub scalar_sized : (s : E.Scalar) → length (E.scalar_bytes s) ≡ 32
  pub scalar_small : (s : E.Scalar) → byte_at 31 (E.scalar_bytes s) < 32
  pub scalar_reads :
      (s : E.Scalar) → E.set_uniform_bytes (E.scalar_bytes s ++ replicate 32 0) ≡ some s
  pub point_sized : (p : E.Point) → length (E.point_bytes p) ≡ 32
  pub point_byte : (p : E.Point) → byte_at 31 (E.point_bytes p) < 256
  pub point_reads : (p : E.Point) → E.point_set_bytes (E.point_bytes p) ≡ some p

-- The points are a group on which the scalars act, and the four operations are those of the group.
pub record IsGroup (E : Edwards) : Type 0 where
  pub base : E.Point
  pub identity : E.Point
  pub plus : E.Point → E.Point → E.Point
  pub times : E.Scalar → E.Point → E.Point
  pub plus_assoc : (p q r : E.Point) → plus (plus p q) r ≡ plus p (plus q r)
  pub plus_identity : (p : E.Point) → plus identity p ≡ p
  pub plus_negate : (p : E.Point) → plus (E.negate p) p ≡ identity
  pub times_negate : (a : E.Scalar) (p : E.Point) → times a (E.negate p) ≡ E.negate (times a p)
  pub times-multiply_add :
      (x y z : E.Scalar) (p : E.Point)
      → times (E.multiply_add x y z) p ≡ plus (times x (times y p)) (times z p)
  pub base_mult : (a : E.Scalar) → E.scalar_base_mult a ≡ times a base
  pub double_mult :
      (a b : E.Scalar) (p : E.Point)
      → E.double_scalar_base_mult a p b ≡ plus (times a p) (times b base)

-- The X25519 public key of a private key is u of the point that the clamped key gives, u is not -1, and y of that point,
-- without its sign bit, is (u - 1) / (u + 1).
pub record IsBirational (P : Primitives) (E : Edwards) : Type 0 where
  pub montgomery :
      (private : Bytes) (kp : KeyPair) (a : E.Scalar)
      → key_pair_from_private P private ≡ ok kp
      → scalar_from_bytes_mod_order E (clamp_curve25519_scalar private) ≡ ok a
      → (u : E.Field) × (E.field_set_bytes kp.public_key ≡ some u)
        × (E.field_equal (E.field_add u E.field_one) E.field_zero ≡ false)
        × (E.field_bytes (edwards_y E u)
            ≡ put_at 31
                (byte_at 31 (E.point_bytes (E.scalar_base_mult a)) % 128)
                (E.point_bytes (E.scalar_base_mult a)))

module _ {E : Edwards} (group : IsGroup E) where
  open group use {base, plus, times}

  -- h * (-a B) + (h * a + r) * B is r * B.
  pub check_equation :
      (h a r : E.Scalar)
      → E.double_scalar_base_mult h (E.negate (E.scalar_base_mult a)) (E.multiply_add h a r)
        ≡ E.scalar_base_mult r
  check_equation h a r =
      let p : E.Point = times h (times a base) in
      let q : E.Point = times r base in
      group.double_mult h (E.multiply_add h a r) (E.negate (E.scalar_base_mult a))
      ∙ ap (λ x. plus (times h (E.negate x)) (times (E.multiply_add h a r) base))
          (group.base_mult a)
      ∙ ap (λ x. plus x (times (E.multiply_add h a r) base)) (group.times_negate h (times a base))
      ∙ ap (λ x. plus (E.negate p) x) (group.times-multiply_add h a r base)
      ∙ sym (group.plus_assoc (E.negate p) p q)
      ∙ ap (λ x. plus x q) (group.plus_negate p)
      ∙ group.plus_identity q
      ∙ sym (group.base_mult r)

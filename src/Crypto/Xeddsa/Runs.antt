-- ===== src/Crypto/Xeddsa/Runs.antt =====
-- Signing and verifying on a small curve: the group of two elements, which is not that of the code but has the same laws.
use Prim.Native.Nat.{◌*◌}
use signal.Common.{
  ℕ, ◌+◌, ◌-◌, ◌%◌, ◌≡◌, refl, sym, ap, ◌∙◌, Bool, true, false, not, ◌&&◌, some, [], ◌∷◌, ◌++◌,
  Bytes, ok, length, replicate, eqb, arith,
}
use signal.Common.Words.{array32}
use signal.Crypto.{Primitives, KeyPair, key_pair_from_private}
use signal.Crypto.Toy.{toy, fill}
use signal.Crypto.Xeddsa.{
  Edwards, byte_at, put_at, scalar_from_bytes_mod_order, edwards_y, written, xeddsa_sign,
  xeddsa_verify, clamp_curve25519_scalar,
}
use signal.Crypto.Xeddsa.Laws.{IsCoding, IsGroup, IsBirational}
use signal.Crypto.Xeddsa.Verified.{xeddsa_verify-xeddsa_sign}

abbrev pub xor : Bool → Bool → Bool
xor true b = not b
xor false b = b

abbrev pub bit : Bool → ℕ
bit true = 1
bit false = 0

abbrev pub parity : Bytes → Bool
parity [] = false
parity (b ∷ bs) = xor (eqb (b % 2) 1) (parity bs)

abbrev pub first_of : Bytes → ℕ
first_of [] = 0
first_of (b ∷ bs) = b

abbrev pub two_points : Edwards
two_points = record {
  Point = Bool;
  Scalar = Bool;
  Field = ℕ;
  sha512 = λ text. bit (parity text) ∷ replicate 63 0;
  set_uniform_bytes = λ raw. some (parity raw);
  scalar_bytes = λ s. bit s ∷ replicate 31 0;
  multiply_add = λ x y z. xor (x && y) z;
  point_set_bytes = λ raw. some (eqb (first_of raw) 1);
  point_bytes = λ p. bit p ∷ replicate 31 0;
  negate = λ p. p;
  scalar_base_mult = λ a. a;
  double_scalar_base_mult = λ a p b. xor (a && p) b;
  field_set_bytes = λ raw. some (first_of raw);
  field_bytes = λ n. n ∷ replicate 31 0;
  field_zero = 0;
  field_one = 1;
  field_add = λ n m. n + m;
  field_subtract = λ n m. n - m;
  field_multiply = λ n m. n * m;
  field_invert = λ n. 1;
  field_equal = eqb;
}

abbrev pub on_two_points : Primitives
on_two_points = record toy {
  x25519 = λ private point.
      some
        ((bit (parity (clamp_curve25519_scalar private ++ replicate 32 0)) + 1) ∷ replicate 31 0);
}

scalar_back : (s : Bool) → parity ((bit s ∷ replicate 31 0) ++ replicate 32 0) ≡ s
scalar_back true = refl
scalar_back false = refl

point_back : (p : Bool) → eqb (bit p) 1 ≡ p
point_back true = refl
point_back false = refl

pub two_points-IsCoding : IsCoding two_points
unfolding byte_at
two_points-IsCoding = record {
  hashed = λ text. refl;
  uniform = λ raw sized. (parity raw, refl);
  scalar_sized = λ s. refl;
  scalar_small = λ s. omega arith;
  scalar_reads = λ s. rw (scalar_back s) refl;
  point_sized = λ p. refl;
  point_byte = λ p. omega arith;
  point_reads = λ p. rw (point_back p) refl;
}

xor_assoc : (p q r : Bool) → xor (xor p q) r ≡ xor p (xor q r)
xor_assoc true true true = refl
xor_assoc true true false = refl
xor_assoc true false r = refl
xor_assoc false q r = refl

xor_self : (p : Bool) → xor p p ≡ false
xor_self true = refl
xor_self false = refl

and-xor : (x y z p : Bool) → xor (x && y) z && p ≡ xor (x && (y && p)) (z && p)
and-xor x y z p = ground arith

pub two_points-IsGroup : IsGroup two_points
two_points-IsGroup = record {
  base = true;
  identity = false;
  plus = xor;
  times = ◌&&◌;
  plus_assoc = xor_assoc;
  plus_identity = λ p. refl;
  plus_negate = xor_self;
  times_negate = λ a p. refl;
  times-multiply_add = and-xor;
  base_mult = λ a. ground arith;
  double_mult = λ a b p. ground arith;
}

set_bit : (q : Bool) → eqb (bit q + 1 + 1) 0 ≡ false
set_bit true = refl
set_bit false = refl

y_of_bit : (q : Bool) → (bit q + 1 - 1) * 1 ∷ replicate 31 0 ≡ put_at 31 0 (bit q ∷ replicate 31 0)
unfolding put_at
y_of_bit true = refl
y_of_bit false = refl

pub two_points-IsBirational : IsBirational on_two_points two_points
unfolding key_pair_from_private scalar_from_bytes_mod_order edwards_y byte_at array32
two_points-IsBirational = record {
  montgomery = λ private kp a pair scalar.
      let q : Bool = parity (clamp_curve25519_scalar private ++ replicate 32 0) in
      let same : q ≡ a = cc in
      let made : KeyPair = record {
        public_key = (bit q + 1) ∷ replicate 31 0;
        private_key = private;
      } in
      let whole : made ≡ kp = cc in
      let public : kp.public_key ≡ (bit q + 1) ∷ replicate 31 0 =
        sym (ap (λ k. k.public_key) whole) in
      (
        bit q + 1,
        rw public refl,
        set_bit q,
        y_of_bit q ∙ ap (λ k. put_at 31 0 (bit k ∷ replicate 31 0)) same,
      );
}

xeddsa_verify-xeddsa_sign_example :
    (signature : Bytes) × (xeddsa_sign two_points
        (some (fill 3 ++ fill 4))
        (fill 5)
        ((1 ∷ 2 ∷ []) ∷ (3 ∷ []) ∷ [])
      ≡ ok signature)
    × (length signature ≡ 64)
    × (xeddsa_verify two_points (2 ∷ replicate 31 0) signature ((1 ∷ 2 ∷ 3 ∷ []) ∷ []) ≡ true)
unfolding written key_pair_from_private clamp_curve25519_scalar array32
xeddsa_verify-xeddsa_sign_example =
    xeddsa_verify-xeddsa_sign on_two_points two_points two_points-IsCoding two_points-IsGroup
      two_points-IsBirational (fill 5) (fill 3 ++ fill 4) ((1 ∷ 2 ∷ []) ∷ (3 ∷ []) ∷ [])
      ((1 ∷ 2 ∷ 3 ∷ []) ∷ []) (record { public_key = 2 ∷ replicate 31 0; private_key = fill 5 })
      refl refl refl

-- ===== src/Spqr/Message/Varint.antt =====
-- A varint that is written reads back (spqr/message.go).
use native.Mathlib.Numerals.{unary_clauses}
use signal.Common.{
  subst, ◌⊎◌, inl, inr, ◌∷◌, ℕ, zero, suc, ◌+◌, ◌*◌, ◌/◌, ◌%◌, ◌^◌, ◌<◌, ◌≤◌, ◌≡◌, refl, ap, sym,
  ◌∙◌, ok, ◌++◌, Bytes, arith, ltb, true, false,
}
use signal.Common.Words.{IsU64}
use signal.Spqr.Message.{varint_rounds, varint_from, encode_varint, consume_varint, or_shifted}

shift_seven : (s : ℕ) → 2 ^ (s + 7) ≡ 128 * 2 ^ s
shift_seven s = simp unary_clauses (omega arith)

ltb-true : {n m : ℕ} → n < m → ltb n m ≡ true
ltb-true h = ground arith

below_or_not : (n m : ℕ) → (n < m) ⊎ (ltb n m ≡ false)
below_or_not n m = ground arith

parts : (a b p : ℕ) → (a + b * 128) * p ≡ a * p + b * (128 * p)
parts a b p = omega arith

-- A value, shifted, is its last seven bits and the rest.
split_value : (v s : ℕ) → v * 2 ^ s ≡ v % 128 * 2 ^ s + v / 128 * 2 ^ (s + 7)
split_value v s =
    let whole : v ≡ v % 128 + v / 128 * 128 = omega arith in
    ap (λ n. n * 2 ^ s) whole
    ∙ parts (v % 128) (v / 128) (2 ^ s)
    ∙ ap (λ p. v % 128 * 2 ^ s + v / 128 * p) (sym (shift_seven s))

or_shifted-small : (x b s : ℕ) → x + b * 2 ^ s < 2 ^ 64 → or_shifted x b s ≡ x + b * 2 ^ s
unfolding or_shifted
or_shifted-small x b s small = omega (arith, small)

last_round : (v x s : ℕ) → s ≡ 63 → x + v * 2 ^ s < 2 ^ 64 → v < 128
last_round v x s e small =
    let at_63 : x + v * 2 ^ 63 < 2 ^ 64 = subst (λ k. x + v * 2 ^ k < 2 ^ 64) e small in
    omega (arith, at_63)

last_byte :
    (v x s : ℕ) (rest : Bytes)
    → v < 128
    → s ≤ 63
    → x + v * 2 ^ s < 2 ^ 64
    → varint_from x s (v % 128 ∷ rest) ≡ ok (x + v * 2 ^ s, rest)
unfolding varint_from
last_byte v x s rest low early small =
    let whole : v % 128 ≡ v = omega arith in rw (whole, or_shifted-small x v s small) (ground arith)

next_byte :
    (v x s : ℕ) (input : Bytes)
    → x + v * 2 ^ s < 2 ^ 64
    → varint_from x s ((v % 128 + 128) ∷ input) ≡ varint_from (x + v % 128 * 2 ^ s) (s + 7) input
unfolding varint_from
next_byte v x s input small =
    let low : (v % 128 + 128) % 128 ≡ v % 128 = omega arith in
    rw (low, or_shifted-small x (v % 128) s (omega (arith, small, split_value v s))) (ground arith)

varint_from-varint_rounds :
    (n v x s : ℕ) (rest : Bytes)
    → s + 7 * suc n ≡ 70
    → x + v * 2 ^ s < 2 ^ 64
    → varint_from x s (varint_rounds (suc n) v ++ rest) ≡ ok (x + v * 2 ^ s, rest)
unfolding varint_rounds
varint_from-varint_rounds zero v x s rest fuel small =
    rw (ltb-true (last_round v x s (omega (arith, fuel)) small)) (
      last_byte v x s rest (last_round v x s (omega (arith, fuel)) small) (omega (arith, fuel))
        small)
varint_from-varint_rounds (suc n) v x s rest fuel small = elim (below_or_not v 128) [
  | inl low ↦ rw (ltb-true low) (last_byte v x s rest low (omega (arith, fuel)) small)
  | inr high ↦ rw high (
      next_byte v x s (varint_rounds (suc n) (v / 128) ++ rest) small
      ∙ varint_from-varint_rounds n (v / 128) (x + v % 128 * 2 ^ s) (s + 7) rest
          (omega (arith, fuel)) (omega (arith, small, split_value v s))
      ∙ ap (λ w. ok (w, rest)) (omega (arith, split_value v s)))
]

-- Every uint64 is written in at most ten bytes and reads back.
pub consume_varint-encode_varint :
    (v : ℕ) (rest : Bytes) → IsU64 v → consume_varint (encode_varint v ++ rest) ≡ ok (v, rest)
unfolding consume_varint encode_varint
consume_varint-encode_varint v rest small =
    varint_from-varint_rounds 9 v 0 0 rest refl (omega (arith, small))
    ∙ ap (λ w. ok (w, rest)) (omega arith)

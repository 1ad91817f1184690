-- ===== src/Common/Reader.antt =====
-- Reading a byte slice from the front: what stands at `data[pos:]` of the source is the list that is left.
use Prim.Native.Nat.{ℕ, ◌≤◌}
use mathlib.Core.Path.{◌≡◌, refl, subst}
use mathlib.Core.Bool.{false}
use mathlib.Core.List.{[], ◌∷◌, ◌++◌, append-nil}
use native.Mathlib.Omega.{arith}
use signal.Common.Tests.{ltb, eqb, if◌then◌else◌}
use signal.Common.Lists.{length, take, drop, length-append, length-take, take-append, drop-append}
use signal.Common.Equality.{Bytes}
use signal.Common.Errors.{Error, Result, ok, err, ◌>>=◌}
use signal.Common.Words.{
  IsU16, IsU32, put_uint16, uint16, uint16-put_uint16, put_uint32, uint32, uint32-put_uint32, IsU64,
  put_uint64, uint64, uint64-put_uint64,
}

-- Bytes that are read give a value and what is left.
abbrev pub Reader {ℓ} : Type ℓ → Type ℓ
Reader A = Bytes → Result (A × Bytes)

-- if pos+n > len(data) { return err }, then data[pos:pos+n] and pos += n
unfoldable pub cut : Error → ℕ → Reader Bytes
cut e n input = if ltb (length input) n then err e else ok (take n input, drop n input)

unfoldable pub read_byte : Error → Reader ℕ
read_byte e [] = err e
read_byte e (b ∷ rest) = ok (b, rest)

unfoldable pub read_uint32 : Error → Reader ℕ
unfolding cut
read_uint32 e input = do (raw, rest) ← cut e 4 input; ok (uint32 raw, rest)

-- The test on the length when there is enough.
pub not_short : {n m : ℕ} → m ≤ n → ltb n m ≡ false
not_short h = ground arith

-- A front of the length that is asked for is what is read.
pub cut-append :
    (e : Error) (n : ℕ) (front rest : Bytes)
    → length front ≡ n
    → cut e n (front ++ rest) ≡ ok (front, rest)
unfolding cut
cut-append e n front rest l =
    rw (take-append n front rest l, drop-append n front rest l)
      (ground (arith, length-append front rest, l))

pub cut-ok :
    (e : Error) (n : ℕ) (input front rest : Bytes)
    → cut e n input ≡ ok (front, rest)
    → (front ≡ take n input) × (rest ≡ drop n input) × (length front ≡ n)
unfolding cut
cut-ok e n input front rest h = ground (arith, length-take n input)

pub read_uint32-put_uint32 :
    (e : Error) (n : ℕ) (rest : Bytes)
    → IsU32 n
    → read_uint32 e (put_uint32 n ++ rest) ≡ ok (n, rest)
unfolding read_uint32 put_uint32
read_uint32-put_uint32 e n rest h =
    rw (cut-append e 4 (put_uint32 n) rest refl, uint32-put_uint32 n [] h) refl

unfoldable pub read_uint16 : Error → Reader ℕ
unfolding cut
read_uint16 e input = do (raw, rest) ← cut e 2 input; ok (uint16 raw, rest)

-- A field of n bytes, which must not be empty.
unfoldable pub cut_some : Error → ℕ → Reader Bytes
unfolding cut
cut_some e n input = if eqb n 0 then err e else cut e n input

pub read_uint16-put_uint16 :
    (e : Error) (n : ℕ) (rest : Bytes)
    → IsU16 n
    → read_uint16 e (put_uint16 n ++ rest) ≡ ok (n, rest)
unfolding read_uint16 put_uint16
read_uint16-put_uint16 e n rest h =
    rw (cut-append e 2 (put_uint16 n) rest refl, uint16-put_uint16 n [] h) refl

pub cut_some-append :
    (e : Error) (n : ℕ) (front rest : Bytes)
    → length front ≡ n
    → eqb n 0 ≡ false
    → cut_some e n (front ++ rest) ≡ ok (front, rest)
unfolding cut_some
cut_some-append e n front rest l some_bytes = rw (some_bytes, cut-append e n front rest l) refl

pub cut_some_all :
    (e : Error) (b : Bytes) → eqb (length b) 0 ≡ false → cut_some e (length b) b ≡ ok (b, [])
cut_some_all e b some_bytes =
    subst (λ c. cut_some e (length b) c ≡ ok (b, [])) (append-nil b)
      (cut_some-append e (length b) b [] refl some_bytes)

unfoldable pub read_uint64 : Error → Reader ℕ
unfolding cut
read_uint64 e input = do (raw, rest) ← cut e 8 input; ok (uint64 raw, rest)

pub read_uint64-put_uint64 :
    (e : Error) (n : ℕ) (rest : Bytes)
    → IsU64 n
    → read_uint64 e (put_uint64 n ++ rest) ≡ ok (n, rest)
unfolding read_uint64 put_uint64
read_uint64-put_uint64 e n rest h =
    rw (cut-append e 8 (put_uint64 n) rest refl, uint64-put_uint64 n [] h) refl

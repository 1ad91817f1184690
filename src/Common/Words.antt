-- ===== src/Common/Words.antt =====
-- encoding/binary's big-endian numbers, and copies into a fixed array.
use signal.Common.Equality.{Bytes}
use signal.Common.Lists.{length, take, replicate}
use Prim.Native.Nat.{ℕ, ◌+◌, ◌-◌, ◌*◌, ◌/◌, ◌%◌, ◌^◌, ◌<◌}
use mathlib.Core.Path.{◌≡◌, refl}
use mathlib.Core.List.{[], ◌∷◌, ◌++◌}
use native.Mathlib.Omega.{arith}

abbrev pub IsByte : ℕ → Type 0
IsByte b = b < 256

abbrev pub IsU32 : ℕ → Type 0
IsU32 n = n < 2 ^ 32

abbrev pub IsU16 : ℕ → Type 0
IsU16 n = n < 2 ^ 16

-- n++ on a uint32
abbrev pub inc32 : ℕ → ℕ
inc32 n = (n + 1) % 2 ^ 32

abbrev pub max_uint32 : ℕ
max_uint32 = 2 ^ 32 - 1

-- binary.BigEndian.PutUint32
unfoldable pub put_uint32 : ℕ → Bytes
put_uint32 n = n / 2 ^ 24 % 256 ∷ n / 2 ^ 16 % 256 ∷ n / 2 ^ 8 % 256 ∷ n % 256 ∷ []

-- binary.BigEndian.Uint32 of the first four bytes; the callers have checked that they are there
unfoldable pub uint32 : Bytes → ℕ
uint32 (a ∷ b ∷ c ∷ d ∷ rest) = a * 2 ^ 24 + b * 2 ^ 16 + c * 2 ^ 8 + d
uint32 _ = 0

pub uint32-put_uint32 : (n : ℕ) (rest : Bytes) → IsU32 n → uint32 (put_uint32 n ++ rest) ≡ n
unfolding uint32 put_uint32
uint32-put_uint32 n rest h = omega arith

pub put_uint32-uint32 :
    (a b c d : ℕ) (rest : Bytes)
    → IsByte a
    → IsByte b
    → IsByte c
    → IsByte d
    → put_uint32 (uint32 (a ∷ b ∷ c ∷ d ∷ rest)) ≡ a ∷ b ∷ c ∷ d ∷ []
unfolding uint32 put_uint32
put_uint32-uint32 a b c d rest ha hb hc hd = ground arith

pub length-put_uint32 : (n : ℕ) → length (put_uint32 n) ≡ 4
unfolding put_uint32
length-put_uint32 n = refl

-- [32]byte{}
abbrev pub zero_key : Bytes
zero_key = replicate 32 0

-- copy(out[:], b) into a fresh [32]byte
unfoldable pub array32 : Bytes → Bytes
array32 b = take 32 (b ++ zero_key)

-- binary.BigEndian.PutUint16
unfoldable pub put_uint16 : ℕ → Bytes
put_uint16 n = n / 2 ^ 8 % 256 ∷ n % 256 ∷ []

-- binary.BigEndian.Uint16 of the first two bytes
unfoldable pub uint16 : Bytes → ℕ
uint16 (a ∷ b ∷ rest) = a * 2 ^ 8 + b
uint16 _ = 0

pub uint16-put_uint16 : (n : ℕ) (rest : Bytes) → IsU16 n → uint16 (put_uint16 n ++ rest) ≡ n
unfolding uint16 put_uint16
uint16-put_uint16 n rest h = omega arith

pub length-put_uint16 : (n : ℕ) → length (put_uint16 n) ≡ 2
unfolding put_uint16
length-put_uint16 n = refl

abbrev pub IsU64 : ℕ → Type 0
IsU64 n = n < 2 ^ 64

-- a + b on a uint32, and n + 1 on a uint64
abbrev pub add32 : ℕ → ℕ → ℕ
add32 a b = (a + b) % 2 ^ 32

abbrev pub inc64 : ℕ → ℕ
inc64 n = (n + 1) % 2 ^ 64

-- binary.BigEndian.AppendUint64
unfoldable pub put_uint64 : ℕ → Bytes
put_uint64 n =
    n / 2 ^ 56 % 256
    ∷ n / 2 ^ 48 % 256
    ∷ n / 2 ^ 40 % 256
    ∷ n / 2 ^ 32 % 256
    ∷ n / 2 ^ 24 % 256
    ∷ n / 2 ^ 16 % 256
    ∷ n / 2 ^ 8 % 256
    ∷ n % 256
    ∷ []

-- binary.BigEndian.Uint64 of the first eight bytes
unfoldable pub uint64 : Bytes → ℕ
uint64 (a ∷ b ∷ c ∷ d ∷ e ∷ f ∷ g ∷ h ∷ rest) =
    a * 2 ^ 56 + b * 2 ^ 48 + c * 2 ^ 40 + d * 2 ^ 32 + e * 2 ^ 24 + f * 2 ^ 16 + g * 2 ^ 8 + h
uint64 _ = 0

pub uint64-put_uint64 : (n : ℕ) (rest : Bytes) → IsU64 n → uint64 (put_uint64 n ++ rest) ≡ n
unfolding uint64 put_uint64
uint64-put_uint64 n rest h = omega arith

pub length-put_uint64 : (n : ℕ) → length (put_uint64 n) ≡ 8
unfolding put_uint64
length-put_uint64 n = refl

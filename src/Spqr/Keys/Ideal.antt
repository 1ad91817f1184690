-- ===== src/Spqr/Keys/Ideal.antt =====
-- What the keys of one direction are meant to be: a sequence of keys that the seed fixes, each of which is given out
-- once, while it is in the window and not too far ahead.
use signal.Common.{
  ℕ, zero, suc, ◌+◌, ◌^◌, ◌<◌, ◌≤◌, ◌≡◌, refl, Bool, true, false, Option, none, [], ◌++◌, Bytes,
  Result, ok, err, length, take, drop, length-take, take-append, drop-append, ltb, eqb,
  if◌then◌else◌, arith, key_trimmed, key_already_requested, key_jump, subst,
}
use mathlib.Core.List.{append-nil}
use signal.Common.Words.{put_uint32, array32, zero_key, inc32}
use signal.Common.Exec.{Exec}
use signal.Crypto.{Primitives, hkdf_max_length}
use signal.Crypto.Laws.{IsSound, hkdf_total}
use signal.Spqr.{ChainParams, ChainEpochDirection, max_jump_of, max_ooo_of, chain_info_next}
use signal.Spqr.Keys.{hkdf_to, next_key, take_okm, copy_into, or_zero_salt}

abbrev pub or_nothing : Result Bytes → Bytes
or_nothing (ok okm) = okm
or_nothing (err e) = []

-- The largest index that was asked for, and which were given out.
pub record Ideal : Type 0 where
  pub count : ℕ
  pub given : ℕ → Bool

-- A chain that starts, of which nothing was given out; there is no key of index 0.
abbrev pub ideal_start : Ideal
ideal_start = record { count = 0; given = λ i. eqb i 0 }

abbrev pub larger : ℕ → ℕ → ℕ
larger a b = if ltb a b then b else a

module _ (P : Primitives) where
  -- What HKDF gives for the key of index `n`.
  unfoldable pub okm_at : Bytes → ℕ → Bytes
  okm_at next n = or_nothing (hkdf_to P next none (put_uint32 n ++ chain_info_next) 64)

module _ (P : Primitives) (seed : Bytes) where
  -- The chain after `n` keys.
  unfoldable pub chain_at : ℕ → Bytes
  chain_at zero = seed
  chain_at (suc n) = take 32 (okm_at P (chain_at n) (suc n))

  -- The key of index `n`; the first is 1.
  pub message_key : ℕ → Bytes
  unfolding chain_at
  message_key zero = zero_key
  message_key (suc n) = array32 (drop 32 (okm_at P (chain_at n) (suc n)))

  -- Asking for a key.
  unfoldable pub ask : ℕ → ChainParams → Exec Ideal Bytes
  ask at params s =
      if ltb (at + max_ooo_of params) s.count
      then (err key_trimmed, s)
      else if s.given at
      then (err key_already_requested, s)
      else if ltb (s.count + max_jump_of params) at
      then (err key_jump, s)
      else (
        ok (message_key at),
        record { count = larger s.count at; given = λ i. if eqb i at then true else s.given i },
      )

copy_into_all : (dst src : Bytes) → length dst ≡ length src → copy_into dst src ≡ src
unfolding copy_into
copy_into_all dst src e =
    let all : take (length dst) src ≡ src =
      subst (λ b. take (length dst) b ≡ src) (append-nil src)
        (take-append (length dst) src [] (omega (arith, e))) in
    let none_left : drop (length src) dst ≡ [] =
      subst (λ b. drop (length src) b ≡ []) (append-nil dst) (drop-append (length src) dst [] e) in
    rw (all, none_left) (append-nil src)

module _ {P : Primitives} (sound : IsSound P) where
  pub hkdf_to_total :
      (ikm : Bytes) (salt : Option Bytes) (info : Bytes) (n : ℕ)
      → n ≤ hkdf_max_length
      → (hkdf_to P ikm salt info n ≡ ok (or_nothing (hkdf_to P ikm salt info n)))
        × (length (or_nothing (hkdf_to P ikm salt info n)) ≡ n)
  unfolding hkdf_to
  hkdf_to_total ikm salt info n h =
      let (okm, e, l) = hkdf_total sound ikm (or_zero_salt salt) info n h in (rw e refl, rw e l)

  okm_at_lem :
      (next : Bytes) (n : ℕ)
      → (hkdf_to P next none (put_uint32 n ++ chain_info_next) 64 ≡ ok (okm_at P next n))
        × (length (okm_at P next n) ≡ 64)
  unfolding okm_at
  okm_at_lem next n = hkdf_to_total next none (put_uint32 n ++ chain_info_next) 64 (omega arith)

  module _ (seed : Bytes) (sized : length seed ≡ 32) where
    pub length-chain_at : (n : ℕ) → length (chain_at P seed n) ≡ 32
    unfolding chain_at
    length-chain_at zero = sized
    length-chain_at (suc n) = omega (
      arith,
      length-take 32 (okm_at P (chain_at P seed n) (suc n)),
      (okm_at_lem (chain_at P seed n) (suc n)).1,
    )

    -- A step of the code's chain is a step of the sequence.
    pub next_key_lem :
        (d : ChainEpochDirection)
        → d.ctr + 1 < 2 ^ 32
        → d.next ≡ chain_at P seed d.ctr
        → next_key P d ≡ (
          ok (suc d.ctr, message_key P seed (suc d.ctr)),
          record d { ctr = suc d.ctr; next = chain_at P seed (suc d.ctr) },
        )
    unfolding next_key chain_at message_key take_okm
    next_key_lem d small e =
        let ctr : inc32 d.ctr ≡ suc d.ctr = omega arith in
        let l : length d.next ≡ 32 = rw e (length-chain_at d.ctr) in
        let whole : eqb (length d.next) 0 ≡ false = ground arith in
        let c = chain_at P seed d.ctr in
        let okm = okm_at_lem c (suc d.ctr) in
        let sizes : length c ≡ length (take 32 (okm_at P c (suc d.ctr))) =
          omega (arith, length-chain_at d.ctr, length-take 32 (okm_at P c (suc d.ctr)), okm.1) in
        rw (whole, ctr, e, okm.0, copy_into_all c (take 32 (okm_at P c (suc d.ctr))) sizes) refl

pub next_key-cleared :
    (P : Primitives) (d : ChainEpochDirection)
    → d.next ≡ []
    → next_key P d ≡ (err key_already_requested, d)
unfolding next_key
next_key-cleared P d e = rw e refl

-- ===== src/Spqr/Keys.antt =====
-- keyHistory and chainEpochDirection of spqr/chain.go: the message keys of one direction in one epoch.
pub mod Ideal
pub mod Holds
pub mod Refines
pub mod Requests
use signal.Common.{
  ℕ, zero, suc, ◌-◌, Option, none, some, [], ◌++◌, Bytes, Result, ok, err, not, ltb, leb, eqb,
  key_trimmed, key_already_requested, key_jump, length, take, drop, if◌then◌else◌, nat_eq,
}
use signal.Common.Map
use signal.Common.Words.{inc32, add32, put_uint32, array32, zero_key}
use signal.Common.Exec.{Exec, modify, ◌>>=◌, ◌>>◌}
use signal.Crypto.{Primitives, hkdf}
use signal.Spqr.{
  ChainParams, KeyHistory, ChainEpochDirection, max_jump_of, max_ooo_of, chain_info_next,
}

-- for idx := range h.keys { if idx+maxOOO < current { delete(h.keys, idx) } }
unfoldable pub gc : ℕ → ℕ → KeyHistory → KeyHistory
gc current max_ooo h = Map.retain (λ idx. not (ltb (add32 idx max_ooo) current)) h

hand_out : ℕ → KeyHistory → Option Bytes → Result Bytes × KeyHistory
hand_out idx h none = (err key_already_requested, h)
hand_out idx h (some key) = (ok key, Map.delete idx h)

-- (*keyHistory).get
unfoldable pub get_key : ℕ → ℕ → ℕ → KeyHistory → Result Bytes × KeyHistory
unfolding hand_out
get_key idx current max_ooo h =
    if ltb (add32 idx max_ooo) current
    then (err key_trimmed, h)
    else hand_out idx h (Map.lookup idx h)

unfoldable pub new_chain_epoch_direction : Bytes → ChainEpochDirection
new_chain_epoch_direction seed = record { ctr = 0; next = seed; prev = [] }

-- copy(dst, src)
unfoldable pub copy_into : Bytes → Bytes → Bytes
copy_into dst src = take (length dst) src ++ drop (length src) dst

or_zero_salt : Option Bytes → Bytes
or_zero_salt none = zero_key
or_zero_salt (some salt) = salt

-- The counter has moved on where the derivation fails.
take_okm : ℕ → ChainEpochDirection → Result Bytes → Result (ℕ × Bytes) × ChainEpochDirection
unfolding copy_into
take_okm ctr d (err e) = (err e, record d { ctr = ctr })
take_okm ctr d (ok okm) =
    (ok (ctr, array32 (drop 32 okm)), record d { ctr = ctr; next = copy_into d.next (take 32 okm) })

-- A skipped key is kept if it will be in the window.
keep_key : ℕ → ℕ → ℕ × Bytes → ChainEpochDirection → ChainEpochDirection
keep_key at max_ooo (idx, key) d =
    if leb at (add32 idx max_ooo) then record d { prev = Map.insert idx key d.prev } else d

drop_far : ℕ → ℕ → ChainEpochDirection → ChainEpochDirection
drop_far at max_ooo d = if ltb (add32 d.ctr max_ooo) at then record d { prev = [] } else d

module _ (P : Primitives) where
  unfoldable pub hkdf_to : Bytes → Option Bytes → Bytes → ℕ → Result Bytes
  unfolding or_zero_salt
  hkdf_to ikm salt info n = hkdf P ikm (or_zero_salt salt) info n

  unfoldable pub next_key : Exec ChainEpochDirection (ℕ × Bytes)
  unfolding hkdf_to take_okm
  next_key d =
      let ctr = inc32 d.ctr in
      if eqb (length d.next) 0
      then (err key_already_requested, d)
      else take_okm ctr d (hkdf_to d.next none (put_uint32 ctr ++ chain_info_next) 64)

  -- One round of the loop of `key`.
  unfoldable pub skip_key : ℕ → ℕ → Exec ChainEpochDirection (Unit {0})
  unfolding next_key keep_key
  skip_key at max_ooo = next_key >>= λ skipped. modify (keep_key at max_ooo skipped)

  -- for d.ctr+1 < at, on fuel: `at - d.ctr` rounds are more than its test lets through.
  unfoldable pub skip_keys : ℕ → ℕ → ℕ → Exec ChainEpochDirection (Unit {0})
  skip_keys zero at max_ooo d = (ok tt, d)
  skip_keys (suc fuel) at max_ooo d =
      let rest = skip_keys fuel at max_ooo in
      if ltb (inc32 d.ctr) at then (skip_key at max_ooo >> rest) d else (ok tt, d)

  -- The `default` case of `key`: the chain is advanced to the index.
  unfoldable pub advance_to : ℕ → ℕ → Exec ChainEpochDirection Bytes
  unfolding skip_keys drop_far next_key
  advance_to at max_ooo d =
      (do
        modify (drop_far at max_ooo)
        skip_keys (at - d.ctr) at max_ooo
        modify (λ s. record s { prev = gc s.ctr max_ooo s.prev })
        (idx, key) ← next_key
        (λ s. (ok key, s)))
        d

  unfoldable pub key : ℕ → ChainParams → Exec ChainEpochDirection Bytes
  unfolding advance_to
  key at params d =
      if ltb at d.ctr
      then (let (found, left) = get_key at d.ctr (max_ooo_of params) d.prev in
          (found, record d { prev = left }))
      else if eqb at d.ctr
      then (err key_already_requested, d)
      else if ltb (max_jump_of params) (at - d.ctr)
      then (err key_jump, d)
      else advance_to at (max_ooo_of params) d

-- ===== src/Store/PreKeys.antt =====
-- The pre-keys of store/memory/memory_store.go.
pub mod Expiry
use Prim.Native.Nat.{min}
use signal.Common.{
  ℕ, ◌-◌, ◌^◌, Bool, true, false, Option, none, some, eqb, ltb, is_some, if◌then◌else◌, nat_eq, ℤ,
  is_non_positive, exceeds,
}
use signal.Common.Map
use signal.Keys.{PreKey, SignedPreKey, KyberPreKey}
use signal.Store.{Store}

-- The pointer in the map, nil where there is none.
or_nil : {A : Type 0} → Option (Option A) → Option A
or_nil none = none
or_nil (some pointer) = pointer

unfoldable pub load_pre_key : ℕ → Store → Option PreKey
unfolding or_nil
load_pre_key id m = or_nil (Map.lookup id m.pre_keys)

unfoldable pub store_pre_key : ℕ → Option PreKey → Store → Store
store_pre_key id pre_key m = record m { pre_keys = Map.insert id pre_key m.pre_keys }

unfoldable pub contains_pre_key : ℕ → Store → Bool
contains_pre_key id m = is_some (Map.lookup id m.pre_keys)

unfoldable pub remove_pre_key : ℕ → Store → Store
remove_pre_key id m = record m { pre_keys = Map.delete id m.pre_keys }

unfoldable pub load_signed_pre_key : ℕ → Store → Option SignedPreKey
unfolding or_nil
load_signed_pre_key id m = or_nil (Map.lookup id m.signed_keys)

unfoldable pub store_signed_pre_key : ℕ → Option SignedPreKey → Store → Store
store_signed_pre_key id signed_pre_key m = record m {
  signed_keys = Map.insert id signed_pre_key m.signed_keys;
}

unfoldable pub contains_signed_pre_key : ℕ → Store → Bool
contains_signed_pre_key id m = is_some (Map.lookup id m.signed_keys)

unfoldable pub remove_signed_pre_key : ℕ → Store → Store
remove_signed_pre_key id m = record m { signed_keys = Map.delete id m.signed_keys }

-- `Sub` of two times stops at the longest duration.
abbrev pub max_duration : ℕ
max_duration = 2 ^ 63 - 1

unfoldable pub signed_pre_key_expired : Option SignedPreKey → ℕ → Store → Bool
signed_pre_key_expired none now m = true
signed_pre_key_expired (some signed) now m =
    if is_non_positive m.signed_pre_key_max_age
    then false
    else if eqb signed.timestamp 0
    then true
    else if ltb now signed.timestamp
    then false
    else exceeds (min (now - signed.timestamp) max_duration) m.signed_pre_key_max_age

unfoldable pub load_kyber_pre_key : ℕ → Store → Option KyberPreKey
unfolding or_nil
load_kyber_pre_key id m = or_nil (Map.lookup id m.kyber_keys)

unfoldable pub store_kyber_pre_key : ℕ → Option KyberPreKey → Store → Store
store_kyber_pre_key id kyber_pre_key m = record m {
  kyber_keys = Map.insert id kyber_pre_key m.kyber_keys;
}

unfoldable pub contains_kyber_pre_key : ℕ → Store → Bool
contains_kyber_pre_key id m = is_some (Map.lookup id m.kyber_keys)

unfoldable pub remove_kyber_pre_key : ℕ → Store → Store
remove_kyber_pre_key id m = record m { kyber_keys = Map.delete id m.kyber_keys }

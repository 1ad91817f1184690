-- ===== src/Store/PreKeys/Expiry.antt =====
-- When a signed pre-key is expired (store/memory/memory_store.go).

use signal.Common.{
  ℕ, ◌+◌, ◌≤◌, ◌<◌, ◌≡◌, ◌↔◌, ◌⊎◌, true, Option, some, none, pos, negsuc, ℤ, inl, inr, refl, arith,
}
use signal.Keys.{SignedPreKey}
use signal.Store.{Store}
use signal.Store.PreKeys.{signed_pre_key_expired, max_duration}

-- With a positive maximal age that is a duration, a signed pre-key is expired exactly if it has no
-- timestamp, or more time has passed since its timestamp than the maximal age.
pub signed_pre_key_expired_iff :
    (signed : SignedPreKey) (now max_age : ℕ) (m : Store)
    → m.signed_pre_key_max_age ≡ pos max_age
    → 0 < max_age
    → max_age < max_duration
    → (signed_pre_key_expired (some signed) now m ≡ true)
      ↔ ((signed.timestamp ≡ 0) ⊎ (signed.timestamp + max_age < now))
unfolding signed_pre_key_expired
signed_pre_key_expired_iff signed now max_age m age positive small = rw age (ground arith)

signs : (z : ℤ) → ((n : ℕ) × (z ≡ pos n)) ⊎ ((n : ℕ) × (z ≡ negsuc n))
signs (pos n) = inl (n, refl)
signs (negsuc n) = inr (n, refl)

-- An expired signed pre-key stays expired as time passes.
pub expired_later :
    (signed : Option SignedPreKey) (now later : ℕ) (m : Store)
    → now ≤ later
    → signed_pre_key_expired signed now m ≡ true
    → signed_pre_key_expired signed later m ≡ true
unfolding signed_pre_key_expired
expired_later none now later m h e = e
expired_later (some signed) now later m h e = elim (signs m.signed_pre_key_max_age) [
  | inl (n, age) ↦ ground (arith, age)
  | inr (n, age) ↦ ground (arith, age)
]

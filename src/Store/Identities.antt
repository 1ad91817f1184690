-- ===== src/Store/Identities.antt =====
-- The local identity and the trusted identities of store/memory/memory_store.go.
pub mod Trust
use signal.Common.{
  ℕ, ◌*◌, Bool, true, false, not, ◌&&◌, ◌||◌, Option, none, some, [], Bytes, bytes_beq,
  if◌then◌else◌, ℤ, pos,
}
use signal.Common.Map
use signal.Common.Words.{zero_key}
use signal.Keys.{IdentityKey, IdentityKeyPair}
use signal.Store.{Address, address_eq, Direction, Store}

-- 30 * 24 * time.Hour, in nanoseconds
abbrev pub default_signed_pre_key_max_age : ℤ
default_signed_pre_key_max_age = pos (30 * 24 * 3600 * 1000000000)

abbrev pub default_max_sessions_per_name : ℤ
default_max_sessions_per_name = pos 100

unfoldable pub new_store : IdentityKeyPair → ℕ → Store
new_store identity registration_id = record {
  identity_key_pair = identity;
  local_registration_id = registration_id;
  signed_pre_key_max_age = default_signed_pre_key_max_age;
  max_sessions_per_name = default_max_sessions_per_name;
  identities = [];
  pre_keys = [];
  signed_keys = [];
  kyber_keys = [];
  sessions = [];
  sender_keys = [];
  sesame = none;
}

unfoldable pub set_signed_pre_key_max_age : ℤ → Store → Store
set_signed_pre_key_max_age max_age m = record m { signed_pre_key_max_age = max_age }

unfoldable pub set_max_sessions_per_name : ℤ → Store → Store
set_max_sessions_per_name max_sessions m = record m { max_sessions_per_name = max_sessions }

unfoldable pub get_identity_key_pair : Store → IdentityKeyPair
get_identity_key_pair m = m.identity_key_pair

unfoldable pub get_local_registration_id : Store → ℕ
get_local_registration_id m = m.local_registration_id

-- The loop finds a byte that is not 0.
unfoldable pub is_zero_key32 : Bytes → Bool
is_zero_key32 key = bytes_beq key zero_key

-- The signing key that is stored for an identity without one: that of the entry before it.
unfoldable pub signing_from : Option IdentityKey → IdentityKey → IdentityKey
signing_from none clone = clone
signing_from (some existing) clone =
    if not (is_zero_key32 existing.signing_public)
    then record clone { signing_public = existing.signing_public }
    else clone

unfoldable pub save_identity : Address → Option IdentityKey → Store → Store
unfolding signing_from
save_identity addr none m = record m { identities = Map.delete addr m.identities }
save_identity addr (some identity_key) m =
    let clone : IdentityKey =
      if is_zero_key32 identity_key.signing_public
      then signing_from (Map.lookup addr m.identities) identity_key
      else identity_key in
    record m { identities = Map.insert addr clone m.identities }

matches : IdentityKey → IdentityKey → Bool
matches existing identity_key =
    let dh_ok = bytes_beq existing.public_key identity_key.public_key in
    if is_zero_key32 existing.signing_public || is_zero_key32 identity_key.signing_public
    then dh_ok
    else bytes_beq existing.signing_public identity_key.signing_public && dh_ok

unfoldable pub trusted_by : Option IdentityKey → Option IdentityKey → Bool
unfolding matches
trusted_by none identity_key = true
trusted_by (some existing) none = false
trusted_by (some existing) (some identity_key) = matches existing identity_key

unfoldable pub is_trusted_identity : Address → Option IdentityKey → Direction → Store → Bool
unfolding trusted_by
is_trusted_identity addr identity_key direction m =
    trusted_by (Map.lookup addr m.identities) identity_key

unfoldable pub get_identity : Address → Store → Option IdentityKey
get_identity addr m = Map.lookup addr m.identities

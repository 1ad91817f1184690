-- ===== src/Store.antt =====
-- store/address.go, the records of store/interfaces.go, and the state of store/memory/memory_store.go.
-- The maps of sessions, sender keys and identities never hold nil, since storing nil deletes; those
-- of pre-keys may. Locks are left out: each method holds the lock from start to end.
pub mod Identities
pub mod PreKeys
pub mod Sessions
pub mod SenderKeys
pub mod Runs
use Prim.Native.String.{String}
use signal.Common.{
  ℕ, ◌≡◌, ◌↔◌, Bool, true, ◌&&◌, Option, Bytes, Eq, string_eq, nat_eq, eqb, eqb_iff, arith, ◌==◌, ℤ,
}
use signal.Common.Map.{Map}
use signal.Keys.{IdentityKey, IdentityKeyPair, PreKey, SignedPreKey, KyberPreKey}

pub record Address : Type 0 where
  pub name : String
  pub device : ℕ

unfoldable pub address_beq : Address → Address → Bool
address_beq a b = a.name == b.name && eqb a.device b.device

pub address_beq_iff : (a b : Address) → (address_beq a b ≡ true) ↔ (a ≡ b)
unfolding address_beq
address_beq_iff a b = ground (arith, string_eq.beq_iff a.name b.name, eqb_iff a.device b.device)

instance abbrev pub address_eq : Eq Address
address_eq = record { beq = address_beq; beq_iff = address_beq_iff }

pub record SenderKeyName : Type 0 where
  pub group : String
  pub sender : Address

unfoldable pub sender_key_name_beq : SenderKeyName → SenderKeyName → Bool
sender_key_name_beq a b = a.group == b.group && a.sender == b.sender

pub sender_key_name_beq_iff : (a b : SenderKeyName) → (sender_key_name_beq a b ≡ true) ↔ (a ≡ b)
unfolding sender_key_name_beq
sender_key_name_beq_iff a b =
    ground (arith, string_eq.beq_iff a.group b.group, address_beq_iff a.sender b.sender)

instance abbrev pub sender_key_name_eq : Eq SenderKeyName
sender_key_name_eq = record { beq = sender_key_name_beq; beq_iff = sender_key_name_beq_iff }

pub record SessionRecord : Type 0 where
  pub data_bytes : Bytes

pub record SenderKeyRecord : Type 0 where
  pub data_bytes : Bytes

pub record SesameRecord : Type 0 where
  pub data_bytes : Bytes

pub data Direction : Type 0 where
  sending receiving : Direction

pub record Store : Type 0 where
  pub identity_key_pair : IdentityKeyPair
  pub local_registration_id : ℕ
  pub signed_pre_key_max_age : ℤ
  pub max_sessions_per_name : ℤ
  pub identities : Map Address IdentityKey
  pub pre_keys : Map ℕ (Option PreKey)
  pub signed_keys : Map ℕ (Option SignedPreKey)
  pub kyber_keys : Map ℕ (Option KyberPreKey)
  pub sessions : Map Address SessionRecord
  pub sender_keys : Map SenderKeyName SenderKeyRecord
  pub sesame : Option SesameRecord

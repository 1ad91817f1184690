-- ===== src/SenderKeys.antt =====
-- The records of senderkeys/record.go and the chain of senderkeys/ratchet.go. The states of a record
-- are never nil: `setState` refuses nil, and drops it.
pub mod Record
pub mod Chain
pub mod Cipher
pub mod Generate
pub mod Serialize
pub mod Message
pub mod Group
pub mod Runs
use signal.Common.{ℕ, Bytes, Bool, List}

abbrev pub max_message_keys_per_state : ℕ
max_message_keys_per_state = 2000

pub record MessageKey : Type 0 where
  pub iteration : ℕ
  pub seed : Bytes

pub record State : Type 0 where
  pub message_version : ℕ
  pub distribution_id : Bytes
  pub key_id : ℕ
  pub chain_iteration : ℕ
  pub chain_seed : Bytes
  pub signing_public : Bytes
  pub signing_private_seed : Bytes
  pub has_private : Bool
  pub message_keys : List MessageKey

-- `Record` of the source
pub record Archive : Type 0 where
  pub states : List State
  pub max_states : ℕ

pub record SenderChainKey : Type 0 where
  pub iteration : ℕ
  pub seed : Bytes

pub record SenderMessageKey : Type 0 where
  pub iteration : ℕ
  pub seed : Bytes
  pub iv : Bytes
  pub cipher_key : Bytes

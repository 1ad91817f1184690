-- ===== src/X3dh.antt =====
-- x3dh/types.go: the initial message and the outcome of the handshake.
pub mod Derive
pub mod Initiator
pub mod Responder
pub mod Agreed
pub mod Serialize
pub mod Runs
use signal.Common.{ℕ, Option, Bytes}
use signal.Crypto.{KeyPair}
use signal.Keys.{IdentityKey}

pub record Message : Type 0 where
  pub identity_key : IdentityKey
  pub ephemeral_key : Bytes
  pub pre_key_id : Option ℕ
  pub signed_pre_key_id : ℕ
  pub kyber_pre_key_id : Option ℕ
  pub kyber_ciphertext : Bytes
  pub ciphertext : Bytes

-- `Result` of the source
pub record Outcome : Type 0 where
  pub shared_secret : Bytes
  pub initial_chain_key : Option Bytes
  pub pqr_key : Option Bytes
  pub associated_data : Bytes
  pub remote_identity : IdentityKey
  pub initial_message : Message
  pub local_ephemeral : Option KeyPair
  pub local_ratchet_key : Option KeyPair
  pub remote_ratchet_key : Option Bytes

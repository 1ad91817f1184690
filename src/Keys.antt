-- ===== src/Keys.antt =====
-- keys/identity.go, keys/prekey.go and keys/kyber.go: the key types. A time.Time is the number of
-- nanoseconds since the zero time.
pub mod Wire
pub mod Bundle
pub mod Serialize
pub mod Runs
use signal.Common.{ℕ, Option, Bytes}
use signal.Crypto.{KeyPair}
use signal.Crypto.Kyber.{KyberKeyPair}

pub record IdentityKey : Type 0 where
  pub public_key : Bytes
  pub signing_public : Bytes

pub record IdentityKeyPair : Type 0 where
  pub public_key : IdentityKey
  pub private_key : Bytes

pub record PreKey : Type 0 where
  pub id : ℕ
  pub key_pair : Option KeyPair
  pub timestamp : ℕ

pub record SignedPreKey : Type 0 where
  pub id : ℕ
  pub key_pair : Option KeyPair
  pub signature : Bytes
  pub timestamp : ℕ

pub record KyberPreKey : Type 0 where
  pub id : ℕ
  pub key_pair : Option KyberKeyPair
  pub signature : Bytes
  pub timestamp : ℕ

-- ===== src/Ratchet.antt =====
-- ratchet/state.go, ratchet/header.go, ratchet/message.go: the data of the double ratchet.
-- A pointer that may be nil is an `Option`; the receivers and arguments whose nil check comes first
-- are taken as not nil. The maps are those of Common/Map.
pub mod Chain
pub mod Encoding
pub mod Serialize
pub mod Skip
pub mod Turn
pub mod Send
pub mod Receive
pub mod History
pub mod Delivery
pub mod Exchange
pub mod Init
pub mod Agreement
pub mod Runs
use signal.Common.{
  ℕ, ◌≡◌, ◌↔◌, Bool, true, ◌&&◌, Option, Bytes, Eq, eqb, eqb_iff, bytes_beq, bytes_beq_iff, arith,
}
use signal.Common.Map.{Map}
use signal.Crypto.{KeyPair}

-- ratchet/skipped.go, MaxSkip
abbrev pub max_skip : ℕ
max_skip = 1000

pub record SkippedKey : Type 0 where
  pub public_key : Bytes
  pub n : ℕ

pub skipped_key_beq_iff :
    (a b : SkippedKey) → ((bytes_beq a.public_key b.public_key && eqb a.n b.n) ≡ true) ↔ (a ≡ b)
skipped_key_beq_iff a b = ground (arith, bytes_beq_iff a.public_key b.public_key, eqb_iff a.n b.n)

instance abbrev pub skipped_key_eq : Eq SkippedKey
skipped_key_eq = record {
  beq = λ a b. bytes_beq a.public_key b.public_key && eqb a.n b.n;
  beq_iff = skipped_key_beq_iff;
}

pub record State : Type 0 where
  pub dhs : Option KeyPair
  pub dhr : Option Bytes
  pub rk : Bytes
  pub cks : Bytes
  pub ckr : Bytes
  pub ns : ℕ
  pub nr : ℕ
  pub pn : ℕ
  pub skipped : Map SkippedKey Bytes
  pub seen : Map Bytes (Unit {0})

pub record Header : Type 0 where
  pub dh : Bytes
  pub pn : ℕ
  pub n : ℕ

pub record Message : Type 0 where
  pub header : Header
  pub ciphertext : Bytes

pub record MessageKeys : Type 0 where
  pub enc_key : Bytes
  pub auth_key : Bytes
  pub iv : Bytes

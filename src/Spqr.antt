-- ===== src/Spqr.antt =====
-- Package spqr, the triple ratchet: the data of spqr/chain.go. The directions of one chain are numbers, as
-- they are read from a byte.
pub mod Keys
pub mod Epochs
pub mod Serialize
pub mod Message
pub mod Runs
use signal.Common.{ℕ, List, [], ◌∷◌, Bytes, eqb, if◌then◌else◌}
use signal.Common.Map.{Map}

abbrev chain_default_max_jump : ℕ
chain_default_max_jump = 25000

abbrev chain_default_max_ooo : ℕ
chain_default_max_ooo = 2000

abbrev pub direction_a2b : ℕ
direction_a2b = 0

abbrev pub direction_b2a : ℕ
direction_b2a = 1

-- (Direction).Switch
unfoldable pub switch_direction : ℕ → ℕ
switch_direction dir = if eqb dir direction_a2b then direction_b2a else direction_a2b

pub record ChainParams : Type 0 where
  pub max_jump : ℕ
  pub max_ooo : ℕ

-- (ChainParams).maxJump and (ChainParams).maxOOO
unfoldable pub max_jump_of : ChainParams → ℕ
max_jump_of p = if eqb p.max_jump 0 then chain_default_max_jump else p.max_jump

unfoldable pub max_ooo_of : ChainParams → ℕ
max_ooo_of p = if eqb p.max_ooo 0 then chain_default_max_ooo else p.max_ooo

-- The keys that were skipped, by index.
abbrev pub KeyHistory : Type 0
KeyHistory = Map ℕ Bytes

-- A `next` of nil is the empty list.
pub record ChainEpochDirection : Type 0 where
  pub ctr : ℕ
  pub next : Bytes
  pub prev : KeyHistory

pub record ChainEpoch : Type 0 where
  pub send : ChainEpochDirection
  pub recv : ChainEpochDirection

pub record Chain : Type 0 where
  pub dir : ℕ
  pub current_epoch : ℕ
  pub send_epoch : ℕ
  pub links : List ChainEpoch
  pub next_root : Bytes
  pub params : ChainParams

-- "Signal PQ Ratchet V1 Chain  Start", with two spaces
abbrev pub chain_info_start : Bytes
chain_info_start =
    b'S' ∷ b'i' ∷ b'g' ∷ b'n' ∷ b'a' ∷ b'l' ∷ b' ' ∷ b'P' ∷ b'Q' ∷ b' ' ∷ b'R' ∷ b'a' ∷ b't' ∷ b'c'
    ∷ b'h' ∷ b'e' ∷ b't' ∷ b' ' ∷ b'V' ∷ b'1' ∷ b' ' ∷ b'C' ∷ b'h' ∷ b'a' ∷ b'i' ∷ b'n' ∷ b' '
    ∷ b' ' ∷ b'S' ∷ b't' ∷ b'a' ∷ b'r' ∷ b't' ∷ []

-- "Signal PQ Ratchet V1 Chain Add Epoch"
abbrev pub chain_info_add_epoch : Bytes
chain_info_add_epoch =
    b'S' ∷ b'i' ∷ b'g' ∷ b'n' ∷ b'a' ∷ b'l' ∷ b' ' ∷ b'P' ∷ b'Q' ∷ b' ' ∷ b'R' ∷ b'a' ∷ b't' ∷ b'c'
    ∷ b'h' ∷ b'e' ∷ b't' ∷ b' ' ∷ b'V' ∷ b'1' ∷ b' ' ∷ b'C' ∷ b'h' ∷ b'a' ∷ b'i' ∷ b'n' ∷ b' '
    ∷ b'A' ∷ b'd' ∷ b'd' ∷ b' ' ∷ b'E' ∷ b'p' ∷ b'o' ∷ b'c' ∷ b'h' ∷ []

-- "Signal PQ Ratchet V1 Chain Next"
abbrev pub chain_info_next : Bytes
chain_info_next =
    b'S' ∷ b'i' ∷ b'g' ∷ b'n' ∷ b'a' ∷ b'l' ∷ b' ' ∷ b'P' ∷ b'Q' ∷ b' ' ∷ b'R' ∷ b'a' ∷ b't' ∷ b'c'
    ∷ b'h' ∷ b'e' ∷ b't' ∷ b' ' ∷ b'V' ∷ b'1' ∷ b' ' ∷ b'C' ∷ b'h' ∷ b'a' ∷ b'i' ∷ b'n' ∷ b' '
    ∷ b'N' ∷ b'e' ∷ b'x' ∷ b't' ∷ []

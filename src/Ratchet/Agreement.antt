-- ===== src/Ratchet/Agreement.antt =====
-- The Diffie-Hellman ratchet between two parties (ratchet/dh_ratchet.go): a party that turned, and the
-- peer that does not know it yet.
pub mod Turning
pub mod First
use signal.Common.{
  ℕ, ◌≤◌, ◌+◌, ◌-◌, ◌≡◌, ◌≢◌, refl, Option, none, some, Bytes, bytes_eq, ok, length, false,
}
use signal.Common.Map
use signal.Common.Words.{IsU32}
use signal.Crypto.{Primitives, KeyPair}
use signal.Crypto.Laws.{IsKeyPair}
use signal.Ratchet.{State, max_skip}
use signal.Ratchet.Chain.{chain_key}
use signal.Ratchet.Turn.{next_root}
use signal.Ratchet.Receive.{is_current}
use signal.Ratchet.Receive.Valid.{IsValid}

-- `a` has turned with `b`'s key: its sending chain starts at `start`, and comes from the root key that
-- `b` still holds. `b` has never seen the new key.
pub record IsAhead (P : Primitives) (start : Bytes) (ka kb : KeyPair) (a b : State) : Type 0 where
  pub own : a.dhs ≡ some ka
  pub peer : b.dhs ≡ some kb
  pub own_pair : IsKeyPair P ka
  pub peer_pair : IsKeyPair P kb
  pub knows : a.dhr ≡ some kb.public_key
  pub root : next_root P b.rk ka kb.public_key ≡ ok (a.rk, start)
  pub chain : a.cks ≡ chain_key P start a.ns
  pub new : is_current b.dhr ka.public_key ≡ false
  pub unseen : Map.lookup ka.public_key b.seen ≡ none

-- The messages that `b` missed at the end of the previous chain can be skipped.
pub record CanFinish (until : ℕ) (b : State) : Type 0 where
  pub last : Bytes
  pub remote : b.dhr ≡ some last
  pub small : IsU32 until
  pub behind : b.nr ≤ until
  pub room : length b.skipped + (until - b.nr) ≤ max_skip

-- ===== src/Session.antt =====
-- session/session.go. `Q` is spqr.State; a session's ratchet state and identities are never nil, since
-- NewSession and deserializeSession set them. Clones and copies are the values themselves.
pub mod Record
pub mod Receive
pub mod Serialize
pub mod Envelope
pub mod Version
pub mod Builder
pub mod Cipher
pub mod Established
pub mod Runs
use signal.Common.{
  ℕ, Option, none, some, List, [], ◌∷◌, Bytes, eqb, ltb, length, take, if◌then◌else◌, ℤ, pos,
  negsuc, exceeds, is_non_positive,
}
use signal.Keys.{IdentityKey}
use signal.Ratchet.{State}

abbrev pub current_version : ℕ
current_version = 1

pub record Session (Q : Type 0) : Type 0 where
  pub ratchet_state : State
  pub pqr_state : Option Q
  pub local_identity : IdentityKey
  pub remote_identity : IdentityKey
  pub associated_data : Bytes
  pub previous_states : List (Option State)
  pub version : ℕ

-- s[:n] where n > 0 and len(s) > n
cut_to : {A : Type 0} → ℤ → List A → List A
cut_to (negsuc n) states = states
cut_to (pos n) states =
    if eqb n 0 then states else if ltb n (length states) then take n states else states

-- cloneStateSlice: the states that are not nil
unfoldable pub clone_states : List (Option State) → List (Option State)
clone_states [] = []
clone_states (none ∷ states) = clone_states states
clone_states (some state ∷ states) = some state ∷ clone_states states

module _ {Q : Type 0} where
  unfoldable pub new_session : State → IdentityKey → IdentityKey → Bytes → Session Q
  new_session state local remote associated_data = record {
    ratchet_state = state;
    pqr_state = none;
    local_identity = local;
    remote_identity = remote;
    associated_data = associated_data;
    previous_states = [];
    version = current_version;
  }

  unfoldable pub archive_state : State → ℤ → Session Q → Session Q
  unfolding cut_to
  archive_state new max_previous s = record s {
    previous_states = cut_to max_previous (some s.ratchet_state ∷ s.previous_states);
    ratchet_state = new;
    version = current_version;
  }

  unfoldable pub clone : Session Q → Session Q
  unfolding clone_states
  clone s = record s { previous_states = clone_states s.previous_states }

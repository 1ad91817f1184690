-- ===== src/Session/Serialize/RoundTrip/Sessions.antt =====
-- A session that is written reads back (session/record.go).
use mathlib.Core.List.{map}
use signal.Common.{
  ◌≤◌, ◌≡◌, refl, true, false, Option, none, some, List, [], ◌∷◌, ◌++◌, Bytes, ok, invalid_message,
  eqb, length, length-append, All, arith,
}
use signal.Common.Words.{put_uint32, length-put_uint32}
use signal.Common.Reader.{not_short, cut-append, read_uint32-put_uint32}
use signal.Crypto.{Primitives}
use signal.Keys.{IdentityKey}
use signal.Keys.Serialize.{serialize_identity_key}
use signal.Keys.Serialize.RoundTrip.{
  length-serialize_identity_key, deserialize_identity_key-serialize_identity_key,
}
use signal.Ratchet.{State}
use signal.Ratchet.Serialize.{serialize_state}
use signal.Ratchet.Serialize.RoundTrip.{
  IsSameState, stored, stored-IsSameState, deserialize_state-stored,
}
use signal.Session.{Session}
use signal.Session.Serialize.{
  PqrFormat, block, previous_bytes, version_or_current, as_invalid, read_previous_count,
  no_trailing, pqr_bytes, serialize_session, read_identity, read_pqr_state, read_pqr, read_session,
  read_versions, deserialize_session, session_serialize_version,
}
use signal.Session.Serialize.RoundTrip.{
  read_block-block, read_block_some-block, serialize_state-some, FitsIfSet, stored_if_set,
  read_previous-All, equal_length, few_small, IsReadable, IsWritable, IsWritten,
}

module _ (P : Primitives) {Q : Type 0} (format : PqrFormat Q) where
  -- The session as it is read back.
  unfoldable pub stored_session : Session Q → Session Q
  unfolding stored_if_set
  stored_session s = record s {
    ratchet_state = stored s.ratchet_state;
    previous_states = map stored_if_set s.previous_states;
  }

  read_identity-serialize_identity_key :
      (k : IdentityKey) (rest : Bytes)
      → IsReadable P k
      → read_identity P (serialize_identity_key k ++ rest) ≡ ok (k, rest)
  unfolding read_identity as_invalid
  read_identity-serialize_identity_key k rest h =
      rw
        (
          cut-append invalid_message 65 (serialize_identity_key k) rest
              (length-serialize_identity_key k h.public h.signing),
          deserialize_identity_key-serialize_identity_key P k h.public h.signing h.valid,
        )
        refl

  read_pqr_state-some :
      (b : Bytes) → eqb (length b) 0 ≡ false → read_pqr_state P format b ≡ format.read b
  unfolding read_pqr_state
  read_pqr_state-some [] some_bytes = absurd (cc some_bytes)
  read_pqr_state-some (x ∷ b) some_bytes = refl

  -- What is written of the state of package spqr.
  pqr_written :
      (o : Option Q)
      → IsWritten format o
      → (b : Bytes) × (pqr_bytes format o ≡ ok b)
        × ((rest : Bytes) → read_pqr P format true (block b ++ rest) ≡ ok (o, rest))
  unfolding pqr_bytes read_pqr read_pqr_state
  pqr_written none h = ([], refl, λ rest. rw (read_block-block [] rest (omega arith)) refl)
  pqr_written (some q) (b, written, some_bytes, small, read) = (
    b,
    written,
    λ rest. rw (read_block-block b rest small) (rw (read_pqr_state-some b some_bytes, read) refl),
  )

  abbrev session_tail : Session Q → Bytes → Bytes
  session_tail s pqr =
      block s.associated_data
      ++ (block pqr
          ++ (block (serialize_state s.ratchet_state)
              ++ (put_uint32 (length s.previous_states) ++ previous_bytes s.previous_states)))

  abbrev session_bytes : Session Q → Bytes → Bytes
  session_bytes s pqr =
      session_serialize_version
      ∷ s.version
      ∷ (serialize_identity_key s.local_identity
          ++ (serialize_identity_key s.remote_identity ++ session_tail s pqr))

  serialize_session-session_bytes :
      (s : Session Q) (pqr : Bytes)
      → IsWritable P format s
      → pqr_bytes format s.pqr_state ≡ ok pqr
      → serialize_session format s ≡ ok (session_bytes s pqr)
  unfolding serialize_session version_or_current
  serialize_session-session_bytes s pqr h e =
      rw
        (
          equal_length
              (length-serialize_identity_key s.local_identity h.local.public h.local.signing),
          equal_length
              (length-serialize_identity_key s.remote_identity h.remote.public h.remote.signing),
          e,
          h.version,
        )
        refl

  read_session-session_tail :
      (s : Session Q) (pqr : Bytes)
      → IsWritable P format s
      → ((rest : Bytes) → read_pqr P format true (block pqr ++ rest) ≡ ok (s.pqr_state, rest))
      → read_session P format session_serialize_version s.version (
          serialize_identity_key s.local_identity
          ++ (serialize_identity_key s.remote_identity ++ session_tail s pqr))
        ≡ ok (stored_session s)
  unfolding read_session read_previous_count no_trailing stored_session
  read_session-session_tail s pqr h read =
      let count = length s.previous_states in
      let b3 = put_uint32 count ++ previous_bytes s.previous_states in
      let raw = serialize_state s.ratchet_state in
      let b2 = block raw ++ b3 in
      let b1 = block pqr ++ b2 in
      rw
        (
          read_identity-serialize_identity_key s.local_identity
              (serialize_identity_key s.remote_identity ++ (block s.associated_data ++ b1)) h.local,
          read_identity-serialize_identity_key s.remote_identity (block s.associated_data ++ b1)
              h.remote,
          read_block-block s.associated_data b1 h.small_ad,
          read b2,
          read_block_some-block raw b3 h.state.small (serialize_state-some s.ratchet_state),
          deserialize_state-stored s.ratchet_state h.state.storable,
          read_uint32-put_uint32 invalid_message count (previous_bytes s.previous_states)
              (few_small count h.few),
          not_short h.few,
          read_previous-All s.previous_states h.previous,
        )
        refl

  length-session_bytes :
      (s : Session Q) (pqr : Bytes) → IsWritable P format s → 136 ≤ length (session_bytes s pqr)
  unfolding block
  length-session_bytes s pqr h =
      let local = serialize_identity_key s.local_identity in
      let remote = serialize_identity_key s.remote_identity in
      let rest = session_tail s pqr in
      let after =
        block pqr
        ++ (block (serialize_state s.ratchet_state)
            ++ (put_uint32 (length s.previous_states) ++ previous_bytes s.previous_states)) in
      omega (
        arith,
        length-append local (remote ++ rest),
        length-append remote rest,
        length-serialize_identity_key s.local_identity h.local.public h.local.signing,
        length-serialize_identity_key s.remote_identity h.remote.public h.remote.signing,
        length-append (block s.associated_data) after,
        length-append (put_uint32 (length s.associated_data)) s.associated_data,
        length-put_uint32 (length s.associated_data),
      )

  deserialize_session-session_bytes :
      (s : Session Q) (pqr : Bytes)
      → IsWritable P format s
      → ((rest : Bytes) → read_pqr P format true (block pqr ++ rest) ≡ ok (s.pqr_state, rest))
      → deserialize_session P format (session_bytes s pqr) ≡ ok (stored_session s)
  unfolding deserialize_session read_versions version_or_current
  deserialize_session-session_bytes s pqr h read =
      rw
        (
          not_short (length-session_bytes s pqr h),
          h.version,
          read_session-session_tail s pqr h read,
        )
        refl

  pub session_written :
      (s : Session Q)
      → IsWritable P format s
      → (b : Bytes) × (serialize_session format s ≡ ok b)
        × (136 ≤ length b)
        × (deserialize_session P format b ≡ ok (stored_session s))
  session_written s h =
      let (pqr, e, read) = pqr_written s.pqr_state h.pqr in
      (
        session_bytes s pqr,
        serialize_session-session_bytes s pqr h e,
        length-session_bytes s pqr h,
        deserialize_session-session_bytes s pqr h read,
      )

-- Two slots for a previous state, with the same one or with none.
abbrev SameSlot : Option State → Option State → Type 0
SameSlot none none = Unit {0}
SameSlot (some s) (some t) = IsSameState s t
SameSlot _ _ = ⊥

abbrev SameSlots : List (Option State) → List (Option State) → Type 0
SameSlots [] [] = Unit {0}
SameSlots (s ∷ states) (t ∷ others) = SameSlot s t × SameSlots states others
SameSlots _ _ = ⊥

-- Equal fields, with ratchet states that have the same entries in their maps.
pub record IsSameSession {Q : Type 0} (s t : Session Q) : Type 0 where
  pub state : IsSameState s.ratchet_state t.ratchet_state
  pub pqr : s.pqr_state ≡ t.pqr_state
  pub local : s.local_identity ≡ t.local_identity
  pub remote : s.remote_identity ≡ t.remote_identity
  pub ad : s.associated_data ≡ t.associated_data
  pub previous : SameSlots s.previous_states t.previous_states
  pub version : s.version ≡ t.version

stored_if_set-SameSlots :
    (states : List (Option State))
    → All FitsIfSet states
    → SameSlots states (map stored_if_set states)
unfolding stored_if_set
stored_if_set-SameSlots [] h = tt
stored_if_set-SameSlots (none ∷ states) (unset, h) = (tt, stored_if_set-SameSlots states h)
stored_if_set-SameSlots (some s ∷ states) (fits, h) =
    (stored-IsSameState s fits.storable, stored_if_set-SameSlots states h)

pub stored_session-IsSameSession :
    {Q : Type 0} (P : Primitives) (format : PqrFormat Q) (s : Session Q)
    → IsWritable P format s
    → IsSameSession s (stored_session P format s)
unfolding stored_session
stored_session-IsSameSession P format s h = record {
  state = stored-IsSameState s.ratchet_state h.state.storable;
  pqr = refl;
  local = refl;
  remote = refl;
  ad = refl;
  previous = stored_if_set-SameSlots s.previous_states h.previous;
  version = refl;
}

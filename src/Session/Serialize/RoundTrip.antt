-- ===== src/Session/Serialize/RoundTrip.antt =====
-- Sessions that are written read back (session/record.go).
pub mod Sessions
pub mod Records
use mathlib.Core.List.{append_assoc, append-nil, map}
use signal.Common.{
  ℕ, zero, suc, ◌+◌, ◌*◌, ◌≤◌, ◌≡◌, refl, sym, ap, subst, ◌∙◌, Bool, true, false, not, ◌||◌, Option,
  none, some, List, [], ◌∷◌, ◌++◌, Bytes, Result, ok, err, ◌>>=◌, invalid_message, eqb, ltb, length,
  length-append, All, arith, if◌then◌else◌,
}
use signal.Common.Words.{IsU32, put_uint32, length-put_uint32}
use signal.Common.Reader.{
  cut, cut_some, not_short, cut-append, cut_some-append, read_uint32, read_uint32-put_uint32,
}
use signal.Crypto.{Primitives}
use signal.Keys.{IdentityKey}
use signal.Keys.Wire.{is_valid_public_key}
use signal.Keys.Serialize.{serialize_identity_key, deserialize_identity_key}
use signal.Keys.Serialize.RoundTrip.{
  length-serialize_identity_key, deserialize_identity_key-serialize_identity_key,
}
use signal.Ratchet.{State}
use signal.Ratchet.Serialize.{serialize_state, deserialize_state}
use signal.Ratchet.Serialize.RoundTrip.{
  IsStorable, IsSameState, stored, stored-IsSameState, deserialize_state-stored,
}
use signal.Session.{Session}
use signal.Session.Serialize.{
  PqrFormat, block, previous_bytes, version_or_current, read_block, read_block_some, as_invalid,
  read_state_of, read_previous_state, read_previous, read_previous_count, no_trailing, pqr_bytes,
  serialize_session, read_identity, read_pqr_state, read_pqr, read_session, read_versions,
  deserialize_session, max_previous, session_serialize_version, session_identity_size,
}

read_block-block : (b rest : Bytes) → IsU32 (length b) → read_block (block b ++ rest) ≡ ok (b, rest)
unfolding read_block block
read_block-block b rest h =
    rw
      (
        append_assoc (put_uint32 (length b)) b rest,
        read_uint32-put_uint32 invalid_message (length b) (b ++ rest) h,
        cut-append invalid_message (length b) b rest refl,
      )
      refl

read_block_some-block :
    (b rest : Bytes)
    → IsU32 (length b)
    → eqb (length b) 0 ≡ false
    → read_block_some (block b ++ rest) ≡ ok (b, rest)
unfolding read_block_some block
read_block_some-block b rest h some_bytes =
    rw
      (
        append_assoc (put_uint32 (length b)) b rest,
        read_uint32-put_uint32 invalid_message (length b) (b ++ rest) h,
        cut_some-append invalid_message (length b) b rest refl some_bytes,
      )
      refl

-- A ratchet state that fits its block.
pub record Fits (s : State) : Type 0 where
  pub storable : IsStorable s
  pub small : IsU32 (length (serialize_state s))

serialize_state-some : (s : State) → eqb (length (serialize_state s)) 0 ≡ false
unfolding serialize_state
serialize_state-some s = ground arith

abbrev FitsIfSet : Option State → Type 0
FitsIfSet none = Unit {0}
FitsIfSet (some s) = Fits s

stored_if_set : Option State → Option State
stored_if_set none = none
stored_if_set (some s) = some (stored s)

read_state_of-bytes :
    (b : Bytes) (s : State) (rest : Bytes)
    → eqb (length b) 0 ≡ false
    → deserialize_state b ≡ ok s
    → read_state_of (length b) (b ++ rest) ≡ ok (some s, rest)
unfolding read_state_of
read_state_of-bytes [] s rest some_bytes e = absurd (cc some_bytes)
read_state_of-bytes (x ∷ b) s rest some_bytes e =
    rw (cut-append invalid_message (length (x ∷ b)) (x ∷ b) rest refl, e) refl

read_previous_state-block :
    (s : State) (rest : Bytes)
    → Fits s
    → read_previous_state (block (serialize_state s) ++ rest) ≡ ok (some (stored s), rest)
unfolding read_previous_state block
read_previous_state-block s rest h =
    let b = serialize_state s in
    rw
      (
        append_assoc (put_uint32 (length b)) b rest,
        read_uint32-put_uint32 invalid_message (length b) (b ++ rest) h.small,
      )
      (read_state_of-bytes b (stored s) rest (serialize_state-some s)
        (deserialize_state-stored s h.storable))

empty_slot : (rest : Bytes) → read_previous_state (put_uint32 0 ++ rest) ≡ ok (none, rest)
unfolding read_previous_state read_state_of
empty_slot rest = rw (read_uint32-put_uint32 invalid_message 0 rest (omega arith)) refl

read_previous-previous_bytes :
    (states : List (Option State)) (rest : Bytes)
    → All FitsIfSet states
    → read_previous (length states) (previous_bytes states ++ rest)
      ≡ ok (map stored_if_set states, rest)
unfolding read_previous previous_bytes stored_if_set
read_previous-previous_bytes [] rest h = refl
read_previous-previous_bytes (none ∷ states) rest (unset, h) =
    rw
      (
        append_assoc (put_uint32 0) (previous_bytes states) rest,
        empty_slot (previous_bytes states ++ rest),
        read_previous-previous_bytes states rest h,
      )
      refl
read_previous-previous_bytes (some s ∷ states) rest (fits, h) =
    rw
      (
        append_assoc (block (serialize_state s)) (previous_bytes states) rest,
        read_previous_state-block s (previous_bytes states ++ rest) fits,
        read_previous-previous_bytes states rest h,
      )
      refl

-- The states at the end of the bytes.
read_previous-All :
    (states : List (Option State))
    → All FitsIfSet states
    → read_previous (length states) (previous_bytes states) ≡ ok (map stored_if_set states, [])
read_previous-All states h =
    subst (λ b. read_previous (length states) b ≡ ok (map stored_if_set states, []))
      (append-nil (previous_bytes states)) (read_previous-previous_bytes states [] h)

positive : {n : ℕ} → 136 ≤ n → eqb n 0 ≡ false
positive h = ground arith

equal_length : {n m : ℕ} → n ≡ m → eqb n m ≡ true
equal_length h = ground arith

few_small : (n : ℕ) → n ≤ max_previous → IsU32 n
few_small n h = omega arith

-- An identity key as Go's types and the reader want it.
pub record IsReadable (P : Primitives) (k : IdentityKey) : Type 0 where
  pub public : length k.public_key ≡ 32
  pub signing : length k.signing_public ≡ 32
  pub valid : is_valid_public_key P k.public_key ≡ true

-- What the format writes of a state of package spqr, it reads back.
abbrev pub IsWritten : {Q : Type 0} → PqrFormat Q → Option Q → Type 0
IsWritten format none = Unit {0}
IsWritten format (some q) =
    (b : Bytes) × (format.write q ≡ ok b)
    × (eqb (length b) 0 ≡ false)
    × IsU32 (length b)
    × (format.read b ≡ ok (some q))

pub record IsWritable {Q : Type 0} (P : Primitives) (format : PqrFormat Q) (s : Session Q)
    : Type 0 where
  pub local : IsReadable P s.local_identity
  pub remote : IsReadable P s.remote_identity
  pub small_ad : IsU32 (length s.associated_data)
  pub pqr : IsWritten format s.pqr_state
  pub state : Fits s.ratchet_state
  pub previous : All FitsIfSet s.previous_states
  pub few : length s.previous_states ≤ max_previous
  pub version : eqb s.version 0 ≡ false

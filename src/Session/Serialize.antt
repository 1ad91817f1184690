-- ===== src/Session/Serialize.antt =====
-- The serialized form of session/record.go. The state of package spqr is opaque here: `PqrFormat` is its
-- Serialize and DeserializeState.
pub mod RoundTrip
use signal.Common.{
  panicked, ℕ, zero, suc, ◌+◌, ◌*◌, Bool, true, false, not, ◌&&◌, ◌||◌, Option, none, some, List,
  [], ◌∷◌, ◌++◌, Bytes, bytes_beq, Error, Result, ok, err, ◌>>=◌, plain, invalid_message, eqb, ltb,
  length, take, drop, if◌then◌else◌,
}
use signal.Common.Words.{put_uint16, put_uint32}
use signal.Common.Reader.{Reader, cut, cut_some, read_uint16, read_uint32}
use signal.Crypto.{Primitives}
use signal.Keys.{IdentityKey}
use signal.Keys.Serialize.{serialize_identity_key, deserialize_identity_key}
use signal.Ratchet.{State}
use signal.Ratchet.Serialize.{serialize_state, deserialize_state}
use signal.Session.{Session, current_version}
use signal.Session.Record.{Record, default_max_archived_sessions}

pub record PqrFormat (Q : Type 0) : Type 0 where
  pub write : Q → Result Bytes
  pub read : Bytes → Result (Option Q)

-- "SIGR"
abbrev pub record_serialize_magic : Bytes
record_serialize_magic = b'S' ∷ b'I' ∷ b'G' ∷ b'R' ∷ []

abbrev pub record_serialize_version : ℕ
record_serialize_version = 1

abbrev record_min_size : ℕ
record_min_size = 4 + 1 + 2 + 4 + 2

abbrev session_serialize_version : ℕ
session_serialize_version = 2

abbrev session_identity_size : ℕ
session_identity_size = 1 + 32 + 32

-- The most previous states that are read.
abbrev max_previous : ℕ
max_previous = 1000

-- The length and the bytes.
unfoldable pub block : Bytes → Bytes
block b = put_uint32 (length b) ++ b

previous_bytes : List (Option State) → Bytes
unfolding block
previous_bytes [] = []
previous_bytes (none ∷ states) = put_uint32 0 ++ previous_bytes states
previous_bytes (some state ∷ states) = block (serialize_state state) ++ previous_bytes states

version_or_current : ℕ → ℕ
version_or_current version = if eqb version 0 then current_version else version

limit_or_default : ℕ → ℕ
limit_or_default n = if eqb n 0 then default_max_archived_sessions else n

-- A block of any length, and one that must not be empty.
read_block : Reader Bytes
unfolding read_uint32 cut
read_block input = do
  (size, rest) ← read_uint32 invalid_message input
  cut invalid_message size rest

read_block_some : Reader Bytes
unfolding read_uint32 cut_some
read_block_some input = do
  (size, rest) ← read_uint32 invalid_message input
  cut_some invalid_message size rest

-- An error that is wrapped as ErrInvalidMessage. A panic goes on.
unfoldable pub as_invalid {ℓ} : {A : Type ℓ} → Result A → Result A
as_invalid (ok a) = ok a
as_invalid (err panicked) = err panicked
as_invalid (err e) = err invalid_message

read_state_of : ℕ → Reader (Option State)
unfolding cut
read_state_of zero input = ok (none, input)
read_state_of (suc n) input = do
  (raw, rest) ← cut invalid_message (suc n) input
  state ← deserialize_state raw
  ok (some state, rest)

read_previous_state : Reader (Option State)
unfolding read_state_of read_uint32
read_previous_state input = do
  (size, rest) ← read_uint32 invalid_message input
  read_state_of size rest

read_previous : ℕ → Reader (List (Option State))
unfolding read_previous_state
read_previous zero input = ok ([], input)
read_previous (suc n) input = do
  (state, b1) ← read_previous_state input
  (states, rest) ← read_previous n b1
  ok (state ∷ states, rest)

read_previous_count : Reader ℕ
unfolding read_uint32
read_previous_count input = do
  (count, rest) ← read_uint32 invalid_message input
  (if ltb max_previous count then err invalid_message else ok (count, rest))

no_trailing : {A : Type 0} → A → Bytes → Result A
no_trailing a [] = ok a
no_trailing a (b ∷ rest) = err invalid_message

module _ {Q : Type 0} (format : PqrFormat Q) where
  -- A nil state is written as nothing.
  pqr_bytes : Option Q → Result Bytes
  pqr_bytes none = ok []
  pqr_bytes (some q) = format.write q

  unfoldable pub serialize_session : Session Q → Result Bytes
  unfolding pqr_bytes block previous_bytes version_or_current serialize_identity_key serialize_state
  serialize_session s =
      let local = serialize_identity_key s.local_identity in
      let remote = serialize_identity_key s.remote_identity in
      if not (eqb (length local) session_identity_size)
        || not (eqb (length remote) session_identity_size)
      then err invalid_message
      else do
        pqr ← pqr_bytes s.pqr_state
        ok (
            session_serialize_version
            ∷ version_or_current s.version
            ∷ (local
                ++ (remote
                    ++ (block s.associated_data
                        ++ (block pqr
                            ++ (block (serialize_state s.ratchet_state)
                                ++ (put_uint32 (length s.previous_states)
                                    ++ previous_bytes s.previous_states)))))))

  archived_bytes : List (Session Q) → Result Bytes
  unfolding serialize_session block
  archived_bytes [] = ok []
  archived_bytes (s ∷ sessions) = do
    first ← serialize_session s
    others ← archived_bytes sessions
    ok (block first ++ others)

  unfoldable pub serialize_record : Record Q → Result Bytes
  unfolding serialize_session archived_bytes limit_or_default block
  serialize_record r =
      let max = limit_or_default r.max_archived in
      let archived = if ltb max (length r.archived) then take max r.archived else r.archived in
      do
        current ← serialize_session r.current
        others ← archived_bytes archived
        ok (
            record_serialize_magic
            ++ (record_serialize_version
                ∷ (put_uint16 max ++ (block current ++ (put_uint16 (length archived) ++ others)))))

module _ (P : Primitives) where
  read_identity : Reader IdentityKey
  unfolding cut deserialize_identity_key as_invalid
  read_identity input = do
    (raw, rest) ← cut invalid_message session_identity_size input
    k ← as_invalid (deserialize_identity_key P raw)
    ok (k, rest)

module _ (P : Primitives) {Q : Type 0} (format : PqrFormat Q) where
  -- An empty block is a nil state.
  read_pqr_state : Bytes → Result (Option Q)
  read_pqr_state [] = ok none
  read_pqr_state (b ∷ raw) = format.read (b ∷ raw)

  -- Version 1 has no such block.
  read_pqr : Bool → Reader (Option Q)
  unfolding read_block read_pqr_state
  read_pqr false input = ok (none, input)
  read_pqr true input = do (raw, rest) ← read_block input; q ← read_pqr_state raw; ok (q, rest)

  read_session : ℕ → ℕ → Bytes → Result (Session Q)
  unfolding read_identity read_pqr read_block read_block_some read_previous_count read_previous
      no_trailing deserialize_state
  read_session ver version input = do
    (local, b1) ← read_identity P input
    (remote, b2) ← read_identity P b1
    (ad, b3) ← read_block b2
    (pqr, b4) ← read_pqr (eqb ver session_serialize_version) b3
    (raw, b5) ← read_block_some b4
    state ← deserialize_state raw
    (count, b6) ← read_previous_count b5
    (previous, b7) ← read_previous count b6
    no_trailing
        (record {
          ratchet_state = state;
          pqr_state = pqr;
          local_identity = local;
          remote_identity = remote;
          associated_data = ad;
          previous_states = previous;
          version = version;
        })
        b7

  read_versions : Bytes → Result (Session Q)
  unfolding read_session version_or_current
  read_versions (ver ∷ version ∷ rest) =
      if not (eqb ver 1) && not (eqb ver session_serialize_version)
      then err invalid_message
      else read_session ver (version_or_current version) rest
  read_versions _ = err invalid_message

  unfoldable pub deserialize_session : Bytes → Result (Session Q)
  unfolding read_versions
  deserialize_session input =
      if ltb (length input) (1 + 1 + session_identity_size * 2 + 4)
      then err invalid_message
      else read_versions input

  -- What the archive becomes: a session is read only while there is room.
  grow : ℕ → List (Session Q) → Bytes → Result (List (Session Q))
  unfolding deserialize_session
  grow max archived raw =
      if ltb (length archived) max
      then deserialize_session raw >>= (λ s. ok (archived ++ (s ∷ [])))
      else ok archived

  read_archived : ℕ → ℕ → List (Session Q) → Reader (List (Session Q))
  unfolding read_block_some grow
  read_archived zero max archived input = ok (archived, input)
  read_archived (suc n) max archived input = do
    (raw, rest) ← read_block_some input
    grown ← grow max archived raw
    read_archived n max grown rest

  -- data[pos:pos+2] behind the current session is not checked: where the bytes end there, the code panics, or
  -- reads past the end where the slice has the capacity.
  read_record : Bytes → Result (Record Q)
  unfolding read_uint16 read_block_some deserialize_session read_archived no_trailing
      limit_or_default
  read_record input = do
    (max, b1) ← read_uint16 invalid_message input
    (raw, b2) ← read_block_some b1
    current ← deserialize_session raw
    (count, b3) ← read_uint16 panicked b2
    (archived, b4) ← read_archived count (limit_or_default max) [] b3
    no_trailing
        (record { current = current; archived = archived; max_archived = limit_or_default max }) b4

  read_record_version : Bytes → Result (Record Q)
  unfolding read_record
  read_record_version [] = err invalid_message
  read_record_version (version ∷ rest) =
      if not (eqb version record_serialize_version)
      then err invalid_message
      else if ltb (length rest) (2 + 4 + 2)
      then err invalid_message
      else read_record rest

  unfoldable pub deserialize_record : Bytes → Result (Record Q)
  unfolding read_record_version
  deserialize_record input =
      if ltb (length input) record_min_size || not (bytes_beq (take 4 input) record_serialize_magic)
      then err invalid_message
      else read_record_version (drop 4 input)

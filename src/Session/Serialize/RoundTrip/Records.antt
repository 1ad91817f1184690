-- ===== src/Session/Serialize/RoundTrip/Records.antt =====
-- Records that are written read back, and what happens when they end too early (session/record.go).
use mathlib.Core.List.{append_assoc, append-nil}
use signal.Common.{
  panicked, ℕ, suc, ◌+◌, ◌≤◌, ◌≡◌, refl, true, false, List, [], ◌∷◌, ◌++◌, Bytes, bytes_beq, ok,
  err, ◌>>=◌, invalid_message, eqb, ltb, length, length-append, All, arith,
}
use signal.Common.Words.{IsU16, IsU32, put_uint16, put_uint32, length-put_uint16, length-put_uint32}
use signal.Common.Reader.{cut, not_short, read_uint16-put_uint16}
use signal.Crypto.{Primitives}
use signal.Session.{Session}
use signal.Session.Record.{Record}
use signal.Session.Serialize.{
  PqrFormat, block, limit_or_default, serialize_session, archived_bytes, serialize_record,
  no_trailing, grow, read_archived, read_record, read_record_version, deserialize_record,
  record_serialize_magic, record_serialize_version,
}
use signal.Session.Serialize.RoundTrip.{IsWritable, positive, read_block_some-block}
use signal.Session.Serialize.RoundTrip.Sessions.{
  IsSameSession, stored_session, stored_session-IsSameSession, session_written,
}

abbrev SameSessions : {Q : Type 0} → List (Session Q) → List (Session Q) → Type 0
SameSessions [] [] = Unit {0}
SameSessions (s ∷ sessions) (t ∷ others) = IsSameSession s t × SameSessions sessions others
SameSessions _ _ = ⊥

-- The same current and archived sessions, and the same limit.
pub record IsSameRecord {Q : Type 0} (r t : Record Q) : Type 0 where
  pub current : IsSameSession r.current t.current
  pub archived : SameSessions r.archived t.archived
  pub max : r.max_archived ≡ t.max_archived

-- A session that reads back as it is written, in fewer than 2^32 bytes.
pub record IsBlock {Q : Type 0} (P : Primitives) (format : PqrFormat Q) (s : Session Q)
    : Type 0 where
  pub writable : IsWritable P format s
  pub small : (b : Bytes) → serialize_session format s ≡ ok b → IsU32 (length b)

pub record IsWritableRecord {Q : Type 0} (P : Primitives) (format : PqrFormat Q) (r : Record Q)
    : Type 0 where
  pub current : IsBlock P format r.current
  pub archived : All (IsBlock P format) r.archived
  pub some_room : eqb r.max_archived 0 ≡ false
  pub small_max : IsU16 r.max_archived
  pub room : length r.archived ≤ r.max_archived

more : {n : ℕ} → 8 ≤ n → 13 ≤ suc (suc (suc (suc (suc n))))
more h = omega arith

below :
    {A : Type 0} (xs : List A) (n max : ℕ) → length xs + suc n ≤ max → ltb (length xs) max ≡ true
below xs n max h = ground arith

module _ (P : Primitives) {Q : Type 0} (format : PqrFormat Q) where
  stored_sessions : List (Session Q) → List (Session Q)
  stored_sessions [] = []
  stored_sessions (s ∷ sessions) = stored_session P format s ∷ stored_sessions sessions

  stored_sessions-SameSessions :
      (sessions : List (Session Q))
      → All (IsBlock P format) sessions
      → SameSessions sessions (stored_sessions sessions)
  unfolding stored_sessions
  stored_sessions-SameSessions [] h = tt
  stored_sessions-SameSessions (s ∷ sessions) (b, h) =
      (stored_session-IsSameSession P format s b.writable, stored_sessions-SameSessions sessions h)

  -- The sessions behind those that are read, within the limit.
  archived_written :
      (max : ℕ) (sessions : List (Session Q))
      → All (IsBlock P format) sessions
      → (b : Bytes) × (archived_bytes format sessions ≡ ok b)
        × ((kept : List (Session Q))
            → length kept + length sessions ≤ max
            → read_archived P format (length sessions) max kept b
              ≡ ok (kept ++ stored_sessions sessions, []))
  unfolding archived_bytes read_archived grow stored_sessions
  archived_written max [] h = ([], refl, λ kept room. rw (append-nil kept) refl)
  archived_written max (s ∷ sessions) (one, h) =
      let (first, e, long, read) = session_written P format s one.writable in
      let (others, e', read') = archived_written max sessions h in
      (
        block first ++ others,
        rw (e, e') refl,
        λ kept room.
            let grown = kept ++ (stored_session P format s ∷ []) in
            let l : length grown ≡ length kept + 1 =
              length-append kept (stored_session P format s ∷ []) in
            rw
              (
                read_block_some-block first others (one.small first e) (positive long),
                below kept (length sessions) max room,
                read,
                read' grown (omega (arith, l, room)),
                append_assoc kept (stored_session P format s ∷ []) (stored_sessions sessions),
              )
              refl,
      )

  -- The record up to the count of the archived sessions.
  abbrev pub front : ℕ → Bytes → Bytes → Bytes
  front max current rest =
      record_serialize_magic
      ++ (record_serialize_version ∷ (put_uint16 max ++ (block current ++ rest)))

  deserialize_record-front :
      (max : ℕ) (current rest : Bytes)
      → 2 ≤ length current + length rest
      → deserialize_record P format (front max current rest)
        ≡ read_record P format (put_uint16 max ++ (block current ++ rest))
  unfolding deserialize_record read_record_version block bytes_beq
  deserialize_record-front max current rest long =
      let l1 = length-append (put_uint16 max) ((put_uint32 (length current) ++ current) ++ rest) in
      let l2 = length-append (put_uint32 (length current) ++ current) rest in
      let l3 = length-append (put_uint32 (length current)) current in
      let body = put_uint16 max ++ ((put_uint32 (length current) ++ current) ++ rest) in
      let l : 8 ≤ length body =
        omega
          (arith, l1, l2, l3, length-put_uint16 max, length-put_uint32 (length current), long) in
      rw (not_short (more l), not_short l) refl

  abbrev written_front : ℕ → List (Session Q) → Bytes → Bytes → Bytes
  written_front max archived current others =
      front max current (put_uint16 (length archived) ++ others)

  serialize_record-front :
      (r : Record Q) (current others : Bytes)
      → IsWritableRecord P format r
      → serialize_session format r.current ≡ ok current
      → archived_bytes format r.archived ≡ ok others
      → serialize_record format r ≡ ok (written_front r.max_archived r.archived current others)
  unfolding serialize_record limit_or_default
  serialize_record-front r current others h e e' = rw (h.some_room, not_short h.room, e, e') refl

  -- A record reads back as it was written: the same limit and the same sessions, with equal fields and, in the maps of
  -- their ratchet states, equal entries. The conditions: the limit on archived sessions is set, below 2^16, and kept.
  -- Each session takes fewer than 2^32 bytes. It has a version other than 0, identity keys of 32 bytes that the reader
  -- takes as valid, fewer than 2^32 bytes of associated data, and at most 1000 previous states. Its ratchet states have
  -- the sizes of Go's types, at most max_skip skipped keys, and fewer than 2^32 bytes. Its state of package spqr, which
  -- is not modelled, is taken to be written in some bytes, fewer than 2^32, that are read back as that state.
  pub deserialize_record-serialize_record :
      (r : Record Q)
      → IsWritableRecord P format r
      → (t : Record Q) × ((serialize_record format r >>= deserialize_record P format) ≡ ok t)
        × IsSameRecord r t
  unfolding read_record limit_or_default no_trailing
  deserialize_record-serialize_record r h =
      let (current, e, long, read) = session_written P format r.current h.current.writable in
      let (others, e', read') = archived_written r.max_archived r.archived h.archived in
      let count = length r.archived in
      let rest = put_uint16 count ++ others in
      let l = length-append (put_uint16 count) others in
      let archived = read' [] (omega (arith, h.room)) in
      (
        record {
          current = stored_session P format r.current;
          archived = stored_sessions r.archived;
          max_archived = r.max_archived;
        },
        rw
            (
              serialize_record-front r current others h e e',
              deserialize_record-front r.max_archived current rest (omega (arith, long)),
              read_uint16-put_uint16 invalid_message r.max_archived (block current ++ rest)
                  h.small_max,
              read_block_some-block current rest (h.current.small current e) (positive long),
              read,
              read_uint16-put_uint16 panicked count others (omega (arith, h.room, h.small_max)),
              h.some_room,
              archived,
            )
            refl,
        record {
          current = stored_session-IsSameSession P format r.current h.current.writable;
          archived = stored_sessions-SameSessions r.archived h.archived;
          max = refl;
        },
      )

  -- A record that ends right behind its current session is not refused as invalid: the count of archived
  -- sessions is read past the end.
  pub deserialize_record-cut_off :
      (s : Session Q) (max : ℕ) (b : Bytes)
      → IsBlock P format s
      → IsU16 max
      → serialize_session format s ≡ ok b
      → deserialize_record P format (front max b []) ≡ err panicked
  unfolding read_record cut
  deserialize_record-cut_off s max b h small e =
      let (b', e', long', read') = session_written P format s h.writable in
      let same : b' ≡ b = cc (e, e') in
      let long = rw same at long' in
      let read = rw same at read' in
      rw
        (
          deserialize_record-front max b [] (omega (arith, long)),
          read_uint16-put_uint16 invalid_message max (block b ++ []) small,
          read_block_some-block b [] (h.small b e) (positive long),
          read,
        )
        refl

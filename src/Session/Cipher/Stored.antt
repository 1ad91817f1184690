-- ===== src/Session/Cipher/Stored.antt =====
-- What is persisted is what is loaded (persistRecord and loadRecordOptional of session/cipher.go).
use signal.Common.{
  ℕ, suc, ◌≡◌, ◌≢◌, refl, ◌∙◌, some, List, [], ◌∷◌, Bytes, ok, inl, inr, eqb, length, false, arith,
  Result-bind-ok,
}
use signal.Common.Map.{Map, lookup-insert}
use signal.Crypto.{Primitives}
use signal.Store.{Address, address_eq, SessionRecord, Store}
use signal.Store.Sessions.{load_session, store_session, enforce_session_limit}
use signal.Store.Sessions.Limit.{enforce_session_limit-keeps}
use signal.Session.Record.{Record}
use signal.Session.Serialize.{PqrFormat, as_invalid, serialize_record, deserialize_record}
use signal.Session.Serialize.RoundTrip.Records.{
  IsWritableRecord, IsSameRecord, deserialize_record-serialize_record,
}
use signal.Session.Cipher.{load_record_optional, parse_record, persist_record}

load_session-store_session :
    (addr : Address) (rec : SessionRecord) (m : Store)
    → load_session addr (store_session addr (some rec) m) ≡ some rec
unfolding load_session store_session
load_session-store_session addr rec m =
    ground (arith, lookup-insert addr addr rec m.sessions, address_eq.beq_iff addr addr)

load_session-store_other :
    (addr other : Address) (rec : SessionRecord) (m : Store)
    → other.name ≢ addr.name
    → load_session other (store_session addr (some rec) m) ≡ load_session other m
unfolding load_session store_session
load_session-store_other addr other rec m differ =
    ground (arith, lookup-insert addr other rec m.sessions, address_eq.beq_iff addr other, differ)

not_zero : (n : ℕ) → eqb (suc n) 0 ≡ false
not_zero n = ground arith

module _ (P : Primitives) {Q : Type 0} (format : PqrFormat Q) where
  -- Bytes that are read as a record are some.
  not_empty :
      (b : Bytes) (t : Record Q) → deserialize_record P format b ≡ ok t → eqb (length b) 0 ≡ false
  unfolding deserialize_record
  not_empty [] t e = absurd (cc e)
  not_empty (x ∷ b) t e = not_zero (length b)

  -- A record that meets the conditions below is persisted without an error, whatever order Go ranges over the sessions
  -- in. What is loaded from the address then is the same record: the same limit and the same sessions, with equal fields
  -- and, in the maps of their ratchet states, equal entries. The session at any address with another name stays as it
  -- was. The conditions: the record's limit on archived sessions is set, below 2^16, and kept. Each session takes fewer
  -- than 2^32 bytes. It has a version other than 0, identity keys of 32 bytes that the reader takes as valid, fewer
  -- than 2^32 bytes of associated data, and at most 1000 previous states. Its ratchet states have the sizes of Go's
  -- types, at most max_skip skipped keys, and fewer than 2^32 bytes. Its state of package spqr, which is not modelled,
  -- is taken to be written in some bytes, fewer than 2^32, that are read back as that state.
  pub load_record_optional-persist_record :
      (order : Map Address SessionRecord → List Address) (addr other : Address) (r : Record Q)
      (m : Store)
      → IsWritableRecord P format r
      → other.name ≢ addr.name
      → (m' : Store) × (t : Record Q) × (persist_record P format order addr r m ≡ (ok tt, m'))
        × (load_record_optional P format addr m' ≡ ok (some t))
        × IsSameRecord r t
        × (load_session other m' ≡ load_session other m)
  unfolding persist_record load_record_optional parse_record as_invalid
  load_record_optional-persist_record order addr other r m h differ =
      let (t, read, same) = deserialize_record-serialize_record P format r h in
      let (raw, written, back) =
        Result-bind-ok (serialize_record format r) (deserialize_record P format) t read in
      let rec : SessionRecord = record { data_bytes = raw } in
      let m1 = store_session addr (some rec) m in
      let kept =
        enforce_session_limit-keeps order addr addr m1 (inr refl)
        ∙ load_session-store_session addr rec m in
      let others =
        enforce_session_limit-keeps order addr other m1 (inl differ)
        ∙ load_session-store_other addr other rec m differ in
      (
        enforce_session_limit order addr m1,
        t,
        rw written refl,
        rw (kept, not_empty raw t back, back) refl,
        same,
        others,
      )

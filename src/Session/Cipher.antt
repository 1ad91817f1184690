-- ===== src/Session/Cipher.antt =====
-- Cipher of session/cipher.go and session/prekey_cipher.go: messages of one remote address, over the in-memory store.
-- Its LoadSession, StoreSession and EnforceSessionLimit do not fail.
pub mod Kept
pub mod Stored
pub mod Consumed
pub mod Runs
use signal.Common.{
  ℕ, Bool, true, false, not, Option, none, some, List, [], ◌∷◌, Bytes, Error, Result, ok, err,
  invalid_message, no_session, stale_key_exchange, eqb, length, if◌then◌else◌, pos, ◌>>=◌ as bind,
}
use signal.Common.Map.{Map}
use signal.Common.Exec.{Exec, raise, lift, get, modify, ◌>>=◌, ◌>>◌}
use signal.Crypto.{Primitives}
use signal.Crypto.Kyber.{Kem}
use signal.Keys.{IdentityKey}
use signal.Keys.Bundle.{PreKeyBundle}
use signal.Ratchet.{State, Message}
use signal.Ratchet.Send.{encrypt}
use signal.Ratchet.Receive.{decrypt}
use signal.Store.{Address, SessionRecord, Store}
use signal.Store.Sessions.{load_session, store_session, contains_session, enforce_session_limit}
use signal.X3dh.{Message as InitialMessage}
use signal.X3dh.Serialize.{serialize_message, deserialize_message}
use signal.Session.{Session}
use signal.Session.Record.{Record, new_record, promote, default_max_archived_sessions}
use signal.Session.Receive.{is_duplicate, decrypt_ratchet_message}
use signal.Session.Serialize.{PqrFormat, as_invalid, serialize_record, deserialize_record}
use signal.Session.Envelope.{
  envelope_type_signal, envelope_type_pre_key, encode_envelope, decode_envelope,
  encode_ratchet_message, decode_ratchet_message,
}
use signal.Session.Builder.{
  PqrDirection, Entropy, builder_process_pre_key_bundle, builder_process_pre_key_message,
}

-- What a call reads from the random source: by the attempts at the sessions of a record, by the builder, and by the
-- first message of the session that was built. `now` is the clock.
pub record Reads : Type 0 where
  pub attempts : ℕ → Option Bytes
  pub builder : Entropy
  pub first : Option Bytes
  pub now : ℕ

module _ (P : Primitives) {Q : Type 0} where
  -- The session writes a message, and moves on.
  encrypt_session : Bytes → Session Q → Result (Message × Session Q)
  encrypt_session plaintext s =
      let (sealed, state) = encrypt P plaintext s.associated_data s.ratchet_state in
      bind sealed λ msg. ok (msg, record s { ratchet_state = state })

  -- The session that was built reads its first message.
  decrypt_first : Option Bytes → Message → Session Q → Result (Bytes × Session Q)
  decrypt_first random msg s =
      let (opened, state) = decrypt P random msg s.associated_data s.ratchet_state in
      bind opened λ text. ok (text, record s { ratchet_state = state })

module _ (P : Primitives) {Q : Type 0} (format : PqrFormat Q) where
  -- No record, or one without bytes, is none.
  parse_record : Option SessionRecord → Result (Option (Record Q))
  parse_record none = ok none
  parse_record (some rec) =
      if eqb (length rec.data_bytes) 0
      then ok none
      else bind (as_invalid (deserialize_record P format rec.data_bytes)) λ r. ok (some r)

  unfoldable pub load_record_optional : Address → Store → Result (Option (Record Q))
  unfolding parse_record
  load_record_optional addr m = parse_record (load_session addr m)

  require_record : Option (Record Q) → Result (Record Q)
  require_record none = err no_session
  require_record (some r) = ok r

  unfoldable pub load_record_required : Address → Store → Result (Record Q)
  unfolding load_record_optional require_record
  load_record_required addr m = bind (load_record_optional addr m) require_record

-- `order` is the order in which Go ranges over the map of sessions.
module _ (P : Primitives) {Q : Type 0} (format : PqrFormat Q)
    (order : Map Address SessionRecord → List Address) (addr : Address) where
  unfoldable pub persist_record : Record Q → Exec Store (Unit {0})
  persist_record r = do
    raw ← lift (as_invalid (serialize_record format r))
    modify (store_session addr (some (record { data_bytes = raw })))
    modify (enforce_session_limit order addr)

  unfoldable pub cipher_encrypt : Bytes → Exec Store Bytes
  unfolding load_record_required encrypt_session persist_record encode_ratchet_message
      encode_envelope
  cipher_encrypt plaintext = do
    m ← get
    loaded ← lift (load_record_required P format addr m)
    (msg, later) ← lift (encrypt_session P plaintext loaded.current)
    persist_record (record loaded { current = later })
    lift (ok (encode_envelope envelope_type_signal (encode_ratchet_message msg)))

  -- A text is kept only with the record that it leaves.
  settle : Result Bytes × Record Q → Exec Store Bytes
  unfolding persist_record
  settle (ok text, r) = persist_record r >> lift (ok text)
  settle (err e, r) = lift (err e)

  decrypt_signal_message : (ℕ → Option Bytes) → Bytes → Exec Store Bytes
  unfolding load_record_required settle decrypt_ratchet_message decode_ratchet_message
  decrypt_signal_message attempts payload = do
    msg ← lift (decode_ratchet_message payload)
    m ← get
    r ← lift (load_record_required P format addr m)
    settle (decrypt_ratchet_message P attempts msg r)

  -- The record with the session that was built.
  record_with : Option (Record Q) → Session Q → Record Q
  record_with none s = new_record s (pos default_max_archived_sessions)
  record_with (some r) s = promote none s r

module _ (P : Primitives) (K : Kem) (verify : IdentityKey → Bytes → Bytes → Bool) {Q : Type 0}
    (format : PqrFormat Q) (new_pqr : Bytes → PqrDirection → Result Q)
    (order : Map Address SessionRecord → List Address) (addr : Address) where
  -- The session is built from the initial message, and reads the ratchet message.
  unfoldable pub accept : Reads → InitialMessage → Message → Option (Record Q) → Exec Store Bytes
  unfolding builder_process_pre_key_message decrypt_first record_with persist_record
  accept random initial msg old = do
    (session, ad) ←
        builder_process_pre_key_message P K verify new_pqr addr random.builder random.now initial
    (text, later) ← lift (decrypt_first P random.first msg session)
    persist_record P format order addr (record_with P format order addr old later)
    lift (ok text)

  -- What follows the attempt at the record's sessions.
  after_attempts : Reads → InitialMessage → Message → Result Bytes × Record Q → Exec Store Bytes
  unfolding persist_record accept is_duplicate
  after_attempts random initial msg (ok text, r) =
      persist_record P format order addr r >> lift (ok text)
  after_attempts random initial msg (err e, r) =
      if is_duplicate e then lift (err e) else accept random initial msg (some r)

  try_record : Reads → InitialMessage → Message → Option (Record Q) → Exec Store Bytes
  unfolding decrypt_ratchet_message after_attempts accept
  try_record random initial msg none = accept random initial msg none
  try_record random initial msg (some r) =
      after_attempts random initial msg (decrypt_ratchet_message P random.attempts msg r)

  has_ciphertext : InitialMessage → Result (Unit {0})
  has_ciphertext initial = if eqb (length initial.ciphertext) 0 then err invalid_message else ok tt

  decrypt_pre_key_message : Reads → Bytes → Exec Store Bytes
  unfolding has_ciphertext load_record_optional try_record deserialize_message
      decode_ratchet_message
  decrypt_pre_key_message random payload = do
    initial ← lift (as_invalid (deserialize_message P payload))
    lift (has_ciphertext initial)
    msg ← lift (decode_ratchet_message initial.ciphertext)
    m ← get
    old ← lift (load_record_optional P format addr m)
    try_record random initial msg old

  unfoldable pub cipher_decrypt : Reads → Bytes → Exec Store Bytes
  unfolding decode_envelope decrypt_signal_message decrypt_pre_key_message
  cipher_decrypt random input = do
    (msg_type, payload) ← lift (decode_envelope input)
    (if eqb msg_type envelope_type_signal
        then decrypt_signal_message P format order addr random.attempts payload
        else if eqb msg_type envelope_type_pre_key
        then decrypt_pre_key_message random payload
        else lift (err invalid_message))

  unfoldable pub encrypt_with_pre_key_bundle : Entropy → PreKeyBundle → Bytes → Exec Store Bytes
  unfolding encrypt_session builder_process_pre_key_bundle persist_record serialize_message
      encode_envelope encode_ratchet_message
  encrypt_with_pre_key_bundle random bundle plaintext m =
      if contains_session addr m
      then (err stale_key_exchange, m)
      else (do
        (session, initial) ← builder_process_pre_key_bundle P K verify new_pqr addr random bundle
        (msg, later) ← lift (encrypt_session P plaintext session)
        persist_record P format order addr (new_record later (pos default_max_archived_sessions))
        raw ← lift (
            as_invalid
              (serialize_message (record initial { ciphertext = encode_ratchet_message msg })))
        lift (ok (encode_envelope envelope_type_pre_key raw)))
          m

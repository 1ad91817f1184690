-- ===== src/Session/Cipher/Runs.antt =====
-- The session cipher on small inputs.
use signal.Common.{
  Bool, no_session, arith, invalid_message, ℕ, ◌≡◌, ◌≢◌, refl, ap, none, some, List, [], ◌∷◌, Bytes,
  Result, ok, err, no_session, string_eq, bytes_beq, true, false, length,
}
use signal.Common.Map
use signal.Common.Map.{Map}
use signal.Crypto.{dh, hkdf, generate_key_pair, key_pair_from_private}
use signal.Common.Words.{IsU32, array32, put_uint32, uint32, put_uint16}
use signal.Ratchet.Encoding.{serialize, deserialize}
use signal.Crypto.Toy.{toy, fill, head}
use signal.Crypto.Kyber.Toy.{toy_kem}
use signal.Keys.Serialize.{serialize_identity_key}
use signal.Keys.Wire.{is_valid_public_key}
use signal.Ratchet.{Message}
use signal.Ratchet.Init.{
  initialize_state, initialize_state_with_generator, initial as initial_state,
}
use signal.Ratchet.Turn.{next_root}
use signal.Ratchet.Chain.{kdf_root}
use signal.Ratchet.Receive.{
  decrypt, reject_old, turn_if_new, receiving_key, decrypt_with_message_key,
}
use signal.Ratchet.Skip.{skip_message_keys}
use signal.Store.{address_beq, Address, SessionRecord, Store, receiving}
use signal.Store.Identities.{
  is_trusted_identity, new_store, get_identity_key_pair, is_zero_key32, save_identity, signing_from,
  trusted_by,
}
use signal.Store.PreKeys.{load_pre_key, load_signed_pre_key, signed_pre_key_expired, remove_pre_key}
use signal.Store.Sessions.{load_session}
use signal.X3dh.{Message as InitialMessage}
use signal.X3dh.Responder.{process_initial_message, responder_ikm, responder_secrets, use_one_time}
use signal.X3dh.Derive.{derive_legacy_secret, associated_data}
use signal.X3dh.Runs.{alice_identity, bob_store, verify_any}
use signal.X3dh.Serialize.{serialize_message, deserialize_message}
use signal.X3dh.Serialize.RoundTrip.{IsSendable, deserialize_message-serialize_message}
use signal.Session.{Session, new_session}
use signal.Session.Version.{set_session_ciphertext_version, ciphertext_version_from_x3dh}
use signal.Session.Record.{Record}
use signal.Session.Serialize.RoundTrip.Records.{IsSameRecord}
use signal.Session.Envelope.{
  envelope_type_pre_key, envelope_type_signal, encode_envelope, decode_envelope,
  encode_ratchet_message, decode_ratchet_message,
}
use signal.Session.Envelope.RoundTrip.{decode_envelope-encode_envelope}
use signal.Session.Builder.{Entropy, init_session_pqr, builder_process_pre_key_message}
use signal.Session.Cipher.{
  Reads, load_record_optional, load_record_required, persist_record, cipher_decrypt,
}
use signal.Session.Cipher.Kept.{cipher_decrypt_failure_keeps_store}
use signal.Session.Cipher.Stored.{load_record_optional-persist_record}
use signal.Session.Cipher.Consumed.{cipher_decrypt-consumes}
use signal.Session.Runs.Building.{alice, bob_session, pqr_seven}
use signal.Session.Runs.Records.{archive, archive-IsWritableRecord, format}

abbrev in_order : Map Address SessionRecord → List Address
in_order [] = []
in_order ((addr, rec) ∷ m) = addr ∷ in_order m

abbrev keyed : Entropy
keyed = record { ephemeral = none; coins = []; ratchet = some (fill 25); next_ratchet = none }

abbrev reads : Reads
reads = record { attempts = λ i. none; builder = keyed; first = none; now = 2 }

abbrev carol : Address
carol = record { name = "carol"; device = 2 }

carol-other : carol.name ≢ alice.name
carol-other e = cc ((string_eq.beq_iff carol.name alice.name).1 e)

load_record_optional-persist_record_example :
    (m' : Store) × (t : Record ℕ) × (persist_record toy format in_order alice archive bob_store
      ≡ (ok tt, m'))
    × (load_record_optional toy format alice m' ≡ ok (some t))
    × IsSameRecord archive t
    × (load_session carol m' ≡ load_session carol bob_store)
load_record_optional-persist_record_example =
    load_record_optional-persist_record toy format in_order alice carol archive bob_store
      archive-IsWritableRecord carol-other

abbrev forged : Message
forged = record { header = record { dh = fill 20; pn = 0; n = 0 }; ciphertext = 1 ∷ 2 ∷ 3 ∷ [] }

abbrev initial : InitialMessage
initial = record {
  identity_key = alice_identity.public_key;
  ephemeral_key = fill 20;
  pre_key_id = some 2;
  signed_pre_key_id = 1;
  kyber_pre_key_id = none;
  kyber_ciphertext = [];
  ciphertext = encode_ratchet_message forged;
}

abbrev bytes_of : Result Bytes → Bytes
bytes_of (ok b) = b
bytes_of (err e) = []

abbrev built : Result (Session ℕ × Bytes) × Store
built =
    builder_process_pre_key_message toy toy_kem verify_any pqr_seven alice keyed 2 initial bob_store

abbrev is_ok {ℓ} : {A : Type ℓ} → Result A → Bool
is_ok (ok a) = true
is_ok (err e) = false

abbrev value {ℓ} : {A : Type ℓ} → A → Result A → A
value a (ok b) = b
value a (err e) = a

value-ok {ℓ} : {A : Type ℓ} (a : A) (r : Result A) → is_ok r ≡ true → r ≡ ok (value a r)
value-ok a (ok b) h = refl
value-ok a (err e) h = absurd (cc h)

abbrev first_session : Session ℕ × Bytes
first_session = value (bob_session, []) built.0

built-succeeds : is_ok built.0 ≡ true
unfolding builder_process_pre_key_message is_trusted_identity Map.lookup new_store
    load_signed_pre_key signed_pre_key_expired process_initial_message dh toy bytes_beq array32
    get_identity_key_pair load_pre_key derive_legacy_secret hkdf initialize_state next_root kdf_root
    Map.delete Map.insert head generate_key_pair key_pair_from_private initial_state
    initialize_state_with_generator init_session_pqr ciphertext_version_from_x3dh
    set_session_ciphertext_version new_session is_zero_key32 save_identity signing_from trusted_by
    remove_pre_key address_beq associated_data responder_ikm responder_secrets use_one_time
built-succeeds = refl

abbrev built-ok : built ≡ (ok first_session, built.1)
built-ok = λ i. (value-ok (bob_session, []) built.0 built-succeeds i, built.1)

abbrev opened : Result Bytes
opened = (decrypt toy none forged first_session.0.associated_data first_session.0.ratchet_state).0

opened-fails : opened ≡ err invalid_message
unfolding builder_process_pre_key_message is_trusted_identity Map.lookup new_store
    load_signed_pre_key signed_pre_key_expired process_initial_message dh toy bytes_beq array32
    get_identity_key_pair load_pre_key derive_legacy_secret hkdf initialize_state next_root kdf_root
    Map.delete Map.insert head generate_key_pair key_pair_from_private initial_state
    initialize_state_with_generator init_session_pqr ciphertext_version_from_x3dh
    set_session_ciphertext_version new_session is_zero_key32 save_identity signing_from trusted_by
    remove_pre_key address_beq associated_data responder_ikm responder_secrets use_one_time decrypt
    reject_old turn_if_new skip_message_keys receiving_key decrypt_with_message_key
opened-fails = refl

abbrev input : Bytes
input = encode_envelope envelope_type_pre_key (bytes_of (serialize_message initial))

abbrev payload : Bytes
payload = bytes_of (serialize_message initial)

forged-size : IsU32 (length initial.ciphertext)
unfolding encode_ratchet_message serialize put_uint32
forged-size = omega arith

initial-IsSendable : IsSendable toy initial
unfolding is_valid_public_key toy head bytes_beq
initial-IsSendable = record {
  identity_public = refl;
  identity_signing = refl;
  identity_valid = refl;
  ephemeral = refl;
  pre_key = omega arith;
  signed_pre_key = omega arith;
  kyber = tt;
  text = forged-size;
}

parsed : deserialize_message toy payload ≡ ok initial
parsed =
    let (b, written, read) = deserialize_message-serialize_message initial initial-IsSendable in
    let same : payload ≡ b = ap bytes_of written in rw same read

payload-size : IsU32 (length payload)
unfolding serialize_message serialize_identity_key encode_ratchet_message serialize put_uint32
    put_uint16
payload-size = omega arith

decoded : decode_envelope input ≡ ok (envelope_type_pre_key, payload)
decoded = decode_envelope-encode_envelope envelope_type_pre_key payload payload-size

inner : decode_ratchet_message initial.ciphertext ≡ ok forged
unfolding encode_ratchet_message decode_ratchet_message serialize deserialize put_uint32 uint32
inner = refl

no_record : load_record_optional toy format alice bob_store ≡ ok none
unfolding load_record_optional load_session Map.lookup new_store
no_record = refl

cipher_decrypt-consumes_example :
    (cipher_decrypt toy toy_kem verify_any format pqr_seven in_order alice reads input bob_store
      ≡ (err invalid_message, built.1))
    × (load_pre_key 2 built.1 ≡ none)
    × (is_trusted_identity alice (some alice_identity.public_key) receiving built.1 ≡ true)
unfolding encode_ratchet_message put_uint32
cipher_decrypt-consumes_example =
    cipher_decrypt-consumes toy toy_kem verify_any pqr_seven alice format in_order reads input
      payload first_session.1 initial forged 2 first_session.0 bob_store built.1 invalid_message
      decoded parsed refl inner no_record refl built-ok opened-fails

abbrev signal_input : Bytes
signal_input = encode_envelope envelope_type_signal (encode_ratchet_message forged)

cipher_decrypt_failure_keeps_store_example :
    (cipher_decrypt toy toy_kem verify_any format pqr_seven in_order alice reads signal_input
      bob_store).1
    ≡ bob_store
unfolding load_record_optional load_record_required load_session Map.lookup new_store cipher_decrypt
    decode_envelope encode_envelope encode_ratchet_message decode_ratchet_message serialize
    deserialize put_uint32 uint32
cipher_decrypt_failure_keeps_store_example =
    cipher_decrypt_failure_keeps_store toy toy_kem verify_any format pqr_seven in_order alice reads
      signal_input bob_store no_session (λ other e. cc e) refl

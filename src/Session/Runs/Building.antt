-- ===== src/Session/Runs/Building.antt =====
-- The session builder and the envelope on small inputs.
use signal.Common.{
  ℕ, ◌≡◌, refl, none, some, [], ◌∷◌, Bytes, Error, Result, ok, err, bytes_beq, true, false,
  string_eq, nat_eq,
}
use signal.Common.Map
use signal.Crypto.Toy.{toy, fill}
use signal.Crypto.Kyber.Toy.{toy_kem}
use signal.Keys.{SignedPreKey}
use signal.Store.{Address, Store, receiving, sending, address_beq, address_eq}
use signal.Store.Identities.{
  new_store, get_identity_key_pair, is_trusted_identity, save_identity, is_zero_key32,
}
use signal.Store.PreKeys.{load_signed_pre_key, signed_pre_key_expired}
use signal.X3dh.Responder.{process_initial_message}
use signal.X3dh.Responder.Once.{process_initial_message-once}
use signal.X3dh.Agreed.{counterpart, consumed}
use signal.X3dh.Runs.{
  alice_identity, bob_identity, signed_keys, signed_pre_key, bundle, bob_store, verify_any,
  alice_outcome, bob-responds,
}
use signal.Ratchet.{Message}
use signal.Session.{Session, new_session}
use signal.Session.Builder.{
  PqrDirection, Entropy, init_session_pqr, builder_process_pre_key_message,
}
use signal.Session.Builder.Trusted.{builder_process_pre_key_message-trusted}
use signal.Session.Version.{set_session_ciphertext_version, ciphertext_version_from_x3dh}
use signal.Session.Runs.{bob, bob-starts}

abbrev pub alice : Address
alice = record { name = "alice"; device = 1 }

abbrev pub pqr_seven : Bytes → PqrDirection → Result ℕ
pqr_seven key direction = ok 7

abbrev pub no_entropy : Entropy
no_entropy = record { ephemeral = none; coins = []; ratchet = none; next_ratchet = none }

-- A store that has another identity at the address.
abbrev wary : Store
wary = record bob_store {
  identities = (alice, record { public_key = fill 77; signing_public = fill 78 }) ∷ [];
}

bundle-untrusted : is_trusted_identity alice (some bundle.identity_key) sending wary ≡ false
unfolding is_trusted_identity Map.lookup address_beq bytes_beq is_zero_key32
bundle-untrusted = refl

message-untrusted :
    is_trusted_identity alice (some alice_outcome.initial_message.identity_key) receiving wary
    ≡ false
unfolding is_trusted_identity Map.lookup address_beq bytes_beq is_zero_key32
message-untrusted = refl

abbrev pub bob_session : Session ℕ
bob_session =
    record (new_session bob bob_identity.public_key alice_identity.public_key
      alice_outcome.associated_data) { pqr_state = some 7; version = 4 }

bob-builds :
    builder_process_pre_key_message toy toy_kem verify_any pqr_seven alice no_entropy 2
      alice_outcome.initial_message bob_store
    ≡ (
      ok (bob_session, alice_outcome.associated_data),
      save_identity alice (some alice_identity.public_key) (consumed (some 2) bob_store),
    )
unfolding builder_process_pre_key_message is_trusted_identity Map.lookup load_signed_pre_key
    signed_pre_key_expired new_store init_session_pqr set_session_ciphertext_version
    ciphertext_version_from_x3dh get_identity_key_pair counterpart
bob-builds = rw (bob-responds, bob-starts) refl

builder_process_pre_key_message-trusted_example :
    (is_trusted_identity alice (some alice_identity.public_key) receiving bob_store ≡ true)
    × (is_trusted_identity alice
          (some alice_identity.public_key)
          receiving
          (save_identity alice (some alice_identity.public_key) (consumed (some 2) bob_store))
        ≡ true)
    × ((signed : SignedPreKey) × (load_signed_pre_key 1 bob_store ≡ some signed)
        × (signed_pre_key_expired (some signed) 2 bob_store ≡ false))
builder_process_pre_key_message-trusted_example =
    builder_process_pre_key_message-trusted toy toy_kem verify_any pqr_seven alice no_entropy 2
      alice_outcome.initial_message bob_store
      (save_identity alice (some alice_identity.public_key) (consumed (some 2) bob_store))
      bob_session alice_outcome.associated_data bob-builds

process_initial_message-once_example :
    (e : Error) × ((process_initial_message toy toy_kem bob_identity signed_pre_key
        alice_outcome.initial_message
        (consumed (some 2) bob_store)).0
      ≡ err e)
process_initial_message-once_example =
    process_initial_message-once toy toy_kem bob_identity bob_identity signed_pre_key signed_pre_key
      alice_outcome.initial_message alice_outcome.initial_message 2
      (counterpart alice_identity signed_keys alice_outcome) bob_store (consumed (some 2) bob_store)
      refl refl bob-responds

abbrev envelope_message : Message
envelope_message = record {
  header = record { dh = fill 12; pn = 300; n = 70000 };
  ciphertext = 1 ∷ 2 ∷ 3 ∷ [];
}

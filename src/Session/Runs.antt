-- ===== src/Session/Runs.antt =====
-- The first message of a session, run on the keys of X3dh/Runs.
pub mod Records
pub mod Archived
pub mod Building
use signal.Common.{◌≡◌, refl, none, some, [], ◌∷◌, ok, bytes_beq, true, false}
use signal.Common.Words.{array32}
use signal.Crypto.{KeyPair, key_pair_from_private, generate_key_pair, dh, hkdf}
use signal.Crypto.Toy.{toy, toy-IsAgreement, toy-IsSound, fill, head}
use signal.Crypto.Kyber.Toy.{toy_kem, toy_kem-IsKem}
use signal.X3dh.Responder.{process_initial_message}
use signal.X3dh.Agreed.{counterpart, consumed}
use signal.X3dh.Runs.{
  alice_identity, bob_identity, signed_keys, signed_pre_key, bundle, bob_store, verify_any, coins,
  alice_outcome, alice-agrees, bundle-Serves,
}
use signal.Ratchet.{State, Message}
use signal.Ratchet.Chain.{kdf_root}
use signal.Ratchet.Turn.{next_root}
use signal.Ratchet.Send.{encrypt}
use signal.Ratchet.Receive.{decrypt}
use signal.Ratchet.Init.{initialize_state, initialize_state_with_generator, initial}
use signal.Ratchet.Runs.{fresh_keys, alice_keys-IsKeyPair}
use signal.Session.Established.{session-first_message}

abbrev ratchet_keys : KeyPair
ratchet_keys = record { public_key = fill 19; private_key = fill 10 }

abbrev reply_keys : KeyPair
reply_keys = record { public_key = fill 20; private_key = fill 11 }

abbrev alice : State
alice = record (initial alice_outcome ratchet_keys (fill 16)) {
  rk = fill 26;
  cks = fill 26;
  ckr = fill 255;
}

abbrev pub bob : State
bob =
    record (initial (counterpart alice_identity signed_keys alice_outcome) signed_keys (fill 15)) {
      cks = fill 255;
    }

alice-starts : initialize_state toy alice_outcome true (some (fill 10)) none ≡ ok alice
unfolding initialize_state initialize_state_with_generator generate_key_pair key_pair_from_private
    next_root toy array32 bytes_beq dh kdf_root hkdf head
alice-starts = refl

pub bob-starts :
    initialize_state toy (counterpart alice_identity signed_keys alice_outcome) false none none
    ≡ ok bob
unfolding counterpart initialize_state initialize_state_with_generator generate_key_pair bytes_beq
bob-starts = refl

reply-root : next_root toy (fill 26) reply_keys (fill 19) ≡ ok (fill 30, fill 30)
unfolding next_root toy array32 bytes_beq dh kdf_root hkdf head
reply-root = refl

session-first_message_example :
    (process_initial_message toy toy_kem bob_identity signed_pre_key alice_outcome.initial_message
        bob_store
      ≡ (ok (counterpart alice_identity signed_keys alice_outcome), consumed (some 2) bob_store))
    × ((msg : Message) × (t : State) × ((encrypt toy
            (104 ∷ 105 ∷ [])
            alice_outcome.associated_data
            alice).0
          ≡ ok msg)
        × (decrypt toy
              (some (fill 11))
              msg
              (counterpart alice_identity signed_keys alice_outcome).associated_data
              bob
            ≡ (ok (104 ∷ 105 ∷ []), t)))
unfolding generate_key_pair key_pair_from_private toy array32 head
session-first_message_example =
    session-first_message toy-IsAgreement toy-IsSound toy_kem-IsKem verify_any alice_identity
      bob_identity signed_pre_key signed_keys fresh_keys ratchet_keys reply_keys bundle coins
      (fill 255) (104 ∷ 105 ∷ []) (fill 30) (fill 30) bob_store alice_outcome (some (fill 6))
      (some (fill 10)) none none none (some (fill 11)) alice bob alice_keys-IsKeyPair bundle-Serves
      alice-agrees refl refl refl alice-starts bob-starts (λ e. cc) (λ e. cc) refl (λ e. cc)
      reply-root

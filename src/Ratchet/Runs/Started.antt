-- ===== src/Ratchet/Runs/Started.antt =====
-- Two parties that start their ratchets from one handshake, on the keys of Ratchet/Runs.
use signal.Common.{
  ◌≡◌, refl, Option, none, some, [], Bytes, Result, ok, err, plain, bytes_beq, true, false,
}
use signal.Common.Words.{array32}
use signal.Crypto.{KeyPair, dh, hkdf}
use signal.Crypto.Toy.{toy, toy-IsAgreement, fill}
use signal.X3dh.{Outcome}
use signal.Ratchet.{State}
use signal.Ratchet.Chain.{kdf_root}
use signal.Ratchet.Turn.{next_root}
use signal.Ratchet.Receive.Valid.{IsValid}
use signal.Ratchet.Delivery.{Tracks}
use signal.Ratchet.Agreement.{IsAhead}
use signal.Ratchet.Init.{initialize_state_with_generator, initial}
use signal.Ratchet.Init.Agreed.{IsSameHandshake}
use signal.Ratchet.Init.Linked.{initialize-legacy, initialize-pq}
use signal.Ratchet.Runs.{
  alice_keys, bob_keys, fresh_keys, alice_keys-IsKeyPair, bob_keys-IsKeyPair, fresh_keys-IsKeyPair,
}

abbrev outcome : Option Bytes → Outcome
outcome chain = record {
  shared_secret = fill 4;
  initial_chain_key = chain;
  pqr_key = none;
  associated_data = [];
  remote_identity = record { public_key = fill 20; signing_public = fill 21 };
  initial_message = record {
    identity_key = record { public_key = fill 22; signing_public = fill 23 };
    ephemeral_key = fill 12;
    pre_key_id = none;
    signed_pre_key_id = 1;
    kyber_pre_key_id = none;
    kyber_ciphertext = [];
    ciphertext = [];
  };
  local_ephemeral = some alice_keys;
  local_ratchet_key = some bob_keys;
  remote_ratchet_key = some (fill 14);
}

outcome-IsSameHandshake :
    (chain : Option Bytes) → IsSameHandshake alice_keys bob_keys (outcome chain) (outcome chain)
outcome-IsSameHandshake chain = record {
  secret = refl;
  local_ephemeral = refl;
  message_key = refl;
  remote_ratchet = refl;
  local_ratchet = refl;
}

abbrev no_key : Result KeyPair
no_key = err (plain "no key")

abbrev alice : State
alice = record (initial (outcome none) alice_keys (fill 14)) { rk = fill 17; cks = fill 17 }

abbrev bob : State
bob = record (initial (outcome none) fresh_keys (fill 12)) {
  rk = fill 18;
  cks = fill 18;
  ckr = fill 17;
}

alice-starts : initialize_state_with_generator toy (outcome none) true no_key no_key ≡ ok alice
unfolding initialize_state_with_generator next_root toy array32 bytes_beq dh kdf_root hkdf
alice-starts = refl

bob-starts :
    initialize_state_with_generator toy (outcome none) false (ok fresh_keys) no_key ≡ ok bob
unfolding initialize_state_with_generator next_root toy array32 bytes_beq dh kdf_root hkdf
bob-starts = refl

initialize-legacy_example :
    (IsValid alice × IsValid bob)
    × (Tracks toy (fill 17) (fill 12) 0 bob × IsAhead toy (fill 18) fresh_keys alice_keys bob alice)
initialize-legacy_example =
    initialize-legacy toy-IsAgreement alice_keys bob_keys (outcome none) (outcome none)
      (outcome-IsSameHandshake none) alice_keys-IsKeyPair bob_keys-IsKeyPair fresh_keys
      fresh_keys-IsKeyPair no_key no_key no_key alice bob alice-starts bob-starts refl refl
      (λ e. cc)

abbrev alice_pq : State
alice_pq = record (initial (outcome (some (fill 30))) fresh_keys (fill 14)) {
  rk = fill 20;
  cks = fill 20;
  ckr = fill 30;
}

abbrev bob_pq : State
bob_pq = record (initial (outcome (some (fill 30))) bob_keys (fill 12)) { cks = fill 30 }

alice_pq-starts :
    initialize_state_with_generator toy (outcome (some (fill 30))) true (ok fresh_keys) no_key
    ≡ ok alice_pq
unfolding initialize_state_with_generator next_root toy array32 bytes_beq dh kdf_root hkdf
alice_pq-starts = refl

bob_pq-starts :
    initialize_state_with_generator toy (outcome (some (fill 30))) false no_key no_key ≡ ok bob_pq
unfolding initialize_state_with_generator bytes_beq
bob_pq-starts = refl

initialize-pq_example :
    (IsValid alice_pq × IsValid bob_pq)
    × (IsAhead toy (fill 20) fresh_keys bob_keys alice_pq bob_pq
        × Tracks toy (fill 30) (fill 14) 0 alice_pq)
initialize-pq_example =
    initialize-pq toy-IsAgreement alice_keys bob_keys (outcome (some (fill 30)))
      (outcome (some (fill 30))) (outcome-IsSameHandshake (some (fill 30))) alice_keys-IsKeyPair
      bob_keys-IsKeyPair fresh_keys fresh_keys-IsKeyPair no_key no_key no_key alice_pq bob_pq
      (fill 30) alice_pq-starts bob_pq-starts refl refl (λ e. cc)

-- ===== src/X3dh/Runs.antt =====
-- The handshake run on small keys: a bundle with a one-time and a Kyber pre-key, and the outcome.
use signal.Common.{
  ◌≡◌, refl, none, some, [], ◌∷◌, Bytes, inr, ok, replicate, nat_eq, bytes_beq, true, Bool,
}
use signal.Common.Map
use signal.Common.Words.{array32}
use signal.Crypto.{KeyPair, key_pair_from_private, generate_key_pair, dh, hkdf}
use signal.Crypto.Toy.{toy, toy-IsAgreement, fill, head}
use signal.Crypto.Kyber.{
  KyberKeyPair, kyber1024_key_type, public_key_size, private_key_size, ciphertext_size,
  generate_kyber1024_key_pair, kyber1024_encapsulate, unmarshal_kyber_public_key, checked,
  is_kyber1024_public_key, first_byte,
}
use signal.Crypto.Kyber.Toy.{toy_kem, toy_kem-IsKem}
use signal.Keys.{IdentityKey, IdentityKeyPair, PreKey, SignedPreKey, KyberPreKey}
use signal.Keys.Bundle.{PreKeyBundle, validate}
use signal.Keys.Wire.{is_valid_public_key}
use signal.Store.{Store}
use signal.Store.Identities.{new_store}
use signal.Store.PreKeys.{load_pre_key, load_kyber_pre_key}
use signal.X3dh.{Outcome}
use signal.X3dh.Derive.{associated_data, derive_pq_secret}
use signal.X3dh.Initiator.{process_pre_key_bundle, initiator_ikm, initiator_secrets}
use signal.X3dh.Responder.{process_initial_message}
use signal.X3dh.Agreed.{Serves, counterpart, consumed}
use signal.X3dh.Agreed.Both.{process_initial_message-process_pre_key_bundle}
use signal.Ratchet.Runs.{fresh_keys, alice_keys-IsKeyPair}

abbrev pub alice_identity : IdentityKeyPair
alice_identity = record {
  public_key = record { public_key = fill 12; signing_public = fill 1 };
  private_key = fill 3;
}

abbrev pub bob_identity : IdentityKeyPair
bob_identity = record {
  public_key = record { public_key = fill 14; signing_public = fill 2 };
  private_key = fill 5;
}

abbrev pub signed_keys : KeyPair
signed_keys = record { public_key = fill 16; private_key = fill 7 }

abbrev one_time_keys : KeyPair
one_time_keys = record { public_key = fill 17; private_key = fill 8 }

abbrev kyber_keys : KyberKeyPair
kyber_keys = record {
  public_key = kyber1024_key_type ∷ replicate public_key_size 40;
  private_key = kyber1024_key_type ∷ replicate private_key_size 40;
}

abbrev pub signed_pre_key : SignedPreKey
signed_pre_key = record { id = 1; key_pair = some signed_keys; signature = 9 ∷ []; timestamp = 1 }

abbrev one_time : PreKey
one_time = record { id = 2; key_pair = some one_time_keys; timestamp = 1 }

abbrev kyber : KyberPreKey
kyber = record { id = 3; key_pair = some kyber_keys; signature = 9 ∷ []; timestamp = 1 }

abbrev pub bundle : PreKeyBundle
bundle = record {
  registration_id = 7;
  device_id = 1;
  pre_key_id = some 2;
  pre_key_public = some (fill 17);
  signed_pre_key_id = 1;
  signed_pre_key_public = fill 16;
  signed_pre_key_signature = 9 ∷ [];
  kyber_pre_key_id = some 3;
  kyber_pre_key_public = kyber1024_key_type ∷ replicate public_key_size 40;
  kyber_pre_key_signature = 9 ∷ [];
  identity_key = bob_identity.public_key;
}

abbrev pub bob_store : Store
bob_store = record (new_store bob_identity 7) {
  pre_keys = (2, some one_time) ∷ [];
  signed_keys = (1, some signed_pre_key) ∷ [];
  kyber_keys = (3, some kyber) ∷ [];
}

abbrev pub verify_any : IdentityKey → Bytes → Bytes → Bool
verify_any identity message signature = true

abbrev pub coins : Bytes
coins = fill 41

abbrev pub ciphertext : Bytes
ciphertext = kyber1024_key_type ∷ replicate ciphertext_size 41

kyber-generated : generate_kyber1024_key_pair toy_kem (fill 40) ≡ ok kyber_keys
unfolding generate_kyber1024_key_pair toy_kem head
kyber-generated = refl

kyber-sealed : kyber1024_encapsulate toy_kem kyber_keys.public_key coins ≡ ok (fill 81, ciphertext)
unfolding kyber1024_encapsulate unmarshal_kyber_public_key checked first_byte toy_kem head
kyber-sealed = refl

-- The outcome at the initiator, on the ephemeral key that the entropy makes.
abbrev pub alice_outcome : Outcome
alice_outcome = record {
  shared_secret = fill 255;
  initial_chain_key = some (fill 255);
  pqr_key = some (fill 255);
  associated_data = associated_data alice_identity.public_key bob_identity.public_key;
  remote_identity = bob_identity.public_key;
  initial_message = record {
    identity_key = alice_identity.public_key;
    ephemeral_key = fill 15;
    pre_key_id = some 2;
    signed_pre_key_id = 1;
    kyber_pre_key_id = some 3;
    kyber_ciphertext = ciphertext;
    ciphertext = [];
  };
  local_ephemeral = some fresh_keys;
  local_ratchet_key = none;
  remote_ratchet_key = some (fill 16);
}

pub alice-agrees :
    process_pre_key_bundle toy toy_kem verify_any alice_identity bundle (some (fill 6)) coins
    ≡ ok alice_outcome
unfolding process_pre_key_bundle validate is_valid_public_key is_kyber1024_public_key first_byte
    bytes_beq generate_key_pair key_pair_from_private initiator_ikm initiator_secrets
    derive_pq_secret hkdf dh array32 kyber1024_encapsulate unmarshal_kyber_public_key checked
    toy_kem toy head
alice-agrees = refl

pub bundle-Serves : Serves toy toy_kem bob_identity signed_pre_key signed_keys bundle bob_store
unfolding load_pre_key load_kyber_pre_key Map.lookup key_pair_from_private toy array32 new_store
bundle-Serves = record {
  identity_key = refl;
  identity_is_pair = refl;
  signed_id = refl;
  signed_has_pair = refl;
  signed_public = refl;
  signed_is_pair = refl;
  one_time = inr (record {
    id = 2;
    pre = one_time;
    pair = one_time_keys;
    offered = refl;
    public = refl;
    loaded = refl;
    has_pair = refl;
    is_pair = refl;
  });
  kyber = inr (record {
    id = 3;
    kyber = kyber;
    pair = kyber_keys;
    entropy = fill 40;
    offered = refl;
    public = refl;
    loaded = refl;
    has_pair = refl;
    generated = kyber-generated;
  });
}

process_initial_message-process_pre_key_bundle_example :
    (eph : KeyPair) × (generate_key_pair toy (some (fill 6)) ≡ ok eph)
    × (alice_outcome.local_ephemeral ≡ some eph)
    × (alice_outcome.initial_message.ephemeral_key ≡ eph.public_key)
    × (alice_outcome.remote_ratchet_key ≡ some signed_keys.public_key)
    × (process_initial_message toy toy_kem bob_identity signed_pre_key alice_outcome.initial_message
          bob_store
        ≡ (ok (counterpart alice_identity signed_keys alice_outcome), consumed (some 2) bob_store))
process_initial_message-process_pre_key_bundle_example =
    process_initial_message-process_pre_key_bundle toy-IsAgreement toy_kem-IsKem verify_any
      alice_identity bob_identity signed_pre_key signed_keys bundle (some (fill 6)) coins bob_store
      alice_outcome alice_keys-IsKeyPair bundle-Serves alice-agrees

pub bob-responds :
    process_initial_message toy toy_kem bob_identity signed_pre_key alice_outcome.initial_message
      bob_store
    ≡ (ok (counterpart alice_identity signed_keys alice_outcome), consumed (some 2) bob_store)
bob-responds =
    let (_, _, _, _, _, responds) =
      process_initial_message-process_pre_key_bundle toy-IsAgreement toy_kem-IsKem verify_any
        alice_identity bob_identity signed_pre_key signed_keys bundle (some (fill 6)) coins
        bob_store alice_outcome alice_keys-IsKeyPair bundle-Serves alice-agrees in
    responds

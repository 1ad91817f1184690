-- ===== src/X3dh/Serialize/Runs.antt =====
-- The initial message's bytes on small inputs.
use signal.Common.{panicked, ◌≡◌, refl, some, [], ◌∷◌, ◌++◌, Bytes, ok, err, arith, bytes_beq}
use signal.Common.Words.{put_uint32}
use signal.Crypto.Toy.{toy, fill, head}
use signal.Keys.Wire.{is_valid_public_key}
use signal.X3dh.{Message}
use signal.X3dh.Serialize.{serialize_message, deserialize_message}
use signal.X3dh.Serialize.RoundTrip.{IsSendable, deserialize_message-serialize_message}
use signal.X3dh.Serialize.CutOff.{deserialize_message-cut_off}

abbrev first : Message
first = record {
  identity_key = record { public_key = fill 12; signing_public = fill 1 };
  ephemeral_key = fill 30;
  pre_key_id = some 2;
  signed_pre_key_id = 70000;
  kyber_pre_key_id = some 3;
  kyber_ciphertext = 8 ∷ 40 ∷ 41 ∷ [];
  ciphertext = 1 ∷ 2 ∷ 3 ∷ [];
}

first-IsSendable : IsSendable toy first
unfolding is_valid_public_key toy head bytes_beq
first-IsSendable = record {
  identity_public = refl;
  identity_signing = refl;
  identity_valid = refl;
  ephemeral = refl;
  pre_key = omega arith;
  signed_pre_key = omega arith;
  kyber = (omega arith, omega arith);
  text = omega arith;
}

deserialize_message-serialize_message_example :
    (b : Bytes) × (serialize_message first ≡ ok b) × (deserialize_message toy b ≡ ok first)
deserialize_message-serialize_message_example =
    deserialize_message-serialize_message first first-IsSendable

deserialize_message-cut_off_example :
    (front : Bytes) × (serialize_message first ≡ ok (front ++ (put_uint32 3 ++ (1 ∷ 2 ∷ 3 ∷ []))))
    × (deserialize_message toy (front ++ (0 ∷ 0 ∷ [])) ≡ err panicked)
deserialize_message-cut_off_example =
    deserialize_message-cut_off toy first 3 (0 ∷ 0 ∷ []) first-IsSendable refl (omega arith)

-- ===== src/SenderKeys/Message.antt =====
-- senderkeys/message.go. The package protowire is the parameter `Protowire`.
pub mod Parse
use signal.Common.{
  ℕ, zero, suc, ◌+◌, ◌-◌, ◌*◌, ◌/◌, ◌%◌, ◌^◌, not, Option, none, some, [], ◌∷◌, ◌++◌, Bytes, Result,
  ok, err, ◌>>=◌, invalid_message, panicked, or_fail, eqb, ltb, length, take, drop, if◌then◌else◌,
}
use signal.Common.Reader.{Reader}
use signal.Crypto.{Primitives}
use signal.Crypto.Kyber.{first_byte}
use signal.Keys.Wire.{serialize_wire_public_key, deserialize_wire_public_key, validate_public_key}
use signal.SenderKeys.Generate.{sender_key_message_version}
use signal.SenderKeys.Serialize.{distribution_id_size, sender_key_seed_size}

-- The types of fields, and what is appended and consumed. `none` is a negative length, and otherwise what is left is
-- data[n:].
pub record Protowire : Type 0 where
  pub varint_type : ℕ
  pub bytes_type : ℕ
  pub append_tag : ℕ → ℕ → Bytes
  pub append_varint : ℕ → Bytes
  pub append_bytes : Bytes → Bytes
  pub consume_tag : Bytes → Option ((ℕ × ℕ) × Bytes)
  pub consume_varint : Bytes → Option (ℕ × Bytes)
  pub consume_bytes : Bytes → Option (Bytes × Bytes)

abbrev pub sender_key_signature_size : ℕ
sender_key_signature_size = 64

pub record DistributionMessage : Type 0 where
  pub message_version : ℕ
  pub distribution_id : Bytes
  pub key_id : ℕ
  pub iteration : ℕ
  pub chain_key : Bytes
  pub signing_public : Bytes

pub record SenderKeyMessage : Type 0 where
  pub message_version : ℕ
  pub distribution_id : Bytes
  pub key_id : ℕ
  pub iteration : ℕ
  pub ciphertext : Bytes
  pub signature : Bytes

unfoldable pub sender_key_version_byte : ℕ → ℕ
sender_key_version_byte message_version =
    message_version % 16 * 16 + sender_key_message_version % 16

module _ (W : Protowire) where
  -- The three fields that both messages start with.
  unfoldable pub encode_ids : Bytes → ℕ → ℕ → Bytes → Bytes
  encode_ids distribution_id key_id iteration rest =
      W.append_tag 1 W.bytes_type
      ++ (W.append_bytes distribution_id
          ++ (W.append_tag 2 W.varint_type
              ++ (W.append_varint key_id
                  ++ (W.append_tag 3 W.varint_type ++ (W.append_varint iteration ++ rest)))))

  unfoldable pub encode_sender_key_message_body : Bytes → ℕ → ℕ → Bytes → Bytes
  unfolding encode_ids
  encode_sender_key_message_body distribution_id key_id iteration ciphertext =
      encode_ids distribution_id key_id iteration
        (W.append_tag 4 W.bytes_type ++ W.append_bytes ciphertext)

  unfoldable pub encode_sender_key_distribution_body : Bytes → ℕ → ℕ → Bytes → Bytes → Bytes
  unfolding encode_ids serialize_wire_public_key
  encode_sender_key_distribution_body distribution_id key_id iteration chain_key signing_public =
      encode_ids distribution_id key_id iteration (
        W.append_tag 4 W.bytes_type
        ++ (W.append_bytes chain_key
            ++ (W.append_tag 5 W.bytes_type
                ++ W.append_bytes (serialize_wire_public_key signing_public))))

  unfoldable pub signed_bytes : SenderKeyMessage → Bytes
  unfolding sender_key_version_byte encode_sender_key_message_body
  signed_bytes m =
      sender_key_version_byte m.message_version
      ∷ encode_sender_key_message_body m.distribution_id m.key_id m.iteration m.ciphertext

  unfoldable pub serialize_sender_key_message : SenderKeyMessage → Bytes
  unfolding signed_bytes
  serialize_sender_key_message m = signed_bytes m ++ m.signature

  unfoldable pub serialize_distribution_message : DistributionMessage → Bytes
  unfolding sender_key_version_byte encode_sender_key_distribution_body
  serialize_distribution_message m =
      sender_key_version_byte m.message_version
      ∷ encode_sender_key_distribution_body m.distribution_id m.key_id m.iteration m.chain_key
          m.signing_public

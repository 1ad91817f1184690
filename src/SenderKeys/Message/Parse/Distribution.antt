-- ===== src/SenderKeys/Message/Parse/Distribution.antt =====
-- A distribution message of senderkeys/message.go reads back as it was written.
use mathlib.Core.List.{append-nil}
use signal.Common.{
  ℕ, suc, ◌-◌, ◌≡◌, refl, sym, ap, ◌∙◌, true, some, [], ◌∷◌, ◌++◌, Bytes, ok, length, length-append,
  arith,
}
use signal.Common.Words.{IsU32}
use signal.Crypto.{Primitives}
use signal.Crypto.Kyber.{first_byte}
use signal.Keys.Wire.{is_valid_public_key, serialize_wire_public_key, deserialize_wire_public_key}
use signal.SenderKeys.Message.{
  Protowire, DistributionMessage, encode_ids, serialize_distribution_message,
  sender_key_version_byte,
}
use signal.SenderKeys.Message.Parse.{
  Fields, no_fields, read_field, read_fields, distribution_field, read_payload, read_signing_key,
  signing_key_of, parse_distribution_message, current_version_of, parse_sender_key_version,
  distribution_from_fields,
}
use signal.SenderKeys.Message.Parse.Laws.{
  IsWire, read_fields-end, read_fields-round, length-append_tag,
}
use signal.SenderKeys.Message.Parse.RoundTrip.{
  bytes_field-append, sized_field-append, read_fields-encode_ids, length-encode_ids, version_byte,
  with_ids,
}

-- The sizes that the Go types fix, the version that the library sends, and a signing key that is a public key.
pub record IsDistribution (P : Primitives) (m : DistributionMessage) : Type 0 where
  pub message_version : m.message_version ≡ 3
  pub distribution_id : length m.distribution_id ≡ 16
  pub key_id : IsU32 m.key_id
  pub iteration : IsU32 m.iteration
  pub chain_key : length m.chain_key ≡ 32
  pub signing_public : length m.signing_public ≡ 32
  pub valid : is_valid_public_key P m.signing_public ≡ true

module _ {W : Protowire} (wire : IsWire W) where
  -- The chain key and the signing key of a distribution message, as the last fields.
  read_fields-keys :
      (P : Primitives) (fuel : ℕ) (f : Fields) (chain_key public : Bytes)
      → length chain_key ≡ 32
      → length public ≡ 32
      → is_valid_public_key P public ≡ true
      → read_fields W (distribution_field W P) (suc (suc fuel)) f (
          W.append_tag 4 W.bytes_type
          ++ (W.append_bytes chain_key
              ++ (W.append_tag 5 W.bytes_type
                  ++ W.append_bytes (serialize_wire_public_key public))))
        ≡ ok (record f { payload = some chain_key; signing_key = some public })
  unfolding read_field distribution_field read_payload read_signing_key signing_key_of
      deserialize_wire_public_key serialize_wire_public_key first_byte
  read_fields-keys P fuel f chain_key public sized public_sized valid =
      let key = W.append_bytes (serialize_wire_public_key public) in
      let t5 = W.append_tag 5 W.bytes_type ++ key in
      let g : Fields = record f { payload = some chain_key } in
      let e : key ≡ key ++ [] = sym (append-nil key) in
      read_fields-round wire (distribution_field W P) (suc fuel) 4 W.bytes_type f g
        (W.append_bytes chain_key ++ t5) t5 (omega arith) (omega arith) wire.small_bytes_type
        (rw (sized_field-append wire 32 chain_key t5 sized (omega arith)) refl)
      ∙ read_fields-round wire (distribution_field W P) fuel 5 W.bytes_type g
          (record g { signing_key = some public }) key [] (omega arith) (omega arith)
          wire.small_bytes_type
          (rw
            (
              e,
              bytes_field-append wire (serialize_wire_public_key public) []
                  (omega (arith, public_sized)),
              public_sized,
              valid,
            )
            refl)
      ∙ read_fields-end wire (distribution_field W P) fuel _

  -- A distribution message reads back as it was sent.
  pub parse_distribution_message-serialize :
      (P : Primitives) (m : DistributionMessage)
      → IsDistribution P m
      → parse_distribution_message W P (serialize_distribution_message W m) ≡ ok m
  unfolding parse_distribution_message current_version_of first_byte parse_sender_key_version
      distribution_from_fields serialize_distribution_message sender_key_version_byte
  parse_distribution_message-serialize P m h =
      let key = W.append_bytes (serialize_wire_public_key m.signing_public) in
      let t5 = W.append_tag 5 W.bytes_type ++ key in
      let t4 = W.append_tag 4 W.bytes_type ++ (W.append_bytes m.chain_key ++ t5) in
      let body = encode_ids W m.distribution_id m.key_id m.iteration t4 in
      let n = length body - 5 in
      let fuel : length body ≡ suc (suc (suc (suc (suc n)))) = omega (
        arith,
        length-encode_ids wire m.distribution_id m.key_id m.iteration t4,
        length-append (W.append_tag 4 W.bytes_type) (W.append_bytes m.chain_key ++ t5),
        length-append (W.append_bytes m.chain_key) t5,
        length-append (W.append_tag 5 W.bytes_type) key,
        length-append_tag wire 4 W.bytes_type (omega arith) (omega arith) wire.small_bytes_type,
        length-append_tag wire 5 W.bytes_type (omega arith) (omega arith) wire.small_bytes_type,
      ) in
      let f = with_ids wire (distribution_field W P) m.distribution_id m.key_id m.iteration in
      let read : read_fields W (distribution_field W P) (length body) no_fields body
          ≡ ok (record f { payload = some m.chain_key; signing_key = some m.signing_public }) =
        ap (λ k. read_fields W (distribution_field W P) k no_fields body) fuel
        ∙ read_fields-encode_ids wire (distribution_field W P) (suc (suc n)) m.distribution_id
            m.key_id m.iteration t4 h.distribution_id h.key_id h.iteration
        ∙ read_fields-keys P n f m.chain_key m.signing_public h.chain_key h.signing_public
            h.valid in
      go body read
    where
      go :
          (body : Bytes)
          → read_fields W (distribution_field W P) (length body) no_fields body
            ≡ ok record {
              distribution_id = some m.distribution_id;
              key_id = some m.key_id;
              iteration = some m.iteration;
              payload = some m.chain_key;
              signing_key = some m.signing_public;
            }
          → parse_distribution_message W P (sender_key_version_byte m.message_version ∷ body) ≡ ok m
      go body read =
          rw (version_byte m.message_version h.message_version, read, sym h.message_version) refl

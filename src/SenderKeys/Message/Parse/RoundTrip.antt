-- ===== src/SenderKeys/Message/Parse/RoundTrip.antt =====
-- The messages of senderkeys/message.go read back as they were written.
use mathlib.Core.List.{append-nil}
use signal.Common.{
  ℕ, suc, ◌+◌, ◌-◌, ◌%◌, ◌/◌, ◌^◌, ◌≤◌, ◌≡◌, refl, sym, ap, ◌∙◌, some, none, [], ◌∷◌, ◌++◌, Bytes,
  ok, length, length-append, drop-append, take-append, arith,
}
use signal.Common.Words.{IsU32}
use signal.Common.Reader.{Reader, not_short}
use signal.Crypto.Kyber.{first_byte}
use signal.SenderKeys.Message.{
  Protowire, SenderKeyMessage, encode_ids, encode_sender_key_message_body, signed_bytes,
  serialize_sender_key_message, sender_key_version_byte,
}
use signal.SenderKeys.Message.Parse.{
  Fields, no_fields, read_field, read_fields, message_field, bytes_field, varint_field, sized_field,
  read_distribution_id, read_key_id, read_iteration, read_payload, parse_sender_key_message,
  parse_sender_key_version, current_version_of, decode_sender_key_message_body, message_from_fields,
}
use signal.SenderKeys.Message.Parse.Laws.{
  IsWire, read_fields-end, read_fields-round, length-append_tag,
}

module _ {W : Protowire} (wire : IsWire W) where
  pub bytes_field-append :
      (b rest : Bytes)
      → IsU32 (length b)
      → bytes_field W W.bytes_type (W.append_bytes b ++ rest) ≡ ok (b, rest)
  unfolding bytes_field
  bytes_field-append b rest small = rw wire.bytes_reads (ground arith)

  pub sized_field-append :
      (size : ℕ) (b rest : Bytes)
      → length b ≡ size
      → IsU32 size
      → sized_field W size W.bytes_type (W.append_bytes b ++ rest) ≡ ok (b, rest)
  unfolding sized_field
  sized_field-append size b rest sized small =
      rw (bytes_field-append b rest (omega (arith, sized, small))) (ground (arith, sized))

  varint_field-append :
      (v : ℕ) (rest : Bytes)
      → IsU32 v
      → varint_field W W.varint_type (W.append_varint v ++ rest) ≡ ok (v, rest)
  unfolding varint_field
  varint_field-append v rest small =
      let whole : v % 2 ^ 32 ≡ v = omega (arith, small) in
      rw (wire.varint_reads v rest (omega (arith, small))) (ground (arith, whole))

  module _ (others : ℕ → Fields → ℕ → Reader Fields) where
    abbrev pub with_ids : Bytes → ℕ → ℕ → Fields
    with_ids id key_id iteration = record {
      distribution_id = some id;
      key_id = some key_id;
      iteration = some iteration;
      payload = none;
      signing_key = none;
    }

    -- The three fields that both messages start with take three rounds.
    pub read_fields-encode_ids :
        (fuel : ℕ) (id : Bytes) (key_id iteration : ℕ) (rest : Bytes)
        → length id ≡ 16
        → IsU32 key_id
        → IsU32 iteration
        → read_fields W others
            (suc (suc (suc fuel)))
            no_fields
            (encode_ids W id key_id iteration rest)
          ≡ read_fields W others fuel (with_ids id key_id iteration) rest
    unfolding encode_ids read_field read_distribution_id read_key_id read_iteration
    read_fields-encode_ids fuel id key_id iteration rest sized small_id small =
        let b3 = W.append_varint iteration ++ rest in
        let t3 = W.append_tag 3 W.varint_type ++ b3 in
        let b2 = W.append_varint key_id ++ t3 in
        let t2 = W.append_tag 2 W.varint_type ++ b2 in
        let f1 : Fields = record no_fields { distribution_id = some id } in
        let f2 : Fields = record f1 { key_id = some key_id } in
        read_fields-round wire others (suc (suc fuel)) 1 W.bytes_type no_fields f1
          (W.append_bytes id ++ t2) t2 (omega arith) (omega arith) wire.small_bytes_type
          (rw (sized_field-append 16 id t2 sized (omega arith)) refl)
        ∙ read_fields-round wire others (suc fuel) 2 W.varint_type f1 f2 b2 t3 (omega arith)
            (omega arith) wire.small_varint_type (rw (varint_field-append key_id t3 small_id) refl)
        ∙ read_fields-round wire others fuel 3 W.varint_type f2 (with_ids id key_id iteration) b3
            rest (omega arith) (omega arith) wire.small_varint_type
            (rw (varint_field-append iteration rest small) refl)

  -- Three tags and what follows them.
  pub length-encode_ids :
      (id : Bytes) (key_id iteration : ℕ) (rest : Bytes)
      → length rest + 3 ≤ length (encode_ids W id key_id iteration rest)
  unfolding encode_ids
  length-encode_ids id key_id iteration rest =
      let b3 = W.append_varint iteration ++ rest in
      let t3 = W.append_tag 3 W.varint_type ++ b3 in
      let b2 = W.append_varint key_id ++ t3 in
      let t2 = W.append_tag 2 W.varint_type ++ b2 in
      omega (
        arith,
        length-append (W.append_varint iteration) rest,
        length-append (W.append_tag 3 W.varint_type) b3,
        length-append (W.append_varint key_id) t3,
        length-append (W.append_tag 2 W.varint_type) b2,
        length-append (W.append_bytes id) t2,
        length-append (W.append_tag 1 W.bytes_type) (W.append_bytes id ++ t2),
        length-append_tag wire 1 W.bytes_type (omega arith) (omega arith) wire.small_bytes_type,
        length-append_tag wire 2 W.varint_type (omega arith) (omega arith) wire.small_varint_type,
        length-append_tag wire 3 W.varint_type (omega arith) (omega arith) wire.small_varint_type,
      )

  -- The payload of a message, as the last field.
  read_fields-payload :
      (fuel : ℕ) (f : Fields) (payload : Bytes)
      → IsU32 (length payload)
      → read_fields W
          (message_field W)
          (suc fuel)
          f
          (W.append_tag 4 W.bytes_type ++ W.append_bytes payload)
        ≡ ok (record f { payload = some payload })
  unfolding read_field message_field read_payload
  read_fields-payload fuel f payload small =
      let e : W.append_bytes payload ≡ W.append_bytes payload ++ [] =
        sym (append-nil (W.append_bytes payload)) in
      read_fields-round wire (message_field W) fuel 4 W.bytes_type f
        (record f { payload = some payload }) (W.append_bytes payload) [] (omega arith)
        (omega arith) wire.small_bytes_type (rw (e, bytes_field-append payload [] small) refl)
      ∙ read_fields-end wire (message_field W) fuel _

-- The sizes that the Go types fix, the version that the library sends, and a ciphertext below 4 GiB.
pub record IsSendable (m : SenderKeyMessage) : Type 0 where
  pub message_version : m.message_version ≡ 3
  pub distribution_id : length m.distribution_id ≡ 16
  pub key_id : IsU32 m.key_id
  pub iteration : IsU32 m.iteration
  pub ciphertext : IsU32 (length m.ciphertext)
  pub signature : length m.signature ≡ 64

pub version_byte : (v : ℕ) → v ≡ 3 → sender_key_version_byte v / 16 ≡ 3
unfolding sender_key_version_byte
version_byte v e = rw e refl

module _ {W : Protowire} (wire : IsWire W) where
  read_body :
      (id ciphertext : Bytes) (key_id iteration : ℕ)
      → length id ≡ 16
      → IsU32 key_id
      → IsU32 iteration
      → IsU32 (length ciphertext)
      → decode_sender_key_message_body W
          (encode_sender_key_message_body W id key_id iteration ciphertext)
        ≡ ok record {
          distribution_id = some id;
          key_id = some key_id;
          iteration = some iteration;
          payload = some ciphertext;
          signing_key = none;
        }
  unfolding decode_sender_key_message_body encode_sender_key_message_body
  read_body id ciphertext key_id iteration sized small_id small short =
      let last = W.append_tag 4 W.bytes_type ++ W.append_bytes ciphertext in
      let body = encode_ids W id key_id iteration last in
      let n = length body - 4 in
      let fuel : length body ≡ suc (suc (suc (suc n))) = omega (
        arith,
        length-encode_ids wire id key_id iteration last,
        length-append (W.append_tag 4 W.bytes_type) (W.append_bytes ciphertext),
        length-append_tag wire 4 W.bytes_type (omega arith) (omega arith) wire.small_bytes_type,
      ) in
      ap (λ k. read_fields W (message_field W) k no_fields body) fuel
      ∙ read_fields-encode_ids wire (message_field W) (suc n) id key_id iteration last sized
          small_id small
      ∙ read_fields-payload wire n _ ciphertext short

  parse-append :
      (v : ℕ) (body signature : Bytes) (f : Fields) (m : SenderKeyMessage)
      → v / 16 ≡ 3
      → length signature ≡ 64
      → decode_sender_key_message_body W body ≡ ok f
      → message_from_fields 3 f signature ≡ ok m
      → parse_sender_key_message W ((v ∷ body) ++ signature) ≡ ok (m, v ∷ body)
  unfolding parse_sender_key_message current_version_of first_byte parse_sender_key_version
  parse-append v body signature f m current sized decoded made =
      let n = suc (length body) in
      let long : suc (length (body ++ signature)) ≡ n + 64 =
        ap suc (length-append body signature) ∙ omega (arith, sized) in
      let size : n + 64 - 64 ≡ n = omega arith in
      let enough : 65 ≤ n + 64 = omega arith in
      rw
        (
          long,
          size,
          not_short enough,
          current,
          take-append (length body) body signature refl,
          drop-append (length body) body signature refl,
          decoded,
          made,
        )
        refl

  -- A sender-key message reads back as it was sent, together with the bytes that its signature signs.
  pub parse_sender_key_message-serialize :
      (m : SenderKeyMessage)
      → IsSendable m
      → parse_sender_key_message W (serialize_sender_key_message W m) ≡ ok (m, signed_bytes W m)
  unfolding serialize_sender_key_message message_from_fields
  parse_sender_key_message-serialize m h =
      parse-append (sender_key_version_byte m.message_version)
        (encode_sender_key_message_body W m.distribution_id m.key_id m.iteration m.ciphertext)
        m.signature _ m (version_byte m.message_version h.message_version) h.signature
        (read_body m.distribution_id m.ciphertext m.key_id m.iteration h.distribution_id h.key_id
          h.iteration h.ciphertext)
        (rw (sym h.message_version) refl)

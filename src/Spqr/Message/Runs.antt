-- ===== src/Spqr/Message/Runs.antt =====
-- A message with a chunk, and one without, written and read.
use signal.Common.{◌≡◌, refl, none, some, true, false, [], ◌∷◌, ◌++◌, ok, arith}
use signal.Crypto.Toy.{fill}
use signal.Spqr.Message.{
  chunk_index_of, chunk_data_of, has_chunk, V1Message, serialize_v1_message, deserialize_v1_message,
  parse_message, encode_varint, consume_varint,
}
use signal.Spqr.Message.RoundTrip.{IsSendable, without_ack, parse_message-serialize_v1_message}

-- A chunk of an encapsulation key; the epoch takes two bytes.
abbrev key_chunk : V1Message
key_chunk = record {
  epoch = 300;
  payload = record {
    kind = 2;
    chunk = some (record { index = 513; data_bytes = fill 7 });
    ack = false;
  };
}

key_chunk-IsSendable : IsSendable key_chunk
unfolding has_chunk
key_chunk-IsSendable = record { epoch = omega arith; chunk = (omega arith, refl) }

parse_message-serialize_v1_message_example :
    (deserialize_v1_message (serialize_v1_message key_chunk 9 ++ (1 ∷ 2 ∷ []))
      ≡ ok ((without_ack key_chunk, 9), 1 ∷ 2 ∷ []))
    × (parse_message (serialize_v1_message key_chunk 9 ++ (1 ∷ 2 ∷ []))
        ≡ ok record {
          version = 1;
          epoch = 300;
          index = 9;
          kind = 2;
          chunk_index = 513;
          chunk_data = fill 7;
        })
unfolding chunk_index_of chunk_data_of
parse_message-serialize_v1_message_example =
    parse_message-serialize_v1_message key_chunk 9 (1 ∷ 2 ∷ []) key_chunk-IsSendable (omega arith)

-- An acknowledgement: its type says so, and the field does not come back.
abbrev ct1_ack : V1Message
ct1_ack = record { epoch = 3; payload = record { kind = 4; chunk = none; ack = true } }

ct1_ack_read :
    deserialize_v1_message (serialize_v1_message ct1_ack 9) ≡ ok ((without_ack ct1_ack, 9), [])
unfolding deserialize_v1_message serialize_v1_message has_chunk encode_varint consume_varint
    without_ack
ct1_ack_read = refl

varint_300 : encode_varint 300 ≡ 172 ∷ 2 ∷ []
unfolding encode_varint
varint_300 = refl

varint_of_five_bytes : consume_varint (255 ∷ 255 ∷ 255 ∷ 255 ∷ 15 ∷ []) ≡ ok (4294967295, [])
unfolding consume_varint
varint_of_five_bytes = refl

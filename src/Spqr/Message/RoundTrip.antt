-- ===== src/Spqr/Message/RoundTrip.antt =====
-- A message of spqr that is written reads back (spqr/message.go).
use mathlib.Core.List.{append_assoc}
use signal.Common.{
  ℕ, ◌≡◌, refl, Bool, true, false, ◌%◌, ◌^◌, Option, none, some, ◌∷◌, ◌++◌, Bytes, ok,
  pqr_invalid_message, length, arith,
}
use signal.Common.Words.{IsU64, IsU32, IsU16}
use signal.Common.Reader.{cut-append, read_byte}
use signal.Spqr.Message.{
  Chunk, V1Message, version_v1, poly_chunk_data_size, has_chunk, serialize_v1_message,
  deserialize_v1_message, parse_message, encode_varint, chunk_bytes, read_chunk, read_v1_message,
  chunk_index_of, chunk_data_of,
}
use signal.Spqr.Message.Varint.{consume_varint-encode_varint}

-- There is a chunk exactly if the type has one.
abbrev IsChunk : Bool → Option Chunk → Type 0
IsChunk true (some c) = IsU16 c.index × (length c.data_bytes ≡ poly_chunk_data_size)
IsChunk true none = ⊥
IsChunk false (some c) = ⊥
IsChunk false none = Unit {0}

-- The size that the Go type fixes for the epoch, and a chunk exactly if the type has one.
pub record IsSendable (m : V1Message) : Type 0 where
  pub epoch : IsU64 m.epoch
  pub chunk : IsChunk (has_chunk m.payload.kind) m.payload.chunk

-- The message as it is read: `ack` has no byte of its own.
unfoldable pub without_ack : V1Message → V1Message
without_ack m = record m { payload = record m.payload { ack = false } }

read_chunk-chunk_bytes :
    (has : Bool) (chunk : Option Chunk) (rest : Bytes)
    → IsChunk has chunk
    → read_chunk has (chunk_bytes has chunk ++ rest) ≡ ok (chunk, rest)
unfolding read_chunk chunk_bytes
read_chunk-chunk_bytes true (some c) rest (small, sized) =
    let wrapped : c.index % 2 ^ 16 ≡ c.index = omega (arith, small) in
    rw
      (
        append_assoc (encode_varint c.index) c.data_bytes rest,
        consume_varint-encode_varint c.index (c.data_bytes ++ rest) (omega (arith, small)),
        cut-append pqr_invalid_message 32 c.data_bytes rest sized,
        wrapped,
      )
      refl
read_chunk-chunk_bytes true none rest h = absurd h
read_chunk-chunk_bytes false (some c) rest h = absurd h
read_chunk-chunk_bytes false none rest h = refl

-- A message that is written at an index reads back with that index and without `ack`, and what follows it is left.
pub deserialize_v1_message-serialize_v1_message :
    (m : V1Message) (index : ℕ) (rest : Bytes)
    → IsSendable m
    → IsU32 index
    → deserialize_v1_message (serialize_v1_message m index ++ rest)
      ≡ ok ((without_ack m, index), rest)
unfolding deserialize_v1_message serialize_v1_message read_v1_message read_byte without_ack
deserialize_v1_message-serialize_v1_message m index rest h small =
    let chunk = chunk_bytes (has_chunk m.payload.kind) m.payload.chunk in
    let tail = m.payload.kind ∷ (chunk ++ rest) in
    let wrapped : index % 2 ^ 32 ≡ index = omega (arith, small) in
    rw
      (
        append_assoc (encode_varint m.epoch) (encode_varint index ++ (m.payload.kind ∷ chunk)) rest,
        append_assoc (encode_varint index) (m.payload.kind ∷ chunk) rest,
        consume_varint-encode_varint m.epoch (encode_varint index ++ tail) h.epoch,
        consume_varint-encode_varint index tail (omega (arith, small)),
        read_chunk-chunk_bytes (has_chunk m.payload.kind) m.payload.chunk rest h.chunk,
        wrapped,
      )
      refl

-- A message with a uint64 epoch and a uint32 index, with a chunk (of a uint16 index and 32 bytes) exactly if its type
-- has one, acknowledging or not, is written. deserializeV1Message then reads the index, the epoch, the type and the
-- chunk, sets `ack` to false whatever it was, and leaves the bytes that follow. ParseMessage reads version 1, the
-- epoch, the index, the type, and the chunk's index and bytes where the type has a chunk, and ignores what follows.
pub parse_message-serialize_v1_message :
    (m : V1Message) (index : ℕ) (rest : Bytes)
    → IsSendable m
    → IsU32 index
    → (deserialize_v1_message (serialize_v1_message m index ++ rest)
        ≡ ok ((without_ack m, index), rest))
      × (parse_message (serialize_v1_message m index ++ rest)
          ≡ ok record {
            version = version_v1;
            epoch = m.epoch;
            index = index;
            kind = m.payload.kind;
            chunk_index = chunk_index_of m.payload.chunk;
            chunk_data = chunk_data_of m.payload.chunk;
          })
unfolding parse_message serialize_v1_message without_ack
parse_message-serialize_v1_message m index rest h small =
    let read = deserialize_v1_message-serialize_v1_message m index rest h small in
    (read, rw read refl)

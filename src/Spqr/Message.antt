-- ===== src/Spqr/Message.antt =====
-- spqr/message.go: a message as bytes. What stands at data[pos:] is the list that is left, and the position that
-- deserializeV1Message returns is the list that it leaves.
pub mod Varint
pub mod RoundTrip
pub mod Runs
use signal.Common.{
  ℕ, zero, suc, ◌+◌, ◌*◌, ◌/◌, ◌%◌, ◌^◌, Bool, true, false, not, ◌||◌, Option, none, some, [], ◌∷◌,
  ◌++◌, Bytes, Result, ok, err, ◌>>=◌, pqr_invalid_message, pqr_unsupported_version, eqb, ltb, leb,
  if◌then◌else◌,
}
use signal.Common.Reader.{Reader, cut, read_byte}

abbrev pub version_disabled : ℕ
version_disabled = 0

abbrev pub version_v1 : ℕ
version_v1 = 1

abbrev message_type_hdr : ℕ
message_type_hdr = 1

abbrev message_type_ek : ℕ
message_type_ek = 2

abbrev message_type_ek_ct1_ack : ℕ
message_type_ek_ct1_ack = 3

abbrev message_type_ct1 : ℕ
message_type_ct1 = 5

abbrev message_type_ct2 : ℕ
message_type_ct2 = 6

abbrev pub poly_chunk_data_size : ℕ
poly_chunk_data_size = 32

pub record Chunk : Type 0 where
  pub index : ℕ
  pub data_bytes : Bytes

pub record MessagePayload : Type 0 where
  pub kind : ℕ
  pub chunk : Option Chunk
  pub ack : Bool

pub record V1Message : Type 0 where
  pub epoch : ℕ
  pub payload : MessagePayload

pub record PqrMessage : Type 0 where
  pub version : ℕ
  pub epoch : ℕ
  pub index : ℕ
  pub kind : ℕ
  pub chunk_index : ℕ
  pub chunk_data : Bytes

unfoldable pub has_chunk : ℕ → Bool
has_chunk t =
    eqb t message_type_hdr
    || eqb t message_type_ek
    || eqb t message_type_ek_ct1_ack
    || eqb t message_type_ct1
    || eqb t message_type_ct2

-- As many rounds as the first argument.
unfoldable pub varint_rounds : ℕ → ℕ → Bytes
varint_rounds zero v = []
varint_rounds (suc n) v =
    let rest = varint_rounds n (v / 128) in
    if ltb v 128 then (v % 128) ∷ [] else (v % 128 + 128) ∷ rest

unfoldable pub encode_varint : ℕ → Bytes
unfolding varint_rounds
encode_varint v = varint_rounds 10 v

-- x | b << s on a uint64. The bits of x are below s, so that the or is the sum; b << s is 0 from s = 64 on.
or_shifted : ℕ → ℕ → ℕ → ℕ
or_shifted x b s = (x + b * 2 ^ s) % 2 ^ 64

unfoldable pub varint_from : ℕ → ℕ → Reader ℕ
unfolding or_shifted
varint_from x s [] = err pqr_invalid_message
varint_from x s (b ∷ input) =
    let rest = varint_from (or_shifted x (b % 128) s) (s + 7) input in
    if ltb b 128
    then (if leb 64 s then err pqr_invalid_message else ok (or_shifted x b s, input))
    else rest

unfoldable pub consume_varint : Reader ℕ
unfolding varint_from
consume_varint input = varint_from 0 0 input

-- A type that has a chunk is written without it when the chunk is nil.
chunk_bytes : Bool → Option Chunk → Bytes
unfolding encode_varint
chunk_bytes true (some c) = encode_varint c.index ++ c.data_bytes
chunk_bytes _ _ = []

unfoldable pub serialize_v1_message : V1Message → ℕ → Bytes
unfolding encode_varint chunk_bytes has_chunk
serialize_v1_message m index =
    version_v1
    ∷ (encode_varint m.epoch
        ++ (encode_varint index
            ++ (m.payload.kind ∷ chunk_bytes (has_chunk m.payload.kind) m.payload.chunk)))

read_chunk : Bool → Reader (Option Chunk)
unfolding consume_varint cut
read_chunk false input = ok (none, input)
read_chunk true input = do
  (index, b1) ← consume_varint input
  (raw, rest) ← cut pqr_invalid_message poly_chunk_data_size b1
  ok (some (record { index = index % 2 ^ 16; data_bytes = raw }), rest)

read_v1_message : Reader (V1Message × ℕ)
unfolding consume_varint read_byte read_chunk has_chunk
read_v1_message input = do
  (epoch, b1) ← consume_varint input
  (index, b2) ← consume_varint b1
  (kind, b3) ← read_byte pqr_invalid_message b2
  (chunk, rest) ← read_chunk (has_chunk kind) b3
  ok (
    (
      record { epoch = epoch; payload = record { kind = kind; chunk = chunk; ack = false } },
      index % 2 ^ 32,
    ),
    rest,
  )

unfoldable pub deserialize_v1_message : Reader (V1Message × ℕ)
unfolding read_v1_message
deserialize_v1_message [] = err pqr_invalid_message
deserialize_v1_message (version ∷ rest) =
    if not (eqb version version_v1) then err pqr_invalid_message else read_v1_message rest

pub chunk_index_of : Option Chunk → ℕ
chunk_index_of none = 0
chunk_index_of (some c) = c.index

pub chunk_data_of : Option Chunk → Bytes
chunk_data_of none = []
chunk_data_of (some c) = c.data_bytes

unfoldable pub parse_message : Bytes → Result PqrMessage
unfolding deserialize_v1_message chunk_index_of chunk_data_of
parse_message [] = err pqr_invalid_message
parse_message (version ∷ rest) =
    if eqb version version_disabled
    then ok (record {
      version = version;
      epoch = 0;
      index = 0;
      kind = 0;
      chunk_index = 0;
      chunk_data = [];
    })
    else if not (eqb version version_v1)
    then err pqr_unsupported_version
    else do
      ((msg, index), left) ← deserialize_v1_message (version ∷ rest)
      ok record {
        version = version;
        epoch = msg.epoch;
        index = index;
        kind = msg.payload.kind;
        chunk_index = chunk_index_of msg.payload.chunk;
        chunk_data = chunk_data_of msg.payload.chunk;
      }

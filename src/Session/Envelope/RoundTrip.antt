-- ===== src/Session/Envelope/RoundTrip.antt =====
-- A ratchet message that is sent in an envelope is read from it (session/cipher.go).
use signal.Common.{
  ℕ, ◌+◌, ◌≤◌, ◌≡◌, refl, [], ◌++◌, Bytes, ok, length, length-append, take-append, drop-append,
  arith, suc, ◌<◌, ◌^◌,
}
use signal.Common.Words.{IsU32, put_uint32, uint32-put_uint32, length-put_uint32}
use signal.Common.Reader.{not_short}
use signal.Ratchet.{Message}
use signal.Ratchet.Encoding.{serialize}
use signal.Ratchet.Encoding.RoundTrip.{IsSized, length-serialize, deserialize-serialize}
use signal.Session.Serialize.{as_invalid}
use signal.Session.Envelope.{
  encode_envelope, decode_envelope, envelope_fields, sized_payload, encode_ratchet_message,
  decode_ratchet_message,
}

sized_payload-put_uint32 :
    (payload : Bytes)
    → IsU32 (length payload)
    → sized_payload (put_uint32 (length payload) ++ payload) ≡ ok payload
unfolding sized_payload put_uint32
sized_payload-put_uint32 payload h = rw (uint32-put_uint32 (length payload) [] h) (ground arith)

two_more : {n : ℕ} → 4 ≤ n → 6 ≤ suc (suc n)
two_more h = omega arith

pub decode_envelope-encode_envelope :
    (msg_type : ℕ) (payload : Bytes)
    → IsU32 (length payload)
    → decode_envelope (encode_envelope msg_type payload) ≡ ok (msg_type, payload)
unfolding decode_envelope encode_envelope envelope_fields
decode_envelope-encode_envelope msg_type payload h =
    let l = length-append (put_uint32 (length payload)) payload in
    let long : 4 ≤ length (put_uint32 (length payload) ++ payload) =
      omega (arith, l, length-put_uint32 (length payload)) in
    rw (not_short (two_more long), sized_payload-put_uint32 payload h) refl

decode_ratchet_message-encode_ratchet_message :
    (msg : Message)
    → IsSized msg.header
    → IsU32 (length msg.ciphertext)
    → decode_ratchet_message (encode_ratchet_message msg) ≡ ok msg
unfolding decode_ratchet_message encode_ratchet_message as_invalid
decode_ratchet_message-encode_ratchet_message msg sized h =
    let raw = serialize msg.header in
    let rest = put_uint32 (length msg.ciphertext) ++ msg.ciphertext in
    let l = length-serialize msg.header sized in
    let long : 44 ≤ length (raw ++ rest) = omega (
      arith,
      l,
      length-append raw rest,
      length-append (put_uint32 (length msg.ciphertext)) msg.ciphertext,
      length-put_uint32 (length msg.ciphertext),
    ) in
    rw
      (
        not_short long,
        take-append 40 raw rest l,
        drop-append 40 raw rest l,
        deserialize-serialize msg.header sized,
        sized_payload-put_uint32 msg.ciphertext h,
      )
      refl

short :
    (msg : Message)
    → IsSized msg.header
    → length msg.ciphertext + 44 < 2 ^ 32
    → IsU32 (length (encode_ratchet_message msg))
unfolding encode_ratchet_message
short msg sized small = omega (
  arith,
  small,
  length-serialize msg.header sized,
  length-append (serialize msg.header) (put_uint32 (length msg.ciphertext) ++ msg.ciphertext),
  length-append (put_uint32 (length msg.ciphertext)) msg.ciphertext,
  length-put_uint32 (length msg.ciphertext),
)

-- A ratchet message in an envelope, of any type, is read back with its type: its header has a 32-byte key
-- and uint32 counters, and its ciphertext is shorter than 2^32 - 44 bytes.
pub decode-encode :
    (msg_type : ℕ) (msg : Message)
    → IsSized msg.header
    → length msg.ciphertext + 44 < 2 ^ 32
    → (decode_envelope (encode_envelope msg_type (encode_ratchet_message msg))
        ≡ ok (msg_type, encode_ratchet_message msg))
      × (decode_ratchet_message (encode_ratchet_message msg) ≡ ok msg)
decode-encode msg_type msg sized small = (
  decode_envelope-encode_envelope msg_type (encode_ratchet_message msg) (short msg sized small),
  decode_ratchet_message-encode_ratchet_message msg sized (omega (arith, small)),
)

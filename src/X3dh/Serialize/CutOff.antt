-- ===== src/X3dh/Serialize/CutOff.antt =====
-- An initial message that ends behind its Kyber ciphertext (x3dh/serialize.go).
use mathlib.Core.List.{append_assoc}
use signal.Common.{
  panicked, ℕ, ◌<◌, ◌≤◌, ◌≡◌, refl, true, false, some, ◌++◌, Bytes, ok, err, ltb, length,
  length-append, arith,
}
use signal.Common.Words.{put_uint16, put_uint32}
use signal.Common.Reader.{read_uint32, cut}
use signal.Crypto.{Primitives}
use signal.Keys.Serialize.{serialize_identity_key}
use signal.Keys.Serialize.RoundTrip.{length-serialize_identity_key}
use signal.X3dh.{Message}
use signal.X3dh.Serialize.{
  serialize_message, deserialize_message, pre_key_bytes, front_bytes, read_ciphertext,
}
use signal.X3dh.Serialize.RoundTrip.{IsSendable, kyber_part, deserialize_message-front}

front_bytes-append : (m : Message) (a b : Bytes) → front_bytes m (a ++ b) ≡ front_bytes m a ++ b
unfolding front_bytes
front_bytes-append m a b =
    let i = serialize_identity_key m.identity_key in
    let b4 = put_uint32 m.signed_pre_key_id ++ a in
    let b3 = pre_key_bytes m.pre_key_id ++ b4 in
    let b2 = m.ephemeral_key ++ b3 in
    rw
      (
        append_assoc (put_uint16 (length i)) (i ++ b2) b,
        append_assoc i b2 b,
        append_assoc m.ephemeral_key b3 b,
        append_assoc (pre_key_bytes m.pre_key_id) b4 b,
        append_assoc (put_uint32 m.signed_pre_key_id) a b,
      )
      refl

too_short : (b : Bytes) → length b < 4 → read_ciphertext b ≡ err panicked
unfolding read_ciphertext read_uint32 cut
too_short b h = let short : ltb (length b) 4 ≡ true = ground arith in rw short refl

-- An initial message with a Kyber pre-key that is cut off behind its Kyber ciphertext, within the four bytes of the
-- next length, is not refused as invalid: that length is read without a test that four bytes are left, and the code
-- panics where the slice has no spare capacity.
pub deserialize_message-cut_off :
    (P : Primitives) (m : Message) (id : ℕ) (short : Bytes)
    → IsSendable P m
    → m.kyber_pre_key_id ≡ some id
    → length short < 4
    → (front : Bytes) × (serialize_message m
        ≡ ok (front ++ (put_uint32 (length m.ciphertext) ++ m.ciphertext)))
      × (deserialize_message P (front ++ short) ≡ err panicked)
unfolding serialize_message
deserialize_message-cut_off P m id short h names few =
    let (part, e, size, reads) = kyber_part m.kyber_pre_key_id m.kyber_ciphertext h.kyber in
    let text = put_uint32 (length m.ciphertext) ++ m.ciphertext in
    let l = length-serialize_identity_key m.identity_key h.identity_public h.identity_signing in
    let fits : ltb 65535 (length (serialize_identity_key m.identity_key)) ≡ false =
      ground (arith, l) in
    let enough : 5 ≤ length (part ++ short) =
      ground (arith, names, size, length-append part short) in
    (
      front_bytes m part,
      rw (fits, e, front_bytes-append m part text) refl,
      rw
          (
            ← front_bytes-append m part short,
            deserialize_message-front m h (part ++ short) enough,
            reads short,
            too_short short few,
          )
          refl,
    )

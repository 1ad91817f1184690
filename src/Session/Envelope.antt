-- ===== src/Session/Envelope.antt =====
-- The legacy envelope and the bytes of a ratchet message (session/cipher.go).
pub mod RoundTrip
use signal.Common.{
  ℕ, ◌+◌, not, [], ◌∷◌, ◌++◌, Bytes, Result, ok, err, ◌>>=◌, invalid_message, eqb, ltb, length,
  take, drop, if◌then◌else◌,
}
use signal.Common.Words.{put_uint32, uint32}
use signal.Ratchet.{Message}
use signal.Ratchet.Encoding.{serialize, deserialize}
use signal.Session.Serialize.{as_invalid}

abbrev pub envelope_version : ℕ
envelope_version = 1

abbrev pub envelope_type_signal : ℕ
envelope_type_signal = 1

abbrev pub envelope_type_pre_key : ℕ
envelope_type_pre_key = 2

abbrev pub header_len : ℕ
header_len = 40

unfoldable pub encode_envelope : ℕ → Bytes → Bytes
encode_envelope msg_type payload =
    envelope_version ∷ msg_type ∷ (put_uint32 (length payload) ++ payload)

-- The payload behind its length.
sized_payload : Bytes → Result Bytes
sized_payload rest =
    if not (eqb (length (drop 4 rest)) (uint32 (take 4 rest)))
    then err invalid_message
    else ok (drop 4 rest)

envelope_fields : Bytes → Result (ℕ × Bytes)
unfolding sized_payload
envelope_fields (version ∷ msg_type ∷ rest) =
    if not (eqb version envelope_version)
    then err invalid_message
    else sized_payload rest >>= (λ payload. ok (msg_type, payload))
envelope_fields _ = err invalid_message

unfoldable pub decode_envelope : Bytes → Result (ℕ × Bytes)
unfolding envelope_fields
decode_envelope input = if ltb (length input) 6 then err invalid_message else envelope_fields input

unfoldable pub encode_ratchet_message : Message → Bytes
unfolding serialize
encode_ratchet_message msg =
    serialize msg.header ++ (put_uint32 (length msg.ciphertext) ++ msg.ciphertext)

unfoldable pub decode_ratchet_message : Bytes → Result Message
unfolding as_invalid deserialize sized_payload
decode_ratchet_message input =
    if ltb (length input) (header_len + 4) then err invalid_message else do
      header ← as_invalid (deserialize (take header_len input))
      ciphertext ← sized_payload (drop header_len input)
      ok (record { header = header; ciphertext = ciphertext })

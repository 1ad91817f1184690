-- ===== src/SenderKeys/Message/Parse.antt =====
-- How senderkeys/message.go reads the bytes of its messages.
pub mod Laws
pub mod RoundTrip
pub mod Distribution
pub mod Safe
pub mod Fuel
use signal.Common.{
  ℕ, zero, suc, ◌+◌, ◌-◌, ◌/◌, ◌%◌, ◌^◌, not, Option, none, some, [], ◌∷◌, Bytes, Result, ok, err,
  ◌>>=◌, invalid_message, panicked, or_fail, eqb, ltb, length, take, drop, if◌then◌else◌,
}
use signal.Common.Reader.{Reader}
use signal.Crypto.{Primitives}
use signal.Crypto.Kyber.{first_byte}
use signal.Keys.Wire.{deserialize_wire_public_key, validate_public_key}
use signal.SenderKeys.Generate.{sender_key_message_version}
use signal.SenderKeys.Serialize.{distribution_id_size, sender_key_seed_size}
use signal.SenderKeys.Message.{
  Protowire, SenderKeyMessage, DistributionMessage, sender_key_signature_size,
}

-- The fields that were read so far; one that was not is `none`. The payload is the ciphertext or the chain key, and a
-- message has no signing key.
pub record Fields : Type 0 where
  pub distribution_id : Option Bytes
  pub key_id : Option ℕ
  pub iteration : Option ℕ
  pub payload : Option Bytes
  pub signing_key : Option Bytes

abbrev pub no_fields : Fields
no_fields = record {
  distribution_id = none;
  key_id = none;
  iteration = none;
  payload = none;
  signing_key = none;
}

unfoldable pub parse_sender_key_version : ℕ → ℕ
parse_sender_key_version b = b / 16

-- A message of a version that is not the one of the library is refused.
unfoldable pub current_version_of : Bytes → Result ℕ
unfolding first_byte parse_sender_key_version
current_version_of input =
    let version : ℕ = parse_sender_key_version (first_byte input) in
    if ltb version sender_key_message_version
    then err invalid_message
    else if ltb sender_key_message_version version
    then err invalid_message
    else ok version

module _ (W : Protowire) where
  unfoldable pub bytes_field : ℕ → Reader Bytes
  bytes_field typ input =
      if not (eqb typ W.bytes_type)
      then err invalid_message
      else or_fail (W.consume_bytes input) invalid_message

  -- The value is cut to a uint32.
  unfoldable pub varint_field : ℕ → Reader ℕ
  varint_field typ input = if not (eqb typ W.varint_type) then err invalid_message else do
    (val, rest) ← or_fail (W.consume_varint input) invalid_message
    ok (val % 2 ^ 32, rest)

  unfoldable pub sized_field : ℕ → ℕ → Reader Bytes
  unfolding bytes_field
  sized_field size typ input = do
    (val, rest) ← bytes_field typ input
    (if not (eqb (length val) size) then err invalid_message else ok (val, rest))

  unfoldable pub unknown_field : Fields → ℕ → Reader Fields
  unknown_field f typ input =
      if eqb typ W.bytes_type
      then (or_fail (W.consume_bytes input) invalid_message >>= λ read. ok (f, read.1))
      else (or_fail (W.consume_varint input) invalid_message >>= λ read. ok (f, read.1))

  read_distribution_id : Fields → ℕ → Reader Fields
  unfolding sized_field
  read_distribution_id f typ input = do
    (val, rest) ← sized_field distribution_id_size typ input
    ok (record f { distribution_id = some val }, rest)

  read_key_id : Fields → ℕ → Reader Fields
  unfolding varint_field
  read_key_id f typ input = do
    (val, rest) ← varint_field typ input
    ok (record f { key_id = some val }, rest)

  read_iteration : Fields → ℕ → Reader Fields
  unfolding varint_field
  read_iteration f typ input = do
    (val, rest) ← varint_field typ input
    ok (record f { iteration = some val }, rest)

  read_payload : Reader Bytes → Fields → Reader Fields
  read_payload field f input = do
    (val, rest) ← field input
    ok (record f { payload = some val }, rest)

  -- The field with the number, as both messages read it; the payload and the fields behind it are read by `others`.
  unfoldable pub read_field : (ℕ → Fields → ℕ → Reader Fields) → ℕ → ℕ → Fields → Reader Fields
  unfolding read_distribution_id read_key_id read_iteration
  read_field others num typ f input =
      if eqb num 1
      then read_distribution_id f typ input
      else if eqb num 2
      then read_key_id f typ input
      else if eqb num 3
      then read_iteration f typ input
      else others num f typ input

  unfoldable pub message_field : ℕ → Fields → ℕ → Reader Fields
  unfolding bytes_field unknown_field read_payload
  message_field num f typ input =
      if eqb num 4 then read_payload (bytes_field typ) f input else unknown_field f typ input

  signing_key_of : Primitives → Bytes → Result Bytes
  unfolding validate_public_key deserialize_wire_public_key
  signing_key_of P val =
      if eqb (length val) 32
      then elim (validate_public_key P val) [ ok _ ↦ ok val | err _ ↦ err invalid_message ]
      else if eqb (length val) 33
      then deserialize_wire_public_key P val
      else err invalid_message

  read_signing_key : Primitives → Fields → ℕ → Reader Fields
  unfolding bytes_field signing_key_of
  read_signing_key P f typ input = do
    (val, rest) ← bytes_field typ input
    public ← signing_key_of P val
    ok (record f { signing_key = some public }, rest)

  unfoldable pub distribution_field : Primitives → ℕ → Fields → ℕ → Reader Fields
  unfolding sized_field unknown_field read_payload read_signing_key
  distribution_field P num f typ input =
      if eqb num 4
      then read_payload (sized_field sender_key_seed_size typ) f input
      else if eqb num 5
      then read_signing_key P f typ input
      else unknown_field f typ input

  -- The loop on fuel. A tag has at least one byte, so that the bytes that are left bound the rounds; the error when the
  -- fuel is used up is not reached.
  unfoldable pub read_fields : (ℕ → Fields → ℕ → Reader Fields) → ℕ → Fields → Bytes → Result Fields
  unfolding read_field
  read_fields others fuel f [] = ok f
  read_fields others zero f (b ∷ input) = err panicked
  read_fields others (suc fuel) f (b ∷ input) = do
    ((num, typ), b1) ← or_fail (W.consume_tag (b ∷ input)) invalid_message
    (g, rest) ← read_field others num typ f b1
    read_fields others fuel g rest

message_from_fields : ℕ → Fields → Bytes → Result SenderKeyMessage
message_from_fields version f signature = do
  distribution_id ← or_fail f.distribution_id invalid_message
  key_id ← or_fail f.key_id invalid_message
  iteration ← or_fail f.iteration invalid_message
  ciphertext ← or_fail f.payload invalid_message
  ok record {
    message_version = version;
    distribution_id = distribution_id;
    key_id = key_id;
    iteration = iteration;
    ciphertext = ciphertext;
    signature = signature;
  }

distribution_from_fields : ℕ → Fields → Result DistributionMessage
distribution_from_fields version f = do
  distribution_id ← or_fail f.distribution_id invalid_message
  key_id ← or_fail f.key_id invalid_message
  iteration ← or_fail f.iteration invalid_message
  chain_key ← or_fail f.payload invalid_message
  signing_public ← or_fail f.signing_key invalid_message
  ok record {
    message_version = version;
    distribution_id = distribution_id;
    key_id = key_id;
    iteration = iteration;
    chain_key = chain_key;
    signing_public = signing_public;
  }

module _ (W : Protowire) where
  decode_sender_key_message_body : Bytes → Result Fields
  unfolding read_fields message_field
  decode_sender_key_message_body body = read_fields W (message_field W) (length body) no_fields body

  -- The message, and the bytes that are signed.
  unfoldable pub parse_sender_key_message : Bytes → Result (SenderKeyMessage × Bytes)
  unfolding current_version_of decode_sender_key_message_body message_from_fields
  parse_sender_key_message input =
      let signed_size : ℕ = length input - sender_key_signature_size in
      if ltb (length input) (1 + sender_key_signature_size) then err invalid_message else do
        version ← current_version_of input
        f ← decode_sender_key_message_body (drop 1 (take signed_size input))
        m ← message_from_fields version f (drop signed_size input)
        ok (m, take signed_size input)

  unfoldable pub parse_distribution_message : Primitives → Bytes → Result DistributionMessage
  unfolding current_version_of read_fields distribution_field distribution_from_fields
  parse_distribution_message P [] = err invalid_message
  parse_distribution_message P (b ∷ body) = do
    version ← current_version_of (b ∷ body)
    f ← read_fields W (distribution_field W P) (length body) no_fields body
    distribution_from_fields version f

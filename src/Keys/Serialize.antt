-- ===== src/Keys/Serialize.antt =====
-- keys/serialize.go: public parts of the keys as bytes. `none` is a nil key pair.
pub mod RoundTrip
use signal.Common.{
  ℕ, Bool, true, false, not, Option, none, some, [], ◌∷◌, ◌++◌, Bytes, Result, ok, err, ◌>>=◌,
  plain, invalid_key, or_fail, eqb, ltb, length, take, drop, if◌then◌else◌, ◌+◌,
}
use signal.Common.Words.{put_uint16, put_uint32, uint16, uint32, zero_key}
use signal.Common.Reader.{Reader, cut, cut_some, read_byte, read_uint16, read_uint32}
use signal.Crypto.{Primitives}
use signal.Crypto.Kyber.{first_byte}
use signal.Keys.{IdentityKey, PreKey, SignedPreKey}
use signal.Keys.Wire.{is_valid_public_key}
use signal.Keys.Bundle.{PreKeyBundle}

abbrev pub serialize_version : ℕ
serialize_version = 1

unfoldable pub serialize_identity_key : IdentityKey → Bytes
serialize_identity_key k = serialize_version ∷ (k.public_key ++ k.signing_public)

unfoldable pub serialize_pre_key : PreKey → Result Bytes
serialize_pre_key p = do
  pair ← or_fail p.key_pair (plain "pre-key is nil")
  ok (serialize_version ∷ (put_uint32 p.id ++ pair.public_key))

unfoldable pub serialize_signed_pre_key : SignedPreKey → Result Bytes
serialize_signed_pre_key spk = do
  pair ← or_fail spk.key_pair (plain "signed pre-key is nil")
  (if eqb (length spk.signature) 0
      then err (plain "signed pre-key missing signature")
      else ok (
          serialize_version
          ∷ (put_uint32 spk.id
              ++ (put_uint16 (length spk.signature) ++ (pair.public_key ++ spk.signature)))))

-- The tests of length and version at the start.
headed : Bool → Bytes → Result Bytes
unfolding first_byte
headed long input =
    if not long
    then err (plain "invalid length")
    else if not (eqb (first_byte input) serialize_version)
    then err (plain "unsupported version")
    else ok (drop 1 input)

module _ (P : Primitives) where
  -- A public key that is read must be valid.
  valid_key : Bytes → Result Bytes
  unfolding is_valid_public_key
  valid_key public = if not (is_valid_public_key P public) then err invalid_key else ok public

  unfoldable pub deserialize_identity_key : Bytes → Result IdentityKey
  unfolding headed valid_key
  deserialize_identity_key input = do
    body ← headed (eqb (length input) (1 + 32 + 32)) input
    public ← valid_key (take 32 body)
    ok (record { public_key = public; signing_public = drop 32 body })

  unfoldable pub deserialize_pre_key : Bytes → Result PreKey
  unfolding headed valid_key
  deserialize_pre_key input = do
    body ← headed (eqb (length input) (1 + 4 + 32)) input
    public ← valid_key (drop 4 body)
    ok (record {
      id = uint32 (take 4 body);
      key_pair = some (record { public_key = public; private_key = zero_key });
      timestamp = 0;
    })

  -- The length that the signature's length makes.
  signed_length : Bytes → Result Bytes
  signed_length body =
      if not (eqb (length body) (4 + 2 + 32 + uint16 (take 2 (drop 4 body))))
      then err (plain "signed pre-key: signature length mismatch")
      else ok body

  unfoldable pub deserialize_signed_pre_key : Bytes → Result SignedPreKey
  unfolding headed valid_key signed_length
  deserialize_signed_pre_key input = do
    body ← headed (not (ltb (length input) (1 + 4 + 2 + 32))) input
    whole ← signed_length body
    public ← valid_key (take 32 (drop 6 body))
    ok (record {
      id = uint32 (take 4 body);
      key_pair = some (record { public_key = public; private_key = zero_key });
      signature = drop 38 body;
      timestamp = 0;
    })

-- The one-time pre-key, written where the bundle has its identifier and its key.
one_time_bytes : Option ℕ → Option Bytes → Bytes
one_time_bytes (some id) (some public) = 1 ∷ (put_uint32 id ++ public)
one_time_bytes (some id) none = 0 ∷ []
one_time_bytes none public = 0 ∷ []

kyber_bytes : ℕ → Bytes → Bytes → Bytes
kyber_bytes id public signature =
    1
    ∷ (put_uint32 id
        ++ (put_uint16 (length public) ++ (public ++ (put_uint16 (length signature) ++ signature))))

-- The Kyber pre-key: all of its parts or none of them.
kyber_part_bytes : Option ℕ → Bytes → Bytes → Result Bytes
unfolding kyber_bytes
kyber_part_bytes none public signature =
    if not (eqb (length public) 0)
    then err (plain "bundle: kyber pre-key id/key mismatch")
    else if not (eqb (length signature) 0)
    then err (plain "bundle: kyber pre-key id/signature mismatch")
    else ok []
kyber_part_bytes (some id) public signature =
    if eqb (length public) 0
    then err (plain "bundle: kyber pre-key id/key mismatch")
    else if eqb (length signature) 0
    then err (plain "bundle: kyber pre-key id/signature mismatch")
    else ok (kyber_bytes id public signature)

unfoldable pub serialize_pre_key_bundle : PreKeyBundle → Result Bytes
unfolding one_time_bytes kyber_part_bytes serialize_identity_key
serialize_pre_key_bundle b = do
  kyber ← kyber_part_bytes b.kyber_pre_key_id b.kyber_pre_key_public b.kyber_pre_key_signature
  ok (
      serialize_version
      ∷ (put_uint32 b.registration_id
          ++ (put_uint32 b.device_id
              ++ (one_time_bytes b.pre_key_id b.pre_key_public
                  ++ (put_uint32 b.signed_pre_key_id
                      ++ (b.signed_pre_key_public
                          ++ (put_uint16 (length b.signed_pre_key_signature)
                              ++ (b.signed_pre_key_signature
                                  ++ (serialize_identity_key b.identity_key ++ kyber)))))))))

read_one_time : Reader (Option ℕ × Option Bytes)
unfolding read_byte read_uint32 cut
read_one_time input = do
  (has_pre_key, b1) ← read_byte (plain "bundle: truncated header") input
  (if not (eqb has_pre_key 1)
      then ok ((none, none), b1)
      else if ltb (length b1) (4 + 32)
      then err (plain "bundle: truncated pre-key")
      else do
        (id, b2) ← read_uint32 (plain "bundle: truncated pre-key") b1
        (public, rest) ← cut (plain "bundle: truncated pre-key") 32 b2
        ok ((some id, some public), rest))

read_signed : Reader (ℕ × (Bytes × Bytes))
unfolding read_uint16 read_uint32 cut
read_signed input =
    if ltb (length input) (4 + 32 + 2) then err (plain "bundle: truncated signed pre-key") else do
      (id, b1) ← read_uint32 (plain "bundle: truncated signed pre-key") input
      (public, b2) ← cut (plain "bundle: truncated signed pre-key") 32 b1
      (size, b3) ← read_uint16 (plain "bundle: truncated signed pre-key") b2
      (signature, rest) ← cut (plain "bundle: truncated signature") size b3
      ok ((id, (public, signature)), rest)

read_kyber_fields : Reader (Option ℕ × (Bytes × Bytes))
unfolding read_uint16 read_uint32 cut_some
read_kyber_fields input =
    if ltb (length input) (4 + 2) then err (plain "bundle: truncated kyber header") else do
      (id, b1) ← read_uint32 (plain "bundle: truncated kyber header") input
      (public_size, b2) ← read_uint16 (plain "bundle: truncated kyber header") b1
      (public, b3) ← cut_some (plain "bundle: truncated kyber public key") public_size b2
      (signature_size, b4) ← read_uint16 (plain "bundle: truncated kyber signature length") b3
      (signature, rest) ← cut_some (plain "bundle: truncated kyber signature") signature_size b4
      ok ((some id, (public, signature)), rest)

read_kyber : Reader (Option ℕ × (Bytes × Bytes))
unfolding read_kyber_fields
read_kyber [] = ok ((none, ([], [])), [])
read_kyber (has_kyber ∷ rest) =
    if eqb has_kyber 1
    then read_kyber_fields rest
    else if not (eqb has_kyber 0)
    then err (plain "bundle: invalid kyber flag")
    else ok ((none, ([], [])), rest)

no_trailing : {A : Type 0} → A → Bytes → Result A
no_trailing a [] = ok a
no_trailing a (b ∷ rest) = err (plain "bundle: trailing input")

module _ (P : Primitives) where
  read_bundle : Bytes → Result PreKeyBundle
  unfolding read_uint32 read_one_time read_signed cut read_kyber no_trailing
      deserialize_identity_key
  read_bundle input = do
    (registration_id, b1) ← read_uint32 (plain "bundle: truncated header") input
    (device_id, b2) ← read_uint32 (plain "bundle: truncated header") b1
    (one_time, b3) ← read_one_time b2
    (signed, b4) ← read_signed b3
    (identity_raw, b5) ← cut (plain "bundle: truncated identity key") (1 + 32 + 32) b4
    identity ← deserialize_identity_key P identity_raw
    (kyber, b6) ← read_kyber b5
    no_trailing
        (record {
          registration_id = registration_id;
          device_id = device_id;
          pre_key_id = one_time.0;
          pre_key_public = one_time.1;
          signed_pre_key_id = signed.0;
          signed_pre_key_public = signed.1.0;
          signed_pre_key_signature = signed.1.1;
          kyber_pre_key_id = kyber.0;
          kyber_pre_key_public = kyber.1.0;
          kyber_pre_key_signature = kyber.1.1;
          identity_key = identity;
        })
        b6

  unfoldable pub deserialize_pre_key_bundle : Bytes → Result PreKeyBundle
  unfolding headed read_bundle
  deserialize_pre_key_bundle input = do
    body ← headed (not (ltb (length input) (1 + 4 + 4 + 1 + 4 + 32 + 4 + 32 + 2))) input
    read_bundle body

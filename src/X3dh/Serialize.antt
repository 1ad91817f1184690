-- ===== src/X3dh/Serialize.antt =====
-- x3dh/serialize.go: the initial message as bytes. What stands at data[pos:] is the list that is left.
pub mod RoundTrip
pub mod CutOff
pub mod Runs
use signal.Common.{
  panicked, ℕ, ◌+◌, Option, none, some, [], ◌∷◌, ◌++◌, Bytes, String, Error, Result, ok, err, ◌>>=◌,
  plain, eqb, ltb, not, length, if◌then◌else◌,
}
use signal.Common.Words.{put_uint16, put_uint32}
use signal.Common.Reader.{Reader, cut, cut_some, read_byte, read_uint16, read_uint32}
use signal.Crypto.{Primitives}
use signal.Keys.{IdentityKey}
use signal.Keys.Serialize.{serialize_identity_key, deserialize_identity_key}
use signal.X3dh.{Message}

abbrev message_serialize_version : ℕ
message_serialize_version = 2

abbrev pub truncated : Error
truncated = plain "x3dh message: truncated"

pub pre_key_bytes : Option ℕ → Bytes
pre_key_bytes none = 0 ∷ 0 ∷ 0 ∷ 0 ∷ 0 ∷ []
pre_key_bytes (some id) = 1 ∷ put_uint32 id

pub kyber_bytes : Option ℕ → Bytes → Result Bytes
kyber_bytes none [] = ok (0 ∷ [])
kyber_bytes (some id) (b ∷ ct) =
    ok (1 ∷ (put_uint32 id ++ (put_uint32 (length (b ∷ ct)) ++ (b ∷ ct))))
kyber_bytes _ _ = err (plain "x3dh message: kyber id/ciphertext mismatch")

-- What stands before the part of the Kyber pre-key.
pub front_bytes : Message → Bytes → Bytes
unfolding pre_key_bytes
front_bytes m rest =
    message_serialize_version
    ∷ (put_uint16 (length (serialize_identity_key m.identity_key))
        ++ (serialize_identity_key m.identity_key
            ++ (m.ephemeral_key
                ++ (pre_key_bytes m.pre_key_id ++ (put_uint32 m.signed_pre_key_id ++ rest)))))

unfoldable pub serialize_message : Message → Result Bytes
unfolding kyber_bytes front_bytes serialize_identity_key
serialize_message m =
    if ltb 65535 (length (serialize_identity_key m.identity_key))
    then err (plain "x3dh message: identity too large")
    else do
      kyber ← kyber_bytes m.kyber_pre_key_id m.kyber_ciphertext
      ok (front_bytes m (kyber ++ (put_uint32 (length m.ciphertext) ++ m.ciphertext)))

-- The four bytes are read past where the flag is 0.
flagged_id : ℕ → ℕ → Result (Option ℕ)
flagged_id flag id =
    if eqb flag 1
    then ok (some id)
    else if eqb flag 0
    then ok none
    else err (plain "x3dh message: invalid pre-key flag")

read_pre_key : Reader (Option ℕ)
unfolding read_byte read_uint32 flagged_id
read_pre_key input = do
  (flag, b1) ← read_byte truncated input
  (raw, rest) ← read_uint32 truncated b1
  id ← flagged_id flag raw
  ok (id, rest)

-- The lengths of the Kyber ciphertext and of the ciphertext are read from data[pos:pos+4] with no test that four bytes
-- are left: the code panics there, or reads past the end where the slice has the capacity.
read_kyber_fields : Reader (Option ℕ × Bytes)
unfolding read_uint32 cut_some
read_kyber_fields input = do
  (id, b1) ← read_uint32 panicked input
  (kyber_len, b2) ← read_uint32 panicked b1
  (ct, rest) ← cut_some (plain "x3dh message: invalid kyber ciphertext length") kyber_len b2
  ok ((some id, ct), rest)

pub read_kyber : Reader (Option ℕ × Bytes)
unfolding read_kyber_fields
read_kyber [] = err truncated
read_kyber (flag ∷ rest) =
    if eqb flag 1
    then read_kyber_fields rest
    else if eqb flag 0
    then ok ((none, []), rest)
    else err (plain "x3dh message: invalid kyber flag")

-- The ciphertext is all that is left.
pub read_ciphertext : Bytes → Result Bytes
unfolding read_uint32
read_ciphertext input = do
  (ct_len, rest) ← read_uint32 panicked input
  (if not (eqb ct_len (length rest))
      then err (plain "x3dh message: invalid ciphertext length")
      else ok rest)

-- There is enough for the fields of fixed size, or the message is refused.
enough : ℕ → Bytes → Result (Unit {0})
enough n input = if ltb (length input) n then err truncated else ok tt

module _ (P : Primitives) where
  read_identity : Reader IdentityKey
  unfolding read_uint16 cut_some deserialize_identity_key
  read_identity input = do
    (identity_len, b1) ← read_uint16 (plain "x3dh message: too short") input
    (raw, rest) ← cut_some (plain "x3dh message: invalid identity length") identity_len b1
    identity ← deserialize_identity_key P raw
    ok (identity, rest)

  -- Version 1 has no part for a Kyber pre-key.
  read_version_1 : Bytes → Result Message
  unfolding read_identity read_pre_key read_ciphertext read_uint32 cut enough
  read_version_1 input = do
    (identity, b1) ← read_identity input
    done ← enough (32 + 1 + 4 + 4 + 4) b1
    (ephemeral, b2) ← cut truncated 32 b1
    (pre_key_id, b3) ← read_pre_key b2
    (signed_id, b4) ← read_uint32 truncated b3
    ct ← read_ciphertext b4
    ok (record {
      identity_key = identity;
      ephemeral_key = ephemeral;
      pre_key_id = pre_key_id;
      signed_pre_key_id = signed_id;
      kyber_pre_key_id = none;
      kyber_ciphertext = [];
      ciphertext = ct;
    })

  read_version_2 : Bytes → Result Message
  unfolding read_identity read_pre_key read_kyber read_ciphertext read_uint32 cut enough
  read_version_2 input = do
    (identity, b1) ← read_identity input
    done ← enough (32 + 1 + 4 + 4 + 1 + 4) b1
    (ephemeral, b2) ← cut truncated 32 b1
    (pre_key_id, b3) ← read_pre_key b2
    (signed_id, b4) ← read_uint32 truncated b3
    (kyber, b5) ← read_kyber b4
    ct ← read_ciphertext b5
    ok (record {
      identity_key = identity;
      ephemeral_key = ephemeral;
      pre_key_id = pre_key_id;
      signed_pre_key_id = signed_id;
      kyber_pre_key_id = kyber.0;
      kyber_ciphertext = kyber.1;
      ciphertext = ct;
    })

  unfoldable pub deserialize_message : Bytes → Result Message
  unfolding read_version_1 read_version_2
  deserialize_message [] = err (plain "x3dh message: too short")
  deserialize_message (version ∷ rest) =
      if eqb version 1
      then (if ltb (length rest) (2 + 32 + 1 + 4 + 4 + 4)
          then err (plain "x3dh message: too short")
          else read_version_1 rest)
      else if not (eqb version message_serialize_version)
      then err (plain "x3dh message: unsupported version")
      else if ltb (length rest) (2 + 32 + 1 + 4 + 4 + 1 + 4)
      then err (plain "x3dh message: too short")
      else read_version_2 rest

-- ===== src/Keys/Wire.antt =====
-- keys/wire.go, and the validation of public keys in crypto/curve25519.go.
use signal.Common.{
  ℕ, Bool, false, not, Option, none, some, ◌∷◌, Bytes, bytes_beq, Result, ok, err, invalid_key,
  invalid_public_key, eqb, length, drop, replicate, if◌then◌else◌,
}
use signal.Common.Words.{zero_key}
use signal.Crypto.{Primitives}
use signal.Crypto.Kyber.{first_byte}

abbrev pub validation_scalar : Bytes
validation_scalar = 1 ∷ replicate 31 0

not_zero : Option Bytes → Bool
not_zero none = false
not_zero (some shared) = not (bytes_beq shared zero_key)

module _ (P : Primitives) where
  unfoldable pub is_valid_public_key : Bytes → Bool
  unfolding not_zero
  is_valid_public_key public_key = not_zero (P.x25519 validation_scalar public_key)

  unfoldable pub validate_public_key : Bytes → Result (Unit {0})
  unfolding is_valid_public_key
  validate_public_key public_key =
      if not (is_valid_public_key public_key) then err invalid_public_key else ok tt

abbrev pub wire_key_type_djb : ℕ
wire_key_type_djb = 5

unfoldable pub serialize_wire_public_key : Bytes → Bytes
serialize_wire_public_key public = wire_key_type_djb ∷ public

unfoldable pub deserialize_wire_public_key : Primitives → Bytes → Result Bytes
unfolding is_valid_public_key
deserialize_wire_public_key P wire =
    if not (eqb (length wire) 33)
    then err invalid_key
    else if not (eqb (first_byte wire) wire_key_type_djb)
    then err invalid_key
    else if not (is_valid_public_key P (drop 1 wire))
    then err invalid_key
    else ok (drop 1 wire)

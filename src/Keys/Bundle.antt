-- ===== src/Keys/Bundle.antt =====
-- keys/bundle.go. `verify` is (*IdentityKey).Verify: the identity, the message, the signature.
use signal.Common.{
  panicked, ℕ, Bool, true, false, not, Option, none, some, [], Bytes, Result, ok, err, invalid_key,
  invalid_signature, invalid_message, or_fail, ◌>>=◌, eqb, length, is_some, if◌then◌else◌,
}
use signal.Crypto.{Primitives}
use signal.Crypto.Kyber.{is_kyber1024_public_key, KyberKeyPair}
use signal.Keys.{IdentityKey, PreKey, SignedPreKey, KyberPreKey}
use signal.Keys.Wire.{is_valid_public_key, serialize_wire_public_key}

pub record PreKeyBundle : Type 0 where
  pub registration_id : ℕ
  pub device_id : ℕ
  pub pre_key_id : Option ℕ
  pub pre_key_public : Option Bytes
  pub signed_pre_key_id : ℕ
  pub signed_pre_key_public : Bytes
  pub signed_pre_key_signature : Bytes
  pub kyber_pre_key_id : Option ℕ
  pub kyber_pre_key_public : Bytes
  pub kyber_pre_key_signature : Bytes
  pub identity_key : IdentityKey

-- The identifier and the public key of a one-time pre-key; the code does not test its key pair for nil.
one_time_part : Option PreKey → Result (Option ℕ × Option Bytes)
one_time_part none = ok (none, none)
one_time_part (some pre_key) = do
  pair ← or_fail pre_key.key_pair panicked
  ok (some pre_key.id, some pair.public_key)

kyber_parts : KyberPreKey → KyberKeyPair → Result (Option ℕ × (Bytes × Bytes))
kyber_parts kyber pair =
    if eqb (length pair.public_key) 0
    then err invalid_key
    else if eqb (length kyber.signature) 0
    then err invalid_signature
    else ok (some kyber.id, (pair.public_key, kyber.signature))

kyber_part : Option KyberPreKey → Result (Option ℕ × (Bytes × Bytes))
unfolding kyber_parts
kyber_part none = ok (none, ([], []))
kyber_part (some kyber) = do pair ← or_fail kyber.key_pair invalid_key; kyber_parts kyber pair

unfoldable pub new_pre_key_bundle_with_kyber :
    ℕ
    → ℕ
    → Option PreKey
    → Option SignedPreKey
    → Option KyberPreKey
    → IdentityKey
    → Result PreKeyBundle
unfolding one_time_part kyber_part
new_pre_key_bundle_with_kyber registration_id device_id pre_key signed_pre_key kyber_pre_key
      identity =
    do
      signed ← or_fail signed_pre_key invalid_key
      (id, public) ← one_time_part pre_key
      pair ← or_fail signed.key_pair invalid_key
      (kyber_id, (kyber_public, kyber_signature)) ← kyber_part kyber_pre_key
      ok (record {
        registration_id = registration_id;
        device_id = device_id;
        pre_key_id = id;
        pre_key_public = public;
        signed_pre_key_id = signed.id;
        signed_pre_key_public = pair.public_key;
        signed_pre_key_signature = signed.signature;
        kyber_pre_key_id = kyber_id;
        kyber_pre_key_public = kyber_public;
        kyber_pre_key_signature = kyber_signature;
        identity_key = identity;
      })

unfoldable pub new_pre_key_bundle :
    ℕ → ℕ → Option PreKey → Option SignedPreKey → IdentityKey → Result PreKeyBundle
unfolding new_pre_key_bundle_with_kyber
new_pre_key_bundle registration_id device_id pre_key signed_pre_key identity =
    new_pre_key_bundle_with_kyber registration_id device_id pre_key signed_pre_key none identity

module _ (P : Primitives) (verify : IdentityKey → Bytes → Bytes → Bool) where
  valid_or_absent : Option Bytes → Bool
  valid_or_absent none = true
  valid_or_absent (some public) = is_valid_public_key P public

  validate_kyber : Option ℕ → PreKeyBundle → Result (Unit {0})
  validate_kyber none b = ok tt
  validate_kyber (some id) b =
      if eqb id 0
      then err invalid_key
      else if not (is_kyber1024_public_key b.kyber_pre_key_public)
      then err invalid_key
      else if not (verify b.identity_key b.kyber_pre_key_public b.kyber_pre_key_signature)
      then err invalid_signature
      else ok tt

  -- a != b on two Booleans
  differ : Bool → Bool → Bool
  differ true b = not b
  differ false b = b

  unfoldable pub validate : PreKeyBundle → Result (Unit {0})
  unfolding valid_or_absent validate_kyber differ
  validate b =
      if eqb (length b.signed_pre_key_signature) 0
      then err invalid_signature
      else if eqb b.signed_pre_key_id 0
      then err invalid_key
      else if not (is_valid_public_key P b.identity_key.public_key)
      then err invalid_key
      else if not (is_valid_public_key P b.signed_pre_key_public)
      then err invalid_key
      else if not (
          verify b.identity_key (serialize_wire_public_key b.signed_pre_key_public)
            b.signed_pre_key_signature)
      then err invalid_signature
      else if differ (not (is_some b.pre_key_id)) (not (is_some b.pre_key_public))
      then err invalid_message
      else if not (valid_or_absent b.pre_key_public)
      then err invalid_key
      else if differ (not (is_some b.kyber_pre_key_id)) (eqb (length b.kyber_pre_key_public) 0)
      then err invalid_message
      else if differ (not (is_some b.kyber_pre_key_id)) (eqb (length b.kyber_pre_key_signature) 0)
      then err invalid_message
      else validate_kyber b.kyber_pre_key_id b

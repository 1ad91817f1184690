-- ===== src/Crypto/Kyber.antt =====
-- crypto/kyber.go. The circl package is the parameter `Kem`.
pub mod RoundTrip
pub mod Toy
use signal.Common.{
  ℕ, suc, Bool, not, ◌&&◌, Option, none, some, [], ◌∷◌, Bytes, Result, ok, err, plain, or_fail,
  ◌>>=◌, eqb, length, drop, if◌then◌else◌,
}

-- kyber1024 of circl: keys are parsed from and written to bytes; `none` is an error.
pub record Kem : Type 0 where
  -- random bytes to the written public and private key
  pub generate : Bytes → Option (Bytes × Bytes)
  pub unmarshal_public : Bytes → Option Bytes
  pub unmarshal_private : Bytes → Option Bytes
  -- parsed public key and random bytes to the ciphertext and the secret
  pub encapsulate : Bytes → Bytes → Option (Bytes × Bytes)
  -- parsed private key and ciphertext to the secret
  pub decapsulate : Bytes → Bytes → Option Bytes

pub record KyberKeyPair : Type 0 where
  pub public_key : Bytes
  pub private_key : Bytes

abbrev pub kyber1024_key_type : ℕ
kyber1024_key_type = 8

-- kyber1024.PublicKeySize, PrivateKeySize, CiphertextSize, EncapsulationSeedSize
abbrev pub public_key_size : ℕ
public_key_size = 1568

abbrev pub private_key_size : ℕ
private_key_size = 3168

abbrev pub ciphertext_size : ℕ
ciphertext_size = 1568

abbrev pub encapsulation_seed_size : ℕ
encapsulation_seed_size = 32

-- data[0], of data that is not empty
unfoldable pub first_byte : Bytes → ℕ
first_byte [] = 0
first_byte (b ∷ rest) = b

-- The tests of length and type that the three unmarshal functions make.
unfoldable pub checked : ℕ → Bytes → Result Bytes
unfolding first_byte
checked size input =
    if not (eqb (length input) (suc size))
    then err (plain "kyber1024: length")
    else if not (eqb (first_byte input) kyber1024_key_type)
    then err (plain "kyber1024: unsupported type")
    else ok (drop 1 input)

module _ (K : Kem) where
  unfoldable pub generate_kyber1024_key_pair : Bytes → Result KyberKeyPair
  generate_kyber1024_key_pair entropy = do
    (pk, sk) ← or_fail (K.generate entropy) (plain "kyber1024: generate keypair")
    ok (record { public_key = kyber1024_key_type ∷ pk; private_key = kyber1024_key_type ∷ sk })

  unfoldable pub unmarshal_kyber_public_key : Bytes → Result Bytes
  unfolding checked
  unmarshal_kyber_public_key input = do
    raw ← checked public_key_size input
    or_fail (K.unmarshal_public raw) (plain "kyber1024: parse public key")

  unfoldable pub unmarshal_kyber_private_key : Bytes → Result Bytes
  unfolding checked
  unmarshal_kyber_private_key input = do
    raw ← checked private_key_size input
    or_fail (K.unmarshal_private raw) (plain "kyber1024: parse private key")

  unfoldable pub unmarshal_kyber_ciphertext : Bytes → Result Bytes
  unfolding checked
  unmarshal_kyber_ciphertext input = checked ciphertext_size input

  -- (shared secret, ciphertext)
  unfoldable pub kyber1024_encapsulate : Bytes → Bytes → Result (Bytes × Bytes)
  unfolding unmarshal_kyber_public_key
  kyber1024_encapsulate public_key coins = do
    pk ← unmarshal_kyber_public_key public_key
    (ct, ss) ← or_fail (K.encapsulate pk coins) (plain "kyber1024: encapsulate")
    ok (ss, kyber1024_key_type ∷ ct)

  unfoldable pub kyber1024_encapsulate_deterministically : Bytes → Bytes → Result (Bytes × Bytes)
  unfolding unmarshal_kyber_public_key
  kyber1024_encapsulate_deterministically public_key seed = do
    pk ← unmarshal_kyber_public_key public_key
    (ct, ss) ←
        (if not (eqb (length seed) encapsulation_seed_size)
          then err (plain "kyber1024: encapsulation seed length")
          else or_fail (K.encapsulate pk seed) (plain "kyber1024: encapsulate deterministically"))
    ok (ss, kyber1024_key_type ∷ ct)

  unfoldable pub kyber1024_decapsulate : Bytes → Bytes → Result Bytes
  unfolding unmarshal_kyber_private_key unmarshal_kyber_ciphertext
  kyber1024_decapsulate private_key ciphertext = do
    sk ← unmarshal_kyber_private_key private_key
    raw ← unmarshal_kyber_ciphertext ciphertext
    or_fail (K.decapsulate sk raw) (plain "kyber1024: decapsulate")

unfoldable pub is_kyber1024_public_key : Bytes → Bool
unfolding first_byte
is_kyber1024_public_key input =
    eqb (length input) (suc public_key_size) && eqb (first_byte input) kyber1024_key_type

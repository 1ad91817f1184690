-- ===== src/Crypto/Kyber/RoundTrip.antt =====
-- What encapsulation gives is what decapsulation gives (crypto/kyber.go).
use signal.Common.{ℕ, ◌≡◌, refl, some, ◌∷◌, Bytes, ok, length, arith, Option-cases, inl, inr}
use signal.Crypto.Kyber.{
  Kem, KyberKeyPair, public_key_size, private_key_size, ciphertext_size,
  generate_kyber1024_key_pair, kyber1024_encapsulate, kyber1024_decapsulate, checked,
  unmarshal_kyber_public_key, unmarshal_kyber_private_key, unmarshal_kyber_ciphertext,
  kyber1024_key_type,
}

-- Documented behaviour of the KEM: the sizes, and that a generated private key opens what is
-- encapsulated to its public key.
pub record IsKem (K : Kem) : Type 0 where
  pub sizes :
      (entropy pk sk : Bytes)
      → K.generate entropy ≡ some (pk, sk)
      → (length pk ≡ public_key_size) × (length sk ≡ private_key_size)
  pub opens :
      (entropy pk sk key coins ct ss : Bytes)
      → K.generate entropy ≡ some (pk, sk)
      → K.unmarshal_public pk ≡ some key
      → K.encapsulate key coins ≡ some (ct, ss)
      → (length ct ≡ ciphertext_size)
        × ((private : Bytes) × (K.unmarshal_private sk ≡ some private)
            × (K.decapsulate private ct ≡ some ss))

-- The bytes behind the type are what the tests give.
checked-typed :
    (size : ℕ) (raw : Bytes) → length raw ≡ size → checked size (kyber1024_key_type ∷ raw) ≡ ok raw
unfolding checked
checked-typed size raw l = ground (arith, l)

-- What is encapsulated to a generated public key decapsulates with its private key to the same secret.
pub kyber1024_decapsulate-kyber1024_encapsulate :
    (K : Kem) (kem : IsKem K) (entropy coins ss ciphertext : Bytes) (kp : KyberKeyPair)
    → generate_kyber1024_key_pair K entropy ≡ ok kp
    → kyber1024_encapsulate K kp.public_key coins ≡ ok (ss, ciphertext)
    → kyber1024_decapsulate K kp.private_key ciphertext ≡ ok ss
unfolding generate_kyber1024_key_pair kyber1024_encapsulate kyber1024_decapsulate
    unmarshal_kyber_public_key unmarshal_kyber_private_key unmarshal_kyber_ciphertext
kyber1024_decapsulate-kyber1024_encapsulate K kem entropy coins ss ciphertext kp made sealed =
    elim (Option-cases (K.generate entropy)) [
      | inl failed ↦ absurd (ground (arith, failed))
      | inr ((pk, sk), generated) ↦
          let (public_long, private_long) = kem.sizes entropy pk sk generated in
          let same : kp ≡ record {
            public_key = kyber1024_key_type ∷ pk;
            private_key = kyber1024_key_type ∷ sk;
          } =
            ground (arith, generated) in
          let sealed' = rw (same, checked-typed public_key_size pk public_long) at sealed in
          elim (Option-cases (K.unmarshal_public pk)) [
            | inl bad ↦ absurd (cc (rw bad at sealed', sealed'))
            | inr (key, parsed) ↦ elim (Option-cases (K.encapsulate key coins)) [
              | inl bad ↦ absurd (ground (arith, rw parsed at sealed', bad))
              | inr ((ct, secret), e) ↦
                  let (ct_long, (private, parsed', opened)) =
                    kem.opens entropy pk sk key coins ct secret generated parsed e in
                  let sealed'' = rw parsed at sealed' in
                  let same_ct : ciphertext ≡ kyber1024_key_type ∷ ct =
                    ground (arith, sealed'', e) in
                  let same_ss : secret ≡ ss = ground (arith, sealed'', e) in
                  rw
                    (
                      same,
                      same_ct,
                      checked-typed private_key_size sk private_long,
                      checked-typed ciphertext_size ct ct_long,
                      parsed',
                      opened,
                      same_ss,
                    )
                    refl
            ]
          ]
    ]

-- ===== src/Crypto/Kyber/Toy.antt =====
-- A key encapsulation that computes, to run the code on: not Kyber, but with the same sizes and laws.
use signal.Common.{
  ℕ, suc, ◌+◌, ◌%◌, ◌≡◌, refl, sym, ap, ◌∙◌, some, Bytes, length, replicate, length-replicate,
}
use signal.Crypto.Toy.{fill, head}
use signal.Crypto.Kyber.{Kem, public_key_size, private_key_size, ciphertext_size}
use signal.Crypto.Kyber.RoundTrip.{IsKem}

-- The secret of two numbers.
abbrev mixed : ℕ → ℕ → Bytes
mixed a b = fill ((a + b) % 256)

-- The private key is the public key, longer.
unfoldable pub toy_kem : Kem
unfolding head
toy_kem = record {
  generate = λ entropy.
      some (replicate public_key_size (head entropy), replicate private_key_size (head entropy));
  unmarshal_public = some;
  unmarshal_private = some;
  encapsulate =
      λ pk coins. some (replicate ciphertext_size (head coins), mixed (head pk) (head coins));
  decapsulate = λ sk ct. some (mixed (head sk) (head ct));
}

head-replicate : (n b : ℕ) → head (replicate (suc n) b) ≡ b
unfolding head
head-replicate n b = refl

pub toy_kem-IsKem : IsKem toy_kem
unfolding toy_kem
toy_kem-IsKem = record {
  sizes = λ entropy pk sk e.
      let same_pk : replicate public_key_size (head entropy) ≡ pk = cc in
      let same_sk : replicate private_key_size (head entropy) ≡ sk = cc in
      (
        ap length (sym same_pk) ∙ length-replicate public_key_size (head entropy),
        ap length (sym same_sk) ∙ length-replicate private_key_size (head entropy),
      );
  opens = λ entropy pk sk key coins ct ss e parsed sealed.
      let x = head entropy in
      let r = head coins in
      let same_pk : replicate public_key_size x ≡ pk = cc in
      let same_sk : replicate private_key_size x ≡ sk = cc in
      let same_key : pk ≡ key = cc in
      let same_ct : replicate ciphertext_size r ≡ ct = cc in
      let same_ss : mixed (head key) r ≡ ss = cc in
      let of_key : head key ≡ x = ap head (sym same_key ∙ sym same_pk) ∙ head-replicate 1567 x in
      let of_sk : head sk ≡ x = ap head (sym same_sk) ∙ head-replicate 3167 x in
      let of_ct : head ct ≡ r = ap head (sym same_ct) ∙ head-replicate 1567 r in
      (
        ap length (sym same_ct) ∙ length-replicate ciphertext_size r,
        (sk, refl, ap some (rw (of_sk, of_ct, ← of_key) same_ss)),
      );
}

-- ===== src/Crypto/Toy.antt =====
-- Primitives that compute, to run the code on: not those of the code, but with the same documented laws.
use signal.Common.{
  ℕ, ◌+◌, ◌%◌, ◌≡◌, refl, ap, none, some, [], ◌∷◌, ◌++◌, Bytes, length, replicate, drop, take,
  arith, bytes_beq, bytes_beq_iff, if◌then◌else◌, length-replicate, drop-append, take-append,
}
use signal.Crypto.{Primitives}
use signal.Crypto.Laws.{IsSound, IsAgreement}

unfoldable pub head : Bytes → ℕ
head [] = 0
head (b ∷ bs) = b

abbrev pub fill : ℕ → Bytes
fill b = replicate 32 b

abbrev tag : Bytes → Bytes → Bytes → Bytes
tag key nonce ad = replicate 16 ((head key + head nonce + length ad) % 256)

unfoldable pub toy : Primitives
unfolding head
toy = record {
  hmac_sha256 = λ key text. fill ((head key + head text) % 256);
  hkdf_extract = λ salt ikm. ikm ++ salt;
  hkdf_expand = λ prk info n. some (replicate n (head prk));
  x25519 = λ scalar point. some (fill ((head scalar + head point) % 256));
  base_point = fill 9;
  gcm_seal = λ key nonce text ad. tag key nonce ad ++ text;
  gcm_open = λ key nonce body ad.
      if bytes_beq (take 16 body) (tag key nonce ad) then some (drop 16 body) else none;
}

pub toy-IsSound : IsSound toy
unfolding toy
toy-IsSound = record {
  expands = λ prk info n h. (replicate n (head prk), refl, length-replicate n (head prk));
  opens = λ key nonce text ad hk hn. ground (
    arith,
    take-append 16 (tag key nonce ad) text refl,
    drop-append 16 (tag key nonce ad) text refl,
    bytes_beq_iff (tag key nonce ad) (tag key nonce ad),
  );
}

head-fill : (b : ℕ) → head (fill b) ≡ b
unfolding head
head-fill b = refl

pub toy-IsAgreement : IsAgreement toy
unfolding toy
toy-IsAgreement = record {
  sized = λ scalar point out e.
      let same : out ≡ fill ((head scalar + head point) % 256) = cc in rw same refl;
  commutes = λ a b a_point b_point ea eb.
      let sa : a_point ≡ fill ((head a + head (fill 9)) % 256) = cc in
      let sb : b_point ≡ fill ((head b + head (fill 9)) % 256) = cc in
      let e : (head a + head b_point) % 256 ≡ (head b + head a_point) % 256 =
        rw (sa, sb, head-fill 9, head-fill ((head a + 9) % 256), head-fill ((head b + 9) % 256))
          (omega arith) in
      ap (λ x. some (fill x)) e;
}

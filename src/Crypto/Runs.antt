-- ===== src/Crypto/Runs.antt =====
-- AES-CBC of crypto/aes_cbc.go and CTR with HMAC of crypto/aes_ctr_hmac.go on small inputs, with ciphers that
-- add nothing.
use signal.Common.{◌++◌, bytes_beq, ◌≡◌, refl, [], ◌∷◌, Bytes, ok, replicate}
use signal.Crypto.Padding.{BlockCipher, is_key_size}
use signal.Crypto.Toy.{toy, fill, head}
use signal.Crypto.CtrHmac.{aes_ctr_hmac_decrypt}
use signal.Crypto.Padding.RoundTrip.{IsCipher}

abbrev pub plain_blocks : BlockCipher
plain_blocks = record {
  cbc_encrypt = λ key iv blocks. blocks;
  cbc_decrypt = λ key iv blocks. blocks;
}

pub plain_blocks-IsCipher : IsCipher plain_blocks
plain_blocks-IsCipher = record {
  sized = λ key iv blocks whole. refl;
  opens = λ key iv blocks whole. refl;
}

abbrev text : Bytes
text = 7 ∷ 8 ∷ 9 ∷ []

abbrev as_is : Bytes → Bytes → Bytes → Bytes
as_is key nonce stream = stream

abbrev sealed : Bytes
sealed = text ++ replicate 10 9

sealed-opens : aes_ctr_hmac_decrypt toy as_is sealed (fill 1) (fill 2) ≡ ok text
unfolding aes_ctr_hmac_decrypt toy head is_key_size bytes_beq
sealed-opens = refl

-- ===== src/Crypto/Padding.antt =====
-- PKCS#7 padding and AES-CBC of crypto/aes_cbc.go. The block cipher is the parameter `BlockCipher`.
pub mod RoundTrip
use signal.Common.{
  ℕ, zero, suc, ◌+◌, ◌-◌, ◌%◌, Bool, true, false, not, ◌&&◌, ◌||◌, Option, none, some, [], ◌∷◌,
  ◌++◌, Bytes, Result, ok, err, plain, ◌>>=◌, eqb, leb, ltb, length, take, drop, replicate,
  if◌then◌else◌,
}

-- CryptBlocks of NewCBCEncrypter and NewCBCDecrypter: key, iv, whole blocks.
pub record BlockCipher : Type 0 where
  pub cbc_encrypt : Bytes → Bytes → Bytes → Bytes
  pub cbc_decrypt : Bytes → Bytes → Bytes → Bytes

unfoldable pub pkcs7_pad : Bytes → ℕ → Result Bytes
pkcs7_pad text block_size =
    if leb block_size 0 || ltb 255 block_size
    then err (plain "aes-cbc: invalid padding")
    else let room : ℕ = block_size - length text % block_size in
      let pad_len : ℕ = if eqb room 0 then block_size else room in
      ok (text ++ replicate pad_len pad_len)

-- The last byte of a list that is not empty.
unfoldable pub last : Bytes → ℕ
last [] = 0
last (b ∷ []) = b
last (b ∷ c ∷ rest) = last (c ∷ rest)

-- Every byte is the length of the padding.
unfoldable pub all_are : ℕ → Bytes → Bool
all_are pad_len [] = true
all_are pad_len (b ∷ rest) = eqb b pad_len && all_are pad_len rest

unfoldable pub pkcs7_unpad : Bytes → ℕ → Result Bytes
pkcs7_unpad padded block_size =
    let pad_len : ℕ = last padded in
    if leb block_size 0 || ltb 255 block_size
    then err (plain "aes-cbc: invalid padding")
    else if eqb (length padded) 0 || not (eqb (length padded % block_size) 0)
    then err (plain "aes-cbc: invalid padding")
    else if eqb pad_len 0 || ltb block_size pad_len
    then err (plain "aes-cbc: invalid padding")
    else if ltb (length padded) pad_len
    then err (plain "aes-cbc: invalid padding")
    else if not (all_are pad_len (drop (length padded - pad_len) padded))
    then err (plain "aes-cbc: invalid padding")
    else ok (take (length padded - pad_len) padded)

-- aes.NewCipher takes keys of 16, 24 and 32 bytes.
unfoldable pub is_key_size : ℕ → Bool
is_key_size n = eqb n 16 || (eqb n 24 || eqb n 32)

module _ (C : BlockCipher) where
  unfoldable pub aes_cbc_encrypt : Bytes → Bytes → Bytes → Result Bytes
  unfolding is_key_size
  aes_cbc_encrypt key iv plaintext =
      if not (is_key_size (length key))
      then err (plain "aes-cbc: init cipher")
      else if not (eqb (length iv) 16)
      then err (plain "aes-cbc: invalid iv length")
      else (pkcs7_pad plaintext 16 >>= λ padded. ok (C.cbc_encrypt key iv padded))

  unfoldable pub aes_cbc_decrypt : Bytes → Bytes → Bytes → Result Bytes
  unfolding is_key_size
  aes_cbc_decrypt key iv ciphertext =
      if not (is_key_size (length key))
      then err (plain "aes-cbc: init cipher")
      else if not (eqb (length iv) 16)
      then err (plain "aes-cbc: invalid iv length")
      else if eqb (length ciphertext) 0 || not (eqb (length ciphertext % 16) 0)
      then err (plain "aes-cbc: invalid ciphertext length")
      else pkcs7_unpad (C.cbc_decrypt key iv ciphertext) 16

-- ===== src/Crypto/Padding/RoundTrip.antt =====
-- Padding and encryption are undone (crypto/aes_cbc.go).
use signal.Common.{
  ℕ, zero, suc, ◌+◌, ◌-◌, ◌%◌, ◌≤◌, ◌<◌, ◌≡◌, refl, sym, ap, ◌∙◌, true, [], ◌∷◌, ◌++◌, Bytes, ok,
  ◌>>=◌, length, take, drop, replicate, length-append, length-replicate, take-append, drop-append,
  arith,
}
use signal.Crypto.Padding.{
  BlockCipher, pkcs7_pad, pkcs7_unpad, last, all_are, aes_cbc_encrypt, aes_cbc_decrypt, is_key_size,
}

last-append : (text : Bytes) (k b : ℕ) → last (text ++ replicate (suc k) b) ≡ b
unfolding last
last-append [] zero b = refl
last-append [] (suc k) b = last-append [] k b
last-append (x ∷ []) k b = last-append [] k b
last-append (x ∷ y ∷ text) k b = last-append (y ∷ text) k b

all_are-replicate : (k b : ℕ) → all_are b (replicate k b) ≡ true
unfolding all_are
all_are-replicate zero b = refl
all_are-replicate (suc k) b = ground (arith, all_are-replicate k b)

-- Removing a padding of 1 to 16 bytes that fills whole blocks gives the text back.
unpad-append :
    (text : Bytes) (k : ℕ)
    → 0 < k
    → k ≤ 16
    → (length text + k) % 16 ≡ 0
    → pkcs7_unpad (text ++ replicate k k) 16 ≡ ok text
unfolding pkcs7_unpad
unpad-append text zero h small whole = absurd (omega arith)
unpad-append text (suc k) h small whole =
    let pad : Bytes = replicate (suc k) (suc k) in
    let long : length (text ++ pad) ≡ length text + suc k =
      length-append text pad ∙ ap (λ n. length text + n) (length-replicate (suc k) (suc k)) in
    let cut : length text + suc k - suc k ≡ length text = omega arith in
    let end : last (text ++ pad) ≡ suc k = last-append text k (suc k) in
    let front : take (length text) (text ++ pad) ≡ text = take-append (length text) text pad refl in
    let back : drop (length text) (text ++ pad) ≡ pad = drop-append (length text) text pad refl in
    let all : all_are (suc k) pad ≡ true = all_are-replicate (suc k) (suc k) in
    rw (end, long, cut, back, front, all) (ground (arith, whole))

-- Padding a text to whole blocks of 16 bytes and removing the padding gives the text back.
pub pkcs7_unpad-pkcs7_pad :
    (text : Bytes) → (pkcs7_pad text 16 >>= λ padded. pkcs7_unpad padded 16) ≡ ok text
unfolding pkcs7_pad
pkcs7_unpad-pkcs7_pad text =
    let k : ℕ = 16 - length text % 16 in
    ground (arith, unpad-append text k (omega arith) (omega arith) (omega arith))

-- Documented behaviour of CBC: whole blocks are kept whole, and decrypting undoes encrypting.
pub record IsCipher (C : BlockCipher) : Type 0 where
  pub sized :
      (key iv blocks : Bytes)
      → length blocks % 16 ≡ 0
      → length (C.cbc_encrypt key iv blocks) ≡ length blocks
  pub opens :
      (key iv blocks : Bytes)
      → length blocks % 16 ≡ 0
      → C.cbc_decrypt key iv (C.cbc_encrypt key iv blocks) ≡ blocks

-- With a key of 16, 24 or 32 bytes and an iv of 16, decrypting what was encrypted gives the text back.
pub aes_cbc_decrypt-aes_cbc_encrypt :
    (C : BlockCipher) (cipher : IsCipher C) (key iv text : Bytes)
    → is_key_size (length key) ≡ true
    → length iv ≡ 16
    → (aes_cbc_encrypt C key iv text >>= aes_cbc_decrypt C key iv) ≡ ok text
unfolding aes_cbc_encrypt aes_cbc_decrypt pkcs7_pad
aes_cbc_decrypt-aes_cbc_encrypt C cipher key iv text k n =
    let room : ℕ = 16 - length text % 16 in
    let padded : Bytes = text ++ replicate room room in
    let long : length padded ≡ length text + room =
      length-append text (replicate room room)
      ∙ ap (λ n. length text + n) (length-replicate room room) in
    let whole : length padded % 16 ≡ 0 = omega (arith, long) in
    ground (
      arith,
      k,
      n,
      whole,
      cipher.sized key iv padded whole,
      cipher.opens key iv padded whole,
      long,
      unpad-append text room (omega arith) (omega arith) (omega arith),
    )

-- There is a ciphertext, of at most 16 bytes more than the text, and it decrypts to the text.
pub aes_cbc_encrypt-opens :
    (C : BlockCipher) (cipher : IsCipher C) (key iv text : Bytes)
    → is_key_size (length key) ≡ true
    → length iv ≡ 16
    → (c : Bytes) × (aes_cbc_encrypt C key iv text ≡ ok c)
      × (aes_cbc_decrypt C key iv c ≡ ok text)
      × (length c ≤ length text + 16)
unfolding aes_cbc_encrypt pkcs7_pad
aes_cbc_encrypt-opens C cipher key iv text k n =
    let room : ℕ = 16 - length text % 16 in
    let padded : Bytes = text ++ replicate room room in
    let long : length padded ≡ length text + room =
      length-append text (replicate room room)
      ∙ ap (λ n. length text + n) (length-replicate room room) in
    let whole : length padded % 16 ≡ 0 = omega (arith, long) in
    let made : aes_cbc_encrypt C key iv text ≡ ok (C.cbc_encrypt key iv padded) =
      ground (arith, k, n) in
    (
      C.cbc_encrypt key iv padded,
      made,
      sym (ap (λ r. r >>= aes_cbc_decrypt C key iv) made)
          ∙ aes_cbc_decrypt-aes_cbc_encrypt C cipher key iv text k n,
      omega (arith, cipher.sized key iv padded whole, long),
    )

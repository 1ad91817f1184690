-- ===== src/Keys/Serialize/RoundTrip.antt =====
-- Keys that are written read back (keys/serialize.go).
pub mod Bundles
use mathlib.Core.List.{append_assoc}
use signal.Common.{
  ℕ, suc, ◌+◌, ◌≤◌, ◌≡◌, refl, Bool, true, false, not, Option, none, some, [], ◌∷◌, ◌++◌, Bytes, ok,
  eqb, eqb_iff, length, take, drop, length-append, take-append, drop-append, arith, ◌>>=◌, sym, ap,
  ◌∙◌, ltb, drop-drop,
}
use signal.Common.Words.{
  IsU16, IsU32, put_uint16, put_uint32, uint16, uint32, uint32-put_uint32, uint16-put_uint16,
  length-put_uint32, length-put_uint16, zero_key,
}
use signal.Common.Reader.{not_short}
use signal.Crypto.{Primitives, KeyPair}
use signal.Crypto.Kyber.{first_byte}
use signal.Keys.{IdentityKey, PreKey, SignedPreKey}
use signal.Keys.Wire.{is_valid_public_key}
use signal.Keys.Serialize.{
  serialize_version, serialize_identity_key, serialize_pre_key, serialize_signed_pre_key,
  deserialize_identity_key, deserialize_pre_key, deserialize_signed_pre_key, headed, valid_key,
  signed_length,
}

four : (n : ℕ) → IsU32 n → uint32 (put_uint32 n) ≡ n
unfolding put_uint32
four n h = uint32-put_uint32 n [] h

two : (n : ℕ) → IsU16 n → uint16 (put_uint16 n) ≡ n
unfolding put_uint16
two n h = uint16-put_uint16 n [] h

equal_length : {n m : ℕ} → n ≡ m → eqb n m ≡ true
equal_length h = ground arith

headed-version :
    (long : Bool) (body : Bytes) → long ≡ true → headed long (serialize_version ∷ body) ≡ ok body
unfolding headed
headed-version long body h = rw h refl

pub length-serialize_identity_key :
    (k : IdentityKey)
    → length k.public_key ≡ 32
    → length k.signing_public ≡ 32
    → length (serialize_identity_key k) ≡ 1 + 32 + 32
unfolding serialize_identity_key
length-serialize_identity_key k hp hs =
    omega (arith, hp, hs, length-append k.public_key k.signing_public)

module _ (P : Primitives) where
  valid_key-ok :
      (public : Bytes) → is_valid_public_key P public ≡ true → valid_key P public ≡ ok public
  unfolding valid_key
  valid_key-ok public h = rw h refl

  pub deserialize_identity_key-serialize_identity_key :
      (k : IdentityKey)
      → length k.public_key ≡ 32
      → length k.signing_public ≡ 32
      → is_valid_public_key P k.public_key ≡ true
      → deserialize_identity_key P (serialize_identity_key k) ≡ ok k
  unfolding deserialize_identity_key serialize_identity_key
  deserialize_identity_key-serialize_identity_key k hp hs valid =
      let l = length-serialize_identity_key k hp hs in
      rw
        (
          headed-version (eqb (suc (length (k.public_key ++ k.signing_public))) (1 + 32 + 32))
              (k.public_key ++ k.signing_public)
              (equal_length (unfold serialize_identity_key in l)),
          take-append 32 k.public_key k.signing_public hp,
          drop-append 32 k.public_key k.signing_public hp,
          valid_key-ok k.public_key valid,
        )
        refl

  deserialize_pre_key-serialize_pre_key :
      (p : PreKey) (pair : KeyPair)
      → p.key_pair ≡ some pair
      → IsU32 p.id
      → length pair.public_key ≡ 32
      → is_valid_public_key P pair.public_key ≡ true
      → (serialize_pre_key p >>= deserialize_pre_key P)
        ≡ ok (record {
          id = p.id;
          key_pair = some (record pair { private_key = zero_key });
          timestamp = 0;
        })
  unfolding deserialize_pre_key serialize_pre_key
  deserialize_pre_key-serialize_pre_key p pair has id hp valid =
      let body : Bytes = put_uint32 p.id ++ pair.public_key in
      let l : length (serialize_version ∷ body) ≡ 1 + 4 + 32 =
        omega
          (arith, hp, length-append (put_uint32 p.id) pair.public_key, length-put_uint32 p.id) in
      rw
        (
          has,
          headed-version (eqb (length (serialize_version ∷ body)) (1 + 4 + 32)) body
              (equal_length l),
          take-append 4 (put_uint32 p.id) pair.public_key (length-put_uint32 p.id),
          drop-append 4 (put_uint32 p.id) pair.public_key (length-put_uint32 p.id),
          valid_key-ok pair.public_key valid,
          four p.id id,
        )
        refl

  -- A signed pre-key that is written reads back as its public part: the identifier, the valid public key and
  -- the signature, which has 1 to 65535 bytes; the private key and the time are not written.
  pub deserialize_signed_pre_key-serialize_signed_pre_key :
      (spk : SignedPreKey) (pair : KeyPair)
      → spk.key_pair ≡ some pair
      → IsU32 spk.id
      → length pair.public_key ≡ 32
      → is_valid_public_key P pair.public_key ≡ true
      → eqb (length spk.signature) 0 ≡ false
      → IsU16 (length spk.signature)
      → (serialize_signed_pre_key spk >>= deserialize_signed_pre_key P)
        ≡ ok (record {
          id = spk.id;
          key_pair = some (record pair { private_key = zero_key });
          signature = spk.signature;
          timestamp = 0;
        })
  unfolding deserialize_signed_pre_key serialize_signed_pre_key signed_length
  deserialize_signed_pre_key-serialize_signed_pre_key spk pair has id hp valid signed small =
      let key : Bytes = pair.public_key ++ spk.signature in
      let sized : Bytes = put_uint16 (length spk.signature) ++ key in
      let body : Bytes = put_uint32 spk.id ++ sized in
      let l_key = length-append pair.public_key spk.signature in
      let l_sized = length-append (put_uint16 (length spk.signature)) key in
      let l_body = length-append (put_uint32 spk.id) sized in
      let l : length body ≡ 38 + length spk.signature = omega (
        arith,
        hp,
        l_key,
        l_sized,
        l_body,
        length-put_uint32 spk.id,
        length-put_uint16 (length spk.signature),
      ) in
      let skip_id : drop 4 body ≡ sized =
        drop-append 4 (put_uint32 spk.id) sized (length-put_uint32 spk.id) in
      let skip_size : drop 6 body ≡ key =
        sym (drop-drop 2 4 body)
        ∙ ap (drop 2) skip_id
        ∙ drop-append 2 (put_uint16 (length spk.signature)) key
            (length-put_uint16 (length spk.signature)) in
      let skip_key : drop 38 body ≡ spk.signature =
        sym (drop-drop 32 6 body)
        ∙ ap (drop 32) skip_size
        ∙ drop-append 32 pair.public_key spk.signature hp in
      rw
        (
          has,
          signed,
          headed-version (not (ltb (length (serialize_version ∷ body)) (1 + 4 + 2 + 32))) body
              (ap not (not_short (omega (arith, l)))),
          skip_id,
          take-append 2 (put_uint16 (length spk.signature)) key
              (length-put_uint16 (length spk.signature)),
          two (length spk.signature) small,
          equal_length l,
          skip_size,
          skip_key,
          take-append 32 pair.public_key spk.signature hp,
          valid_key-ok pair.public_key valid,
          take-append 4 (put_uint32 spk.id) sized (length-put_uint32 spk.id),
          four spk.id id,
        )
        refl

-- ===== src/X3dh/Serialize/RoundTrip.antt =====
-- An initial message that is written reads back (x3dh/serialize.go).
use signal.Common.{
  panicked, ℕ, ◌+◌, ◌≤◌, ◌≡◌, refl, true, false, Option, none, some, [], ◌∷◌, ◌++◌, Bytes, Result,
  ok, plain, eqb, ltb, length, length-append, arith, ◌>>=◌,
}
use mathlib.Core.List.{append_assoc}
use signal.Common.Words.{
  IsU32, put_uint16, put_uint32, uint32, length-put_uint16, length-put_uint32,
}
use signal.Common.Reader.{
  cut-append, cut_some-append, not_short, read_byte, read_uint32, read_uint16-put_uint16,
  read_uint32-put_uint32,
}
use signal.Crypto.{Primitives}
use signal.Keys.{IdentityKey}
use signal.Keys.Wire.{is_valid_public_key}
use signal.Keys.Serialize.{serialize_identity_key}
use signal.Keys.Serialize.RoundTrip.{
  length-serialize_identity_key, deserialize_identity_key-serialize_identity_key,
}
use signal.X3dh.{Message}
use signal.X3dh.Serialize.{
  serialize_message, deserialize_message, truncated, pre_key_bytes, kyber_bytes, front_bytes,
  flagged_id, read_pre_key, read_kyber_fields, read_kyber, read_ciphertext, enough, read_identity,
  read_version_2,
}

abbrev IsSizedId : Option ℕ → Type 0
IsSizedId none = Unit {0}
IsSizedId (some id) = IsU32 id

-- The Kyber pre-key is used with its ciphertext or not at all.
abbrev pub IsWholeKyber : Option ℕ → Bytes → Type 0
IsWholeKyber none [] = Unit {0}
IsWholeKyber (some id) (b ∷ ct) = IsU32 id × IsU32 (length (b ∷ ct))
IsWholeKyber _ _ = ⊥

-- The sizes that the Go types fix, a valid identity key, and the lengths that the format has room for.
pub record IsSendable (P : Primitives) (m : Message) : Type 0 where
  pub identity_public : length m.identity_key.public_key ≡ 32
  pub identity_signing : length m.identity_key.signing_public ≡ 32
  pub identity_valid : is_valid_public_key P m.identity_key.public_key ≡ true
  pub ephemeral : length m.ephemeral_key ≡ 32
  pub pre_key : IsSizedId m.pre_key_id
  pub signed_pre_key : IsU32 m.signed_pre_key_id
  pub kyber : IsWholeKyber m.kyber_pre_key_id m.kyber_ciphertext
  pub text : IsU32 (length m.ciphertext)

read_pre_key-pre_key_bytes :
    (id : Option ℕ) (rest : Bytes)
    → IsSizedId id
    → read_pre_key (pre_key_bytes id ++ rest) ≡ ok (id, rest)
unfolding read_pre_key pre_key_bytes read_byte flagged_id read_uint32 uint32
read_pre_key-pre_key_bytes none rest h =
    rw (cut-append truncated 4 (0 ∷ 0 ∷ 0 ∷ 0 ∷ []) rest refl) refl
read_pre_key-pre_key_bytes (some id) rest h = rw (read_uint32-put_uint32 truncated id rest h) refl

length-pre_key_bytes : (id : Option ℕ) → length (pre_key_bytes id) ≡ 5
unfolding pre_key_bytes
length-pre_key_bytes none = refl
length-pre_key_bytes (some id) = omega (arith, length-put_uint32 id)

pub read_ciphertext_lem :
    (ct : Bytes) → IsU32 (length ct) → read_ciphertext (put_uint32 (length ct) ++ ct) ≡ ok ct
unfolding read_ciphertext
read_ciphertext_lem ct h = rw (read_uint32-put_uint32 panicked (length ct) ct h) (ground arith)

abbrev pub least_part : Option ℕ → ℕ
least_part none = 1
least_part (some id) = 5

least_part_positive : (id : Option ℕ) → 1 ≤ least_part id
least_part_positive none = omega arith
least_part_positive (some id) = omega arith

-- A part that is written reads back, whatever stands behind it.
pub kyber_part :
    (id : Option ℕ) (ct : Bytes)
    → IsWholeKyber id ct
    → (part : Bytes) × (kyber_bytes id ct ≡ ok part)
      × (least_part id ≤ length part)
      × ((rest : Bytes) → read_kyber (part ++ rest) ≡ ok ((id, ct), rest))
unfolding kyber_bytes read_kyber read_kyber_fields
kyber_part none [] h = (0 ∷ [], refl, omega arith, λ rest. refl)
kyber_part none (b ∷ ct) h = absurd h
kyber_part (some id) [] h = absurd h
kyber_part (some id) (b ∷ ct) (small, size) =
    let text : Bytes = b ∷ ct in
    (
      1 ∷ (put_uint32 id ++ (put_uint32 (length text) ++ text)),
      refl,
      omega (
        arith,
        length-append (put_uint32 id) (put_uint32 (length text) ++ text),
        length-put_uint32 id,
      ),
      λ rest.
          rw
            (
              append_assoc (put_uint32 id) (put_uint32 (length text) ++ text) rest,
              append_assoc (put_uint32 (length text)) text rest,
              read_uint32-put_uint32 panicked id (put_uint32 (length text) ++ (text ++ rest)) small,
              read_uint32-put_uint32 panicked (length text) (text ++ rest) size,
              cut_some-append (plain "x3dh message: invalid kyber ciphertext length") (length text)
                  text rest refl (ground arith),
            )
            refl,
    )

module _ (P : Primitives) where
  read_identity-identity_bytes :
      (k : IdentityKey) (rest : Bytes)
      → length k.public_key ≡ 32
      → length k.signing_public ≡ 32
      → is_valid_public_key P k.public_key ≡ true
      → read_identity P
          (put_uint16 (length (serialize_identity_key k)) ++ (serialize_identity_key k ++ rest))
        ≡ ok (k, rest)
  unfolding read_identity
  read_identity-identity_bytes k rest hp hs valid =
      let b = serialize_identity_key k in
      let l = length-serialize_identity_key k hp hs in
      let some_bytes : eqb (length b) 0 ≡ false = ground (arith, l) in
      rw
        (
          read_uint16-put_uint16 (plain "x3dh message: too short") (length b) (b ++ rest)
              (omega (arith, l)),
          cut_some-append (plain "x3dh message: invalid identity length") (length b) b rest refl
              some_bytes,
          deserialize_identity_key-serialize_identity_key P k hp hs valid,
        )
        refl

-- What follows the identity, up to the part of the Kyber pre-key.
abbrev middle : Message → Bytes → Bytes
middle m rest =
    m.ephemeral_key ++ (pre_key_bytes m.pre_key_id ++ (put_uint32 m.signed_pre_key_id ++ rest))

length-middle :
    (m : Message) (rest : Bytes)
    → length m.ephemeral_key ≡ 32
    → length (middle m rest) ≡ 41 + length rest
length-middle m rest h =
    let b2 = put_uint32 m.signed_pre_key_id ++ rest in
    let b1 = pre_key_bytes m.pre_key_id ++ b2 in
    omega (
      arith,
      h,
      length-append m.ephemeral_key b1,
      length-append (pre_key_bytes m.pre_key_id) b2,
      length-append (put_uint32 m.signed_pre_key_id) rest,
      length-pre_key_bytes m.pre_key_id,
      length-put_uint32 m.signed_pre_key_id,
    )

abbrev pub finish : Message → (Option ℕ × Bytes) × Bytes → Result Message
finish m (kyber, rest) = read_ciphertext rest >>= λ ct.
    ok (record m { kyber_pre_key_id = kyber.0; kyber_ciphertext = kyber.1; ciphertext = ct })

module _ {P : Primitives} (m : Message) (h : IsSendable P m) where
  -- Reading a front that was written goes on behind it.
  pub deserialize_message-front :
      (rest : Bytes)
      → 5 ≤ length rest
      → deserialize_message P (front_bytes m rest) ≡ (read_kyber rest >>= finish m)
  unfolding deserialize_message front_bytes read_version_2 enough
  deserialize_message-front rest few =
      let b = serialize_identity_key m.identity_key in
      let l = length-serialize_identity_key m.identity_key h.identity_public h.identity_signing in
      let all : 48 ≤ length (put_uint16 (length b) ++ (b ++ middle m rest)) = omega (
        arith,
        l,
        length-put_uint16 (length b),
        length-append (put_uint16 (length b)) (b ++ middle m rest),
        length-append b (middle m rest),
        length-middle m rest h.ephemeral,
      ) in
      let left : 46 ≤ length (middle m rest) = omega (arith, length-middle m rest h.ephemeral) in
      rw
        (
          not_short all,
          read_identity-identity_bytes P m.identity_key (middle m rest) h.identity_public
              h.identity_signing h.identity_valid,
          not_short left,
          cut-append truncated 32 m.ephemeral_key
              (pre_key_bytes m.pre_key_id ++ (put_uint32 m.signed_pre_key_id ++ rest)) h.ephemeral,
          read_pre_key-pre_key_bytes m.pre_key_id (put_uint32 m.signed_pre_key_id ++ rest)
              h.pre_key,
          read_uint32-put_uint32 truncated m.signed_pre_key_id rest h.signed_pre_key,
        )
        refl

  -- An initial message is written, and reads back as it was: its identity key is valid, its keys have 32 bytes and
  -- its identifiers are uint32, the Kyber pre-key is named with a ciphertext that is not empty or not at all, and the
  -- lengths of both ciphertexts are uint32.
  pub deserialize_message-serialize_message :
      (b : Bytes) × (serialize_message m ≡ ok b) × (deserialize_message P b ≡ ok m)
  unfolding serialize_message
  deserialize_message-serialize_message =
      let (part, e, size, reads) = kyber_part m.kyber_pre_key_id m.kyber_ciphertext h.kyber in
      let l = length-serialize_identity_key m.identity_key h.identity_public h.identity_signing in
      let fits : ltb 65535 (length (serialize_identity_key m.identity_key)) ≡ false =
        ground (arith, l) in
      let text = put_uint32 (length m.ciphertext) ++ m.ciphertext in
      let few : 5 ≤ length (part ++ text) = omega (
        arith,
        size,
        least_part_positive m.kyber_pre_key_id,
        length-append part text,
        length-append (put_uint32 (length m.ciphertext)) m.ciphertext,
        length-put_uint32 (length m.ciphertext),
      ) in
      (
        front_bytes m (part ++ text),
        rw (fits, e) refl,
        rw
            (
              deserialize_message-front (part ++ text) few,
              reads text,
              read_ciphertext_lem m.ciphertext h.text,
            )
            refl,
      )

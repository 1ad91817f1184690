-- ===== src/Keys/Serialize/RoundTrip/Bundles.antt =====
-- A bundle that is written reads back (keys/serialize.go).
use mathlib.Core.List.{append_assoc}
use signal.Common.{
  ℕ, ◌+◌, ◌≤◌, ◌≡◌, refl, ap, true, false, not, Option, none, some, [], ◌∷◌, ◌++◌, Bytes, ok, plain,
  eqb, ltb, length, length-append, arith, ◌>>=◌,
}
use signal.Common.Words.{IsU16, IsU32, put_uint16, put_uint32, length-put_uint32, length-put_uint16}
use signal.Common.Reader.{
  read_byte, not_short, cut-append, cut_some-append, cut_some_all, read_uint32-put_uint32,
  read_uint16-put_uint16,
}
use signal.Crypto.{Primitives}
use signal.Keys.Bundle.{PreKeyBundle}
use signal.Keys.Wire.{is_valid_public_key}
use signal.Keys.Serialize.{
  serialize_version, serialize_identity_key, serialize_pre_key_bundle, deserialize_pre_key_bundle,
  one_time_bytes, kyber_bytes, kyber_part_bytes, read_one_time, read_signed, read_kyber_fields,
  read_kyber, no_trailing, read_bundle,
}
use signal.Keys.Serialize.RoundTrip.{
  headed-version, length-serialize_identity_key, deserialize_identity_key-serialize_identity_key,
}

-- The one-time pre-key is given whole or not at all.
abbrev IsWholeOneTime : Option ℕ → Option Bytes → Type 0
IsWholeOneTime none none = Unit {0}
IsWholeOneTime none (some public) = ⊥
IsWholeOneTime (some id) none = ⊥
IsWholeOneTime (some id) (some public) = IsU32 id × (length public ≡ 32)

-- So is the Kyber pre-key, with its length in two bytes.
abbrev IsWholeKyber : Option ℕ → Bytes → Bytes → Type 0
IsWholeKyber none public signature = (public ≡ []) × (signature ≡ [])
IsWholeKyber (some id) public signature =
    IsU32 id
    × ((eqb (length public) 0 ≡ false)
        × (IsU16 (length public) × ((eqb (length signature) 0 ≡ false) × IsU16 (length signature))))

pub record IsWhole (P : Primitives) (b : PreKeyBundle) : Type 0 where
  pub registration_id : IsU32 b.registration_id
  pub device_id : IsU32 b.device_id
  pub one_time : IsWholeOneTime b.pre_key_id b.pre_key_public
  pub signed_id : IsU32 b.signed_pre_key_id
  pub signed_public : length b.signed_pre_key_public ≡ 32
  pub signature : IsU16 (length b.signed_pre_key_signature)
  pub identity_public : length b.identity_key.public_key ≡ 32
  pub identity_signing : length b.identity_key.signing_public ≡ 32
  pub identity_valid : is_valid_public_key P b.identity_key.public_key ≡ true
  pub kyber : IsWholeKyber b.kyber_pre_key_id b.kyber_pre_key_public b.kyber_pre_key_signature

read_one_time-one_time_bytes :
    (id : Option ℕ) (public : Option Bytes) (rest : Bytes)
    → IsWholeOneTime id public
    → read_one_time (one_time_bytes id public ++ rest) ≡ ok ((id, public), rest)
unfolding read_one_time one_time_bytes read_byte
read_one_time-one_time_bytes none none rest h = refl
read_one_time-one_time_bytes none (some public) rest h = absurd h
read_one_time-one_time_bytes (some id) none rest h = absurd h
read_one_time-one_time_bytes (some id) (some public) rest (small, l) =
    let enough : 36 ≤ length (put_uint32 id ++ (public ++ rest)) = omega (
      arith,
      l,
      length-append (put_uint32 id) (public ++ rest),
      length-append public rest,
      length-put_uint32 id,
    ) in
    rw
      (
        append_assoc (put_uint32 id) public rest,
        not_short enough,
        read_uint32-put_uint32 (plain "bundle: truncated pre-key") id (public ++ rest) small,
        cut-append (plain "bundle: truncated pre-key") 32 public rest l,
      )
      refl

abbrev signed_bytes : PreKeyBundle → Bytes → Bytes
signed_bytes b rest =
    put_uint32 b.signed_pre_key_id
    ++ (b.signed_pre_key_public
        ++ (put_uint16 (length b.signed_pre_key_signature) ++ (b.signed_pre_key_signature ++ rest)))

length-signed_bytes :
    (P : Primitives) (b : PreKeyBundle) (rest : Bytes)
    → IsWhole P b
    → 38 ≤ length (signed_bytes b rest)
length-signed_bytes P b rest h =
    let last = b.signed_pre_key_signature ++ rest in
    let sized = put_uint16 (length b.signed_pre_key_signature) ++ last in
    omega (
      arith,
      h.signed_public,
      length-append (put_uint32 b.signed_pre_key_id) (b.signed_pre_key_public ++ sized),
      length-append b.signed_pre_key_public sized,
      length-append (put_uint16 (length b.signed_pre_key_signature)) last,
      length-put_uint32 b.signed_pre_key_id,
      length-put_uint16 (length b.signed_pre_key_signature),
    )

read_signed-signed_bytes :
    (P : Primitives) (b : PreKeyBundle) (rest : Bytes)
    → IsWhole P b
    → read_signed (signed_bytes b rest)
      ≡ ok ((b.signed_pre_key_id, (b.signed_pre_key_public, b.signed_pre_key_signature)), rest)
unfolding read_signed
read_signed-signed_bytes P b rest h =
    let last = b.signed_pre_key_signature ++ rest in
    let sized = put_uint16 (length b.signed_pre_key_signature) ++ last in
    rw
      (
        not_short (length-signed_bytes P b rest h),
        read_uint32-put_uint32 (plain "bundle: truncated signed pre-key") b.signed_pre_key_id
            (b.signed_pre_key_public ++ sized) h.signed_id,
        cut-append (plain "bundle: truncated signed pre-key") 32 b.signed_pre_key_public sized
            h.signed_public,
        read_uint16-put_uint16 (plain "bundle: truncated signed pre-key")
            (length b.signed_pre_key_signature) last h.signature,
        cut-append (plain "bundle: truncated signature") (length b.signed_pre_key_signature)
            b.signed_pre_key_signature rest refl,
      )
      refl

read_kyber_fields-kyber_bytes :
    (id : ℕ) (public signature : Bytes)
    → IsWholeKyber (some id) public signature
    → read_kyber (kyber_bytes id public signature) ≡ ok ((some id, (public, signature)), [])
unfolding read_kyber read_kyber_fields kyber_bytes
read_kyber_fields-kyber_bytes id public signature
      (small, (some_public, (short_public, (some_signature, short_signature)))) =
    let last = put_uint16 (length signature) ++ signature in
    let middle = put_uint16 (length public) ++ (public ++ last) in
    let enough : 6 ≤ length (put_uint32 id ++ middle) = omega (
      arith,
      length-append (put_uint32 id) middle,
      length-append (put_uint16 (length public)) (public ++ last),
      length-put_uint32 id,
      length-put_uint16 (length public),
    ) in
    rw
      (
        not_short enough,
        read_uint32-put_uint32 (plain "bundle: truncated kyber header") id middle small,
        read_uint16-put_uint16 (plain "bundle: truncated kyber header") (length public)
            (public ++ last) short_public,
        cut_some-append (plain "bundle: truncated kyber public key") (length public) public last
            refl some_public,
        read_uint16-put_uint16 (plain "bundle: truncated kyber signature length") (length signature)
            signature short_signature,
        cut_some_all (plain "bundle: truncated kyber signature") signature some_signature,
      )
      refl

-- The written Kyber part, and that it reads back.
kyber_written :
    (id : Option ℕ) (public signature : Bytes)
    → IsWholeKyber id public signature
    → (written : Bytes) × (kyber_part_bytes id public signature ≡ ok written)
      × (read_kyber written ≡ ok ((id, (public, signature)), []))
unfolding kyber_part_bytes
kyber_written none public signature (no_public, no_signature) =
    rw (no_public, no_signature) ([], refl, unfold read_kyber in refl)
kyber_written (some id) public signature h =
    let (small, (some_public, (short_public, (some_signature, short_signature)))) = h in
    (
      kyber_bytes id public signature,
      rw (some_public, some_signature) refl,
      read_kyber_fields-kyber_bytes id public signature h,
    )

one_time-some : (id : Option ℕ) (public : Option Bytes) → 1 ≤ length (one_time_bytes id public)
unfolding one_time_bytes
one_time-some none public = omega arith
one_time-some (some id) none = omega arith
one_time-some (some id) (some public) = omega arith

abbrev body_bytes : PreKeyBundle → Bytes → Bytes
body_bytes b kyber =
    put_uint32 b.registration_id
    ++ (put_uint32 b.device_id
        ++ (one_time_bytes b.pre_key_id b.pre_key_public
            ++ signed_bytes b (serialize_identity_key b.identity_key ++ kyber)))

length-body_bytes :
    (P : Primitives) (b : PreKeyBundle) (kyber : Bytes)
    → IsWhole P b
    → 111 ≤ length (body_bytes b kyber)
length-body_bytes P b kyber h =
    let identity = serialize_identity_key b.identity_key in
    let signature = b.signed_pre_key_signature in
    let rest = identity ++ kyber in
    let b1 = put_uint16 (length signature) ++ (signature ++ rest) in
    let b2 = b.signed_pre_key_public ++ b1 in
    let b3 = put_uint32 b.signed_pre_key_id ++ b2 in
    let one_time = one_time_bytes b.pre_key_id b.pre_key_public in
    omega (
      arith,
      h.signed_public,
      length-append identity kyber,
      length-append signature rest,
      length-append (put_uint16 (length signature)) (signature ++ rest),
      length-append b.signed_pre_key_public b1,
      length-append (put_uint32 b.signed_pre_key_id) b2,
      length-append one_time b3,
      length-append (put_uint32 b.device_id) (one_time ++ b3),
      length-append (put_uint32 b.registration_id) (put_uint32 b.device_id ++ (one_time ++ b3)),
      length-put_uint32 b.signed_pre_key_id,
      length-put_uint32 b.device_id,
      length-put_uint32 b.registration_id,
      length-put_uint16 (length signature),
      one_time-some b.pre_key_id b.pre_key_public,
      length-serialize_identity_key b.identity_key h.identity_public h.identity_signing,
    )

module _ (P : Primitives) where
  read_bundle-body_bytes :
      (b : PreKeyBundle) (kyber : Bytes)
      → IsWhole P b
      → read_kyber kyber
        ≡ ok ((b.kyber_pre_key_id, (b.kyber_pre_key_public, b.kyber_pre_key_signature)), [])
      → read_bundle P (body_bytes b kyber) ≡ ok b
  unfolding read_bundle no_trailing
  read_bundle-body_bytes b kyber h read =
      let identity = serialize_identity_key b.identity_key in
      let rest = signed_bytes b (identity ++ kyber) in
      let one_time = one_time_bytes b.pre_key_id b.pre_key_public in
      rw
        (
          read_uint32-put_uint32 (plain "bundle: truncated header") b.registration_id
              (put_uint32 b.device_id ++ (one_time ++ rest)) h.registration_id,
          read_uint32-put_uint32 (plain "bundle: truncated header") b.device_id (one_time ++ rest)
              h.device_id,
          read_one_time-one_time_bytes b.pre_key_id b.pre_key_public rest h.one_time,
          read_signed-signed_bytes P b (identity ++ kyber) h,
          cut-append (plain "bundle: truncated identity key") 65 identity kyber
              (length-serialize_identity_key b.identity_key h.identity_public h.identity_signing),
          deserialize_identity_key-serialize_identity_key P b.identity_key h.identity_public
              h.identity_signing h.identity_valid,
          read,
        )
        refl

  -- A bundle that is written reads back as it was: its identity key is valid, its counters are uint32, its keys
  -- have 32 bytes, a one-time pre-key or a Kyber pre-key is given with all its parts or none, and the signatures and
  -- the Kyber key have at most 65535 bytes.
  pub deserialize_pre_key_bundle-serialize_pre_key_bundle :
      (b : PreKeyBundle)
      → IsWhole P b
      → (serialize_pre_key_bundle b >>= deserialize_pre_key_bundle P) ≡ ok b
  unfolding serialize_pre_key_bundle deserialize_pre_key_bundle
  deserialize_pre_key_bundle-serialize_pre_key_bundle b h =
      let (kyber, written, read) =
        kyber_written b.kyber_pre_key_id b.kyber_pre_key_public b.kyber_pre_key_signature h.kyber in
      let body = body_bytes b kyber in
      rw
        (
          written,
          headed-version
              (not (ltb (length (serialize_version ∷ body)) (1 + 4 + 4 + 1 + 4 + 32 + 4 + 32 + 2)))
              body (ap not (not_short (omega (arith, length-body_bytes P b kyber h)))),
          read_bundle-body_bytes b kyber h read,
        )
        refl

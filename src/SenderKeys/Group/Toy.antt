-- ===== src/SenderKeys/Group/Toy.antt =====
-- Protocol buffers that compute, with varints as they are, for the runs.
use signal.Common.{
  ℕ, ◌+◌, ◌*◌, ◌/◌, ◌%◌, ◌≤◌, ◌<◌, ◌≡◌, refl, ap, ◌∙◌, Option, none, some, [], ◌∷◌, ◌++◌, Bytes,
  Result, ok, err, length, take, drop, ltb, if◌then◌else◌, take-append, drop-append, length-append,
  length-drop, arith, true, false, leb, Bool, pqr_invalid_message,
}
use mathlib.Core.List.{append_assoc}
use signal.Spqr.Message.{encode_varint, consume_varint, varint_from}
use signal.Spqr.Message.Varint.{consume_varint-encode_varint}
use signal.SenderKeys.Message.{Protowire}
use signal.SenderKeys.Message.Parse.Laws.{IsWire}

abbrev found {ℓ} : {A : Type ℓ} → Result A → Option A
found (ok a) = some a
found (err e) = none

abbrev tag_of : Option (ℕ × Bytes) → Option ((ℕ × ℕ) × Bytes)
tag_of none = none
tag_of (some (v, rest)) = some ((v / 8, v % 8), rest)

abbrev bytes_of : Option (ℕ × Bytes) → Option (Bytes × Bytes)
bytes_of none = none
bytes_of (some (n, rest)) = if ltb (length rest) n then none else some (take n rest, drop n rest)

unfoldable pub wire : Protowire
wire = record {
  varint_type = 0;
  bytes_type = 2;
  append_tag = λ num typ. encode_varint (num * 8 + typ);
  append_varint = encode_varint;
  append_bytes = λ b. encode_varint (length b) ++ b;
  consume_tag = λ input. tag_of (found (consume_varint input));
  consume_varint = λ input. found (consume_varint input);
  consume_bytes = λ input. bytes_of (found (consume_varint input));
}

-- A byte that ends a number, one that ends it too late, or one that goes on.
one_byte_shorter :
    (ends late : Bool) (w v : ℕ) (input rest : Bytes) (r : Result (ℕ × Bytes))
    → (if ends then (if late then err pqr_invalid_message else ok (w, input)) else r) ≡ ok (v, rest)
    → (r ≡ ok (v, rest) → length rest < length input)
    → length rest < length input + 1
one_byte_shorter true true w v input rest r e h = cc
one_byte_shorter true false w v input rest r e h =
    let same : input ≡ rest = cc in
    let sized : length input ≡ length rest = ap length same in omega (arith, sized)
one_byte_shorter false late w v input rest r e h = omega (arith, h e)

varint_from-shorter :
    (input : Bytes) (x s : ℕ) (rest : Bytes) (v : ℕ)
    → varint_from x s input ≡ ok (v, rest)
    → length rest < length input
unfolding varint_from
varint_from-shorter [] x s rest v e = cc
varint_from-shorter (b ∷ input) x s rest v e = omega (
  arith,
  one_byte_shorter (ltb b 128) (leb 64 s) _ v input rest _ e
      (varint_from-shorter input _ (s + 7) rest v),
)

found-shorter :
    (input rest : Bytes) (v : ℕ)
    → found (consume_varint input) ≡ some (v, rest)
    → length rest < length input
unfolding consume_varint
found-shorter input rest v e = go (varint_from 0 0 input) refl e
  where
    go :
        (r : Result (ℕ × Bytes))
        → varint_from 0 0 input ≡ r
        → found r ≡ some (v, rest)
        → length rest < length input
    go (ok (w, left)) same e =
        let again : ok (w, left) ≡ ok (v, rest) = cc in
        varint_from-shorter input 0 0 rest v (same ∙ again)
    go (err x) same e = cc

tag_shorter :
    (o : Option (ℕ × Bytes)) (input rest : Bytes) (tag : ℕ × ℕ)
    → ((v : ℕ) (left : Bytes) → o ≡ some (v, left) → length left < length input)
    → tag_of o ≡ some (tag, rest)
    → length rest < length input
tag_shorter none input rest tag h e = cc
tag_shorter (some (v, left)) input rest tag h e =
    let same : left ≡ rest = cc in
    let sized : length left ≡ length rest = ap length same in omega (arith, sized, h v left refl)

cut_shorter :
    (short : Bool) (n : ℕ) (left rest b : Bytes)
    → if◌then◌else◌ {A = Option (Bytes × Bytes)} short none (some (take n left, drop n left))
      ≡ some (b, rest)
    → length rest ≤ length left
cut_shorter true n left rest b e = cc
cut_shorter false n left rest b e =
    let same : drop n left ≡ rest = cc in
    let sized : length (drop n left) ≡ length rest = ap length same in
    omega (arith, sized, length-drop n left)

bytes_shorter :
    (o : Option (ℕ × Bytes)) (input rest b : Bytes)
    → ((v : ℕ) (left : Bytes) → o ≡ some (v, left) → length left < length input)
    → bytes_of o ≡ some (b, rest)
    → length rest < length input
bytes_shorter none input rest b h e = cc
bytes_shorter (some (n, left)) input rest b h e =
    omega (arith, cut_shorter (ltb (length left) n) n left rest b e, h n left refl)

pub wire-IsWire : IsWire wire
unfolding wire
wire-IsWire = record {
  differ = refl;
  differ' = refl;
  small_bytes_type = omega arith;
  small_varint_type = omega arith;
  tag_reads = λ num typ rest h small t.
      let div : (num * 8 + typ) / 8 ≡ num = omega (arith, t) in
      let low : (num * 8 + typ) % 8 ≡ typ = omega (arith, t) in
      rw (consume_varint-encode_varint (num * 8 + typ) rest (omega (arith, small, t)), div, low)
        refl;
  varint_reads = λ v rest small. rw (consume_varint-encode_varint v rest small) refl;
  bytes_reads = λ b rest small.
      rw
        (
          append_assoc (encode_varint (length b)) b rest,
          consume_varint-encode_varint (length b) (b ++ rest) (omega (arith, small)),
        )
        (ground (
          arith,
          length-append b rest,
          take-append (length b) b rest refl,
          drop-append (length b) b rest refl,
        ));
  tag_shorter =
      λ input rest tag e. tag_shorter _ input rest tag (λ v left. found-shorter input left v) e;
  varint_shorter = λ input rest v e. found-shorter input rest v e;
  bytes_shorter =
      λ input rest b e. bytes_shorter _ input rest b (λ v left. found-shorter input left v) e;
}

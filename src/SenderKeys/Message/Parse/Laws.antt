-- ===== src/SenderKeys/Message/Parse/Laws.antt =====
-- What is relied on of protowire: what it appends it consumes, and what it consumes has at least one byte.
use signal.Common.{
  ℕ, zero, suc, ◌≤◌, ◌<◌, ◌≡◌, refl, false, some, [], ◌∷◌, ◌++◌, Bytes, ok, eqb, length,
  length-append, ◌^◌, arith,
}
use signal.Common.Words.{IsU32, IsU64}
use signal.Common.Reader.{Reader}
use signal.SenderKeys.Message.{Protowire}
use signal.SenderKeys.Message.Parse.{Fields, read_field, read_fields}

pub record IsWire (W : Protowire) : Type 0 where
  pub differ : eqb W.bytes_type W.varint_type ≡ false
  pub differ' : eqb W.varint_type W.bytes_type ≡ false
  pub small_bytes_type : W.bytes_type < 8
  pub small_varint_type : W.varint_type < 8
  pub tag_reads :
      (num typ : ℕ) (rest : Bytes)
      → 0 < num
      → num < 2 ^ 29
      → typ < 8
      → W.consume_tag (W.append_tag num typ ++ rest) ≡ some ((num, typ), rest)
  pub varint_reads :
      (v : ℕ) (rest : Bytes)
      → IsU64 v
      → W.consume_varint (W.append_varint v ++ rest) ≡ some (v, rest)
  pub bytes_reads :
      (b rest : Bytes)
      → IsU32 (length b)
      → W.consume_bytes (W.append_bytes b ++ rest) ≡ some (b, rest)
  pub tag_shorter :
      (input rest : Bytes) (tag : ℕ × ℕ)
      → W.consume_tag input ≡ some (tag, rest)
      → length rest < length input
  pub varint_shorter :
      (input rest : Bytes) (v : ℕ)
      → W.consume_varint input ≡ some (v, rest)
      → length rest < length input
  pub bytes_shorter :
      (input rest b : Bytes) → W.consume_bytes input ≡ some (b, rest) → length rest < length input

module _ {W : Protowire} (wire : IsWire W) where
  -- A tag takes a byte.
  pub length-append_tag :
      (num typ : ℕ) → 0 < num → num < 2 ^ 29 → typ < 8 → 1 ≤ length (W.append_tag num typ)
  length-append_tag num typ h small t =
      let read = wire.tag_reads num typ [] h small t in
      omega (
        arith,
        wire.tag_shorter (W.append_tag num typ ++ []) [] (num, typ) read,
        length-append (W.append_tag num typ) [],
      )

  module _ (others : ℕ → Fields → ℕ → Reader Fields) where
    pub read_fields-end : (fuel : ℕ) (f : Fields) → read_fields W others fuel f [] ≡ ok f
    unfolding read_fields
    read_fields-end zero f = refl
    read_fields-end (suc fuel) f = refl

    -- One round of the loop.
    pub read_fields-round :
        (fuel num typ : ℕ) (f g : Fields) (body rest : Bytes)
        → 0 < num
        → num < 2 ^ 29
        → typ < 8
        → read_field W others num typ f body ≡ ok (g, rest)
        → read_fields W others (suc fuel) f (W.append_tag num typ ++ body)
          ≡ read_fields W others fuel g rest
    unfolding read_fields
    read_fields-round fuel num typ f g body rest h small t e =
        go (W.append_tag num typ ++ body) (wire.tag_reads num typ body h small t)
      where
        go :
            (input : Bytes)
            → W.consume_tag input ≡ some ((num, typ), body)
            → read_fields W others (suc fuel) f input ≡ read_fields W others fuel g rest
        go [] read = absurd (omega (arith, wire.tag_shorter [] body (num, typ) read))
        go (b ∷ input) read = rw (read, e) refl

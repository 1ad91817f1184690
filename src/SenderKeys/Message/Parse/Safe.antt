-- ===== src/SenderKeys/Message/Parse/Safe.antt =====
-- What a field of senderkeys/message.go reads is no more than was there, and the loop over the fields ends before its
-- fuel is used up.
use signal.Common.{
  ℕ, zero, suc, ◌≤◌, ◌≡◌, ◌≢◌, refl, Option, none, some, [], ◌∷◌, Bytes, Result, ok, err, ◌>>=◌,
  invalid_message, panicked, or_fail, length, arith, eqb, Option-cases, inl, inr, Bool, true, false,
  if◌then◌else◌,
}
use signal.Common.Reader.{Reader}
use signal.SenderKeys.Message.{Protowire}
use signal.SenderKeys.Message.Parse.{
  Fields, read_field, read_fields, message_field, bytes_field, varint_field, sized_field,
  unknown_field, read_distribution_id, read_key_id, read_iteration, read_payload,
}
use signal.SenderKeys.Message.Parse.Laws.{IsWire, read_fields-end}

abbrev pub Holds {ℓ} : {A : Type ℓ} → ℕ → Result (A × Bytes) → Type 0
Holds n (ok (a, rest)) = length rest ≤ n
Holds n (err e) = e ≢ panicked

-- A result that is no panic, and leaves at most n bytes.
pub record IsSafe {ℓ} {A : Type ℓ} (n : ℕ) (r : Result (A × Bytes)) : Type 0 where
  pub holds : Holds n r

module _ {ℓ} {A : Type ℓ} (n : ℕ) where
  pub IsSafe-ok : (a : A) (rest : Bytes) → length rest ≤ n → IsSafe n (ok (a, rest))
  IsSafe-ok a rest h = record { holds = h }

  IsSafe-err : IsSafe {A = A} n (err invalid_message)
  IsSafe-err = record { holds = λ e. cc }

  pub IsSafe-if :
      (b : Bool) (r s : Result (A × Bytes))
      → IsSafe n r
      → IsSafe n s
      → IsSafe n (if b then r else s)
  IsSafe-if true r s hr hs = hr
  IsSafe-if false r s hr hs = hs

  IsSafe-or_fail :
      (o : Option (A × Bytes))
      → ((a : A) (rest : Bytes) → o ≡ some (a, rest) → length rest ≤ n)
      → IsSafe n (or_fail o invalid_message)
  IsSafe-or_fail none h = IsSafe-err
  IsSafe-or_fail (some (a, rest)) h = IsSafe-ok a rest (h a rest refl)

module _ {ℓ κ} {A : Type ℓ} {B : Type κ} (n : ℕ) where
  pub IsSafe-bind :
      (r : Result (A × Bytes)) (f : A × Bytes → Result (B × Bytes))
      → IsSafe n r
      → ((a : A) (rest : Bytes) → length rest ≤ n → IsSafe n (f (a, rest)))
      → IsSafe n (r >>= f)
  IsSafe-bind (ok (a, rest)) f h k = k a rest h.holds
  IsSafe-bind (err e) f h k = record { holds = h.holds }

module _ {W : Protowire} (wire : IsWire W) (n : ℕ) where
  pub bytes_field-IsSafe :
      (typ : ℕ) (input : Bytes) → length input ≤ n → IsSafe n (bytes_field W typ input)
  unfolding bytes_field
  bytes_field-IsSafe typ input h =
      IsSafe-if n _ (err invalid_message) (or_fail (W.consume_bytes input) invalid_message)
        (IsSafe-err n)
        (IsSafe-or_fail n (W.consume_bytes input)
          λ b rest e. omega (arith, wire.bytes_shorter input rest b e))

  consume_varint-IsSafe :
      (input : Bytes)
      → length input ≤ n
      → IsSafe n (or_fail (W.consume_varint input) invalid_message)
  consume_varint-IsSafe input h =
      IsSafe-or_fail n (W.consume_varint input)
        λ v rest e. omega (arith, wire.varint_shorter input rest v e)

  consume_bytes-IsSafe :
      (input : Bytes)
      → length input ≤ n
      → IsSafe n (or_fail (W.consume_bytes input) invalid_message)
  consume_bytes-IsSafe input h =
      IsSafe-or_fail n (W.consume_bytes input)
        λ v rest e. omega (arith, wire.bytes_shorter input rest v e)

  varint_field-IsSafe :
      (typ : ℕ) (input : Bytes) → length input ≤ n → IsSafe n (varint_field W typ input)
  unfolding varint_field
  varint_field-IsSafe typ input h = IsSafe-if n _ _ _ (IsSafe-err n) (
      IsSafe-bind n (or_fail (W.consume_varint input) invalid_message) _
        (consume_varint-IsSafe input h) λ v rest k. IsSafe-ok n _ rest k)

  pub sized_field-IsSafe :
      (size typ : ℕ) (input : Bytes) → length input ≤ n → IsSafe n (sized_field W size typ input)
  unfolding sized_field
  sized_field-IsSafe size typ input h =
      IsSafe-bind n (bytes_field W typ input) _ (bytes_field-IsSafe typ input h)
        λ v rest k. IsSafe-if n _ _ _ (IsSafe-err n) (IsSafe-ok n v rest k)

  pub unknown_field-IsSafe :
      (f : Fields) (typ : ℕ) (input : Bytes)
      → length input ≤ n
      → IsSafe n (unknown_field W f typ input)
  unfolding unknown_field
  unknown_field-IsSafe f typ input h =
      IsSafe-if n _ _ _
        (IsSafe-bind n (or_fail (W.consume_bytes input) invalid_message) _
          (consume_bytes-IsSafe input h) λ v rest k. IsSafe-ok n _ rest k)
        (IsSafe-bind n (or_fail (W.consume_varint input) invalid_message) _
          (consume_varint-IsSafe input h) λ v rest k. IsSafe-ok n _ rest k)

  read_distribution_id-IsSafe :
      (f : Fields) (typ : ℕ) (input : Bytes)
      → length input ≤ n
      → IsSafe n (read_distribution_id W f typ input)
  unfolding read_distribution_id
  read_distribution_id-IsSafe f typ input h =
      IsSafe-bind n (sized_field W 16 typ input) _ (sized_field-IsSafe 16 typ input h)
        λ v rest k. IsSafe-ok n _ rest k

  read_key_id-IsSafe :
      (f : Fields) (typ : ℕ) (input : Bytes)
      → length input ≤ n
      → IsSafe n (read_key_id W f typ input)
  unfolding read_key_id
  read_key_id-IsSafe f typ input h =
      IsSafe-bind n (varint_field W typ input) _ (varint_field-IsSafe typ input h)
        λ v rest k. IsSafe-ok n _ rest k

  read_iteration-IsSafe :
      (f : Fields) (typ : ℕ) (input : Bytes)
      → length input ≤ n
      → IsSafe n (read_iteration W f typ input)
  unfolding read_iteration
  read_iteration-IsSafe f typ input h =
      IsSafe-bind n (varint_field W typ input) _ (varint_field-IsSafe typ input h)
        λ v rest k. IsSafe-ok n _ rest k

  -- The fields that both messages have are safe if the others are.
  read_field-IsSafe :
      (others : ℕ → Fields → ℕ → Reader Fields) (num typ : ℕ) (f : Fields) (input : Bytes)
      → length input ≤ n
      → IsSafe n (others num f typ input)
      → IsSafe n (read_field W others num typ f input)
  unfolding read_field
  read_field-IsSafe others num typ f input h safe =
      IsSafe-if n (eqb num 1) _ _ (read_distribution_id-IsSafe f typ input h) (
        IsSafe-if n (eqb num 2) _ _ (read_key_id-IsSafe f typ input h)
          (IsSafe-if n (eqb num 3) _ _ (read_iteration-IsSafe f typ input h) safe))

  pub message_field-IsSafe :
      (num : ℕ) (f : Fields) (typ : ℕ) (input : Bytes)
      → length input ≤ n
      → IsSafe n (message_field W num f typ input)
  unfolding message_field read_payload
  message_field-IsSafe num f typ input h =
      IsSafe-if n _ _ _
        (IsSafe-bind n (bytes_field W typ input) _ (bytes_field-IsSafe typ input h)
          λ v rest k. IsSafe-ok n _ rest k)
        (unknown_field-IsSafe f typ input h)

module _ {W : Protowire} (wire : IsWire W) (others : ℕ → Fields → ℕ → Reader Fields) where
  field_round :
      (fuel : ℕ) (r : Result (Fields × Bytes))
      → IsSafe fuel r
      → ((g : Fields) (rest : Bytes)
          → length rest ≤ fuel
          → read_fields W others fuel g rest ≢ err panicked)
      → (r >>= λ read. read_fields W others fuel read.0 read.1) ≢ err panicked
  field_round fuel (ok (g, rest)) k later = later g rest k.holds
  field_round fuel (err e) k later = λ same. k.holds cc

  -- With as much fuel as bytes the loop ends without using it up.
  pub read_fields-enough :
      ((n num : ℕ) (f : Fields) (typ : ℕ) (input : Bytes)
        → length input ≤ n
        → IsSafe n (others num f typ input))
      → (fuel : ℕ) (f : Fields) (input : Bytes) → length input ≤ fuel
      → read_fields W others fuel f input ≢ err panicked
  unfolding read_fields
  read_fields-enough safe fuel f [] h = λ e. cc (e, read_fields-end wire others fuel f)
  read_fields-enough safe zero f (b ∷ input) h = absurd (omega (arith, h))
  read_fields-enough safe (suc fuel) f (b ∷ input) h =
      elim (Option-cases (W.consume_tag (b ∷ input))) [
        | inl none_left ↦ rw none_left (λ e. cc)
        | inr (((num, typ), body), e) ↦
            let short : length body ≤ fuel =
              omega (arith, h, wire.tag_shorter (b ∷ input) body (num, typ) e) in
            rw e (
              field_round fuel (read_field W others num typ f body)
                (read_field-IsSafe wire fuel others num typ f body short
                  (safe fuel num f typ body short))
                (read_fields-enough safe fuel))
      ]

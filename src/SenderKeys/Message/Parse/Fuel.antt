-- ===== src/SenderKeys/Message/Parse/Fuel.antt =====
-- The loop over the fields of a message (senderkeys/message.go) ends before its fuel is used up.
use signal.Common.{
  ℕ, ◌≤◌, ◌≢◌, Option, none, some, [], ◌∷◌, Bytes, Result, ok, err, ◌>>=◌, invalid_message,
  panicked, or_fail, length, arith, eqb, ap, ltb, take, drop, ◌-◌, Bool, true, false, if◌then◌else◌,
}
use signal.Crypto.{Primitives}
use signal.Keys.Wire.{validate_public_key, deserialize_wire_public_key}
use signal.SenderKeys.Message.{Protowire}
use signal.SenderKeys.Message.Parse.{
  Fields, no_fields, message_field, distribution_field, bytes_field, sized_field, read_payload,
  read_signing_key, signing_key_of, parse_sender_key_message, current_version_of,
  decode_sender_key_message_body, message_from_fields, distribution_from_fields,
  parse_distribution_message,
}
use signal.SenderKeys.Message.Parse.Laws.{IsWire}
use signal.SenderKeys.Message.Parse.Safe.{
  IsSafe, IsSafe-ok, IsSafe-if, IsSafe-bind, bytes_field-IsSafe, sized_field-IsSafe,
  unknown_field-IsSafe, message_field-IsSafe, read_fields-enough,
}

bind-fails_well {ℓ κ} :
    {A : Type ℓ} {B : Type κ} (r : Result A) (f : A → Result B)
    → r ≢ err panicked
    → ((a : A) → f a ≢ err panicked)
    → (r >>= f) ≢ err panicked
bind-fails_well (ok a) f h k = k a
bind-fails_well (err e) f h k = λ same. h cc

or_fail-fails_well {ℓ} : {A : Type ℓ} (o : Option A) → or_fail o invalid_message ≢ err panicked
or_fail-fails_well none = λ e. cc
or_fail-fails_well (some a) = λ e. cc

current_version_of-fails_well : (input : Bytes) → current_version_of input ≢ err panicked
unfolding current_version_of
current_version_of-fails_well input = ground arith

signing_key_of-fails_well :
    (W : Protowire) (P : Primitives) (val : Bytes) → signing_key_of W P val ≢ err panicked
unfolding signing_key_of validate_public_key deserialize_wire_public_key
signing_key_of-fails_well W P val = ground arith

message_from_fields-fails_well :
    (version : ℕ) (f : Fields) (signature : Bytes)
    → message_from_fields version f signature ≢ err panicked
unfolding message_from_fields
message_from_fields-fails_well version f signature =
    bind-fails_well _ _ (or_fail-fails_well f.distribution_id) λ id.
      bind-fails_well _ _ (or_fail-fails_well f.key_id) λ k.
        bind-fails_well _ _ (or_fail-fails_well f.iteration)
          λ i. bind-fails_well _ _ (or_fail-fails_well f.payload) λ c. λ e. cc

distribution_from_fields-fails_well :
    (version : ℕ) (f : Fields) → distribution_from_fields version f ≢ err panicked
unfolding distribution_from_fields
distribution_from_fields-fails_well version f =
    bind-fails_well _ _ (or_fail-fails_well f.distribution_id) λ id.
      bind-fails_well _ _ (or_fail-fails_well f.key_id) λ k.
        bind-fails_well _ _ (or_fail-fails_well f.iteration) λ i.
          bind-fails_well _ _ (or_fail-fails_well f.payload)
            λ c. bind-fails_well _ _ (or_fail-fails_well f.signing_key) λ s. λ e. cc

module _ {W : Protowire} (wire : IsWire W) (P : Primitives) (n : ℕ) where
  signed_field :
      (r : Result Bytes) (f : Fields) (rest : Bytes)
      → r ≢ err panicked
      → length rest ≤ n
      → IsSafe n (r >>= λ public. ok (record f { signing_key = some public }, rest))
  signed_field (ok public) f rest h k = IsSafe-ok n _ rest k
  signed_field (err e) f rest h k = record { holds = λ same. h (ap err same) }

  distribution_field-IsSafe :
      (num : ℕ) (f : Fields) (typ : ℕ) (input : Bytes)
      → length input ≤ n
      → IsSafe n (distribution_field W P num f typ input)
  unfolding distribution_field read_payload read_signing_key
  distribution_field-IsSafe num f typ input h =
      IsSafe-if n (eqb num 4) _ _
        (IsSafe-bind n (sized_field W 32 typ input) _ (sized_field-IsSafe wire n 32 typ input h)
          λ v rest k. IsSafe-ok n _ rest k)
        (IsSafe-if n (eqb num 5) _ _
          (IsSafe-bind n (bytes_field W typ input) _ (bytes_field-IsSafe wire n typ input h)
            λ v rest k.
              signed_field (signing_key_of W P v) f rest (signing_key_of-fails_well W P v) k)
          (unknown_field-IsSafe wire n f typ input h))

if-fails_well {ℓ} :
    {A : Type ℓ} (b : Bool) (r s : Result A)
    → r ≢ err panicked
    → s ≢ err panicked
    → (if b then r else s) ≢ err panicked
if-fails_well true r s hr hs = hr
if-fails_well false r s hr hs = hs

module _ {W : Protowire} (wire : IsWire W) where
  distribution_enough_fuel :
      (P : Primitives) (input : Bytes) → parse_distribution_message W P input ≢ err panicked
  unfolding parse_distribution_message
  distribution_enough_fuel P [] = λ e. cc
  distribution_enough_fuel P (b ∷ body) =
      bind-fails_well _ _ (current_version_of-fails_well (b ∷ body)) λ version.
        bind-fails_well _ _
          (read_fields-enough wire (distribution_field W P) (distribution_field-IsSafe wire P)
            (length body) no_fields body (omega arith))
          λ f. distribution_from_fields-fails_well version f

-- Parsing terminates: the loop over the fields of a sender-key message and that over those of a distribution message,
-- which run on the message's length as fuel, never use it up, whatever the bytes are. Protowire
-- consumes at least a byte where it succeeds.
pub parse_enough_fuel :
    (W : Protowire) (wire : IsWire W) (P : Primitives) (input : Bytes)
    → (parse_sender_key_message W input ≢ err panicked)
      × (parse_distribution_message W P input ≢ err panicked)
unfolding parse_sender_key_message decode_sender_key_message_body
parse_enough_fuel W wire P input =
    let size = length input - 64 in
    let body = drop 1 (take size input) in
    (
      if-fails_well (ltb (length input) 65) _ _ (λ e. cc)
          (bind-fails_well _ _ (current_version_of-fails_well input) λ version.
            bind-fails_well _ _
              (read_fields-enough wire (message_field W) (message_field-IsSafe wire) (length body)
                no_fields body (omega arith))
              λ f.
                bind-fails_well _ _ (message_from_fields-fails_well version f (drop size input))
                  λ m. λ e. cc),
      distribution_enough_fuel wire P input,
    )

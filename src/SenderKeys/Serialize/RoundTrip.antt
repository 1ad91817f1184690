-- ===== src/SenderKeys/Serialize/RoundTrip.antt =====
-- A record of sender keys that is written reads back (senderkeys/serialize.go).
use mathlib.Core.List.{append_assoc, append-nil}
use signal.Common.{
  ℕ, suc, ◌+◌, ◌≤◌, ◌≡◌, refl, ap, ◌∙◌, Bool, true, false, List, [], ◌∷◌, ◌++◌, Bytes, bytes_beq,
  ok, invalid_message, eqb, ltb, length, length-append, replicate, All, arith,
}
use signal.Common.Words.{IsU16, IsU32, put_uint16, put_uint32, length-put_uint16, length-put_uint32}
use signal.Common.Reader.{
  cut-append, not_short, read_byte, read_uint16-put_uint16, read_uint32-put_uint32,
}
use signal.SenderKeys.{State, MessageKey, Archive, max_message_keys_per_state}
use signal.SenderKeys.Serialize.{
  serialize_archive, deserialize_archive, private_bytes, last_keys, key_bytes, state_bytes,
  states_bytes, states_or_default, read_ids, read_private, read_key_count, read_keys, read_state,
  read_states, read_archive, read_version, no_trailing,
}

abbrev IsSizedKey : MessageKey → Type 0
IsSizedKey mk = IsU32 mk.iteration × (length mk.seed ≡ 32)

-- A state without a private key has a seed of zeros.
abbrev IsPrivate : Bool → Bytes → Type 0
IsPrivate true seed = length seed ≡ 32
IsPrivate false seed = seed ≡ replicate 32 0

-- The sizes that the Go types fix, and no more message keys than `addMessageKey` keeps.
pub record IsStorable (st : State) : Type 0 where
  pub distribution_id : length st.distribution_id ≡ 16
  pub key_id : IsU32 st.key_id
  pub chain_iteration : IsU32 st.chain_iteration
  pub chain_seed : length st.chain_seed ≡ 32
  pub signing_public : length st.signing_public ≡ 32
  pub private : IsPrivate st.has_private st.signing_private_seed
  pub keys : All IsSizedKey st.message_keys
  pub few_keys : length st.message_keys ≤ max_message_keys_per_state

pub record IsStorableArchive (r : Archive) : Type 0 where
  pub states : All IsStorable r.states
  pub some_room : eqb r.max_states 0 ≡ false
  pub small_max : IsU16 r.max_states
  pub room : length r.states ≤ r.max_states

read_private-private_bytes :
    (has : Bool) (seed rest : Bytes)
    → IsPrivate has seed
    → read_private (private_bytes has seed ++ rest) ≡ ok ((has, seed), rest)
unfolding read_private private_bytes
read_private-private_bytes true seed rest h = rw (cut-append invalid_message 32 seed rest h) refl
read_private-private_bytes false seed rest h = rw h refl

length-private_bytes : (has : Bool) (seed : Bytes) → 1 ≤ length (private_bytes has seed)
unfolding private_bytes
length-private_bytes true seed = omega arith
length-private_bytes false seed = omega arith

read_keys-key_bytes :
    (keys : List MessageKey) (rest : Bytes)
    → All IsSizedKey keys
    → read_keys (length keys) (key_bytes keys ++ rest) ≡ ok (keys, rest)
unfolding read_keys key_bytes
read_keys-key_bytes [] rest h = refl
read_keys-key_bytes (mk ∷ keys) rest ((small, sized), h) =
    let tail = key_bytes keys ++ rest in
    let enough : 36 ≤ length (put_uint32 mk.iteration ++ (mk.seed ++ tail)) = omega (
      arith,
      length-append (put_uint32 mk.iteration) (mk.seed ++ tail),
      length-append mk.seed tail,
      length-put_uint32 mk.iteration,
      sized,
    ) in
    rw
      (
        append_assoc (put_uint32 mk.iteration) (mk.seed ++ key_bytes keys) rest,
        append_assoc mk.seed (key_bytes keys) rest,
        not_short enough,
        read_uint32-put_uint32 invalid_message mk.iteration (mk.seed ++ tail) small,
        cut-append invalid_message 32 mk.seed tail sized,
        read_keys-key_bytes keys rest h,
      )
      refl

read_key_count-put_uint16 :
    (n : ℕ) (rest : Bytes)
    → n ≤ max_message_keys_per_state
    → read_key_count (put_uint16 n ++ rest) ≡ ok (n, rest)
unfolding read_key_count
read_key_count-put_uint16 n rest h =
    rw (read_uint16-put_uint16 invalid_message n rest (omega arith)) (ground arith)

read_state-state_bytes :
    (st : State) (rest : Bytes)
    → IsStorable st
    → read_state true (state_bytes st rest) ≡ ok (st, rest)
unfolding read_state state_bytes read_ids read_byte last_keys
read_state-state_bytes st rest h =
    let b7 = key_bytes st.message_keys ++ rest in
    let b6 = put_uint16 (length st.message_keys) ++ b7 in
    let b5 = private_bytes st.has_private st.signing_private_seed ++ b6 in
    let b4 = st.signing_public ++ b5 in
    let b3 = st.chain_seed ++ b4 in
    let b2 = put_uint32 st.chain_iteration ++ b3 in
    let b1 = put_uint32 st.key_id ++ b2 in
    let enough : 92 ≤ suc (length (st.distribution_id ++ b1)) = omega (
      arith,
      h.distribution_id,
      h.chain_seed,
      h.signing_public,
      length-append st.distribution_id b1,
      length-append (put_uint32 st.key_id) b2,
      length-append (put_uint32 st.chain_iteration) b3,
      length-append st.chain_seed b4,
      length-append st.signing_public b5,
      length-append (private_bytes st.has_private st.signing_private_seed) b6,
      length-append (put_uint16 (length st.message_keys)) b7,
      length-private_bytes st.has_private st.signing_private_seed,
      length-put_uint32 st.key_id,
      length-put_uint32 st.chain_iteration,
      length-put_uint16 (length st.message_keys),
    ) in
    rw
      (
        not_short h.few_keys,
        not_short enough,
        cut-append invalid_message 16 st.distribution_id b1 h.distribution_id,
        read_uint32-put_uint32 invalid_message st.key_id b2 h.key_id,
        read_uint32-put_uint32 invalid_message st.chain_iteration b3 h.chain_iteration,
        cut-append invalid_message 32 st.chain_seed b4 h.chain_seed,
        cut-append invalid_message 32 st.signing_public b5 h.signing_public,
        read_private-private_bytes st.has_private st.signing_private_seed b6 h.private,
        read_key_count-put_uint16 (length st.message_keys) b7 h.few_keys,
        read_keys-key_bytes st.message_keys rest h.keys,
      )
      refl

room_left :
    (states rest : List State) (st : State) (max : ℕ)
    → length states + length (st ∷ rest) ≤ max
    → ltb (length states) max ≡ true
room_left states rest st max h = ground arith

read_states-states_bytes :
    (max : ℕ) (read states : List State)
    → All IsStorable states
    → length read + length states ≤ max
    → read_states true (length states) max read (states_bytes states) ≡ ok (read ++ states, [])
unfolding read_states states_bytes
read_states-states_bytes max read [] h room = rw (append-nil read) refl
read_states-states_bytes max read (st ∷ states) (fits, h) room =
    rw (read_state-state_bytes st (states_bytes states) fits, room_left read states st max room)
      (read_states-states_bytes max (read ++ (st ∷ [])) states h
          (omega (arith, room, length-append read (st ∷ [])))
        ∙ ap (λ l. ok (l, [])) (append_assoc read (st ∷ []) states))

-- A record of sender keys that is written reads back as it was: its states, in their order and with all their message
-- keys, and its limit. The conditions: the limit is set, below 2^16, and kept. A state has the sizes of Go's types, a
-- seed of zeros if it has no private key, and at most the 2000 message keys that are kept of it.
pub deserialize_archive-serialize_archive :
    (r : Archive) → IsStorableArchive r → deserialize_archive (serialize_archive r) ≡ ok r
unfolding deserialize_archive serialize_archive states_or_default read_version read_archive
    no_trailing bytes_beq
deserialize_archive-serialize_archive r h =
    let count = length r.states in
    let rest = put_uint16 count ++ states_bytes r.states in
    let long : 9 ≤ suc (suc (suc (suc (suc (length (put_uint16 r.max_states ++ rest)))))) = omega (
      arith,
      length-append (put_uint16 r.max_states) rest,
      length-append (put_uint16 count) (states_bytes r.states),
      length-put_uint16 r.max_states,
      length-put_uint16 count,
    ) in
    rw
      (
        h.some_room,
        not_short h.room,
        not_short long,
        read_uint16-put_uint16 invalid_message r.max_states rest h.small_max,
        read_uint16-put_uint16 invalid_message count (states_bytes r.states)
            (omega (arith, h.room, h.small_max)),
        h.some_room,
        read_states-states_bytes r.max_states [] r.states h.states (omega (arith, h.room)),
      )
      refl

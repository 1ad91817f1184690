-- ===== src/SenderKeys/Group/Runs.antt =====
-- A group of two on small primitives.
use signal.Common.{
  ◌≡◌, refl, ◌≢◌, err, panicked, ◌++◌, some, none, true, false, [], ◌∷◌, Bytes, ok, arith,
  bytes_beq, replicate,
}
use signal.Common.Map
use signal.Keys.{IdentityKeyPair}
use signal.Crypto.{KeyPair, key_pair_from_private}
use signal.Crypto.Laws.{IsSound}
use signal.Crypto.Toy.{toy, toy-IsSound, fill, head}
use signal.Crypto.Runs.{plain_blocks, plain_blocks-IsCipher}
use signal.Crypto.Xeddsa.Runs.{
  on_two_points, two_points, two_points-IsCoding, two_points-IsGroup, two_points-IsBirational,
}
use signal.Store.{address_beq, sender_key_name_beq, Store, SenderKeyName}
use signal.Store.Identities.{new_store}
use signal.Store.SenderKeys.{load_sender_key, store_sender_key}
use signal.SenderKeys.{State, Archive}
use signal.SenderKeys.Record.{new_record, current, state, find, answers}
use signal.SenderKeys.Chain.{chain_at, derive}
use signal.Common.Words.{array32, put_uint16, put_uint32, uint16, uint32}
use signal.Crypto.Xeddsa.{clamp_curve25519_scalar}
use signal.SenderKeys.Serialize.{serialize_archive, deserialize_archive}
use signal.SenderKeys.Group.{
  load_archive, group_encrypt, group_decrypt, builder_create, builder_process, StateEntropy,
  distribution_of,
}
use signal.SenderKeys.Group.Delivery.{IsTrusty, IsSending}
use signal.SenderKeys.Group.Delivered.{IsReceiving, group_decrypt-group_encrypt}
use signal.SenderKeys.Group.Joined.{group_decrypt-builder_process}
use signal.SenderKeys.Message.Parse.{parse_sender_key_message, parse_distribution_message}
use signal.SenderKeys.Message.Parse.Fuel.{parse_enough_fuel}
use signal.SenderKeys.Message.Parse.Distribution.{IsDistribution}
use signal.SenderKeys.Serialize.RoundTrip.{IsStorableArchive}
use signal.Keys.Wire.{is_valid_public_key}
use signal.SenderKeys.Group.Toy.{wire, wire-IsWire}

on_two_points-IsSound : IsSound on_two_points
unfolding toy
on_two_points-IsSound = record { expands = toy-IsSound.expands; opens = toy-IsSound.opens }

trusty : IsTrusty on_two_points plain_blocks two_points wire
trusty = record {
  sound = on_two_points-IsSound;
  cipher = plain_blocks-IsCipher;
  coding = two_points-IsCoding;
  group = two_points-IsGroup;
  birational = two_points-IsBirational;
  wire = wire-IsWire;
}

abbrev signing_pair : KeyPair
signing_pair = record { public_key = 2 ∷ replicate 31 0; private_key = fill 5 }

-- The sender has sent two messages that did not arrive.
abbrev sending_state : State
sending_state = record {
  message_version = 3;
  distribution_id = replicate 16 1;
  key_id = 7;
  chain_iteration = 2;
  chain_seed = fill 11;
  signing_public = signing_pair.public_key;
  signing_private_seed = fill 5;
  has_private = true;
  message_keys = [];
}

abbrev receiving_state : State
receiving_state = record sending_state {
  chain_iteration = 0;
  chain_seed = fill 7;
  signing_private_seed = replicate 32 0;
  has_private = false;
}

abbrev of_one : State → Archive
of_one st = record { states = st ∷ []; max_states = 5 }

abbrev group_name : SenderKeyName
group_name = record { group = "g"; sender = record { name = "alice"; device = 1 } }

abbrev owner : IdentityKeyPair
owner = record { public_key = record { public_key = []; signing_public = [] }; private_key = [] }

abbrev store_with : Archive → Store
store_with r =
    store_sender_key group_name (some (record { data_bytes = serialize_archive r }))
      (new_store owner 1)

loaded_sender :
    load_archive group_name (store_with (of_one sending_state))
    ≡ (ok (of_one sending_state), store_with (of_one sending_state))
unfolding load_archive serialize_archive deserialize_archive load_sender_key store_sender_key
    new_store Map.lookup Map.insert address_beq sender_key_name_beq bytes_beq put_uint16 put_uint32
    uint16 uint32
loaded_sender = refl

loaded_receiver :
    load_archive group_name (store_with (of_one receiving_state))
    ≡ (ok (of_one receiving_state), store_with (of_one receiving_state))
unfolding load_archive serialize_archive deserialize_archive load_sender_key store_sender_key
    new_store Map.lookup Map.insert address_beq sender_key_name_beq bytes_beq put_uint16 put_uint32
    uint16 uint32
loaded_receiver = refl

sends : IsSending on_two_points signing_pair sending_state
unfolding key_pair_from_private clamp_curve25519_scalar array32
sends = record {
  has_private = refl;
  message_version = refl;
  distribution_id = refl;
  key_id = omega arith;
  iteration = omega arith;
  private = refl;
  pair = refl;
}

receives : IsReceiving on_two_points signing_pair (fill 7) sending_state receiving_state
unfolding chain_at derive toy head array32
receives = record {
  message_version = refl;
  signing_public = refl;
  sender_chain = refl;
  chain = refl;
  behind = omega arith;
  near = omega arith;
}

group_decrypt-group_encrypt_example :
    (input : Bytes) × (sender receiver : Store) × (group_encrypt on_two_points plain_blocks
        two_points wire group_name
        (some (fill 4))
        (8 ∷ 9 ∷ [])
        (store_with (of_one sending_state))
      ≡ (ok input, sender))
    × (group_decrypt on_two_points plain_blocks two_points wire group_name input
          (store_with (of_one receiving_state))
        ≡ (ok (8 ∷ 9 ∷ []), receiver))
unfolding current state find answers bytes_beq
group_decrypt-group_encrypt_example =
    group_decrypt-group_encrypt on_two_points plain_blocks two_points wire trusty group_name
      group_name (store_with (of_one sending_state)) (store_with (of_one receiving_state))
      (of_one sending_state) (of_one receiving_state) sending_state receiving_state signing_pair
      (fill 7) (8 ∷ 9 ∷ []) (fill 4) loaded_sender refl sends loaded_receiver refl receives
      (omega arith)

-- A member without any sender key.
abbrev nobody : Store
nobody = new_store owner 1

abbrev no_states : Archive
no_states = record { states = []; max_states = 5 }

loaded_nothing : load_archive group_name nobody ≡ (ok no_states, nobody)
unfolding load_archive load_sender_key new_store Map.lookup new_record
loaded_nothing = refl

no_states-IsStorable : IsStorableArchive no_states
no_states-IsStorable = record {
  states = tt;
  some_room = refl;
  small_max = omega arith;
  room = omega arith;
}

distributed : IsDistribution on_two_points (distribution_of sending_state)
unfolding distribution_of is_valid_public_key clamp_curve25519_scalar bytes_beq
distributed = record {
  message_version = refl;
  distribution_id = refl;
  key_id = omega arith;
  iteration = omega arith;
  chain_key = refl;
  signing_public = refl;
  valid = refl;
}

no_entropy : StateEntropy
no_entropy = record { for_id = none; for_distribution = none; for_seed = none; for_signing = none }

group_decrypt-builder_process_example :
    (distribution input : Bytes) × (joined sender receiver : Store) × (builder_create on_two_points
        plain_blocks two_points wire group_name no_entropy
        (store_with (of_one sending_state))
      ≡ (ok distribution, store_with (of_one sending_state)))
    × (builder_process on_two_points plain_blocks two_points wire group_name distribution nobody
        ≡ (ok tt, joined))
    × (group_encrypt on_two_points plain_blocks two_points wire group_name
          (some (fill 4))
          (8 ∷ 9 ∷ [])
          (store_with (of_one sending_state))
        ≡ (ok input, sender))
    × (group_decrypt on_two_points plain_blocks two_points wire group_name input joined
        ≡ (ok (8 ∷ 9 ∷ []), receiver))
unfolding current
group_decrypt-builder_process_example =
    group_decrypt-builder_process on_two_points plain_blocks two_points wire trusty group_name
      group_name (store_with (of_one sending_state)) nobody (of_one sending_state) no_states
      sending_state signing_pair (fill 7) (8 ∷ 9 ∷ []) (fill 4) no_entropy loaded_sender refl sends
      refl receives.sender_chain distributed loaded_nothing no_states-IsStorable (omega arith)

-- A field that the library does not know, and a tag that is cut off.
parse_enough_fuel_example :
    (parse_sender_key_message wire (51 ∷ 48 ∷ 1 ∷ 128 ∷ fill 1 ++ fill 2) ≢ err panicked)
    × (parse_distribution_message wire on_two_points (51 ∷ 48 ∷ 1 ∷ 128 ∷ fill 1 ++ fill 2)
        ≢ err panicked)
parse_enough_fuel_example =
    parse_enough_fuel wire wire-IsWire on_two_points (51 ∷ 48 ∷ 1 ∷ 128 ∷ fill 1 ++ fill 2)

-- ===== src/SenderKeys/Serialize/Runs.antt =====
-- A record of sender keys that is written and read, on a small input.
use signal.Common.{◌≡◌, refl, true, false, [], ◌∷◌, ok, arith, replicate}
use signal.Crypto.Toy.{fill}
use signal.SenderKeys.{State, Archive}
use signal.SenderKeys.Serialize.{serialize_archive, deserialize_archive}
use signal.SenderKeys.Serialize.RoundTrip.{
  IsStorable, IsStorableArchive, deserialize_archive-serialize_archive,
}

-- A state of one's own, with its private key.
abbrev own_state : State
own_state = record {
  message_version = 3;
  distribution_id = replicate 16 1;
  key_id = 70000;
  chain_iteration = 9;
  chain_seed = fill 7;
  signing_public = fill 8;
  signing_private_seed = fill 9;
  has_private = true;
  message_keys = [];
}

-- A state of another member, with two keys of messages that have not arrived.
abbrev other_state : State
other_state = record {
  message_version = 3;
  distribution_id = replicate 16 2;
  key_id = 2;
  chain_iteration = 12;
  chain_seed = fill 5;
  signing_public = fill 6;
  signing_private_seed = replicate 32 0;
  has_private = false;
  message_keys =
      record { iteration = 3; seed = fill 1 } ∷ record { iteration = 8; seed = fill 2 } ∷ [];
}

abbrev stored_archive : Archive
stored_archive = record { states = own_state ∷ other_state ∷ []; max_states = 5 }

own_state-IsStorable : IsStorable own_state
own_state-IsStorable = record {
  distribution_id = refl;
  key_id = omega arith;
  chain_iteration = omega arith;
  chain_seed = refl;
  signing_public = refl;
  private = refl;
  keys = tt;
  few_keys = omega arith;
}

other_state-IsStorable : IsStorable other_state
other_state-IsStorable = record {
  distribution_id = refl;
  key_id = omega arith;
  chain_iteration = omega arith;
  chain_seed = refl;
  signing_public = refl;
  private = refl;
  keys = ((omega arith, refl), ((omega arith, refl), tt));
  few_keys = omega arith;
}

stored_archive-IsStorable : IsStorableArchive stored_archive
stored_archive-IsStorable = record {
  states = (own_state-IsStorable, (other_state-IsStorable, tt));
  some_room = refl;
  small_max = omega arith;
  room = omega arith;
}

deserialize_archive-serialize_archive_example :
    deserialize_archive (serialize_archive stored_archive) ≡ ok stored_archive
deserialize_archive-serialize_archive_example =
    deserialize_archive-serialize_archive stored_archive stored_archive-IsStorable

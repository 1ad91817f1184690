-- ===== src/Ratchet/Runs/Written.antt =====
-- A ratchet state with stored keys, written and read, and the loop that stores keys.
use signal.Common.{◌≡◌, refl, some, [], ◌∷◌, ok, arith, bytes_beq}
use signal.Common.Map
use signal.Crypto.Toy.{toy, fill}
use signal.Ratchet.{State}
use signal.Ratchet.Serialize.{serialize_state, deserialize_state}
use signal.Ratchet.Serialize.RoundTrip.{IsStorable, IsSameState, deserialize_state-serialize_state}
use signal.Ratchet.Skip.{skip_loop, skip_message_keys}
use signal.Ratchet.Skip.Fuel.{skip_loop-skip_message_keys}
use signal.Ratchet.Runs.{alice_keys, receiver}

abbrev pub skipping : State
skipping = record {
  dhs = some alice_keys;
  dhr = some (fill 14);
  rk = fill 17;
  cks = fill 18;
  ckr = fill 19;
  ns = 3;
  nr = 70000;
  pn = 2;
  skipped =
      (record { public_key = fill 14; n = 300 }, fill 20)
      ∷ (record { public_key = fill 14; n = 4 }, fill 21)
      ∷ [];
  seen = (fill 14, tt) ∷ (fill 13, tt) ∷ [];
}

pub skipping-IsStorable : IsStorable skipping
unfolding Map.lookup bytes_beq
skipping-IsStorable = record {
  dhs = (refl, refl);
  dhr = refl;
  rk = refl;
  cks = refl;
  ckr = refl;
  ns = omega arith;
  nr = omega arith;
  pn = omega arith;
  skipped = ((refl, (omega arith, refl)), ((refl, (omega arith, refl)), tt));
  one_key = (refl, (refl, tt));
  room = omega arith;
  seen = (refl, (refl, tt));
  one_seen = (refl, (refl, tt));
  few_seen = omega arith;
}

deserialize_state-serialize_state_example :
    (t : State) × (deserialize_state (serialize_state skipping) ≡ ok t) × IsSameState skipping t
deserialize_state-serialize_state_example =
    deserialize_state-serialize_state skipping skipping-IsStorable

skip_loop-skip_message_keys_example : skip_loop toy 7 2 receiver ≡ skip_message_keys toy 2 receiver
skip_loop-skip_message_keys_example =
    skip_loop-skip_message_keys toy 7 2 receiver (omega arith) (omega arith)

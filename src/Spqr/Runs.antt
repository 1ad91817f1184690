-- ===== src/Spqr/Runs.antt =====
-- The theorems on the chains of the triple ratchet at concrete inputs, and tests.
use signal.Common.{
  ℕ, ◌+◌, ◌^◌, ◌-◌, ◌≡◌, refl, inl, List, [], ◌∷◌, Bytes, Result, ok, err, some, All, arith,
  key_trimmed,
}
use signal.Common.Map
use signal.Common.Words.{put_uint32, array32}
use signal.Crypto.{hkdf}
use signal.Crypto.Toy.{toy, fill, head, toy-IsSound}
use signal.Spqr.{
  ChainParams, ChainEpochDirection, Chain, direction_a2b, max_jump_of, max_ooo_of, switch_direction,
}
use signal.Spqr.Keys.{
  key, new_chain_epoch_direction, hkdf_to, next_key, get_key, advance_to, skip_keys, skip_key, gc,
  copy_into,
}
use signal.Spqr.Keys.Ideal.{ask, ideal_start}
use signal.Spqr.Keys.Requests.{outcomes, Fits, key-ask, key-overflow}
use signal.Spqr.Epochs.{
  new_chain, add_epoch, send_key, recv_key, chain_seeds_for_direction, new_link, epoch_index,
}
use signal.Spqr.Epochs.Held.{Call, add, send, recv, run, call, CallFits}
use signal.Spqr.Epochs.Agreed.{send_key-recv_key}
use signal.Spqr.Serialize.{serialize_chain, deserialize_chain}
use signal.Spqr.Serialize.RoundTrip.{
  IsStorableDir, IsStorableChain, IsSameChain, deserialize_chain-serialize_chain,
}

abbrev default_params : ChainParams
default_params = record { max_jump = 0; max_ooo = 0 }

abbrev requests : List ℕ
requests = 3 ∷ 1 ∷ 1 ∷ 2 ∷ 30000 ∷ 4 ∷ []

requests_fit : All (Fits default_params) requests
unfolding max_ooo_of
requests_fit = omega arith

key-ask_example :
    outcomes (λ at. key toy at default_params) requests (new_chain_epoch_direction (fill 7))
    ≡ outcomes (λ at. ask toy (fill 7) at default_params) requests ideal_start
key-ask_example = key-ask toy-IsSound (fill 7) refl default_params requests requests_fit

abbrev widest : ChainParams
widest = record { max_jump = 0; max_ooo = 2 ^ 32 - 1 }

abbrev after_three : ChainEpochDirection
after_three = record { ctr = 3; next = fill 1; prev = (1, fill 5) ∷ (2, fill 6) ∷ [] }

widest_wraps : max_ooo_of widest ≡ 2 ^ 32 - 1
unfolding max_ooo_of
widest_wraps = refl

key-overflow_example : key toy 2 widest after_three ≡ (err key_trimmed, after_three)
key-overflow_example =
    key-overflow toy widest 2 after_three (omega arith) (omega arith) (omega (arith, widest_wraps))
      (omega (arith, widest_wraps))

abbrev secret : ℕ → Bytes
secret epoch = fill (epoch + 20)

abbrev fresh : ChainEpochDirection
fresh = record { ctr = 0; next = fill 11; prev = [] }

abbrev start : ℕ → Chain
start dir = record {
  dir = dir;
  current_epoch = 0;
  send_epoch = 0;
  links = record { send = fresh; recv = fresh } ∷ [];
  next_root = fill 11;
  params = default_params;
}

new_chain-start : (dir : ℕ) → new_chain toy (fill 11) dir default_params ≡ ok (start dir)
unfolding new_chain hkdf_to hkdf toy chain_seeds_for_direction new_link array32
    new_chain_epoch_direction
new_chain-start dir = ground arith

receiver_starts :
    new_chain toy (fill 11) (switch_direction direction_a2b) default_params ≡ ok (start 1)
unfolding switch_direction
receiver_starts = new_chain-start 1

abbrev sent : List Call
sent = send 0 ∷ add 1 ∷ send 1 ∷ []

abbrev received : List Call
received = add 1 ∷ recv 1 1 ∷ recv 0 5 ∷ []

abbrev outcome_send : Result (ℕ × Bytes) × Chain
outcome_send = send_key toy 1 (run toy secret sent (start 0))

abbrev outcome_recv : Result Bytes × Chain
outcome_recv = recv_key toy 1 2 (run toy secret received (start 1))

sends : outcome_send ≡ (ok (2, fill 21), outcome_send.1)
unfolding run call send_key add_epoch hkdf_to hkdf toy chain_seeds_for_direction new_link array32
    new_chain_epoch_direction epoch_index next_key head put_uint32 copy_into
sends = refl

recvs : outcome_recv ≡ (ok (fill 21), outcome_recv.1)
unfolding run call recv_key add_epoch hkdf_to hkdf toy chain_seeds_for_direction new_link array32
    new_chain_epoch_direction epoch_index next_key key get_key advance_to skip_keys skip_key gc head
    put_uint32 copy_into max_ooo_of max_jump_of Map.insert Map.delete Map.lookup Map.retain
recvs = refl

received_fit : All (CallFits default_params) received
unfolding max_ooo_of
received_fit = omega arith

index_fits : Fits default_params 2
unfolding max_ooo_of
index_fits = omega arith

send_key-recv_key_example : ◌≡◌ {A = Bytes} (fill 21) (fill 21)
send_key-recv_key_example =
    send_key-recv_key toy-IsSound (fill 11) secret direction_a2b default_params default_params
      (start 0) (start 1) outcome_send.1 outcome_recv.1 sent received 1 2 (fill 21) (fill 21)
      (inl refl) (new_chain-start 0) (receiver_starts) (omega arith) (omega arith)
      (tt, (tt, (tt, tt))) received_fit index_fits sends recvs

-- A chain that has given a key out of order.
abbrev stored : Chain
stored = record {
  dir = 0;
  current_epoch = 3;
  send_epoch = 3;
  links =
      record { send = fresh; recv = after_three }
      ∷ record { send = after_three; recv = fresh }
      ∷ [];
  next_root = fill 4;
  params = default_params;
}

after_three-IsStorableDir : IsStorableDir after_three
unfolding Map.lookup
after_three-IsStorableDir = record {
  ctr = omega arith;
  next = omega arith;
  keys = ((omega arith, refl), ((omega arith, refl), tt));
  one_key = (refl, (refl, tt));
  few = omega arith;
}

fresh-IsStorableDir : IsStorableDir fresh
fresh-IsStorableDir = record {
  ctr = omega arith;
  next = omega arith;
  keys = tt;
  one_key = tt;
  few = omega arith;
}

stored-IsStorableChain : IsStorableChain stored
stored-IsStorableChain = record {
  current_epoch = omega arith;
  send_epoch = omega arith;
  next_root = refl;
  max_jump = omega arith;
  max_ooo = omega arith;
  few = omega arith;
  links = (
    (fresh-IsStorableDir, after_three-IsStorableDir),
    ((after_three-IsStorableDir, fresh-IsStorableDir), tt),
  );
}

deserialize_chain-serialize_chain_example :
    (c' : Chain) × (deserialize_chain (serialize_chain (some stored)) ≡ ok (some c'))
    × IsSameChain stored c'
deserialize_chain-serialize_chain_example =
    deserialize_chain-serialize_chain stored stored-IsStorableChain

-- ===== src/SenderKeys/Runs.antt =====
-- Sender keys on small inputs.
use signal.Common.{ℕ, ◌+◌, ◌≡◌, refl, false, [], ◌∷◌, ok, arith, replicate}
use signal.Crypto.Toy.{toy, toy-IsSound, fill}
use signal.SenderKeys.{State, Archive, SenderMessageKey}
use signal.SenderKeys.Chain.{chain_at, sender_message_key}
use signal.SenderKeys.Cipher.{get_sender_message_key}
use signal.SenderKeys.Cipher.Keys.{get_sender_message_key-ahead}

abbrev group_state : ℕ → State
group_state id = record {
  message_version = 3;
  distribution_id = replicate 16 id;
  key_id = id;
  chain_iteration = 0;
  chain_seed = fill 7;
  signing_public = fill 8;
  signing_private_seed = [];
  has_private = false;
  message_keys = [];
}

abbrev archive : Archive
archive = record { states = group_state 1 ∷ group_state 2 ∷ []; max_states = 5 }

chain-start : fill 7 ≡ (chain_at toy (fill 7) 0).seed
unfolding chain_at
chain-start = refl

get_sender_message_key-ahead_example :
    (mk : SenderMessageKey) × (t : State) × (get_sender_message_key toy 3 (group_state 1)
      ≡ (ok mk, t))
    × (sender_message_key toy (chain_at toy (fill 7) 3) ≡ ok mk)
    × (t.chain_iteration ≡ 3 + 1)
    × (t.chain_seed ≡ (chain_at toy (fill 7) (3 + 1)).seed)
get_sender_message_key-ahead_example =
    get_sender_message_key-ahead toy toy-IsSound (fill 7) 3 (group_state 1) chain-start
      (omega arith) (omega arith) (omega arith)

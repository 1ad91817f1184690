-- ===== src/SenderKeys/Cipher.antt =====
-- getSenderMessageKey of senderkeys/cipher.go.
pub mod Keys
use signal.Common.{
  ℕ, zero, suc, ◌-◌, Option, none, some, Bytes, Result, ok, err, duplicate_message,
  max_skip_exceeded, ltb, if◌then◌else◌, ◌>>=◌ as bind,
}
use signal.Common.Exec.{Exec, lift, modify, ◌>>=◌, ◌>>◌}
use signal.Crypto.{Primitives}
use signal.SenderKeys.{State, SenderChainKey, SenderMessageKey, max_message_keys_per_state}
use signal.SenderKeys.Record.{add_message_key, remove_message_key}
use signal.SenderKeys.Chain.{next, sender_message_key, new_sender_message_key}

module _ (P : Primitives) where
  -- One round of the loop: the key of the iteration is stored, and the chain moves on.
  unfoldable pub skip_round : SenderChainKey → Exec State SenderChainKey
  skip_round k = do
    mk ← lift (sender_message_key P k)
    modify (add_message_key (record { iteration = k.iteration; seed = mk.seed }))
    lift (next P k)

  -- The loop on fuel: `iteration - k.iteration` rounds are all that its test lets through.
  unfoldable pub skip_to : ℕ → ℕ → SenderChainKey → Exec State SenderChainKey
  skip_to zero iteration k s = (ok k, s)
  skip_to (suc fuel) iteration k s =
      if ltb k.iteration iteration
      then (skip_round k >>= λ later. skip_to fuel iteration later) s
      else (ok k, s)

  stored_key : ℕ → Option Bytes × State → Result SenderMessageKey × State
  stored_key iteration (none, s) = (err duplicate_message, s)
  stored_key iteration (some seed, s) = (new_sender_message_key P iteration seed, s)

  -- The chain is moved over the iteration before its key is derived.
  advance_chain : SenderChainKey → Exec State SenderMessageKey
  advance_chain k = do
    later ← lift (next P k)
    modify (λ s. record s { chain_iteration = later.iteration; chain_seed = later.seed })
    lift (sender_message_key P k)

  unfoldable pub get_sender_message_key : ℕ → Exec State SenderMessageKey
  unfolding skip_to stored_key advance_chain
  get_sender_message_key iteration s =
      let k : SenderChainKey = record { iteration = s.chain_iteration; seed = s.chain_seed } in
      if ltb iteration k.iteration
      then stored_key iteration (remove_message_key iteration s)
      else if ltb max_message_keys_per_state (iteration - k.iteration)
      then (err max_skip_exceeded, s)
      else (skip_to (iteration - k.iteration) iteration k >>= advance_chain) s

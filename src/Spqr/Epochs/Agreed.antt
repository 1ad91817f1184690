-- ===== src/Spqr/Epochs/Agreed.antt =====
-- The chains of two parties agree on the keys of every epoch (spqr/chain.go).
use signal.Common.{
  ℕ, suc, ◌+◌, ◌^◌, ◌<◌, ◌≡◌, ◌⊎◌, List, [], ◌∷◌, Bytes, ok, length, All, arith, subst, sym, ◌∙◌,
  ap,
}
use signal.Crypto.{Primitives}
use signal.Crypto.Laws.{IsSound}
use signal.Spqr.{ChainParams, Chain, direction_a2b, direction_b2a, switch_direction}
use signal.Spqr.Keys.Ideal.{message_key}
use signal.Spqr.Keys.Requests.{Fits}
use signal.Spqr.Epochs.{new_chain, send_key, recv_key}
use signal.Spqr.Epochs.Schedule.{send_seed, recv_seed, seeds_mirrored}
use signal.Spqr.Epochs.Links.{Gives, IsKeyOf}
use signal.Spqr.Epochs.Held.{
  Call, add, send, recv, call, run, CallFits, IsChain, new_chain-IsChain, add_epoch-IsChain,
}
use signal.Spqr.Epochs.Held.Taken.{send_key-IsChain, recv_key-IsChain}

module _ {P : Primitives} (sound : IsSound P) (auth_key : Bytes) (secret : ℕ → Bytes) where
  module _ (dir : ℕ) (params : ChainParams) where
    call-IsChain :
        (n : ℕ) (x : Call) (c : Chain)
        → n + 1 < 2 ^ 32
        → CallFits params x
        → IsChain P auth_key secret dir params n c
        → IsChain P auth_key secret dir params (suc n) (call P secret x c)
    unfolding call
    call-IsChain n (add epoch) c small fits h =
        add_epoch-IsChain sound auth_key secret dir params n epoch c small h
    call-IsChain n (send epoch) c small fits h =
        (send_key-IsChain sound auth_key secret dir params n epoch c small h).0
    call-IsChain n (recv epoch index) c small fits h =
        (recv_key-IsChain sound auth_key secret dir params n epoch index c fits h).0

    run-IsChain :
        (calls : List Call) (n : ℕ) (c : Chain)
        → n + length calls < 2 ^ 32
        → All (CallFits params) calls
        → IsChain P auth_key secret dir params n c
        → IsChain P auth_key secret dir params (n + length calls) (run P secret calls c)
    unfolding run
    run-IsChain [] n c small fits h =
        subst (λ k. IsChain P auth_key secret dir params k c) (omega arith) h
    run-IsChain (x ∷ calls) n c small (fit, fits) h =
        subst (λ k. IsChain P auth_key secret dir params k (run P secret calls (call P secret x c)))
          (omega arith)
          (run-IsChain calls (suc n) (call P secret x c) (omega arith) fits
            (call-IsChain n x c (omega arith) fit h))

  -- Two parties start their chains from one authentication key with opposite directions, whatever their limits, and
  -- add epochs with the same secrets. After any calls of each, failed or not, fewer than 2^32 - 1, whose requests
  -- the windows do not overflow for: a key that one is given to send with in an epoch, with its index, is the key
  -- that the other gets when it asks for that epoch and index and gets one.
  pub send_key-recv_key :
      (dir : ℕ) (sender_params receiver_params : ChainParams)
      (sender receiver sender' receiver' : Chain) (sent received : List Call) (epoch index : ℕ)
      (k k' : Bytes)
      → (dir ≡ direction_a2b) ⊎ (dir ≡ direction_b2a)
      → new_chain P auth_key dir sender_params ≡ ok sender
      → new_chain P auth_key (switch_direction dir) receiver_params ≡ ok receiver
      → length sent + 1 < 2 ^ 32
      → length received < 2 ^ 32
      → All (CallFits sender_params) sent
      → All (CallFits receiver_params) received
      → Fits receiver_params index
      → send_key P epoch (run P secret sent sender) ≡ (ok (index, k), sender')
      → recv_key P epoch index (run P secret received receiver) ≡ (ok k', receiver')
      → k ≡ k'
  send_key-recv_key dir sp rp sender receiver sender' receiver' sent received epoch index k k' d
        new_s new_r ls lr fs fr fit es er =
      let hs =
        run-IsChain dir sp sent 0 sender (omega arith) fs
          (new_chain-IsChain sound auth_key secret dir sp sender new_s) in
      let hr =
        run-IsChain (switch_direction dir) rp received 0 receiver (omega arith) fr
          (new_chain-IsChain sound auth_key secret (switch_direction dir) rp receiver new_r) in
      let (_, s) =
        send_key-IsChain sound auth_key secret dir sp (0 + length sent) epoch
          (run P secret sent sender) (omega arith) hs in
      let (_, r) =
        recv_key-IsChain sound auth_key secret (switch_direction dir) rp (0 + length received) epoch
          index (run P secret received receiver) fit hr in
      let s' : k ≡ message_key P (send_seed P auth_key secret dir epoch) index =
        subst (λ p. Gives (IsKeyOf P (send_seed P auth_key secret dir epoch)) p.0) es s in
      let r' : k' ≡ message_key P (recv_seed P auth_key secret (switch_direction dir) epoch) index =
        subst
          (λ p.
            Gives
              (λ x.
                x ≡ message_key P (recv_seed P auth_key secret (switch_direction dir) epoch) index)
              p.0)
          er r in
      s'
      ∙ ap (λ seed. message_key P seed index) (seeds_mirrored P auth_key secret dir epoch d)
      ∙ sym r'

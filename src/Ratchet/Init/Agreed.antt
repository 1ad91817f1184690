-- ===== src/Ratchet/Init/Agreed.antt =====
-- What both parties of one handshake start with (ratchet/state.go).
use signal.Common.{
  ◌≡◌, ◌≢◌, refl, none, some, Bytes, bytes_eq, Result, ok, arith, Result-cases, inl, inr,
  bytes_beq_iff, true, false, [],
}
use signal.Common.Map
use signal.Common.Words.{zero_key}
use signal.Crypto.{Primitives, KeyPair}
use signal.X3dh.{Outcome}
use signal.Ratchet.{State, SkippedKey, skipped_key_eq}
use signal.Ratchet.Chain.{chain_key}
use signal.Ratchet.Turn.{next_root}
use signal.Ratchet.Init.{initialize_state_with_generator, initial}
use signal.Ratchet.Receive.{is_current}
use signal.Ratchet.Receive.Valid.{IsValid}
use signal.Ratchet.Delivery.{Tracks}

-- The outcomes of one handshake at the two parties: the same secrets, and each other's keys.
pub record IsSameHandshake (ephemeral signed : KeyPair) (xa xb : Outcome) : Type 0 where
  pub secret : xa.shared_secret ≡ xb.shared_secret
  pub local_ephemeral : xa.local_ephemeral ≡ some ephemeral
  pub message_key : xb.initial_message.ephemeral_key ≡ ephemeral.public_key
  pub remote_ratchet : xa.remote_ratchet_key ≡ some signed.public_key
  pub local_ratchet : xb.local_ratchet_key ≡ some signed

-- A state with no stored keys and its counters at 0.
pub new-IsValid : (s : State) → s.skipped ≡ [] → s.nr ≡ 0 → s.ns ≡ 0 → IsValid s
new-IsValid s empty nr ns = record {
  own = λ k mk found. absurd (cc (rw empty at found, Map.lookup-empty {V = Bytes} k));
  room = rw empty (omega arith);
  small_nr = omega arith;
  small_ns = omega arith;
}

-- A receiver at the start of a chain.
pub new-Tracks :
    (P : Primitives) (start d : Bytes) (s : State)
    → s.dhr ≡ some d
    → s.ckr ≡ start
    → s.skipped ≡ []
    → s.nr ≡ 0
    → Tracks P start d 0 s
new-Tracks P start d s current chain empty nr = record {
  current = current;
  chain = rw (nr, chain) (unfold chain_key in refl);
  holds = λ n mk found.
      let k : SkippedKey = record { public_key = d; n = n } in
      absurd (cc (rw empty at found, Map.lookup-empty {V = Bytes} k));
  window = rw (empty, nr) (omega arith);
}

module _ (P : Primitives) (generated next : Result KeyPair) where
  -- The state of an initiator, from the result of its key agreement.
  pub initiated :
      (x3 : Outcome) (dhs : KeyPair) (remote : Bytes) (s : State)
      → x3.remote_ratchet_key ≡ some remote
      → initialize_state_with_generator P x3 true generated next ≡ ok s
      → x3.initial_chain_key ≡ none
      → x3.local_ephemeral ≡ some dhs
      → (next_root P x3.shared_secret dhs remote ≡ ok (s.rk, s.cks))
        × (s ≡ record (initial x3 dhs remote) { rk = s.rk; cks = s.cks })
  unfolding initialize_state_with_generator
  initiated x3 dhs remote s key e legacy ephemeral =
      elim (Result-cases (next_root P x3.shared_secret dhs remote)) [
        | inl ((root, chain), good) ↦
            let same : s ≡ record (initial x3 dhs remote) { rk = root; cks = chain } =
              ground
                (arith, key, legacy, ephemeral, good, bytes_beq_iff x3.shared_secret zero_key) in
            rw same (good, refl)
        | inr (x, bad) ↦ absurd (ground (arith, key, legacy, ephemeral, bad))
      ]

  pub initiated_pq :
      (x3 : Outcome) (dhs : KeyPair) (remote chain_key : Bytes) (s : State)
      → x3.remote_ratchet_key ≡ some remote
      → initialize_state_with_generator P x3 true generated next ≡ ok s
      → x3.initial_chain_key ≡ some chain_key
      → generated ≡ ok dhs
      → (next_root P x3.shared_secret dhs remote ≡ ok (s.rk, s.cks))
        × (s ≡ record (initial x3 dhs remote) { ckr = chain_key; rk = s.rk; cks = s.cks })
  unfolding initialize_state_with_generator
  initiated_pq x3 dhs remote ck s key e pq made =
      elim (Result-cases (next_root P x3.shared_secret dhs remote)) [
        | inl ((root, chain), good) ↦
            let same : s ≡ record (initial x3 dhs remote) { ckr = ck; rk = root; cks = chain } =
              ground (arith, key, pq, made, good, bytes_beq_iff x3.shared_secret zero_key) in
            rw same (good, refl)
        | inr (x, bad) ↦ absurd (ground (arith, key, pq, made, bad))
      ]

  pub responded_pq :
      (x3 : Outcome) (signed : KeyPair) (chain_key : Bytes) (s : State)
      → x3.local_ratchet_key ≡ some signed
      → initialize_state_with_generator P x3 false generated next ≡ ok s
      → x3.initial_chain_key ≡ some chain_key
      → s ≡ record (initial x3 signed x3.initial_message.ephemeral_key) { cks = chain_key }
  unfolding initialize_state_with_generator
  responded_pq x3 signed ck s key e pq =
      ground (arith, key, pq, bytes_beq_iff x3.shared_secret zero_key)

  pub responded :
      (x3 : Outcome) (signed fresh : KeyPair) (middle receiving : Bytes) (s : State)
      → x3.local_ratchet_key ≡ some signed
      → initialize_state_with_generator P x3 false generated next ≡ ok s
      → x3.initial_chain_key ≡ none
      → generated ≡ ok fresh
      → next_root P x3.shared_secret signed x3.initial_message.ephemeral_key
        ≡ ok (middle, receiving)
      → (next_root P middle fresh x3.initial_message.ephemeral_key ≡ ok (s.rk, s.cks))
        × (s ≡ record (initial x3 fresh x3.initial_message.ephemeral_key) {
          ckr = receiving;
          rk = s.rk;
          cks = s.cks;
        })
  unfolding initialize_state_with_generator
  responded x3 signed fresh middle receiving s key e legacy made first =
      let remote : Bytes = x3.initial_message.ephemeral_key in
      elim (Result-cases (next_root P middle fresh remote)) [
        | inl ((root, chain), good) ↦
            let same : s
                ≡ record (initial x3 fresh remote) { ckr = receiving; rk = root; cks = chain } =
              ground
                (arith, key, legacy, made, first, good, bytes_beq_iff x3.shared_secret zero_key) in
            rw same (good, refl)
        | inr (x, bad) ↦ absurd (ground (arith, key, legacy, made, first, bad))
      ]

-- A state that has only seen `remote`.
module _ (x3 : Outcome) (dhs : KeyPair) (remote : Bytes) where
  pub initial-unseen :
      (k : Bytes)
      → k ≢ remote
      → (is_current (initial x3 dhs remote).dhr k ≡ false)
        × (Map.lookup k (initial x3 dhs remote).seen ≡ none)
  unfolding initial is_current Map.lookup
  initial-unseen k other =
      (ground (arith, other, bytes_beq_iff remote k), ground (arith, other, bytes_beq_iff remote k))

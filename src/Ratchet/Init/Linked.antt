-- ===== src/Ratchet/Init/Linked.antt =====
-- The two states of one handshake (ratchet/state.go), related as the ratchet needs them.
use signal.Common.{
  ◌≡◌, ◌≢◌, refl, sym, ap, ◌∙◌, none, some, Bytes, bytes_eq, Result, ok, true, false,
}
use signal.Common.Map
use signal.Crypto.{Primitives, KeyPair}
use signal.Crypto.Laws.{IsAgreement, IsKeyPair}
use signal.X3dh.{Outcome}
use signal.Ratchet.{State}
use signal.Ratchet.Chain.{chain_key}
use signal.Ratchet.Turn.{next_root}
use signal.Ratchet.Init.{initialize_state_with_generator, initial}
use signal.Ratchet.Init.Agreed.{
  IsSameHandshake, new-IsValid, new-Tracks, initiated, initiated_pq, responded_pq, responded,
  initial-unseen,
}
use signal.Ratchet.Receive.{is_current}
use signal.Ratchet.Receive.Valid.{IsValid}
use signal.Ratchet.Delivery.{Tracks}
use signal.Ratchet.Agreement.{IsAhead}
use signal.Ratchet.Agreement.Turning.{next_root_comm}

-- A sending chain that has not moved is at its start.
at-start : (P : Primitives) (s : State) → s.ns ≡ 0 → s.cks ≡ chain_key P s.cks s.ns
unfolding chain_key
at-start P s e = rw e refl

module _ {P : Primitives} (agrees : IsAgreement P) (ephemeral signed : KeyPair) (xa xb : Outcome)
    (same : IsSameHandshake ephemeral signed xa xb) (ephemeral_pair : IsKeyPair P ephemeral)
    (signed_pair : IsKeyPair P signed) (fresh : KeyPair) (fresh_pair : IsKeyPair P fresh)
    (g1 g2 g3 : Result KeyPair) (a b : State) where
  -- When both parties of one handshake without a post-quantum chain key start their ratchets, and the
  -- responder's new key is not its signed prekey: both states have the invariant, the responder tracks the
  -- initiator's sending chain from its start, and the responder is ahead with its new key, on a sending
  -- chain that the initiator can derive.
  pub initialize-legacy :
      initialize_state_with_generator P xa true g1 g2 ≡ ok a
      → initialize_state_with_generator P xb false (ok fresh) g3 ≡ ok b
      → xa.initial_chain_key ≡ none
      → xb.initial_chain_key ≡ none
      → fresh.public_key ≢ signed.public_key
      → (IsValid a × IsValid b)
        × (Tracks P a.cks ephemeral.public_key 0 b × IsAhead P b.cks fresh ephemeral b a)
  initialize-legacy ea eb la lb distinct =
      let (ra, sa) =
        initiated P g1 g2 xa ephemeral signed.public_key a same.remote_ratchet ea la
          same.local_ephemeral in
      let first : next_root P xb.shared_secret signed xb.initial_message.ephemeral_key
          ≡ ok (a.rk, a.cks) =
        ap (λ k. next_root P xb.shared_secret signed k) same.message_key
        ∙ sym (next_root_comm agrees xb.shared_secret ephemeral signed ephemeral_pair signed_pair)
        ∙ ap (λ r. next_root P r ephemeral signed.public_key) (sym same.secret)
        ∙ ra in
      let (rb, sb) =
        responded P (ok fresh) g3 xb signed fresh a.rk a.cks b same.local_ratchet eb lb refl
          first in
      let remote : b.dhr ≡ some ephemeral.public_key =
        ap State.dhr sb ∙ (unfold initial in ap some same.message_key) in
      let (new, unseen) = initial-unseen xa ephemeral signed.public_key fresh.public_key distinct in
      (
        (
          new-IsValid a (rw sa (unfold initial in refl)) (rw sa (unfold initial in refl))
              (rw sa (unfold initial in refl)),
          new-IsValid b (rw sb (unfold initial in refl)) (rw sb (unfold initial in refl))
              (rw sb (unfold initial in refl)),
        ),
        (
          new-Tracks P a.cks ephemeral.public_key b remote (ap State.ckr sb)
              (rw sb (unfold initial in refl)) (rw sb (unfold initial in refl)),
          record {
            own = ap State.dhs sb ∙ (unfold initial in refl);
            peer = ap State.dhs sa ∙ (unfold initial in refl);
            own_pair = fresh_pair;
            peer_pair = ephemeral_pair;
            knows = remote;
            root = ap (next_root P a.rk fresh) (sym same.message_key) ∙ rb;
            chain = at-start P b (rw sb (unfold initial in refl));
            new = ap (λ s. is_current s.dhr fresh.public_key) sa ∙ new;
            unseen = ap (λ s. Map.lookup fresh.public_key s.seen) sa ∙ unseen;
          },
        ),
      )

  -- When both parties of one handshake with a post-quantum chain key start their ratchets, and the
  -- initiator's new key is not its ephemeral key: both states have the invariant, the initiator is ahead
  -- with its new key, on a sending chain that the responder can derive, and the initiator tracks the
  -- responder's sending chain from its start.
  pub initialize-pq :
      (chain : Bytes)
      → initialize_state_with_generator P xa true (ok fresh) g1 ≡ ok a
      → initialize_state_with_generator P xb false g2 g3 ≡ ok b
      → xa.initial_chain_key ≡ some chain
      → xb.initial_chain_key ≡ some chain
      → fresh.public_key ≢ ephemeral.public_key
      → (IsValid a × IsValid b)
        × (IsAhead P a.cks fresh signed a b × Tracks P b.cks signed.public_key 0 a)
  initialize-pq chain ea eb la lb distinct =
      let (ra, sa) =
        initiated_pq P (ok fresh) g1 xa fresh signed.public_key chain a same.remote_ratchet ea la
          refl in
      let sb = responded_pq P g2 g3 xb signed chain b same.local_ratchet eb lb in
      let secret : xa.shared_secret ≡ b.rk =
        same.secret ∙ sym (ap State.rk sb ∙ (unfold initial in refl)) in
      let remote : b.dhr ≡ some ephemeral.public_key =
        ap State.dhr sb ∙ (unfold initial in ap some same.message_key) in
      let message_key : xb.initial_message.ephemeral_key ≡ ephemeral.public_key =
        same.message_key in
      let (new, unseen) = initial-unseen xb signed ephemeral.public_key fresh.public_key distinct in
      (
        (
          new-IsValid a (rw sa (unfold initial in refl)) (rw sa (unfold initial in refl))
              (rw sa (unfold initial in refl)),
          new-IsValid b (rw sb (unfold initial in refl)) (rw sb (unfold initial in refl))
              (rw sb (unfold initial in refl)),
        ),
        (
          record {
            own = ap State.dhs sa ∙ (unfold initial in refl);
            peer = ap State.dhs sb ∙ (unfold initial in refl);
            own_pair = fresh_pair;
            peer_pair = signed_pair;
            knows = ap State.dhr sa ∙ (unfold initial in refl);
            root = ap (λ r. next_root P r fresh signed.public_key) (sym secret) ∙ ra;
            chain = at-start P a (rw sa (unfold initial in refl));
            new =
                ap (λ s. is_current s.dhr fresh.public_key) sb
                ∙ ap (λ r. is_current (initial xb signed r).dhr fresh.public_key) message_key
                ∙ new;
            unseen =
                ap (λ s. Map.lookup fresh.public_key s.seen) sb
                ∙ ap (λ r. Map.lookup fresh.public_key (initial xb signed r).seen) message_key
                ∙ unseen;
          },
          new-Tracks P b.cks signed.public_key a (ap State.dhr sa ∙ (unfold initial in refl))
              (ap State.ckr sa ∙ sym (ap State.cks sb)) (rw sa (unfold initial in refl))
              (rw sa (unfold initial in refl)),
        ),
      )

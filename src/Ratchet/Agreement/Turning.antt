-- ===== src/Ratchet/Agreement/Turning.antt =====
-- The peer follows a turn when the first message of the new chain arrives.
use signal.Common.{
  ℕ, ◌-◌, ◌≡◌, refl, sym, ◌∙◌, Option, none, some, Bytes, bytes_eq, ok, arith, Option-cases, inl,
  inr, bytes_beq, bytes_beq_iff, false, [],
}
use signal.Common.Map
use signal.Crypto.{Primitives, KeyPair, generate_key_pair}
use signal.Crypto.Laws.{IsAgreement, IsKeyPair, dh_comm, generate_key_pair-IsKeyPair}
use signal.Ratchet.{State, Header, SkippedKey, skipped_key_eq}
use signal.Ratchet.Chain.{chain_key}
use signal.Ratchet.Skip.{skip_message_keys}
use signal.Ratchet.Skip.Stored.{stored, skip_loop-stores, others-stored}
use signal.Ratchet.Turn.{next_root, dh_ratchet}
use signal.Ratchet.Turn.Facts.{turned, dh_ratchet-succeeds}
use signal.Ratchet.Receive.{turn_if_new, is_current}
use signal.Ratchet.Receive.Valid.{IsValid, skip-IsValid, skip-dhr}
use signal.Ratchet.Delivery.{Tracks}
use signal.Ratchet.Agreement.{IsAhead, CanFinish}

module _ {P : Primitives} (agrees : IsAgreement P) where
  pub next_root_comm :
      (root : Bytes) (ka kb : KeyPair)
      → IsKeyPair P ka
      → IsKeyPair P kb
      → next_root P root ka kb.public_key ≡ next_root P root kb ka.public_key
  unfolding next_root
  next_root_comm root ka kb ha hb = rw (dh_comm agrees ka kb ha hb) refl

-- What is left of the stored keys after a turn to a key that was not current: nothing.
turned-empty :
    (theirs : Bytes) (u : State)
    → IsValid u
    → is_current u.dhr theirs ≡ false
    → Map.retain (λ k. bytes_beq k.public_key theirs) u.skipped ≡ []
unfolding is_current
turned-empty theirs u v other = Map.eq_empty _ λ k. elim (Option-cases (Map.lookup k u.skipped)) [
  | inl missing ↦ rw Map.lookup-retain (ground (arith, missing))
  | inr (mk, found) ↦
      rw Map.lookup-retain
        (ground (arith, v.own k mk found, other, bytes_beq_iff k.public_key theirs))
]

module _ {P : Primitives} (agrees : IsAgreement P) (start : Bytes) (ka kb : KeyPair)
    (a b : State) where
  -- What the peer's side of the turn gives: its receiving chain is the chain of `a`, nothing is stored,
  -- and with its new key it is ahead of `a` in turn.
  pub record Followed (h : Header) (entropy : Option Bytes) (fresh : KeyPair) : Type 0 where
    pub after : State
    pub turned : turn_if_new P entropy h b ≡ (ok tt, after)
    pub tracks : Tracks P start ka.public_key 0 after
    pub empty : after.skipped ≡ []
    pub at_start : after.nr ≡ 0
    pub reply : IsAhead P after.cks fresh ka after a

  pub follow :
      (h : Header) (entropy : Option Bytes) (fresh : KeyPair) (root out : Bytes)
      → IsAhead P start ka kb a b
      → IsValid b
      → CanFinish h.pn b
      → h.dh ≡ ka.public_key
      → generate_key_pair P entropy ≡ ok fresh
      → next_root P a.rk fresh ka.public_key ≡ ok (root, out)
      → is_current a.dhr fresh.public_key ≡ false
      → Map.lookup fresh.public_key a.seen ≡ none
      → Followed h entropy fresh
  unfolding turn_if_new skip_message_keys
  follow h entropy fresh root out ahead v finish to_new made sent new unseen = record {
    after = turned P entropy ka.public_key u fresh start (root, out);
    turned = ground (arith, to_new, ahead.new, skips, turns);
    tracks = record {
      current = refl;
      chain = unfold chain_key in refl;
      holds = λ n mk found. absurd (none_stored n mk found);
      window = rw nothing (omega arith);
    };
    empty = nothing;
    at_start = refl;
    reply = record {
      own = refl;
      peer = ahead.own;
      own_pair = generate_key_pair-IsKeyPair P entropy fresh made;
      peer_pair = ahead.own_pair;
      knows = refl;
      root = sent;
      chain = unfold chain_key in refl;
      new = new;
      unseen = unseen;
    };
  }
    where
      u : State
      u = stored P (h.pn - b.nr) finish.last b

      skips : skip_message_keys P h.pn b ≡ (ok tt, u)
      skips =
          skip_loop-stores P (h.pn - b.nr) finish.last h.pn b finish.small finish.remote
            (omega (arith, finish.behind)) finish.room

      nothing : Map.retain (λ k. bytes_beq k.public_key ka.public_key) u.skipped ≡ []
      nothing =
          turned-empty ka.public_key u (skip-IsValid P h.pn b u finish.small v skips)
            (rw (skip-dhr P h.pn b u finish.small skips) ahead.new)

      none_stored :
          (n : ℕ) (mk : Bytes)
          → Map.lookup
              (record { public_key = ka.public_key; n = n })
              (Map.retain (λ k. bytes_beq k.public_key ka.public_key) u.skipped)
            ≡ some mk
          → ⊥
      none_stored n mk found =
          let k : SkippedKey = record { public_key = ka.public_key; n = n } in
          cc (rw nothing at found, Map.lookup-empty {V = Bytes} k)

      received : next_root P u.rk kb ka.public_key ≡ ok (a.rk, start)
      received =
          rw (others-stored P (h.pn - b.nr) finish.last b).1
            (sym (next_root_comm agrees b.rk ka kb ahead.own_pair ahead.peer_pair) ∙ ahead.root)

      turns :
          dh_ratchet P entropy ka.public_key u
          ≡ (ok tt, turned P entropy ka.public_key u fresh start (root, out))
      turns =
          dh_ratchet-succeeds P entropy ka.public_key u kb fresh a.rk start (root, out)
            ((others-stored P (h.pn - b.nr) finish.last b).0 ∙ ahead.peer) received made sent

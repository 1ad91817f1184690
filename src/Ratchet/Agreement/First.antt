-- ===== src/Ratchet/Agreement/First.antt =====
-- The first message of a new chain: `Decrypt` turns the ratchet, skips what was lost, and opens it.
use signal.Common.{
  ℕ, ◌-◌, ◌≤◌, ◌≡◌, refl, sym, ap, ◌∙◌, Option, none, some, Bytes, bytes_eq, ok, arith,
  Option-cases, inl, inr, bytes_beq_iff, false,
}
use signal.Common.Map
use signal.Crypto.{Primitives, KeyPair, generate_key_pair}
use signal.Crypto.Laws.{IsAgreement}
use signal.Ratchet.{State, Header, Message, skipped_key_eq}
use signal.Ratchet.Chain.{message_key}
use signal.Ratchet.Skip.{skipped_key_for_header}
use signal.Ratchet.Skip.Stored.{others-stored, sending-stored, dhr-stored}
use signal.Ratchet.Turn.{next_root}
use signal.Ratchet.Receive.{
  decrypt, decrypt_with_message_key, advance, reject_old, turn_if_new, is_current,
}
use signal.Ratchet.Receive.Valid.{IsValid}
use signal.Ratchet.Delivery.{Tracks, IsGenuine, InReach, past, advance-Tracks}
use signal.Ratchet.Delivery.Order.{past-Tracks}
use signal.Ratchet.Agreement.{IsAhead, CanFinish}
use signal.Ratchet.Agreement.Turning.{follow}

module _ (P : Primitives) (entropy : Option Bytes) (h : Header) where
  -- A state that is current for the header passes the tests and the turn unchanged.
  settled :
      (u : State)
      → u.dhr ≡ some h.dh
      → u.nr ≤ h.n
      → (reject_old P h u ≡ (ok tt, u)) × (turn_if_new P entropy h u ≡ (ok tt, u))
  unfolding reject_old turn_if_new is_current
  settled u current ahead = (
    ground (arith, current, bytes_beq_iff h.dh h.dh),
    ground (arith, current, bytes_beq_iff h.dh h.dh),
  )

  -- With a new key, advancing is turning and then advancing.
  advance-turned :
      (b u : State)
      → is_current b.dhr h.dh ≡ false
      → Map.lookup h.dh b.seen ≡ none
      → turn_if_new P entropy h b ≡ (ok tt, u)
      → u.dhr ≡ some h.dh
      → u.nr ≤ h.n
      → advance P entropy h b ≡ advance P entropy h u
  unfolding advance
  advance-turned b u new unseen turn current ahead =
      ground (arith, fresh_key, turn, settled u current ahead)
    where
      fresh_key : reject_old P h b ≡ (ok tt, b)
      fresh_key = unfold reject_old in ground (arith, new, unseen)

  unstored-new :
      (b : State)
      → IsValid b
      → is_current b.dhr h.dh ≡ false
      → Map.lookup (skipped_key_for_header h) b.skipped ≡ none
  unfolding skipped_key_for_header is_current
  unstored-new b v new = elim (Option-cases (Map.lookup (skipped_key_for_header h) b.skipped)) [
    | inl missing ↦ missing
    | inr (mk, found) ↦
        absurd
          (ground (arith, v.own (skipped_key_for_header h) mk found, new, bytes_beq_iff h.dh h.dh))
  ]

  decrypt-unstored :
      (msg : Message) (ad text mk : Bytes) (b t : State)
      → msg.header ≡ h
      → Map.lookup (skipped_key_for_header h) b.skipped ≡ none
      → advance P entropy h b ≡ (ok mk, t)
      → decrypt_with_message_key P mk msg ad ≡ ok text
      → decrypt P entropy msg ad b ≡ (ok text, t)
  unfolding decrypt
  decrypt-unstored msg ad text mk b t same unstored adv opens =
      rw same (ground (arith, unstored, adv, opens))

-- Receiving from the turned state does not touch what its owner sends with.
reply-past :
    (P : Primitives) (start d start' : Bytes) (n : ℕ) (ka fresh : KeyPair) (u a : State)
    → IsAhead P start' fresh ka u a
    → IsAhead P start' fresh ka (past P start d 0 n u) a
reply-past P start d start' n ka fresh u a r =
    let (dhs, rk, seen) = others-stored P (n - u.nr) d u in
    let (cks, ns) = sending-stored P (n - u.nr) d u in
    record {
      own = dhs ∙ r.own;
      peer = r.peer;
      own_pair = r.own_pair;
      peer_pair = r.peer_pair;
      knows = dhr-stored P (n - u.nr) d u ∙ r.knows;
      root = rw rk r.root;
      chain = rw (cks, ns) r.chain;
      new = r.new;
      unseen = r.unseen;
    }

-- A party that turned (`a`) sends to a peer (`b`) that does not know the new key, whose state has the
-- invariant and room for what it missed of the previous chain. When the peer's key generation and its
-- own key agreement succeed with a key that `a` has not seen, the peer decrypts any one genuine message
-- of the new chain within reach to its text. It then tracks the new chain from its start, and has itself turned: it is ahead of `a`
-- with a new key whose chain `a` can derive.
pub first_of_chain :
    (P : Primitives) (agrees : IsAgreement P) (start : Bytes) (ka kb fresh : KeyPair) (a b : State)
    (entropy : Option Bytes) (msg : Message) (n : ℕ) (text ad root out : Bytes)
    → IsAhead P start ka kb a b
    → IsValid b
    → CanFinish msg.header.pn b
    → IsGenuine P start ka.public_key n text ad msg
    → InReach P start 0 n
    → generate_key_pair P entropy ≡ ok fresh
    → next_root P a.rk fresh ka.public_key ≡ ok (root, out)
    → is_current a.dhr fresh.public_key ≡ false
    → Map.lookup fresh.public_key a.seen ≡ none
    → (t : State) × (decrypt P entropy msg ad b ≡ (ok text, t))
      × Tracks P start ka.public_key 0 t
      × ((start' : Bytes) × IsAhead P start' fresh ka t a)
first_of_chain P agrees start ka kb fresh a b entropy msg n text ad root out ahead v finish genuine
      reach made sent new unseen =
    let f =
      follow agrees start ka kb a b msg.header entropy fresh root out ahead v finish genuine.dh made
        sent new unseen in
    let u : State = f.after in
    let t : State = past P start ka.public_key 0 n u in
    let at_start : u.nr ≤ n = omega (arith, f.at_start) in
    let header_ahead : u.nr ≤ msg.header.n = omega (arith, f.at_start, genuine.number) in
    let header_new : is_current b.dhr msg.header.dh ≡ false = rw genuine.dh ahead.new in
    let current : u.dhr ≡ some msg.header.dh = f.tracks.current ∙ ap some (sym genuine.dh) in
    let step =
      advance-turned P entropy msg.header b u header_new (rw genuine.dh ahead.unseen) f.turned
        current header_ahead
      ∙ advance-Tracks P start ka.public_key 0 n u f.tracks reach entropy msg.header genuine.dh
          genuine.number at_start in
    (
      t,
      decrypt-unstored P entropy msg.header msg ad text (message_key P start n) b t refl
          (unstored-new P entropy msg.header b v header_new) step genuine.opens,
      past-Tracks P start ka.public_key 0 n u f.tracks reach at_start,
      (u.cks, reply-past P start ka.public_key u.cks n ka fresh u a f.reply),
    )

-- ===== src/Ratchet/Receive/Persistence/Dropped.antt =====
-- A turn of the ratchet in `Decrypt` and the chain before it (ratchet/message.go, ratchet/dh_ratchet.go).
use signal.Common.{
  ◌≡◌, ◌≢◌, ◌∙◌, Option, some, Bytes, bytes_eq, ok, err, duplicate_message, arith, inl, inr,
  bytes_beq_iff, false, List, All,
}
use signal.Common.Map
use signal.Common.Words.{IsU32}
use signal.Common.Exec.{bind-ok}
use signal.Crypto.{Primitives}
use signal.Ratchet.{State, Header, Message, skipped_key_eq}
use signal.Ratchet.Skip.{skipped_key_for_header, skip_message_keys}
use signal.Ratchet.Chain.{kdf_chain}
use signal.Ratchet.Turn.{dh_ratchet, mark_seen}
use signal.Ratchet.Turn.Facts.{TurnedTo, dh_ratchet-ok}
use signal.Ratchet.Receive.{decrypt, turn_if_new, is_current}
use signal.Ratchet.Receive.Valid.{IsValid, advance-ok, skip-dhr}
use signal.Ratchet.Receive.Outcome.{decrypt-ok}
use signal.Ratchet.Receive.Replay.{IsHeader, IsSpent, decrypt-IsSpent, decrypt-spends}
use signal.Ratchet.History.{Call, IsCall, run, run-IsSpent}
use signal.Ratchet.Receive.Persistence.{remembered-mark, marked, skip-IsSpent, stepped-IsSpent}

module _ (P : Primitives) (h : Header) where
  turn-forgets :
      (entropy : Option Bytes) (theirs : Bytes) (u t : State)
      → u.dhr ≡ some h.dh
      → theirs ≢ h.dh
      → TurnedTo P entropy theirs u t
      → IsSpent h t
  unfolding skipped_key_for_header
  turn-forgets entropy theirs u t current other turn = record {
    unstored = rw (turn.kept, Map.lookup-retain) (ground (arith, other, bytes_beq_iff h.dh theirs));
    gone = inr (record {
      dhr = theirs;
      current = turn.dhr;
      other = other;
      remembered = rw turn.marked (
          remembered-mark (some theirs) h.dh (mark_seen u.dhr u.seen)
            (rw current (marked h.dh u.seen)));
    });
  }

  turn_if_new-forgets :
      (entropy : Option Bytes) (m : Header) (s t : State)
      → IsU32 m.pn
      → s.dhr ≡ some h.dh
      → m.dh ≢ h.dh
      → turn_if_new P entropy m s ≡ (ok tt, t)
      → IsSpent h t
  unfolding turn_if_new is_current
  turn_if_new-forgets entropy m s t small current other e =
      let new : is_current s.dhr m.dh ≡ false =
        ground (arith, current, other, bytes_beq_iff h.dh m.dh) in
      let (_, u, skipped, turned) =
        bind-ok (skip_message_keys P m.pn) (λ _. dh_ratchet P entropy m.dh) s {b = tt} {t = t}
          (rw (← e) (ground (arith, new))) in
      turn-forgets entropy m.dh u t (skip-dhr P m.pn s u small skipped ∙ current) other
        (dh_ratchet-ok P entropy m.dh u t turned)

-- After a message with a new ratchet key is decrypted from a state with the invariant, and after any further
-- sequence of `encrypt` and `decrypt` calls on messages with uint32 header counters, every message of the ratchet key
-- that was current before the turn, decrypted already or not, is refused as a duplicate, and the state is kept.
pub previous_chain_refused :
    (P : Primitives) (s t : State) (entropy entropy' : Option Bytes) (msg old : Message)
    (ad ad' text : Bytes) (calls : List Call)
    → IsValid s
    → IsHeader msg.header
    → All IsCall calls
    → s.dhr ≡ some old.header.dh
    → msg.header.dh ≢ old.header.dh
    → decrypt P entropy msg ad s ≡ (ok text, t)
    → decrypt P entropy' old ad' (run P calls t) ≡ (err duplicate_message, run P calls t)
unfolding skipped_key_for_header
previous_chain_refused P s t entropy entropy' msg old ad ad' text calls v (small_n, small_pn) hs
      current other e =
    let spent : IsSpent old.header t = elim (decrypt-ok P entropy msg ad s t text e) [
      | inl stored ↦ absurd (
          ground (
            arith,
            v.own (skipped_key_for_header msg.header) stored.mk stored.found,
            current,
            other,
          ))
      | inr chain ↦
          let (u, w, _, turn, skip, ready, n, after, small) =
            advance-ok P entropy msg.header s t chain.mk small_n small_pn v chain.unstored
              chain.advanced in
          let spent_u =
            turn_if_new-forgets P old.header entropy msg.header s u small_pn current other turn in
          let (spent_w, _) = skip-IsSpent P old.header msg.header.n u w small_n spent_u skip in
          rw after (stepped-IsSpent P old.header w (kdf_chain P w.ckr).0 msg.header.n n spent_w)
    ] in
    let (v', _) = decrypt-spends P entropy msg ad s t text (small_n, small_pn) v e in
    decrypt-IsSpent P entropy' old ad' (run P calls t)
      (run-IsSpent P old.header calls t hs v' spent)

-- ===== src/Ratchet/Receive/Persistence.antt =====
-- What is spent stays spent: each step of `Decrypt` and `Encrypt` keeps `IsSpent`.
pub mod Dropped
use signal.Common.{
  ℕ, ◌+◌, ◌≤◌, ◌<◌, ◌≡◌, ◌≢◌, refl, Option, none, some, Bytes, bytes_eq, ok, err, arith,
  Option-cases, inl, inr, ◌⊎◌, bytes_beq, bytes_beq_iff, Bool-cases, length, true, false, sym,
}
use signal.Common.Map
use signal.Common.Map.{Map}
use signal.Common.Words.{IsU32, max_uint32}
use signal.Common.Exec.{bind-ok}
use signal.Crypto.{Primitives}
use signal.Ratchet.{
  State, Header, Message, SkippedKey, skipped_key_eq, skipped_key_beq_iff, max_skip,
}
use signal.Ratchet.Chain.{kdf_chain}
use signal.Ratchet.Skip.{skipped_key_for_header, skip_message_keys}
use signal.Ratchet.Skip.Rounds.{with_stored, skip_message_keys-keeps}
use signal.Ratchet.Turn.{dh_ratchet, mark_seen}
use signal.Ratchet.Turn.Facts.{TurnedTo, dh_ratchet-ok}
use signal.Ratchet.Receive.{decrypt, advance, reject_old, turn_if_new, is_current}
use signal.Ratchet.Receive.Valid.{IsValid, IsReadyFor, advance-ok, is_current-eq}
use signal.Ratchet.Receive.Outcome.{FromStored, FromChain, decrypt-ok}
use signal.Ratchet.Receive.Replay.{IsHeader, IsPassed, IsSpent}

remembered-mark :
    (o : Option Bytes) (k : Bytes) (seen : Map Bytes (Unit {0}))
    → Map.lookup k seen ≡ some tt
    → Map.lookup k (mark_seen o seen) ≡ some tt
unfolding mark_seen
remembered-mark none k seen h = h
remembered-mark (some d) k seen h = ground (arith, Map.lookup-insert d k tt seen)

marked :
    (k : Bytes) (seen : Map Bytes (Unit {0})) → Map.lookup k (mark_seen (some k) seen) ≡ some tt
unfolding mark_seen
marked k seen = ground (arith, Map.lookup-insert k k tt seen, bytes_beq_iff k k)

module _ (P : Primitives) (h : Header) where
  with_stored-IsSpent :
      (u : State) (d : Bytes) → u.dhr ≡ some d → IsSpent h u → IsSpent h (with_stored P d u)
  unfolding skipped_key_for_header
  with_stored-IsSpent u d set spent =
      let key : SkippedKey = record { public_key = d; n = u.nr } in
      elim spent.gone [
        | inl (current, behind) ↦ record {
          unstored = ground (
            arith,
            Map.lookup-insert key (skipped_key_for_header h) (kdf_chain P u.ckr).1 u.skipped,
            spent.unstored,
          );
          gone = inl (current, omega arith);
        }
        | inr passed ↦ record {
          unstored = ground (
            arith,
            Map.lookup-insert key (skipped_key_for_header h) (kdf_chain P u.ckr).1 u.skipped,
            bytes_beq_iff d h.dh,
            passed.current,
            passed.other,
            spent.unstored,
          );
          gone = inr (record {
            dhr = passed.dhr;
            current = passed.current;
            other = passed.other;
            remembered = passed.remembered;
          });
        }
      ]

  -- Skipping keeps the remote key too.
  skip-IsSpent :
      (until : ℕ) (s t : State)
      → IsU32 until
      → IsSpent h s
      → skip_message_keys P until s ≡ (ok tt, t)
      → IsSpent h t × (t.dhr ≡ s.dhr)
  skip-IsSpent until s t small spent e =
      (skip_message_keys-keeps P (λ u. IsSpent h u × (u.dhr ≡ s.dhr)) until s t small
        (λ u d set _ _ q. (with_stored-IsSpent u d set q.0, q.1)) (spent, refl) e).0

  -- A turn goes to a key that is neither current nor remembered, so not to that of a spent header.
  turned-ne :
      (m : Header) (s : State)
      → IsSpent h s
      → is_current s.dhr m.dh ≡ false
      → reject_old P m s ≡ (ok tt, s)
      → m.dh ≢ h.dh
  unfolding reject_old is_current
  turned-ne m s spent other old same = elim spent.gone [
    | inl (current, behind) ↦ ground (arith, current, same, bytes_beq_iff h.dh m.dh)
    | inr passed ↦ ground (arith, passed.current, passed.remembered, same, other)
  ]

  turned-IsSpent :
      (entropy : Option Bytes) (theirs : Bytes) (u t : State)
      → IsSpent h u
      → theirs ≢ h.dh
      → TurnedTo P entropy theirs u t
      → IsSpent h t
  turned-IsSpent entropy theirs u t spent other turn = record {
    unstored = rw (turn.kept, Map.lookup-retain) (ground (arith, spent.unstored));
    gone = inr (record {
      dhr = theirs;
      current = turn.dhr;
      other = other;
      remembered = rw turn.marked (
          remembered-mark (some theirs) h.dh (mark_seen u.dhr u.seen) (elim spent.gone [
            | inl (current, behind) ↦ rw current (marked h.dh u.seen)
            | inr passed ↦ remembered-mark u.dhr h.dh u.seen passed.remembered
          ]));
    });
  }

  turn_if_new-IsSpent :
      (entropy : Option Bytes) (m : Header) (s t : State)
      → IsU32 m.pn
      → IsSpent h s
      → reject_old P m s ≡ (ok tt, s)
      → turn_if_new P entropy m s ≡ (ok tt, t)
      → IsSpent h t
  unfolding turn_if_new
  turn_if_new-IsSpent entropy m s t small spent old e = elim (Bool-cases (is_current s.dhr m.dh)) [
    | inl same ↦ let e' : s ≡ t = ground (arith, same) in rw (← e') spent
    | inr other ↦
        let (_, u, skipped, turned) =
          bind-ok (skip_message_keys P m.pn) (λ _. dh_ratchet P entropy m.dh) s {b = tt} {t = t}
            (rw (← e) (ground (arith, other))) in
        turned-IsSpent entropy m.dh u t (skip-IsSpent m.pn s u small spent skipped).0
          (turned-ne m s spent other old) (dh_ratchet-ok P entropy m.dh u t turned)
  ]

  -- The step over the message itself moves the counter up.
  stepped-IsSpent :
      (v : State) (ck : Bytes) (n : ℕ)
      → v.nr ≡ n
      → IsSpent h v
      → IsSpent h (record v { ckr = ck; nr = n + 1 })
  stepped-IsSpent v ck n same spent = record {
    unstored = spent.unstored;
    gone = elim spent.gone [
      | inl (current, behind) ↦ inl (current, omega arith)
      | inr passed ↦ inr (record {
        dhr = passed.dhr;
        current = passed.current;
        other = passed.other;
        remembered = passed.remembered;
      })
    ];
  }

  without-IsSpent :
      (k : SkippedKey) (s : State)
      → IsSpent h s
      → IsSpent h (record s { skipped = Map.delete k s.skipped })
  without-IsSpent k s spent = record {
    unstored =
        ground (arith, Map.lookup-delete k (skipped_key_for_header h) s.skipped, spent.unstored);
    gone = elim spent.gone [
      | inl g ↦ inl g
      | inr passed ↦ inr (record {
        dhr = passed.dhr;
        current = passed.current;
        other = passed.other;
        remembered = passed.remembered;
      })
    ];
  }

  -- Decrypting any other message leaves a spent one spent.
  pub decrypt-keeps-IsSpent :
      (entropy : Option Bytes) (msg : Message) (ad : Bytes) (s t : State) (plaintext : Bytes)
      → IsHeader msg.header
      → IsValid s
      → IsSpent h s
      → decrypt P entropy msg ad s ≡ (ok plaintext, t)
      → IsSpent h t
  decrypt-keeps-IsSpent entropy msg ad s t plaintext (small_n, small_pn) v spent e =
      elim (decrypt-ok P entropy msg ad s t plaintext e) [
        | inl stored ↦ rw stored.after (without-IsSpent (skipped_key_for_header msg.header) s spent)
        | inr chain ↦
            let (u, w, old, turn, skip, ready, n, after, small) =
              advance-ok P entropy msg.header s t chain.mk small_n small_pn v chain.unstored
                chain.advanced in
            let spent_u : IsSpent h u =
              turn_if_new-IsSpent entropy msg.header s u small_pn spent old turn in
            let (spent_w, _) = skip-IsSpent msg.header.n u w small_n spent_u skip in
            rw after (stepped-IsSpent w (kdf_chain P w.ckr).0 msg.header.n n spent_w)
      ]

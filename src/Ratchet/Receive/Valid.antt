-- ===== src/Ratchet/Receive/Valid.antt =====
-- The invariant of a ratchet state, and that receiving keeps it.

use signal.Common.{
  ℕ, ◌+◌, ◌≢◌, ◌≤◌, ◌<◌, ◌≡◌, refl, Option, none, some, Bytes, bytes_eq, ok, arith, bytes_beq,
  bytes_beq_iff, Option-cases, inl, inr, true, false, length, Bool-cases,
}
use signal.Common.Map
use signal.Common.Words.{IsU32, max_uint32, inc32}
use signal.Common.Exec.{bind-ok}
use signal.Crypto.{Primitives}
use signal.Ratchet.{State, Header, SkippedKey, skipped_key_eq, skipped_key_beq_iff, max_skip}
use signal.Ratchet.Chain.{kdf_chain}
use signal.Ratchet.Skip.{skip_message_keys, skipped_key_for_header}
use signal.Ratchet.Skip.Rounds.{with_stored, skip_message_keys-keeps}
use signal.Ratchet.Turn.{dh_ratchet}
use signal.Ratchet.Turn.Facts.{TurnedTo, dh_ratchet-ok}
use signal.Ratchet.Receive.{is_current, reject_old, turn_if_new, receiving_key, advance}

-- Stored keys belong to the current remote key and to messages before the next one, there are at most
-- `max_skip` of them, and the counters are uint32.
pub record IsValid (s : State) : Type 0 where
  pub own :
      (k : SkippedKey) (mk : Bytes)
      → Map.lookup k s.skipped ≡ some mk
      → (s.dhr ≡ some k.public_key) × (k.n < s.nr)
  pub room : length s.skipped ≤ max_skip
  pub small_nr : IsU32 s.nr
  pub small_ns : IsU32 s.ns

-- The state is ready for the message of the header: it is of the current chain, and not seen.
pub record IsReadyFor (h : Header) (s : State) : Type 0 where
  pub valid : IsValid s
  pub current : s.dhr ≡ some h.dh
  pub ahead : s.nr ≤ h.n
  pub unstored : Map.lookup (skipped_key_for_header h) s.skipped ≡ none

pub is_current-eq : (o : Option Bytes) (k : Bytes) → is_current o k ≡ true → o ≡ some k
unfolding is_current
is_current-eq none k e = cc
is_current-eq (some d) k e = ground (arith, bytes_beq_iff d k)

module _ (P : Primitives) where
  with_stored-IsValid :
      (s : State) (d : Bytes)
      → s.dhr ≡ some d
      → s.nr < max_uint32
      → length s.skipped < max_skip
      → IsValid s
      → IsValid (with_stored P d s)
  with_stored-IsValid s d set small below v =
      let key : SkippedKey = record { public_key = d; n = s.nr } in
      let mk : Bytes = (kdf_chain P s.ckr).1 in
      record {
        own = λ k m found.
            ground
              (arith, Map.lookup-insert key k mk s.skipped, skipped_key_beq_iff key k, v.own k m);
        room = omega (arith, Map.length-insert-le key mk s.skipped);
        small_nr = omega arith;
        small_ns = v.small_ns;
      }

  pub skip-IsValid :
      (until : ℕ) (s t : State)
      → IsU32 until
      → IsValid s
      → skip_message_keys P until s ≡ (ok tt, t)
      → IsValid t
  skip-IsValid until s t small v e =
      (skip_message_keys-keeps P IsValid until s t small
        (λ u d set below room w. with_stored-IsValid u d set (omega arith) room w) v e).0

  -- Skipping up to a message leaves the state ready for it, just before it.
  skip-IsReadyFor :
      (h : Header) (s t : State)
      → IsU32 h.n
      → IsReadyFor h s
      → skip_message_keys P h.n s ≡ (ok tt, t)
      → IsReadyFor h t × (t.nr ≡ h.n)
  unfolding skipped_key_for_header
  skip-IsReadyFor h s t small ready e =
      let (ready', n) = skip_message_keys-keeps P (IsReadyFor h) h.n s t small step ready e in
      (ready', omega (arith, ready.ahead))
    where
      step :
          (u : State) (d : Bytes)
          → u.dhr ≡ some d
          → u.nr < h.n
          → length u.skipped < max_skip
          → IsReadyFor h u
          → IsReadyFor h (with_stored P d u)
      step u d set below room r =
          let key : SkippedKey = record { public_key = d; n = u.nr } in
          record {
            valid = with_stored-IsValid u d set (omega arith) room r.valid;
            current = r.current;
            ahead = omega arith;
            unstored = ground (
              arith,
              Map.lookup-insert key (skipped_key_for_header h) (kdf_chain P u.ckr).1 u.skipped,
              skipped_key_beq_iff key (skipped_key_for_header h),
              r.unstored,
            );
          }

  reject_old-ok :
      (h : Header) (s t : State)
      → reject_old P h s ≡ (ok tt, t)
      → (t ≡ s) × (is_current s.dhr h.dh ≡ true → s.nr ≤ h.n)
  unfolding reject_old is_current
  reject_old-ok h s t e = (ground arith, λ c. ground arith)

  pub skip-dhr :
      (until : ℕ) (s t : State)
      → IsU32 until
      → skip_message_keys P until s ≡ (ok tt, t)
      → t.dhr ≡ s.dhr
  skip-dhr until s t small e =
      (skip_message_keys-keeps P (λ u. u.dhr ≡ s.dhr) until s t small (λ u d _ _ _ same. same) refl
        e).0

  -- After a turn to a key that is not the current one, nothing stored is left.
  turned-IsReadyFor :
      (entropy : Option Bytes) (h : Header) (u t : State)
      → IsValid u
      → is_current u.dhr h.dh ≡ false
      → TurnedTo P entropy h.dh u t
      → IsReadyFor h t
  unfolding is_current
  turned-IsReadyFor entropy h u t v other turn = record {
    valid = record {
      own = λ k mk found. ground (arith, empty k, found);
      room = rw turn.kept (
          omega (arith, Map.length-retain-le (λ k. bytes_beq k.public_key h.dh) u.skipped, v.room));
      small_nr = rw turn.nr (omega arith);
      small_ns = rw turn.ns (omega arith);
    };
    current = turn.dhr;
    ahead = rw turn.nr (omega arith);
    unstored = empty (skipped_key_for_header h);
  }
    where
      empty : (k : SkippedKey) → Map.lookup k t.skipped ≡ none
      empty k = elim (Option-cases (Map.lookup k u.skipped)) [
        | inl missing ↦ rw (turn.kept, Map.lookup-retain) (ground (arith, missing))
        | inr (mk, found) ↦
            rw (turn.kept, Map.lookup-retain)
              (ground (arith, v.own k mk found, other, bytes_beq_iff k.public_key h.dh))
      ]

  turn_if_new-ok :
      (entropy : Option Bytes) (h : Header) (s t : State)
      → IsU32 h.pn
      → IsValid s
      → Map.lookup (skipped_key_for_header h) s.skipped ≡ none
      → (is_current s.dhr h.dh ≡ true → s.nr ≤ h.n)
      → turn_if_new P entropy h s ≡ (ok tt, t)
      → IsReadyFor h t
  unfolding turn_if_new
  turn_if_new-ok entropy h s t small v unstored ahead e =
      elim (Bool-cases (is_current s.dhr h.dh)) [
        | inl same ↦
            let e' : s ≡ t = ground (arith, same) in
            rw (← e') (record {
              valid = v;
              current = is_current-eq s.dhr h.dh same;
              ahead = ahead same;
              unstored = unstored;
            })
        | inr other ↦
            let (_, u, skipped, turned) =
              bind-ok (skip_message_keys P h.pn) (λ _. dh_ratchet P entropy h.dh) s {b = tt} {t = t}
                (rw (← e) (ground (arith, other))) in
            turned-IsReadyFor entropy h u t (skip-IsValid h.pn s u small v skipped)
              (rw (skip-dhr h.pn s u small skipped) other) (dh_ratchet-ok P entropy h.dh u t turned)
      ]

  receiving_key-ok :
      (s t : State) (mk : Bytes)
      → receiving_key P s ≡ (ok mk, t)
      → (s.nr ≢ max_uint32) × (t ≡ record s { ckr = (kdf_chain P s.ckr).0; nr = inc32 s.nr })
  unfolding receiving_key
  receiving_key-ok s t mk e = (ground arith, ground arith)

  -- What `advance` goes through when it succeeds: a state that is ready for the header, the same after
  -- skipping, and the step over the message itself.
  pub advance-ok :
      (entropy : Option Bytes) (h : Header) (s t : State) (mk : Bytes)
      → IsU32 h.n
      → IsU32 h.pn
      → IsValid s
      → Map.lookup (skipped_key_for_header h) s.skipped ≡ none
      → advance P entropy h s ≡ (ok mk, t)
      → (u : State) × (v : State) × (reject_old P h s ≡ (ok tt, s))
        × (turn_if_new P entropy h s ≡ (ok tt, u))
        × (skip_message_keys P h.n u ≡ (ok tt, v))
        × IsReadyFor h v
        × (v.nr ≡ h.n)
        × (t ≡ record v { ckr = (kdf_chain P v.ckr).0; nr = h.n + 1 })
        × (h.n < max_uint32)
  unfolding advance
  advance-ok entropy h s t mk small_n small_pn valid unstored e =
      let (_, s', old, e₁) = bind-ok (reject_old P h) _ s {b = mk} {t = t} e in
      let (same, ahead) = reject_old-ok h s s' old in
      let (_, u, turn, e₂) = bind-ok (turn_if_new P entropy h) _ s' {b = mk} {t = t} e₁ in
      let turn' : turn_if_new P entropy h s ≡ (ok tt, u) = rw same at turn in
      let (_, v, skip, e₃) = bind-ok (skip_message_keys P h.n) _ u {b = mk} {t = t} e₂ in
      let ready : IsReadyFor h u =
        turn_if_new-ok entropy h s u small_pn valid unstored ahead turn' in
      let (ready', n) = skip-IsReadyFor h u v small_n ready skip in
      let (room, last) = receiving_key-ok v t mk e₃ in
      (u, v, rw same at old, turn', skip, ready', n, ground (arith, last), ground arith)

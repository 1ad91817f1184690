-- ===== src/Ratchet/History.antt =====
-- A party's history: any sequence of `Encrypt` and `Decrypt` calls of ratchet/message.go, failures
-- included, each from the state that the one before it left.
use signal.Common.{
  ◌<◌, ◌≡◌, refl, Option, List, [], ◌∷◌, Bytes, ok, err, duplicate_message, arith, All, inl, inr,
  Result-cases,
}
use signal.Common.Words.{max_uint32}
use signal.Crypto.{Primitives}
use signal.Ratchet.{State, Header, Message}
use signal.Ratchet.Skip.{skipped_key_for_header}
use signal.Ratchet.Send.{encrypt}
use signal.Ratchet.Send.Facts.{encrypt-state, with_sent}
use signal.Ratchet.Receive.{decrypt}
use signal.Ratchet.Receive.Valid.{IsValid}
use signal.Ratchet.Receive.Outcome.{decrypt_failure_keeps_state}
use signal.Ratchet.Receive.Replay.{IsHeader, IsSpent, decrypt-IsSpent, decrypt-spends}
use signal.Ratchet.Receive.Persistence.{decrypt-keeps-IsSpent}

-- A call, with the random bytes that it would read and its associated data.
pub data Call : Type 0 where
  sends : Bytes → Bytes → Call
  receives : Option Bytes → Message → Bytes → Call

-- A received message has a header of two uint32.
abbrev pub IsCall : Call → Type 0
IsCall (sends plaintext ad) = Unit
IsCall (receives entropy msg ad) = IsHeader msg.header

module _ (P : Primitives) where
  pub step : Call → State → State
  step (sends plaintext ad) s = (encrypt P plaintext ad s).1
  step (receives entropy msg ad) s = (decrypt P entropy msg ad s).1

  pub run : List Call → State → State
  run [] s = s
  run (c ∷ cs) s = run cs (step c s)

  with_sent-IsValid : (s : State) → s.ns < max_uint32 → IsValid s → IsValid (with_sent P s)
  with_sent-IsValid s small v = record {
    own = v.own;
    room = v.room;
    small_nr = v.small_nr;
    small_ns = omega arith;
  }

  step-IsValid : (c : Call) (s : State) → IsCall c → IsValid s → IsValid (step c s)
  unfolding step
  step-IsValid (sends plaintext ad) s h v = elim (encrypt-state P plaintext ad s v.small_ns) [
    | inl same ↦ rw same v
    | inr (sent, small) ↦ rw sent (with_sent-IsValid s small v)
  ]
  step-IsValid (receives entropy msg ad) s h v =
      elim (Result-cases (decrypt P entropy msg ad s).0) [
        | inl (plaintext, good) ↦
            (decrypt-spends P entropy msg ad s _ plaintext h v (rw (← good) refl)).0
        | inr (e, bad) ↦ rw (decrypt_failure_keeps_state P entropy msg ad s e bad) v
      ]

  -- From a state with the invariant, any sequence of `encrypt` and `decrypt` calls, failing or not, on
  -- messages with uint32 header counters, leads to a state with the invariant.
  pub run-IsValid : (cs : List Call) (s : State) → All IsCall cs → IsValid s → IsValid (run cs s)
  unfolding run
  run-IsValid [] s h v = v
  run-IsValid (c ∷ cs) s (hc, hcs) v = run-IsValid cs (step c s) hcs (step-IsValid c s hc v)

  sent-IsSpent : (h : Header) (s : State) → IsSpent h s → IsSpent h (with_sent P s)
  sent-IsSpent h s spent = record {
    unstored = spent.unstored;
    gone = elim spent.gone [
      | inl g ↦ inl g
      | inr passed ↦ inr (record {
        dhr = passed.dhr;
        current = passed.current;
        other = passed.other;
        remembered = passed.remembered;
      })
    ];
  }

  step-IsSpent :
      (h : Header) (c : Call) (s : State)
      → IsCall c
      → IsValid s
      → IsSpent h s
      → IsSpent h (step c s)
  unfolding step
  step-IsSpent h (sends plaintext ad) s _ v spent =
      elim (encrypt-state P plaintext ad s v.small_ns) [
        | inl same ↦ rw same spent
        | inr (sent, small) ↦ rw sent (sent-IsSpent h s spent)
      ]
  step-IsSpent h (receives entropy msg ad) s c v spent =
      elim (Result-cases (decrypt P entropy msg ad s).0) [
        | inl (plaintext, good) ↦
            decrypt-keeps-IsSpent P h entropy msg ad s _ plaintext c v spent (rw (← good) refl)
        | inr (e, bad) ↦ rw (decrypt_failure_keeps_state P entropy msg ad s e bad) spent
      ]

  pub run-IsSpent :
      (h : Header) (cs : List Call) (s : State)
      → All IsCall cs
      → IsValid s
      → IsSpent h s
      → IsSpent h (run cs s)
  unfolding run
  run-IsSpent h [] s hs v spent = spent
  run-IsSpent h (c ∷ cs) s (hc, hcs) v spent =
      run-IsSpent h cs (step c s) hcs (step-IsValid c s hc v) (step-IsSpent h c s hc v spent)

  -- After a message is decrypted from a state with the invariant, and after any further sequence of
  -- `encrypt` and `decrypt` calls on messages with uint32 header counters, every message with the same
  -- ratchet key and number (whatever else it holds) is refused as a duplicate, and the state is kept.
  pub replay_refused :
      (s t : State) (entropy entropy' : Option Bytes) (msg again : Message)
      (ad ad' plaintext : Bytes) (cs : List Call)
      → IsValid s
      → IsHeader msg.header
      → All IsCall cs
      → decrypt P entropy msg ad s ≡ (ok plaintext, t)
      → again.header.dh ≡ msg.header.dh
      → again.header.n ≡ msg.header.n
      → decrypt P entropy' again ad' (run cs t) ≡ (err duplicate_message, run cs t)
  unfolding skipped_key_for_header
  replay_refused s t entropy entropy' msg again ad ad' plaintext cs v h hs e same_dh same_n =
      let (v', spent) = decrypt-spends P entropy msg ad s t plaintext h v e in
      let later : IsSpent msg.header (run cs t) = run-IsSpent msg.header cs t hs v' spent in
      decrypt-IsSpent P entropy' again ad' (run cs t)
        (same_key again.header msg.header (run cs t) same_dh same_n later)
    where
      same_key : (g h : Header) (u : State) → g.dh ≡ h.dh → g.n ≡ h.n → IsSpent h u → IsSpent g u
      same_key g h u d n spent = record {
        unstored = rw (d, n) spent.unstored;
        gone = elim spent.gone [
          | inl (current, behind) ↦ inl (rw d current, omega (arith, n))
          | inr passed ↦ inr (record {
            dhr = passed.dhr;
            current = passed.current;
            other = rw d passed.other;
            remembered = rw d passed.remembered;
          })
        ];
      }

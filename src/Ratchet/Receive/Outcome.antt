-- ===== src/Ratchet/Receive/Outcome.antt =====
-- `Decrypt` seen from outside: its two ways to succeed, and what a failure leaves.
use signal.Common.{
  ◌≡◌, refl, Option, none, some, Bytes, Result, Error, ok, err, arith, Option-cases, inl, inr, ◌⊎◌,
  ap,
}
use signal.Common.Map
use signal.Common.Exec.{bind-ok, lift}
use signal.Crypto.{Primitives}
use signal.Ratchet.{State, Message, skipped_key_eq}
use signal.Ratchet.Skip.{skipped_key_for_header}
use signal.Ratchet.Receive.{decrypt, decrypt_with_message_key, commit, receive, advance}

-- A message key was stored for the message, and is taken out.
pub record FromStored (P : Primitives) (msg : Message) (ad plaintext : Bytes) (s t : State)
    : Type 0 where
  pub mk : Bytes
  pub found : Map.lookup (skipped_key_for_header msg.header) s.skipped ≡ some mk
  pub opened : decrypt_with_message_key P mk msg ad ≡ ok plaintext
  pub after : t ≡ record s { skipped = Map.delete (skipped_key_for_header msg.header) s.skipped }

-- The chain was advanced to the message.
pub record FromChain (P : Primitives) (entropy : Option Bytes) (msg : Message)
    (ad plaintext : Bytes) (s t : State) : Type 0 where
  pub mk : Bytes
  pub unstored : Map.lookup (skipped_key_for_header msg.header) s.skipped ≡ none
  pub opened : decrypt_with_message_key P mk msg ad ≡ ok plaintext
  pub advanced : advance P entropy msg.header s ≡ (ok mk, t)

module _ (P : Primitives) (entropy : Option Bytes) (msg : Message) (ad : Bytes) where
  commit-ok :
      (s t : State) (plaintext : Bytes) (p : Result Bytes × State)
      → commit P s p ≡ (ok plaintext, t)
      → p ≡ (ok plaintext, t)
  unfolding commit
  commit-ok s t plaintext (ok x, u) e = e
  commit-ok s t plaintext (err x, u) e = cc

  pub decrypt-ok :
      (s t : State) (plaintext : Bytes)
      → decrypt P entropy msg ad s ≡ (ok plaintext, t)
      → FromStored P msg ad plaintext s t ⊎ FromChain P entropy msg ad plaintext s t
  unfolding decrypt
  decrypt-ok s t plaintext e =
      elim (Option-cases (Map.lookup (skipped_key_for_header msg.header) s.skipped)) [
        | inr (mk, found) ↦ inl (record {
          mk = mk;
          found = found;
          opened = ground (arith, found);
          after = ground (arith, found);
        })
        | inl missing ↦
            let e' : commit P s (receive P entropy msg ad s) ≡ (ok plaintext, t) =
              rw (← e) (ground (arith, missing)) in
            let (mk, u, adv, rest) =
              bind-ok (advance P entropy msg.header)
                (λ mk. lift (decrypt_with_message_key P mk msg ad)) s {b = plaintext} {t = t}
                (commit-ok s t plaintext (receive P entropy msg ad s) e') in
            inr (record {
              mk = mk;
              unstored = missing;
              opened = ground arith;
              advanced = rw (← ap (λ p. p.1) rest) adv;
            })
      ]

  commit-err :
      (s : State) (p : Result Bytes × State) (e : Error)
      → (commit P s p).0 ≡ err e
      → (commit P s p).1 ≡ s
  unfolding commit
  commit-err s (ok x, u) e h = cc
  commit-err s (err x, u) e h = refl

  -- A message that is refused, for whatever reason, leaves the ratchet state as it was.
  pub decrypt_failure_keeps_state :
      (s : State) (e : Error)
      → (decrypt P entropy msg ad s).0 ≡ err e
      → (decrypt P entropy msg ad s).1 ≡ s
  unfolding decrypt
  decrypt_failure_keeps_state s e h =
      elim (Option-cases (Map.lookup (skipped_key_for_header msg.header) s.skipped)) [
        | inr (mk, found) ↦ ground (arith, found)
        | inl missing ↦ ground (arith, missing, commit-err s (receive P entropy msg ad s) e)
      ]

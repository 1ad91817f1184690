-- ===== src/Ratchet/Receive/Advance.antt =====
-- `Decrypt` of ratchet/message.go next to `AdvanceForHeader` of ratchet/wire.go: two copies of one way.
use signal.Common.{◌≡◌, refl, Option, Bytes, arith, Option-cases, Result-cases, inl, inr, bytes_eq}
use signal.Common.Map
use signal.Common.Exec.{Exec, lift, ◌>>=◌, ◌>>◌}
use signal.Crypto.{Primitives}
use signal.Ratchet.{State, Header, Message, skipped_key_eq}
use signal.Ratchet.Skip.{skipped_key_for_header, skip_message_keys}
use signal.Ratchet.Receive.{
  decrypt, decrypt_with_message_key, commit, advance, reject_old, turn_if_new, receiving_key,
  is_current,
}
use signal.Ratchet.Receive.ForHeader.{
  refuse_processed, refuse_previous, turn_for_header, next_receiving_key, advance_new_header,
  advance_for_header,
}

module _ (P : Primitives) (entropy : Option Bytes) where
  -- The two guards of wire.go are the one of message.go, whatever comes after them.
  refuse-reject_old :
      (h : Header) (k : Exec State Bytes) (s : State)
      → (do refuse_processed h; refuse_previous h; k) s ≡ (reject_old P h >> k) s
  unfolding refuse_processed refuse_previous reject_old is_current
  refuse-reject_old h k s = ground arith

  turn_for_header-turn_if_new :
      (h : Header) (s : State) → turn_for_header P entropy h s ≡ turn_if_new P entropy h s
  unfolding turn_for_header turn_if_new is_current
  turn_for_header-turn_if_new h s = elim (Option-cases s.dhr) [
    | inl unset ↦ ground (arith, unset)
    | inr (dhr, set) ↦ ground (arith, set)
  ]

  -- The way of a header that no stored key answers is the same in both files.
  advance_new_header-advance :
      (h : Header) (s : State) → advance_new_header P entropy h s ≡ advance P entropy h s
  unfolding advance_new_header advance next_receiving_key receiving_key
  advance_new_header-advance h s =
      let same : turn_for_header P entropy h ≡ turn_if_new P entropy h =
        λ i s. turn_for_header-turn_if_new h s i in
      rw same (
        refuse-reject_old h (do turn_if_new P entropy h; skip_message_keys P h.n; receiving_key P)
          s)

module _ (P : Primitives) (entropy : Option Bytes) (msg : Message) (ad : Bytes) where
  -- `AdvanceForHeader` on a clone and then the message key, as its comment asks of callers.
  unfoldable pub advance_and_open : Exec State Bytes
  advance_and_open = do
    mk ← advance_for_header P entropy msg.header
    lift (decrypt_with_message_key P mk msg ad)

  -- `decrypt` of message.go gives the same plaintext or error, and leaves the same state, as `advance_for_header` of
  -- wire.go on a clone, opening the message with the key, and keeping the clone only on success.
  pub decrypt-advance_for_header :
      (s : State) → decrypt P entropy msg ad s ≡ commit P s (advance_and_open s)
  unfolding decrypt advance_and_open advance_for_header commit
  decrypt-advance_for_header s =
      elim (Option-cases (Map.lookup (skipped_key_for_header msg.header) s.skipped)) [
        | inl missing ↦ rw (missing, advance_new_header-advance P entropy msg.header s) refl
        | inr (mk, found) ↦ elim (Result-cases (decrypt_with_message_key P mk msg ad)) [
          | inl (text, opens) ↦ ground (arith, found, opens)
          | inr (e, fails) ↦ ground (arith, found, fails)
        ]
      ]

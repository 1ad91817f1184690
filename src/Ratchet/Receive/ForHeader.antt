-- ===== src/Ratchet/Receive/ForHeader.antt =====
-- AdvanceForHeader of ratchet/wire.go. The code has the way of a new header a second time there, next to that of
-- `Decrypt`, and so has this file.
use signal.Common.{
  not, bytes_eq, ◌&&◌, ◌||◌, Option, none, some, Bytes, ok, err, plain, duplicate_message,
  counter_overflow, ltb, eqb, bytes_beq, is_some, if◌then◌else◌,
}
use signal.Common.Map
use signal.Common.Words.{inc32, max_uint32, zero_key}
use signal.Common.Exec.{Exec, ◌>>◌}
use signal.Crypto.{Primitives}
use signal.Ratchet.{State, Header, skipped_key_eq}
use signal.Ratchet.Chain.{kdf_chain}
use signal.Ratchet.Skip.{skip_message_keys, skipped_key_for_header}
use signal.Ratchet.Turn.{dh_ratchet}
use signal.Ratchet.Receive.{is_current}

unfoldable pub refuse_processed : Header → Exec State (Unit {0})
unfolding is_current
refuse_processed h s =
    if is_current s.dhr h.dh && ltb h.n s.nr then (err duplicate_message, s) else (ok tt, s)

unfoldable pub refuse_previous : Header → Exec State (Unit {0})
unfolding is_current
refuse_previous h s =
    if is_some s.dhr && not (is_current s.dhr h.dh)
    then (if is_some (Map.lookup h.dh s.seen) then (err duplicate_message, s) else (ok tt, s))
    else (ok tt, s)

module _ (P : Primitives) where
  unfoldable pub turn_for_header : Option Bytes → Header → Exec State (Unit {0})
  unfolding is_current
  turn_for_header entropy h s =
      if not (is_some s.dhr) || not (is_current s.dhr h.dh)
      then (do skip_message_keys P h.pn; dh_ratchet P entropy h.dh) s
      else (ok tt, s)

  unfoldable pub next_receiving_key : Exec State Bytes
  next_receiving_key s =
      if bytes_beq s.ckr zero_key
      then (err (plain "decrypt: missing receiving chain key"), s)
      else if eqb s.nr max_uint32
      then (err counter_overflow, s)
      else let (next, mk) = kdf_chain P s.ckr in (ok mk, record s { ckr = next; nr = inc32 s.nr })

  unfoldable pub advance_new_header : Option Bytes → Header → Exec State Bytes
  advance_new_header entropy h = do
    refuse_processed h
    refuse_previous h
    turn_for_header entropy h
    skip_message_keys P h.n
    next_receiving_key

  advance_from : Option Bytes → Option Bytes → Header → Exec State Bytes
  unfolding advance_new_header
  advance_from (some mk) entropy h s =
      (ok mk, record s { skipped = Map.delete (skipped_key_for_header h) s.skipped })
  advance_from none entropy h s = advance_new_header entropy h s

  unfoldable pub advance_for_header : Option Bytes → Header → Exec State Bytes
  unfolding advance_from
  advance_for_header entropy h s =
      advance_from (Map.lookup (skipped_key_for_header h) s.skipped) entropy h s

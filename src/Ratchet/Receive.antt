-- ===== src/Ratchet/Receive.antt =====
-- Decrypt of ratchet/message.go.
pub mod ForHeader
pub mod Valid
pub mod Outcome
pub mod Replay
pub mod Persistence
pub mod Advance
use signal.Common.{
  Bool, false, not, bytes_eq, ◌&&◌, Option, none, some, Bytes, Result, ok, err, plain,
  duplicate_message, invalid_message, invalid_mac, counter_overflow, ltb, eqb, bytes_beq, length,
  take, drop, is_some, if◌then◌else◌,
}
use signal.Common.Map
use signal.Common.Words.{inc32, max_uint32, zero_key}
use signal.Common.Exec.{Exec, lift, ◌>>=◌, ◌>>◌}
use signal.Crypto.{Primitives, aes_gcm_decrypt}
use signal.Ratchet.{State, Header, Message, MessageKeys, skipped_key_eq}
use signal.Ratchet.Chain.{kdf_chain, derive_message_keys}
use signal.Ratchet.Skip.{skip_message_keys, skipped_key_for_header}
use signal.Ratchet.Turn.{dh_ratchet}
use signal.Ratchet.Send.{message_ad}

-- DHr is set and equal to the key
unfoldable pub is_current : Option Bytes → Bytes → Bool
is_current none key = false
is_current (some dhr) key = bytes_beq dhr key

-- errors.Join(ErrInvalidMAC, err)
as_mac_failure : Result Bytes → Result Bytes
as_mac_failure (ok plaintext) = ok plaintext
as_mac_failure (err e) = err invalid_mac

module _ (P : Primitives) where
  unfoldable pub decrypt_with_message_key : Bytes → Message → Bytes → Result Bytes
  unfolding as_mac_failure
  decrypt_with_message_key mk msg ad =
      let keys : MessageKeys = derive_message_keys P mk in
      if ltb (length msg.ciphertext) 12
      then err invalid_message
      else as_mac_failure (
          aes_gcm_decrypt P keys.enc_key (drop 12 msg.ciphertext) (take 12 msg.ciphertext)
            (message_ad ad msg.header))

  -- The two tests for messages that were processed, or that belong to an earlier ratchet key.
  unfoldable pub reject_old : Header → Exec State (Unit {0})
  unfolding is_current
  reject_old h s =
      if is_current s.dhr h.dh && ltb h.n s.nr
      then (err duplicate_message, s)
      else if is_some s.dhr && not (is_current s.dhr h.dh) && is_some (Map.lookup h.dh s.seen)
      then (err duplicate_message, s)
      else (ok tt, s)

  unfoldable pub turn_if_new : Option Bytes → Header → Exec State (Unit {0})
  unfolding is_current
  turn_if_new entropy h s =
      if is_current s.dhr h.dh
      then (ok tt, s)
      else (skip_message_keys P h.pn >> dh_ratchet P entropy h.dh) s

  unfoldable pub receiving_key : Exec State Bytes
  receiving_key s =
      if bytes_beq s.ckr zero_key
      then (err (plain "decrypt: missing receiving chain key"), s)
      else if eqb s.nr max_uint32
      then (err counter_overflow, s)
      else let (next, mk) = kdf_chain P s.ckr in (ok mk, record s { ckr = next; nr = inc32 s.nr })

  -- The way of a header that no stored key answers.
  unfoldable pub advance : Option Bytes → Header → Exec State Bytes
  advance entropy h = do reject_old h; turn_if_new entropy h; skip_message_keys P h.n; receiving_key

  -- `Decrypt` works on a clone: what it wrote is kept only with a plaintext.
  unfoldable pub commit : State → Result Bytes × State → Result Bytes × State
  commit s (ok plaintext, next) = (ok plaintext, next)
  commit s (err e, next) = (err e, s)

  decrypt_skipped : Message → State → Result Bytes → Result Bytes × State
  decrypt_skipped msg s (err e) = (err e, s)
  decrypt_skipped msg s (ok plaintext) = (
    ok plaintext,
    record s { skipped = Map.delete (skipped_key_for_header msg.header) s.skipped },
  )

  receive : Option Bytes → Message → Bytes → Exec State Bytes
  unfolding advance
  receive entropy msg ad = do
    mk ← advance entropy msg.header
    lift (decrypt_with_message_key mk msg ad)

  decrypt_from : Option Bytes → Option Bytes → Message → Bytes → Exec State Bytes
  unfolding commit decrypt_skipped receive
  decrypt_from (some mk) entropy msg ad s =
      decrypt_skipped msg s (decrypt_with_message_key mk msg ad)
  decrypt_from none entropy msg ad s = commit s (receive entropy msg ad s)

  unfoldable pub decrypt : Option Bytes → Message → Bytes → Exec State Bytes
  unfolding decrypt_from
  decrypt entropy msg ad s =
      decrypt_from (Map.lookup (skipped_key_for_header msg.header) s.skipped) entropy msg ad s

-- ===== src/Ratchet/Exchange/Chain.antt =====
-- A sender's messages of one chain, received in any order.

use signal.Common.{
  ℕ, zero, suc, ◌+◌, ◌-◌, ◌≤◌, ◌<◌, ◌≡◌, ◌≢◌, refl, ap, subst, ◌∙◌, some, Bytes, Result, ok, err,
  arith, [],
}
use signal.Common.Words.{max_uint32, zero_key}
use signal.Common.Exec.{Exec}
use signal.Crypto.{Primitives, KeyPair}
use signal.Crypto.Laws.{IsSound}
use signal.Ratchet.{State, Message}
use signal.Ratchet.Chain.{kdf_chain, chain_key, message_key}
use signal.Ratchet.Send.{encrypt}
use signal.Ratchet.Send.Facts.{CanSend, with_sent, next_header, next_sending-CanSend}
use signal.Ratchet.Receive.{decrypt_with_message_key}
use signal.Ratchet.Delivery.{IsGenuine}
use signal.Ratchet.Exchange.{seal-opens}

-- The sender's chain is the one that starts at `start`, and `count` more messages fit: the counter has
-- room, and no chain key of theirs is zero.
pub record CanSendMany (P : Primitives) (start : Bytes) (dhs : KeyPair) (count : ℕ) (s : State)
    : Type 0 where
  pub has_dhs : s.dhs ≡ some dhs
  pub chain : s.cks ≡ chain_key P start s.ns
  pub room : s.ns + count ≤ max_uint32
  pub live : (n : ℕ) → s.ns ≤ n → n < s.ns + count → chain_key P start n ≢ zero_key

abbrev pub message_of : Result Message → Message
message_of (ok msg) = msg
message_of (err e) = record { header = record { dh = []; pn = 0; n = 0 }; ciphertext = [] }

module _ (P : Primitives) (text : ℕ → Bytes) (ad : Bytes) where
  -- The message of number `ns` carries `text ns`.
  abbrev pub send_next : Exec State Message
  send_next s = encrypt P (text s.ns) ad s

  unfoldable pub after_sends : ℕ → State → State
  after_sends zero s = s
  after_sends (suc k) s = (send_next (after_sends k s)).1

  after_sends-zero : (s : State) → after_sends zero s ≡ s
  unfolding after_sends
  after_sends-zero s = refl

  after_sends-suc : (k : ℕ) (s : State) → after_sends (suc k) s ≡ (send_next (after_sends k s)).1
  unfolding after_sends
  after_sends-suc k s = refl

  module _ (sound : IsSound P) (start : Bytes) (dhs : KeyPair) where
    -- One message: it is written, opens under the message key of its number, and the chain moves on.
    pub record Sent (s : State) : Type 0 where
      pub msg : Message
      pub written : send_next s ≡ (ok msg, with_sent P s)
      pub genuine : IsGenuine P start dhs.public_key s.ns (text s.ns) ad msg

    send-CanSend : (s : State) → CanSend P dhs s → s.cks ≡ chain_key P start s.ns → Sent s
    unfolding encrypt message_key
    send-CanSend s can chain =
        let (msg, sealed, same, opens) =
          seal-opens sound (text s.ns) ad (next_header dhs s) (kdf_chain P s.cks).1 in
        record {
          msg = msg;
          written = ground (arith, next_sending-CanSend P can, sealed);
          genuine = record {
            dh = ap (λ h. h.dh) same;
            number = ap (λ h. h.n) same;
            opens =
                subst (λ mk. decrypt_with_message_key P mk msg ad ≡ ok (text s.ns))
                  (ap (λ c. (kdf_chain P c).1) chain) opens;
          };
        }

    with_sent-CanSendMany :
        (count : ℕ) (s : State)
        → CanSendMany P start dhs (suc count) s
        → CanSendMany P start dhs count (with_sent P s)
    unfolding chain_key
    with_sent-CanSendMany count s can = record {
      has_dhs = can.has_dhs;
      chain =
          let e : s.ns + 1 ≡ suc s.ns = omega arith in rw e (ap (λ c. (kdf_chain P c).0) can.chain);
      room = omega (arith, can.room);
      live = λ n lo hi. can.live n (omega arith) (omega arith);
    }

    CanSend-first :
        (count : ℕ) (s : State) → CanSendMany P start dhs (suc count) s → CanSend P dhs s
    CanSend-first count s can = record {
      has_dhs = can.has_dhs;
      has_chain = rw can.chain (can.live s.ns (omega arith) (omega arith));
      room = omega (arith, can.room);
    }

    after_sends-CanSendMany :
        (k rest : ℕ) (s : State)
        → CanSendMany P start dhs (k + rest) s
        → CanSendMany P start dhs rest (after_sends k s) × ((after_sends k s).ns ≡ s.ns + k)
    after_sends-CanSendMany zero rest s can =
        let e : zero + rest ≡ rest = omega arith in
        rw (after_sends-zero s) (rw e at can, omega arith)
    after_sends-CanSendMany (suc k) rest s can =
        let e : suc k + rest ≡ k + suc rest = omega arith in
        let (can', n) = after_sends-CanSendMany k (suc rest) s (rw e at can) in
        let sent = send-CanSend (after_sends k s) (CanSend-first rest _ can') can'.chain in
        rw (after_sends-suc k s ∙ ap (λ p. p.1) sent.written)
          (with_sent-CanSendMany rest _ can', omega (arith, n))

    -- Each of the messages is written and genuine.
    nth-Sent :
        (k count : ℕ) (s : State)
        → k < count
        → CanSendMany P start dhs count s
        → Sent (after_sends k s) × ((after_sends k s).ns ≡ s.ns + k)
    nth-Sent k count s below can =
        let e : count ≡ k + suc (count - suc k) = omega arith in
        let (can', n) = after_sends-CanSendMany k (suc (count - suc k)) s (rw e at can) in
        (send-CanSend (after_sends k s) (CanSend-first (count - suc k) _ can') can'.chain, n)

  -- The message of number `n`, for a sender that starts in `s`.
  unfoldable pub sent_message : State → ℕ → Message
  sent_message s n = message_of (send_next (after_sends (n - s.ns) s)).0

  pub sent_message-IsGenuine :
      (sound : IsSound P) (start : Bytes) (dhs : KeyPair) (n count : ℕ) (s : State)
      → s.ns ≤ n
      → n < s.ns + count
      → CanSendMany P start dhs count s
      → IsGenuine P start dhs.public_key n (text n) ad (sent_message s n)
        × ((send_next (after_sends (n - s.ns) s)).0 ≡ ok (sent_message s n))
  unfolding sent_message
  sent_message-IsGenuine sound start dhs n count s lo hi can =
      let (sent, number) = nth-Sent sound start dhs (n - s.ns) count s (omega arith) can in
      let at : (after_sends (n - s.ns) s).ns ≡ n = omega (arith, number) in
      rw sent.written (rw at at sent.genuine, refl)

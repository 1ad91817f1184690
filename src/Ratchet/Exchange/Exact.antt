-- ===== src/Ratchet/Exchange/Exact.antt =====
-- A sender's chain of messages, received in any order and with losses.
use mathlib.Core.List.{map}
use signal.Common.{ℕ, ◌+◌, ◌-◌, ◌≤◌, ◌<◌, ◌≡◌, Option, Bytes, ok, List, [], ◌∷◌, All, inl, arith}
use signal.Crypto.{Primitives, KeyPair}
use signal.Crypto.Laws.{IsSound}
use signal.Ratchet.{State, max_skip}
use signal.Ratchet.Delivery.{Tracks}
use signal.Ratchet.Delivery.Stream.{Distinct, receive_all, Expected, any_order}
use signal.Ratchet.Exchange.Chain.{
  CanSendMany, send_next, after_sends, sent_message, sent_message-IsGenuine,
}

-- The numbers of the messages that the sender writes.
abbrev pub InStream : State → ℕ → ℕ → Type 0
InStream a count n = (a.ns ≤ n) × (n < a.ns + count)

module _ (P : Primitives) (sound : IsSound P) (text : ℕ → Bytes) (ad start : Bytes)
    (dhs : KeyPair) where
  expect-All :
      (a b : State) (base count : ℕ) (entropy : ℕ → Option Bytes) (ns : List ℕ)
      → CanSendMany P start dhs count a
      → Tracks P start dhs.public_key base b
      → b.nr ≤ a.ns
      → a.ns + count ≤ base + max_skip + 1
      → All (InStream a count) ns
      → All (Expected P start dhs.public_key base entropy (sent_message P text ad a) text ad b) ns
  expect-All a b base count entropy [] can tracks behind near hs = tt
  expect-All a b base count entropy (n ∷ ns) can tracks behind near ((lo, hi), hs) = (
    record {
      reach = record {
        near = omega arith;
        small = omega (arith, can.room);
        live = can.live n lo hi;
      };
      genuine = (sent_message-IsGenuine P text ad sound start dhs n count a lo hi can).0;
      pending = inl (omega arith);
    },
    expect-All a b base count entropy ns can tracks behind near hs,
  )

  -- A sender whose chain has room for `count` messages writes each of them with `encrypt`. A receiver that
  -- tracks the sender's chain, and is at most `max_skip` messages behind the last, decrypts any of them,
  -- each once, in any order and with any of them lost, to the texts that were encrypted.
  pub exchange_any_order :
      (a b : State) (base count : ℕ) (entropy : ℕ → Option Bytes) (ns : List ℕ) (n : ℕ)
      → CanSendMany P start dhs count a
      → Tracks P start dhs.public_key base b
      → b.nr ≤ a.ns
      → a.ns + count ≤ base + max_skip + 1
      → All (InStream a count) ns
      → Distinct ns
      → InStream a count n
      → ((send_next P text ad (after_sends P text ad (n - a.ns) a)).0
          ≡ ok (sent_message P text ad a n))
        × (receive_all P entropy (sent_message P text ad a) ad ns b ≡ map (λ n. ok (text n)) ns)
  exchange_any_order a b base count entropy ns n can tracks behind near hs distinct (lo, hi) = (
    (sent_message-IsGenuine P text ad sound start dhs n count a lo hi can).1,
    any_order P start dhs.public_key base entropy (sent_message P text ad a) text ad ns b tracks
        distinct (expect-All a b base count entropy ns can tracks behind near hs),
  )

-- ===== src/Ratchet/Runs/Later.antt =====
-- What parties do later, on those of Ratchet/Runs: replays, failures, late messages; and headers as bytes.
use signal.Common.{
  sym, ◌++◌, Bool, true, ltb, ◌&&◌, ◌∙◌, ok, ◌≡◌, refl, ap, none, some, [], ◌∷◌, List, Bytes, err,
  duplicate_message, arith, All, inl,
}
use signal.Common.Map
use signal.Crypto.Toy.{toy, fill}
use signal.Common.Words.{IsByte, uint32}
use signal.Ratchet.{Header, Message}
use signal.Ratchet.Encoding.{deserialize}
use signal.Ratchet.Encoding.RoundTrip.{IsSized}
use signal.Ratchet.Receive.Advance.{advance_and_open, decrypt-advance_for_header}
use signal.Ratchet.Receive.Persistence.Dropped.{previous_chain_refused}
use signal.Ratchet.Receive.{decrypt, commit}
use signal.Ratchet.Receive.Valid.{IsValid}
use signal.Ratchet.Receive.Replay.{IsHeader}
use signal.Ratchet.Receive.Outcome.{decrypt_failure_keeps_state}
use signal.Ratchet.Delivery.Order.{Delivered, deliver}
use signal.Ratchet.History.{Call, sends, receives, IsCall, run, run-IsValid, replay_refused}
use signal.Ratchet.Runs.{
  receiver, peer, peer-IsValid, first_given, receiver-Tracks, words, first_seen,
  first_seen-IsGenuine, first_seen-pn, chain-live,
}

receiver-IsValid : IsValid receiver
receiver-IsValid = record {
  own = λ k mk found. absurd (cc (found, Map.lookup-empty {V = Bytes} k));
  room = omega arith;
  small_nr = omega arith;
  small_ns = omega arith;
}

abbrev delivery : Delivered toy (fill 17) (fill 12) 0 1 (words 1) (1 ∷ []) none first_seen receiver
delivery =
    deliver toy (fill 17) (fill 12) 0 1 (words 1) (1 ∷ []) none first_seen receiver receiver-Tracks
      (record { near = omega arith; small = omega arith; live = chain-live 1 (omega arith) })
      first_seen-IsGenuine (inl (omega arith))

first_seen-IsHeader : IsHeader first_seen.header
first_seen-IsHeader = (omega (arith, first_seen-IsGenuine.number), omega (arith, first_seen-pn))

-- The same header on other bytes.
abbrev forged : Message
forged = record { header = first_seen.header; ciphertext = [] }

abbrev calls : List Call
calls =
    sends (1 ∷ []) []
    ∷ receives none (record { header = record { dh = fill 77; pn = 0; n = 5 }; ciphertext = [] }) []
    ∷ []

calls-IsCall : All IsCall calls
calls-IsCall = (tt, ((omega arith, omega arith), tt))

run-IsValid_example : IsValid (run toy calls receiver)
run-IsValid_example = run-IsValid toy calls receiver calls-IsCall receiver-IsValid

replay_refused_example :
    decrypt toy none forged [] (run toy calls delivery.after)
    ≡ (err duplicate_message, run toy calls delivery.after)
replay_refused_example =
    replay_refused toy receiver delivery.after none none first_seen forged (1 ∷ []) [] (words 1)
      calls receiver-IsValid first_seen-IsHeader calls-IsCall delivery.result refl refl

decrypt_failure_keeps_state_example :
    (decrypt toy none forged [] (run toy calls delivery.after)).1 ≡ run toy calls delivery.after
decrypt_failure_keeps_state_example =
    decrypt_failure_keeps_state toy none forged [] (run toy calls delivery.after) duplicate_message
      (ap (λ r. r.0) replay_refused_example)

-- The first message of the chain that the peer had before.
abbrev late : Message
late = record { header = record { dh = fill 50; pn = 0; n = 0 }; ciphertext = [] }

previous_chain_refused_example :
    decrypt toy none late [] (run toy calls first_given.0)
    ≡ (err duplicate_message, run toy calls first_given.0)
previous_chain_refused_example =
    previous_chain_refused toy peer first_given.0 (some (fill 6)) none first_seen late (1 ∷ []) []
      (words 1) calls peer-IsValid first_seen-IsHeader calls-IsCall refl
      (λ e. let old : fill 12 ≡ fill 50 = sym first_seen-IsGenuine.dh ∙ e in cc) first_given.1

decrypt-advance_for_header_example :
    decrypt toy none first_seen (1 ∷ []) receiver
    ≡ commit toy receiver (advance_and_open toy none first_seen (1 ∷ []) receiver)
decrypt-advance_for_header_example =
    decrypt-advance_for_header toy none first_seen (1 ∷ []) receiver

abbrev header : Header
header = record { dh = fill 12; pn = 70000; n = 300 }

header-IsSized : IsSized header
header-IsSized = record { dh = refl; pn = omega arith; n = omega arith }

abbrev small : Bytes → Bool
small [] = true
small (b ∷ bs) = ltb b 256 && small bs

small-All : (b : Bytes) → small b ≡ true → All IsByte b
small-All [] h = tt
small-All (b ∷ bs) h = (ground arith, small-All bs (ground arith))

abbrev packet : Bytes
packet = fill 12 ++ (0 ∷ 1 ∷ 17 ∷ 112 ∷ 0 ∷ 0 ∷ 1 ∷ 44 ∷ [])

packet-small : All IsByte packet
packet-small = small-All packet refl

packet-read : deserialize packet ≡ ok header
unfolding deserialize uint32
packet-read = refl

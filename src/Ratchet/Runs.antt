-- ===== src/Ratchet/Runs.antt =====
-- The double ratchet run on small inputs: two parties, their chains, and the theorems applied to them.
pub mod Started
pub mod Later
pub mod Written
use signal.Common.{
  ℕ, zero, suc, ◌+◌, ◌-◌, ◌<◌, ◌≤◌, ◌≡◌, ◌≢◌, refl, Option, none, some, [], ◌∷◌, List, Bytes,
  bytes_eq, Result, ok, err, arith, All, bytes_beq, bytes_beq_iff, true, false,
}
use signal.Common.Map
use signal.Common.Words.{zero_key, max_uint32, array32, put_uint32}
use signal.Crypto.{
  Primitives, KeyPair, generate_key_pair, key_pair_from_private, dh, hkdf,
  aes_gcm_encrypt_with_nonce,
}
use signal.Crypto.Laws.{IsKeyPair}
use signal.Crypto.Toy.{toy, toy-IsSound, toy-IsAgreement, fill}
use signal.Ratchet.{State, Header, Message, max_skip}
use signal.Ratchet.Chain.{chain_key, kdf_chain, kdf_root, derive_message_keys}
use signal.Ratchet.Turn.{next_root}
use signal.Ratchet.Send.{encrypt}
use signal.Ratchet.Encoding.{serialize}
use signal.Ratchet.Receive.Valid.{IsValid}
use signal.Ratchet.Agreement.{IsAhead, CanFinish}
use signal.Ratchet.Agreement.First.{first_of_chain}
use signal.Ratchet.Receive.{is_current, decrypt}
use signal.Ratchet.Delivery.{Tracks, IsGenuine, InReach}
use signal.Ratchet.Delivery.Stream.{Distinct, receive_all}
use signal.Ratchet.Exchange.Chain.{
  CanSendMany, sent_message, sent_message-IsGenuine, send_next, after_sends,
}
use signal.Ratchet.Exchange.Exact.{InStream, exchange_any_order}
use signal.Ratchet.Init.Agreed.{new-IsValid, new-Tracks}
use mathlib.Core.List.{map}

abbrev pub alice_keys : KeyPair
alice_keys = record { public_key = fill 12; private_key = fill 3 }

abbrev pub bob_keys : KeyPair
bob_keys = record { public_key = fill 14; private_key = fill 5 }

abbrev pub fresh_keys : KeyPair
fresh_keys = record { public_key = fill 15; private_key = fill 6 }

abbrev pub sender : State
sender = record {
  dhs = some alice_keys;
  dhr = some (fill 14);
  rk = fill 17;
  cks = fill 17;
  ckr = zero_key;
  ns = 0;
  nr = 0;
  pn = 2;
  skipped = [];
  seen = (fill 14, tt) ∷ [];
}

-- A receiver that is at the start of the sender's chain.
abbrev pub receiver : State
receiver = record {
  dhs = some bob_keys;
  dhr = some (fill 12);
  rk = fill 17;
  cks = zero_key;
  ckr = fill 17;
  ns = 0;
  nr = 0;
  pn = 0;
  skipped = [];
  seen = (fill 12, tt) ∷ [];
}

abbrev pub words : ℕ → Bytes
words n = n ∷ 100 ∷ []

abbrev no_entropy : ℕ → Option Bytes
no_entropy n = none

below_three : (Q : ℕ → Type 0) → Q 0 → Q 1 → Q 2 → (n : ℕ) → n < 3 → Q n
below_three Q a b c zero h = a
below_three Q a b c (suc zero) h = b
below_three Q a b c (suc (suc zero)) h = c
below_three Q a b c (suc (suc (suc n))) h = absurd (omega arith)

pub chain-live : (n : ℕ) → n < 3 → chain_key toy (fill 17) n ≢ zero_key
unfolding chain_key toy kdf_chain array32
chain-live = below_three (λ n. chain_key toy (fill 17) n ≢ zero_key) (λ e. cc) (λ e. cc) (λ e. cc)

sender-CanSendMany : CanSendMany toy (fill 17) alice_keys 3 sender
unfolding chain_key
sender-CanSendMany = record {
  has_dhs = refl;
  chain = refl;
  room = omega arith;
  live = λ n lo hi. chain-live n hi;
}

pub receiver-Tracks : Tracks toy (fill 17) (fill 12) 0 receiver
receiver-Tracks = new-Tracks toy (fill 17) (fill 12) receiver refl refl refl refl

abbrev order : List ℕ
order = 2 ∷ 0 ∷ 1 ∷ []

exchange_any_order_example :
    ((send_next toy words (1 ∷ []) (after_sends toy words (1 ∷ []) 2 sender)).0
      ≡ ok (sent_message toy words (1 ∷ []) sender 2))
    × (receive_all toy no_entropy (sent_message toy words (1 ∷ []) sender) (1 ∷ []) order receiver
        ≡ map (λ n. ok (words n)) order)
exchange_any_order_example =
    exchange_any_order toy toy-IsSound words (1 ∷ []) (fill 17) alice_keys sender receiver 0 3
      no_entropy order 2 sender-CanSendMany receiver-Tracks (omega arith) (omega arith)
      ((omega arith, omega arith), ((omega arith, omega arith), ((omega arith, omega arith), tt)))
      ((λ e. omega arith, (λ e. omega arith, tt)), ((λ e. omega arith, tt), (tt, tt)))
      (omega arith, omega arith)

-- A peer that has lost two messages of the chain before.
abbrev pub peer : State
peer = record {
  dhs = some bob_keys;
  dhr = some (fill 50);
  rk = fill 1;
  cks = fill 8;
  ckr = fill 9;
  ns = 1;
  nr = 0;
  pn = 0;
  skipped = [];
  seen = (fill 50, tt) ∷ [];
}

pub alice_keys-IsKeyPair : IsKeyPair toy alice_keys
unfolding key_pair_from_private toy array32
alice_keys-IsKeyPair = refl

pub bob_keys-IsKeyPair : IsKeyPair toy bob_keys
unfolding key_pair_from_private toy array32
bob_keys-IsKeyPair = refl

pub fresh_keys-IsKeyPair : IsKeyPair toy fresh_keys
unfolding key_pair_from_private toy array32
fresh_keys-IsKeyPair = refl

sender-IsAhead : IsAhead toy (fill 17) alice_keys bob_keys sender peer
unfolding next_root toy chain_key is_current Map.lookup array32 bytes_beq dh kdf_root hkdf
sender-IsAhead = record {
  own = refl;
  peer = refl;
  own_pair = alice_keys-IsKeyPair;
  peer_pair = bob_keys-IsKeyPair;
  knows = refl;
  root = refl;
  chain = refl;
  new = refl;
  unseen = refl;
}

-- The second message of the new chain: the first is lost as well.
abbrev pub first_seen : Message
first_seen = sent_message toy words (1 ∷ []) sender 1

pub first_seen-IsGenuine : IsGenuine toy (fill 17) (fill 12) 1 (words 1) (1 ∷ []) first_seen
first_seen-IsGenuine =
    (sent_message-IsGenuine toy words (1 ∷ []) toy-IsSound (fill 17) alice_keys 1 3 sender
      (omega arith) (omega arith) sender-CanSendMany).0

pub first_seen-pn : first_seen.header.pn ≡ 2
unfolding sent_message after_sends encrypt toy bytes_beq kdf_chain array32 derive_message_keys hkdf
    aes_gcm_encrypt_with_nonce serialize put_uint32
first_seen-pn = refl

peer-CanFinish : CanFinish first_seen.header.pn peer
peer-CanFinish = record {
  last = fill 50;
  remote = refl;
  small = omega (arith, first_seen-pn);
  behind = omega arith;
  room = omega (arith, first_seen-pn);
}

pub peer-IsValid : IsValid peer
peer-IsValid = record {
  own = λ k mk found. absurd (cc (found, Map.lookup-empty {V = Bytes} k));
  room = omega arith;
  small_nr = omega arith;
  small_ns = omega arith;
}

fresh_keys-generated : generate_key_pair toy (some (fill 6)) ≡ ok fresh_keys
unfolding generate_key_pair key_pair_from_private toy array32
fresh_keys-generated = refl

reply-root : next_root toy sender.rk fresh_keys (fill 12) ≡ ok (fill 18, fill 18)
unfolding next_root toy array32 bytes_beq dh kdf_root hkdf
reply-root = refl

fresh_keys-new : is_current sender.dhr fresh_keys.public_key ≡ false
unfolding is_current bytes_beq
fresh_keys-new = refl

fresh_keys-unseen : Map.lookup fresh_keys.public_key sender.seen ≡ none
unfolding Map.lookup bytes_beq
fresh_keys-unseen = refl

-- The peer behind that message.
pub first_given :
    (t : State) × (decrypt toy (some (fill 6)) first_seen (1 ∷ []) peer ≡ (ok (words 1), t))
    × Tracks toy (fill 17) (fill 12) 0 t
    × ((start' : Bytes) × IsAhead toy start' fresh_keys alice_keys t sender)
first_given =
    first_of_chain toy toy-IsAgreement (fill 17) alice_keys bob_keys fresh_keys sender peer
      (some (fill 6)) first_seen 1 (words 1) (1 ∷ []) (fill 18) (fill 18) sender-IsAhead
      peer-IsValid peer-CanFinish first_seen-IsGenuine
      (record { near = omega arith; small = omega arith; live = chain-live 1 (omega arith) })
      fresh_keys-generated reply-root fresh_keys-new fresh_keys-unseen

first_of_chain_example :
    (t : State) × (decrypt toy (some (fill 6)) first_seen (1 ∷ []) peer ≡ (ok (words 1), t))
    × Tracks toy (fill 17) (fill 12) 0 t
    × ((start' : Bytes) × IsAhead toy start' fresh_keys alice_keys t sender)
first_of_chain_example =
    first_of_chain toy toy-IsAgreement (fill 17) alice_keys bob_keys fresh_keys sender peer
      (some (fill 6)) first_seen 1 (words 1) (1 ∷ []) (fill 18) (fill 18) sender-IsAhead
      peer-IsValid peer-CanFinish first_seen-IsGenuine
      (record { near = omega arith; small = omega arith; live = chain-live 1 (omega arith) })
      fresh_keys-generated reply-root fresh_keys-new fresh_keys-unseen

-- ===== src/Session/Runs/Archived.antt =====
-- A message for an archived session, on the keys of Ratchet/Runs.
use signal.Common.{
  ℕ, ◌≡◌, refl, Option, none, some, List, take, pos, [], ◌∷◌, Bytes, ok, err, invalid_mac, arith,
  bytes_beq,
}
use signal.Common.Map
use signal.Common.Words.{array32, put_uint32}
use signal.Crypto.{hkdf, aes_gcm_encrypt_with_nonce, aes_gcm_decrypt, aes_gcm_decrypt_combined}
use signal.Crypto.Toy.{toy, fill, head}
use signal.Ratchet.{State, Message}
use signal.Ratchet.Chain.{kdf_chain, derive_message_keys}
use signal.Ratchet.Encoding.{serialize}
use signal.Ratchet.Send.{encrypt}
use signal.Ratchet.Receive.{
  decrypt, is_current, reject_old, turn_if_new, receiving_key, decrypt_with_message_key,
}
use signal.Ratchet.Skip.{skip_message_keys}
use signal.Ratchet.Exchange.Chain.{sent_message, after_sends}
use signal.Ratchet.Runs.{sender, receiver, words}
use signal.Ratchet.Receive.Outcome.{decrypt_failure_keeps_state}
use signal.Session.{Session, clone}
use signal.Session.Record.{Record, new_record}
use signal.Session.Record.Limits.{new_record-IsBounded}
use signal.Session.Receive.{decrypt_with, try_archived, decrypt_ratchet_message, is_duplicate}
use signal.Session.Receive.Archived.{
  Passes, at_most, decrypt_ratchet_message-promotes, decrypt_ratchet_message_failure_keeps_record,
}
use signal.Session.Record.History.{Move, promote_all, retired, promote_all-retired}

abbrev session_of : State → Session ℕ
session_of state = record {
  ratchet_state = state;
  pqr_state = none;
  local_identity = record { public_key = fill 14; signing_public = fill 2 };
  remote_identity = record { public_key = fill 12; signing_public = fill 1 };
  associated_data = 1 ∷ [];
  previous_states = [];
  version = 4;
}

-- A receiver on another chain.
abbrev stranger : State
stranger = record receiver { ckr = fill 99 }

abbrev two_sessions : Record ℕ
two_sessions = record {
  current = session_of stranger;
  archived = session_of stranger ∷ session_of receiver ∷ [];
  max_archived = 2;
}

abbrev no_random : ℕ → Option Bytes
no_random n = none

abbrev message : Message
message = sent_message toy words (1 ∷ []) sender 0

abbrev after : State
after = (decrypt toy none message (1 ∷ []) receiver).1

receiver-opens : decrypt_with toy no_random message 2 (session_of receiver) ≡ (ok (words 0), after)
unfolding decrypt_with decrypt sent_message encrypt toy head bytes_beq kdf_chain array32
    derive_message_keys hkdf aes_gcm_encrypt_with_nonce aes_gcm_decrypt serialize put_uint32
    Map.lookup is_current reject_old after_sends turn_if_new skip_message_keys receiving_key
    decrypt_with_message_key aes_gcm_decrypt_combined
receiver-opens = refl

stranger-fails :
    (number : ℕ)
    → (decrypt_with toy no_random message number (session_of stranger)).0 ≡ err invalid_mac
unfolding decrypt_with decrypt sent_message encrypt toy head bytes_beq kdf_chain array32
    derive_message_keys hkdf aes_gcm_encrypt_with_nonce aes_gcm_decrypt serialize put_uint32
    Map.lookup is_current reject_old after_sends turn_if_new skip_message_keys receiving_key
    decrypt_with_message_key aes_gcm_decrypt_combined
stranger-fails number = refl

refused :
    (number : ℕ)
    → decrypt toy (no_random number) message (1 ∷ []) stranger ≡ (err invalid_mac, stranger)
unfolding decrypt_with
refused number = λ i. (
  stranger-fails number i,
  decrypt_failure_keeps_state toy none message (1 ∷ []) stranger invalid_mac (stranger-fails number)
      i,
)

stranger-Passes : (number : ℕ) → Passes toy no_random message number (session_of stranger)
stranger-Passes number = record {
  reason = invalid_mac;
  fails = stranger-fails number;
  goes_on = unfold is_duplicate in refl;
}

decrypt_ratchet_message-promotes_example :
    decrypt_ratchet_message toy no_random message two_sessions ≡ (
      ok (words 0),
      record {
        current = clone (session_of after);
        archived = at_most 2 (clone (session_of stranger) ∷ session_of stranger ∷ []);
        max_archived = 2;
      },
    )
decrypt_ratchet_message-promotes_example =
    decrypt_ratchet_message-promotes toy no_random message two_sessions (session_of stranger ∷ [])
      (session_of receiver) [] (words 0) after refl (stranger-Passes 0) (stranger-Passes 1, tt)
      receiver-opens

abbrev strangers : Record ℕ
strangers = record {
  current = session_of stranger;
  archived = session_of stranger ∷ [];
  max_archived = 1;
}

strangers-fail : (decrypt_ratchet_message toy no_random message strangers).0 ≡ err invalid_mac
unfolding decrypt_ratchet_message decrypt_with try_archived is_duplicate
strangers-fail = rw (refused 0, refused 1) refl

decrypt_ratchet_message_failure_keeps_record_example :
    (decrypt_ratchet_message toy no_random message strangers).1 ≡ strangers
decrypt_ratchet_message_failure_keeps_record_example =
    decrypt_ratchet_message_failure_keeps_record toy no_random message strangers invalid_mac
      strangers-fail

-- A session that was built twice, then the first one again: the archive has room for two.
abbrev moves : List (Move ℕ)
moves =
    record { at = none; next = session_of receiver }
    ∷ record { at = none; next = session_of after }
    ∷ record { at = none; next = session_of stranger }
    ∷ record { at = some 1; next = session_of receiver }
    ∷ []

abbrev one_session : Record ℕ
one_session = new_record (session_of stranger) (pos 2)

promote_all-retired_example :
    (promote_all moves one_session).archived ≡ take 2 (retired moves (session_of stranger) [])
unfolding new_record
promote_all-retired_example =
    promote_all-retired moves one_session (new_record-IsBounded (session_of stranger) (pos 2))
      (tt, (tt, (tt, (omega arith, tt))))

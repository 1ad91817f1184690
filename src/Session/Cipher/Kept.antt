-- ===== src/Session/Cipher/Kept.antt =====
-- A call that fails leaves the store as it was (Encrypt and Decrypt of session/cipher.go).
use signal.Common.{
  ℕ, ◌≡◌, ◌≢◌, Bool, Bool-cases, refl, ◌∙◌, ap, Option, List, Bytes, Error, Result, ok, err,
  Result-cases, inl, inr, eqb, eqb_iff, arith,
}
use signal.Common.Map.{Map}
use signal.Common.Exec.{◌>>=◌}
use signal.Crypto.{Primitives}
use signal.Crypto.Kyber.{Kem}
use signal.Keys.{IdentityKey}
use signal.Store.{Address, SessionRecord, Store}
use signal.Session.Record.{Record}
use signal.Session.Receive.{decrypt_ratchet_message}
use signal.Session.Serialize.{PqrFormat, as_invalid, serialize_record}
use signal.Session.Envelope.{
  envelope_type_pre_key, envelope_type_signal, decode_envelope, decode_ratchet_message,
  encode_envelope, encode_ratchet_message,
}
use signal.Session.Builder.{PqrDirection}
use signal.Session.Cipher.{
  Reads, load_record_required, encrypt_session, persist_record, cipher_encrypt, settle,
  decrypt_signal_message, cipher_decrypt,
}

module _ (P : Primitives) {Q : Type 0} (format : PqrFormat Q)
    (order : Map Address SessionRecord → List Address) (addr : Address) where
  -- A record that cannot be written is not stored; what follows does not fail.
  persist-keeps :
      {A : Type 0} (r : Record Q) (a : A) (m : Store) (e : Error)
      → (((persist_record P format order addr r) >>= (λ done. λ s. (ok a, s))) m).0 ≡ err e
      → (((persist_record P format order addr r) >>= (λ done. λ s. (ok a, s))) m).1 ≡ m
  unfolding persist_record
  persist-keeps r a m e h = elim (Result-cases (as_invalid (serialize_record format r))) [
    | inr (x, bad) ↦ rw bad refl
    | inl (raw, fine) ↦ absurd (ground (arith, rw fine at h))
  ]

  -- When Encrypt fails, for whatever reason, the store is as it was: the session has not moved on.
  pub cipher_encrypt_failure_keeps_store :
      (plaintext : Bytes) (m : Store) (e : Error)
      → (cipher_encrypt P format order addr plaintext m).0 ≡ err e
      → (cipher_encrypt P format order addr plaintext m).1 ≡ m
  unfolding cipher_encrypt
  cipher_encrypt_failure_keeps_store plaintext m e h =
      elim (Result-cases (load_record_required P format addr m)) [
        | inr (x, missing) ↦ rw missing refl
        | inl (r, found) ↦ elim (Result-cases (encrypt_session P plaintext r.current)) [
          | inr (x, stuck) ↦ rw (found, stuck) refl
          | inl ((msg, later), sealed) ↦
              rw (found, sealed)
                (persist-keeps (record r { current = later })
                  (encode_envelope envelope_type_signal (encode_ratchet_message msg)) m e
                  (rw (found, sealed) at h))
        ]
      ]

  settle-keeps :
      (p : Result Bytes × Record Q) (m : Store) (e : Error)
      → (settle P format order addr p m).0 ≡ err e
      → (settle P format order addr p m).1 ≡ m
  unfolding settle
  settle-keeps (ok text, r) m e h = persist-keeps r text m e h
  settle-keeps (err x, r) m e h = refl

  signal-keeps :
      (attempts : ℕ → Option Bytes) (payload : Bytes) (m : Store) (e : Error)
      → (decrypt_signal_message P format order addr attempts payload m).0 ≡ err e
      → (decrypt_signal_message P format order addr attempts payload m).1 ≡ m
  unfolding decrypt_signal_message
  signal-keeps attempts payload m e h = elim (Result-cases (decode_ratchet_message payload)) [
    | inr (x, bad) ↦ rw bad refl
    | inl (msg, decoded) ↦ elim (Result-cases (load_record_required P format addr m)) [
      | inr (x, missing) ↦ rw (decoded, missing) refl
      | inl (r, found) ↦
          rw (decoded, found)
            (settle-keeps (decrypt_ratchet_message P attempts msg r) m e (rw (decoded, found) at h))
    ]
  ]

module _ (P : Primitives) (K : Kem) (verify : IdentityKey → Bytes → Bytes → Bool) {Q : Type 0}
    (format : PqrFormat Q) (new_pqr : Bytes → PqrDirection → Result Q)
    (order : Map Address SessionRecord → List Address) (addr : Address) where
  -- When Decrypt fails on anything but the envelope of a pre-key message, for whatever reason, the store is as it was:
  -- no key was used up, and no session moved on or was promoted.
  pub cipher_decrypt_failure_keeps_store :
      (random : Reads) (input : Bytes) (m : Store) (e : Error)
      → ((payload : Bytes) → decode_envelope input ≢ ok (envelope_type_pre_key, payload))
      → (cipher_decrypt P K verify format new_pqr order addr random input m).0 ≡ err e
      → (cipher_decrypt P K verify format new_pqr order addr random input m).1 ≡ m
  unfolding cipher_decrypt
  cipher_decrypt_failure_keeps_store random input m e other h =
      elim (Result-cases (decode_envelope input)) [
        | inr (x, bad) ↦ rw bad refl
        | inl ((msg_type, payload), decoded) ↦
            elim (Bool-cases (eqb msg_type envelope_type_signal)) [
              | inl signal ↦
                  rw (decoded, signal)
                    (signal-keeps P format order addr random.attempts payload m e
                      (rw (decoded, signal) at h))
              | inr no_signal ↦ elim (Bool-cases (eqb msg_type envelope_type_pre_key)) [
                | inr unknown ↦ rw (decoded, no_signal, unknown) refl
                | inl pre_key ↦
                    let same : msg_type ≡ envelope_type_pre_key =
                      (eqb_iff msg_type envelope_type_pre_key).0 pre_key in
                    absurd (other payload (decoded ∙ ap (λ t. ok (t, payload)) same))
              ]
            ]
      ]

-- ===== src/Session/Cipher/Consumed.antt =====
-- What a pre-key message that does not decrypt changes (decryptPreKeyMessage of session/prekey_cipher.go).
use signal.Common.{
  ℕ, ◌≡◌, refl, none, some, List, Bytes, Error, Result, ok, err, eqb, length, false, true, Bool,
}
use signal.Common.Map.{Map}
use signal.Crypto.{Primitives}
use signal.Crypto.Kyber.{Kem}
use signal.Keys.{IdentityKey}
use signal.Ratchet.{Message}
use signal.Ratchet.Receive.{decrypt}
use signal.Store.{Address, SessionRecord, Store, receiving}
use signal.Store.Identities.{is_trusted_identity}
use signal.Store.PreKeys.{load_pre_key}
use signal.X3dh.{Message as InitialMessage}
use signal.X3dh.Serialize.{deserialize_message}
use signal.Session.{Session}
use signal.Session.Serialize.{PqrFormat, as_invalid}
use signal.Session.Envelope.{envelope_type_pre_key, decode_envelope, decode_ratchet_message}
use signal.Session.Builder.{PqrDirection, builder_process_pre_key_message}
use signal.Session.Builder.Consumed.{builder-consumes}
use signal.Session.Builder.Trusted.{builder_process_pre_key_message-trusted}
use signal.Session.Cipher.{
  Reads, load_record_optional, decrypt_first, accept, try_record, has_ciphertext,
  decrypt_pre_key_message, cipher_decrypt,
}

module _ (P : Primitives) (K : Kem) (verify : IdentityKey → Bytes → Bytes → Bool) {Q : Type 0}
    (new_pqr : Bytes → PqrDirection → Result Q) (addr : Address) where
  -- A pre-key message arrives at an address without a record. Its parts parse, its ciphertext is not empty, it names a
  -- one-time pre-key, and the builder succeeds on it (for which its identity must be trusted and its signed pre-key
  -- stored and not expired), but its ratchet message does not decrypt in the session that was built. Then Decrypt
  -- returns the error of that decryption and leaves the store as the builder left it: the one-time pre-key is gone from
  -- it, and the identity that the message claims is trusted at the address in it.
  pub cipher_decrypt-consumes :
      (format : PqrFormat Q) (order : Map Address SessionRecord → List Address) (random : Reads)
      (input payload ad : Bytes) (initial : InitialMessage) (msg : Message) (id : ℕ) (s : Session Q)
      (m t : Store) (e : Error)
      → decode_envelope input ≡ ok (envelope_type_pre_key, payload)
      → deserialize_message P payload ≡ ok initial
      → eqb (length initial.ciphertext) 0 ≡ false
      → decode_ratchet_message initial.ciphertext ≡ ok msg
      → load_record_optional P format addr m ≡ ok none
      → initial.pre_key_id ≡ some id
      → builder_process_pre_key_message P K verify new_pqr addr random.builder random.now initial m
        ≡ (ok (s, ad), t)
      → (decrypt P random.first msg s.associated_data s.ratchet_state).0 ≡ err e
      → (cipher_decrypt P K verify format new_pqr order addr random input m ≡ (err e, t))
        × (load_pre_key id t ≡ none)
        × (is_trusted_identity addr (some initial.identity_key) receiving t ≡ true)
  unfolding cipher_decrypt decrypt_pre_key_message has_ciphertext try_record accept decrypt_first
      as_invalid
  cipher_decrypt-consumes format order random input payload ad initial msg id s m t e decoded parsed
        some_text inner no_record names built fails =
      (
        rw (decoded, parsed, some_text, inner, no_record, built, fails) refl,
        builder-consumes P K verify new_pqr addr random.builder random.now id initial m t s ad names
            built,
        (builder_process_pre_key_message-trusted P K verify new_pqr addr random.builder random.now
            initial m t s ad built).1,
      )

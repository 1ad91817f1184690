-- ===== src/Session/Builder/Trusted.antt =====
-- What the session builder asks of identities and pre-keys (session/builder.go).
use signal.Common.{
  ℕ, ◌≡◌, refl, sym, ap, subst, ◌∙◌, Bool, true, false, some, Bytes, Result, ok, err,
  untrusted_identity, Bool-cases, inl, inr, or_fail, or_fail-ok, Result-bind-ok, pre_key_not_found,
}
use signal.Common.Exec.{lift, bind-ok}
use signal.Crypto.{Primitives}
use signal.Crypto.Kyber.{Kem}
use signal.Keys.{IdentityKey, SignedPreKey}
use signal.Keys.Bundle.{PreKeyBundle}
use signal.Store.{Store, Address, sending, receiving, Direction}
use signal.Store.Identities.{get_identity_key_pair, is_trusted_identity, save_identity}
use signal.Store.Identities.Trust.{save_identity-trusts}
use signal.Store.PreKeys.{load_signed_pre_key, signed_pre_key_expired}
use signal.X3dh.{Message}
use signal.X3dh.Responder.{process_initial_message}
use signal.Ratchet.Init.{initialize_state}
use signal.Session.{Session, new_session}
use signal.Session.Builder.{
  PqrDirection, Entropy, init_session_pqr, require_trusted, require_signed_pre_key,
  builder_process_pre_key_bundle, builder_process_pre_key_message,
}

require_trusted-ok :
    (addr : Address) (key : IdentityKey) (direction : Direction) (m t : Store)
    → require_trusted addr key direction m ≡ (ok tt, t)
    → (is_trusted_identity addr (some key) direction m ≡ true) × (t ≡ m)
unfolding require_trusted
require_trusted-ok addr key direction m t e =
    elim (Bool-cases (is_trusted_identity addr (some key) direction m)) [
      | inl trusted ↦ (trusted, sym (ap (λ r. r.1) (rw trusted at e)))
      | inr refused ↦ absurd (cc (rw refused at e))
    ]

require_signed_pre_key-ok :
    (id now : ℕ) (signed : SignedPreKey) (m : Store)
    → (require_signed_pre_key id now m).0 ≡ ok signed
    → (load_signed_pre_key id m ≡ some signed)
      × (signed_pre_key_expired (some signed) now m ≡ false)
unfolding require_signed_pre_key
require_signed_pre_key-ok id now signed m e =
    let (found, loaded, rest) =
      Result-bind-ok (or_fail (load_signed_pre_key id m) pre_key_not_found) _ signed e in
    elim (Bool-cases (signed_pre_key_expired (some found) now m)) [
      | inl expired ↦ absurd (cc (rw expired at rest))
      | inr fresh ↦
          let same : found ≡ signed = cc (rw fresh at rest) in
          (
            or_fail-ok (load_signed_pre_key id m) pre_key_not_found found loaded ∙ ap some same,
            subst (λ k. signed_pre_key_expired (some k) now m ≡ false) same fresh,
          )
    ]

module _ (P : Primitives) (K : Kem) (verify : IdentityKey → Bytes → Bytes → Bool) {Q : Type 0}
    (new_pqr : Bytes → PqrDirection → Result Q) (addr : Address) (random : Entropy) where
  -- For an identity that the store does not trust at the address, the builder makes no session and leaves the store
  -- as it was: no pre-key is used and no identity saved, neither for a bundle nor for an initial message.
  pub builder-untrusted :
      (now : ℕ) (bundle : PreKeyBundle) (msg : Message) (m : Store)
      → is_trusted_identity addr (some bundle.identity_key) sending m ≡ false
      → is_trusted_identity addr (some msg.identity_key) receiving m ≡ false
      → (builder_process_pre_key_bundle P K verify new_pqr addr random bundle m
          ≡ (err untrusted_identity, m))
        × (builder_process_pre_key_message P K verify new_pqr addr random now msg m
            ≡ (err untrusted_identity, m))
  unfolding builder_process_pre_key_bundle builder_process_pre_key_message require_trusted
  builder-untrusted now bundle msg m of_bundle of_msg = (rw of_bundle refl, rw of_msg refl)

  -- Where the builder makes a session of an initial message, the sender's identity was trusted and is trusted then, and
  -- the signed pre-key was stored and not expired.
  pub builder_process_pre_key_message-trusted :
      (now : ℕ) (msg : Message) (m t : Store) (s : Session Q) (ad : Bytes)
      → builder_process_pre_key_message P K verify new_pqr addr random now msg m ≡ (ok (s, ad), t)
      → (is_trusted_identity addr (some msg.identity_key) receiving m ≡ true)
        × (is_trusted_identity addr (some msg.identity_key) receiving t ≡ true)
        × ((signed : SignedPreKey) × (load_signed_pre_key msg.signed_pre_key_id m ≡ some signed)
            × (signed_pre_key_expired (some signed) now m ≡ false))
  unfolding builder_process_pre_key_message
  builder_process_pre_key_message-trusted now msg m t s ad e =
      let key = msg.identity_key in
      let (trusted, m2, e2, r2) = bind-ok (require_trusted addr key receiving) _ m e in
      let (signed, m3, e3, r3) =
        bind-ok (require_signed_pre_key msg.signed_pre_key_id now) _ m2 r2 in
      let (result, m4, e4, r4) =
        bind-ok (process_initial_message P K (get_identity_key_pair m) signed msg) _ m3 r3 in
      let (state, m5, e5, r5) =
        bind-ok (lift (initialize_state P result false random.ratchet random.next_ratchet)) _ m4
          r4 in
      let (session, m6, e6, r6) =
        bind-ok
          (lift (
            init_session_pqr new_pqr result false
              (new_session state (get_identity_key_pair m).public_key key result.associated_data)))
          _ m5 r5 in
      let (before, same) = require_trusted-ok addr key receiving m m2 e2 in
      let last : save_identity addr (some key) m6 ≡ t = ap (λ r. r.1) r6 in
      let asked =
        subst (λ x. (require_signed_pre_key msg.signed_pre_key_id now x).0 ≡ ok signed) same
          (ap (λ r. r.0) e3) in
      let (loaded, fresh) = require_signed_pre_key-ok msg.signed_pre_key_id now signed m asked in
      (
        before,
        subst (λ x. is_trusted_identity addr (some key) receiving x ≡ true) last
            (save_identity-trusts addr receiving m6 key),
        (signed, loaded, fresh),
      )

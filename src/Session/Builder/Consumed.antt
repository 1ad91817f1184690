-- ===== src/Session/Builder/Consumed.antt =====
-- The builder uses up the one-time pre-key of an initial message (session/builder.go).
use signal.Common.{ℕ, ◌≡◌, refl, ap, ◌∙◌, subst, none, some, Bytes, Result, ok, false, Bool}
use signal.Common.Exec.{lift, bind-ok}
use signal.Crypto.{Primitives}
use signal.Crypto.Kyber.{Kem}
use signal.Keys.{IdentityKey}
use signal.Ratchet.Init.{initialize_state}
use signal.Store.{Address, Store, receiving}
use signal.Store.Identities.{get_identity_key_pair, save_identity}
use signal.Store.PreKeys.{load_pre_key}
use signal.X3dh.{Message as InitialMessage}
use signal.X3dh.Responder.{process_initial_message}
use signal.X3dh.Responder.Once.{process_initial_message-consumes}
use signal.Session.{Session, new_session}
use signal.Session.Builder.{
  PqrDirection, Entropy, init_session_pqr, require_trusted, require_signed_pre_key,
  builder_process_pre_key_message,
}

load_pre_key-save_identity :
    (id : ℕ) (addr : Address) (key : IdentityKey) (m : Store)
    → load_pre_key id (save_identity addr (some key) m) ≡ load_pre_key id m
unfolding load_pre_key save_identity
load_pre_key-save_identity id addr key m = refl

module _ (P : Primitives) (K : Kem) (verify : IdentityKey → Bytes → Bytes → Bool) {Q : Type 0}
    (new_pqr : Bytes → PqrDirection → Result Q) (addr : Address) where
  -- The builder leaves the store without the one-time pre-key that the message names.
  pub builder-consumes :
      (random : Entropy) (now id : ℕ) (msg : InitialMessage) (m t : Store) (s : Session Q)
      (ad : Bytes)
      → msg.pre_key_id ≡ some id
      → builder_process_pre_key_message P K verify new_pqr addr random now msg m ≡ (ok (s, ad), t)
      → load_pre_key id t ≡ none
  unfolding builder_process_pre_key_message
  builder-consumes random now id msg m t s ad names e =
      let key = msg.identity_key in
      let (trusted, m2, e2, r2) = bind-ok (require_trusted addr key receiving) _ m e in
      let (signed, m3, e3, r3) =
        bind-ok (require_signed_pre_key msg.signed_pre_key_id now) _ m2 r2 in
      let (result, m4, e4, r4) =
        bind-ok (process_initial_message P K (get_identity_key_pair m) signed msg) _ m3 r3 in
      let (state, m5, e5, r5) =
        bind-ok (lift (initialize_state P result false random.ratchet random.next_ratchet)) _ m4
          r4 in
      let (session, m6, e6, r6) =
        bind-ok
          (lift (
            init_session_pqr new_pqr result false
              (new_session state (get_identity_key_pair m).public_key key result.associated_data)))
          _ m5 r5 in
      let last : save_identity addr (some key) m4 ≡ t =
        ap (λ x. save_identity addr (some key) x) (ap (λ r. r.1) e5 ∙ ap (λ r. r.1) e6)
        ∙ ap (λ r. r.1) r6 in
      let gone =
        process_initial_message-consumes P K (get_identity_key_pair m) signed msg id result m3 m4
          names e4 in
      subst (λ x. load_pre_key id x ≡ none) last (load_pre_key-save_identity id addr key m4 ∙ gone)

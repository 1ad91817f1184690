-- ===== src/Session/Builder.antt =====
-- session/builder.go and session/pqr.go, on the in-memory store. `new_pqr` is spqr.NewState with the default chain
-- parameters. What the parts read from the random source is in `Entropy`.
pub mod Trusted
pub mod Consumed
use signal.Common.{
  ℕ, Bool, true, false, not, Option, none, some, Bytes, Result, ok, err, untrusted_identity,
  pre_key_not_found, pre_key_expired, or_fail, ◌>>=◌ as bind, if◌then◌else◌,
}
use signal.Common.Exec.{Exec, lift, get, modify, ◌>>=◌, ◌>>◌}
use signal.Crypto.{Primitives}
use signal.Crypto.Kyber.{Kem}
use signal.Keys.{IdentityKey, IdentityKeyPair, SignedPreKey}
use signal.Keys.Bundle.{PreKeyBundle}
use signal.Store.{Store, Address, sending, receiving, Direction}
use signal.Store.Identities.{get_identity_key_pair, is_trusted_identity, save_identity}
use signal.Store.PreKeys.{load_signed_pre_key, signed_pre_key_expired}
use signal.X3dh.{Message, Outcome}
use signal.X3dh.Initiator.{process_pre_key_bundle}
use signal.X3dh.Responder.{process_initial_message}
use signal.Ratchet.Init.{initialize_state}
use signal.Session.{Session, new_session}
use signal.Session.Version.{set_session_ciphertext_version, ciphertext_version_from_x3dh}

-- spqr.Direction
pub data PqrDirection : Type 0 where
  a2b b2a : PqrDirection

pub record Entropy : Type 0 where
  pub ephemeral : Option Bytes
  pub coins : Bytes
  pub ratchet : Option Bytes
  pub next_ratchet : Option Bytes

module _ {Q : Type 0} (new_pqr : Bytes → PqrDirection → Result Q) where
  pqr_of : Option Bytes → Bool → Session Q → Result (Session Q)
  pqr_of none is_initiator s = ok s
  pqr_of (some key) is_initiator s =
      bind (new_pqr key (if is_initiator then a2b else b2a))
        λ q. ok (record s { pqr_state = some q })

  unfoldable pub init_session_pqr : Outcome → Bool → Session Q → Result (Session Q)
  unfolding pqr_of
  init_session_pqr result is_initiator s = pqr_of result.pqr_key is_initiator s

-- The identity is trusted, or the call ends.
require_trusted : Address → IdentityKey → Direction → Exec Store (Unit {0})
require_trusted addr key direction m =
    if not (is_trusted_identity addr (some key) direction m)
    then (err untrusted_identity, m)
    else (ok tt, m)

-- The signed pre-key of the message, not expired.
require_signed_pre_key : ℕ → ℕ → Exec Store SignedPreKey
require_signed_pre_key id now m = (
  bind (or_fail (load_signed_pre_key id m) pre_key_not_found) λ signed.
      if signed_pre_key_expired (some signed) now m then err pre_key_expired else ok signed,
  m,
)

module _ (P : Primitives) (K : Kem) (verify : IdentityKey → Bytes → Bytes → Bool) {Q : Type 0}
    (new_pqr : Bytes → PqrDirection → Result Q) (addr : Address) where
  unfoldable pub builder_process_pre_key_bundle :
      Entropy → PreKeyBundle → Exec Store (Session Q × Message)
  unfolding require_trusted
  builder_process_pre_key_bundle random bundle = do
    m ← get
    require_trusted addr bundle.identity_key sending
    result ← lift (
        process_pre_key_bundle P K verify (get_identity_key_pair m) bundle random.ephemeral
          random.coins)
    state ← lift (initialize_state P result true random.ratchet random.next_ratchet)
    session ← lift (
        init_session_pqr new_pqr result true (
          new_session state (get_identity_key_pair m).public_key bundle.identity_key
            result.associated_data))
    modify (save_identity addr (some bundle.identity_key))
    lift (
        ok (
          set_session_ciphertext_version (ciphertext_version_from_x3dh result.initial_message)
              session,
          result.initial_message,
        ))

  unfoldable pub builder_process_pre_key_message :
      Entropy → ℕ → Message → Exec Store (Session Q × Bytes)
  unfolding require_trusted require_signed_pre_key
  builder_process_pre_key_message random now msg = do
    m ← get
    require_trusted addr msg.identity_key receiving
    signed ← require_signed_pre_key msg.signed_pre_key_id now
    result ← process_initial_message P K (get_identity_key_pair m) signed msg
    state ← lift (initialize_state P result false random.ratchet random.next_ratchet)
    session ← lift (
        init_session_pqr new_pqr result false (
          new_session state (get_identity_key_pair m).public_key msg.identity_key
            result.associated_data))
    modify (save_identity addr (some msg.identity_key))
    lift (
        ok (
          set_session_ciphertext_version (ciphertext_version_from_x3dh msg) session,
          result.associated_data,
        ))

-- ===== src/X3dh/Agreed/Both.antt =====
-- Both sides of the handshake (x3dh/initiator.go, x3dh/responder.go) derive the same.
use signal.Common.{
  Bool, ◌≡◌, refl, ap, ◌∙◌, none, some, Option, [], Bytes, ok, arith, inl, inr, ◌⊎◌, Result-bind-ok,
}
use signal.Crypto.{Primitives, KeyPair, generate_key_pair}
use signal.Crypto.Laws.{IsAgreement, IsKeyPair, generate_key_pair-IsKeyPair}
use signal.Crypto.Kyber.{Kem}
use signal.Crypto.Kyber.RoundTrip.{IsKem}
use signal.Keys.{IdentityKey, IdentityKeyPair, SignedPreKey}
use signal.Keys.Bundle.{PreKeyBundle, validate}
use signal.Store.{Store}
use signal.X3dh.{Message, Outcome}
use signal.X3dh.Derive.{Secrets, associated_data}
use signal.X3dh.Initiator.{process_pre_key_bundle, initiator_ikm, initiator_secrets}
use signal.X3dh.Responder.{process_initial_message}
use signal.X3dh.Agreed.{
  identity_pair, KyberServed, Serves, counterpart, consumed, ikm-split, use_one_time-agrees,
  secrets-agree, consumed-served,
}

-- The outcome at the initiator, from what it computes.
unfoldable pub outcome_of : IdentityKeyPair → PreKeyBundle → KeyPair → Secrets → Bytes → Outcome
outcome_of identity bundle ephemeral secrets kyber_ciphertext = record {
  shared_secret = secrets.root;
  initial_chain_key = secrets.chain;
  pqr_key = secrets.pqr;
  associated_data = associated_data identity.public_key bundle.identity_key;
  remote_identity = bundle.identity_key;
  initial_message = record {
    identity_key = identity.public_key;
    ephemeral_key = ephemeral.public_key;
    pre_key_id = bundle.pre_key_id;
    signed_pre_key_id = bundle.signed_pre_key_id;
    kyber_pre_key_id = bundle.kyber_pre_key_id;
    kyber_ciphertext = kyber_ciphertext;
    ciphertext = [];
  };
  local_ephemeral = some ephemeral;
  local_ratchet_key = none;
  remote_ratchet_key = some bundle.signed_pre_key_public;
}

-- What a successful key agreement of the initiator went through.
pub record Initiated (P : Primitives) (K : Kem) (identity : IdentityKeyPair) (b : PreKeyBundle)
    (entropy : Option Bytes) (coins : Bytes) (xa : Outcome) : Type 0 where
  pub eph : KeyPair
  pub generated : generate_key_pair P entropy ≡ ok eph
  pub ikm : Bytes
  pub agreed : initiator_ikm P identity eph b ≡ ok ikm
  pub secrets : Secrets
  pub ciphertext : Bytes
  pub derived :
      initiator_secrets P K b.kyber_pre_key_id b.kyber_pre_key_public coins ikm
      ≡ ok (secrets, ciphertext)
  pub same : xa ≡ outcome_of identity b eph secrets ciphertext

process_pre_key_bundle-Initiated :
    (P : Primitives) (K : Kem) (verify : IdentityKey → Bytes → Bytes → Bool)
    (identity : IdentityKeyPair) (b : PreKeyBundle) (entropy : Option Bytes) (coins : Bytes)
    (xa : Outcome)
    → process_pre_key_bundle P K verify identity b entropy coins ≡ ok xa
    → Initiated P K identity b entropy coins xa
unfolding process_pre_key_bundle outcome_of
process_pre_key_bundle-Initiated P K verify identity b entropy coins xa made =
    let (_, _, r1) = Result-bind-ok (validate P verify b) _ xa made in
    let (eph, e2, r2) = Result-bind-ok (generate_key_pair P entropy) _ xa r1 in
    let (ikm, e3, r3) = Result-bind-ok (initiator_ikm P identity eph b) _ xa r2 in
    let ((secrets, ct), e4, r4) =
      Result-bind-ok (initiator_secrets P K b.kyber_pre_key_id b.kyber_pre_key_public coins ikm) _
        xa r3 in
    record {
      eph = eph;
      generated = e2;
      ikm = ikm;
      agreed = e3;
      secrets = secrets;
      ciphertext = ct;
      derived = e4;
      same = cc r4;
    }

module _ {P : Primitives} (agrees : IsAgreement P) {K : Kem} (kem : IsKem K) where
  responds :
      (ida idb : IdentityKeyPair) (signed : SignedPreKey) (spk : KeyPair) (b : PreKeyBundle)
      (entropy : Option Bytes) (coins : Bytes) (m : Store) (eph : KeyPair) (ikm : Bytes)
      (secrets : Secrets) (ct : Bytes)
      → IsKeyPair P (identity_pair ida)
      → Serves P K idb signed spk b m
      → IsKeyPair P eph
      → initiator_ikm P ida eph b ≡ ok ikm
      → initiator_secrets P K b.kyber_pre_key_id b.kyber_pre_key_public coins ikm ≡ ok (secrets, ct)
      → process_initial_message P K idb signed (outcome_of ida b eph secrets ct).initial_message m
        ≡ (ok (counterpart ida spk (outcome_of ida b eph secrets ct)), consumed b.pre_key_id m)
  unfolding process_initial_message outcome_of counterpart
  responds ida idb signed spk b entropy coins m eph ikm secrets ct ha serves he agreed derived =
      let msg : Message = (outcome_of ida b eph secrets ct).initial_message in
      let (base, common, more) =
        ikm-split agrees ida idb eph spk b msg ikm ha serves.identity_is_pair he
          serves.signed_is_pair serves.identity_key serves.signed_public refl refl agreed in
      let used = use_one_time-agrees agrees eph b base ikm m he serves.one_time more in
      let kyber : (b.kyber_pre_key_id ≡ none) ⊎ KyberServed K b (consumed b.pre_key_id m) =
        elim serves.kyber [
          | inl absent ↦ inl absent
          | inr s ↦ inr (consumed-served b.pre_key_id s)
        ] in
      let both =
        secrets-agree kem P b msg coins ikm ct secrets (consumed b.pre_key_id m) kyber refl refl
          derived in
      ground
        (arith, serves.signed_id, serves.signed_has_pair, serves.identity_key, common, used, both)

  -- When an initiator's key agreement with a bundle succeeds, and the bundle offers keys that the responder
  -- holds, the responder's key agreement on the initiator's message succeeds with the same root key, chain key,
  -- key of the triple ratchet and associated data, and with the keys that the ratchets start from; it
  -- takes the one-time pre-key that was used out of its store, and changes nothing else.
  pub process_initial_message-process_pre_key_bundle :
      (verify : IdentityKey → Bytes → Bytes → Bool) (ida idb : IdentityKeyPair)
      (signed : SignedPreKey) (spk : KeyPair) (b : PreKeyBundle) (entropy : Option Bytes)
      (coins : Bytes) (m : Store) (xa : Outcome)
      → IsKeyPair P (identity_pair ida)
      → Serves P K idb signed spk b m
      → process_pre_key_bundle P K verify ida b entropy coins ≡ ok xa
      → (eph : KeyPair) × (generate_key_pair P entropy ≡ ok eph)
        × (xa.local_ephemeral ≡ some eph)
        × (xa.initial_message.ephemeral_key ≡ eph.public_key)
        × (xa.remote_ratchet_key ≡ some spk.public_key)
        × (process_initial_message P K idb signed xa.initial_message m
            ≡ (ok (counterpart ida spk xa), consumed b.pre_key_id m))
  process_initial_message-process_pre_key_bundle verify ida idb signed spk b entropy coins m xa ha
        serves made =
      let p = process_pre_key_bundle-Initiated P K verify ida b entropy coins xa made in
      let x : Outcome = outcome_of ida b p.eph p.secrets p.ciphertext in
      (
        p.eph,
        p.generated,
        ap Outcome.local_ephemeral p.same ∙ (unfold outcome_of in refl),
        ap (λ x. x.initial_message.ephemeral_key) p.same ∙ (unfold outcome_of in refl),
        ap Outcome.remote_ratchet_key p.same ∙ (unfold outcome_of in ap some serves.signed_public),
        rw p.same (
            responds ida idb signed spk b entropy coins m p.eph p.ikm p.secrets p.ciphertext ha
              serves (generate_key_pair-IsKeyPair P entropy p.eph p.generated) p.agreed p.derived),
      )

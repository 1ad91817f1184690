-- ===== src/X3dh/Initiator.antt =====
-- x3dh/initiator.go, with the default generators. `entropy` is read for the ephemeral key and `coins` for
-- the encapsulation.
use signal.Common.{ℕ, Bool, none, some, Option, [], ◌++◌, Bytes, Result, ok, ◌>>=◌}
use signal.Crypto.{Primitives, KeyPair, dh, generate_key_pair}
use signal.Crypto.Kyber.{Kem, kyber1024_encapsulate}
use signal.Keys.{IdentityKey, IdentityKeyPair}
use signal.Keys.Bundle.{PreKeyBundle, validate}
use signal.X3dh.{Outcome}
use signal.X3dh.Derive.{
  Secrets, derive_legacy_secret, derive_pq_secret, discontinuity, associated_data,
}

module _ (P : Primitives) where
  -- DH4 = DH(EKa, OPKb), where the bundle has a one-time pre-key
  unfoldable pub with_one_time : KeyPair → Option Bytes → Bytes → Result Bytes
  with_one_time ephemeral none ikm = ok ikm
  with_one_time ephemeral (some public) ikm = do
    dh4 ← dh P ephemeral.private_key public
    ok (ikm ++ dh4)

  unfoldable pub initiator_ikm : IdentityKeyPair → KeyPair → PreKeyBundle → Result Bytes
  unfolding with_one_time
  initiator_ikm identity ephemeral bundle = do
    dh1 ← dh P identity.private_key bundle.signed_pre_key_public
    dh2 ← dh P ephemeral.private_key bundle.identity_key.public_key
    dh3 ← dh P ephemeral.private_key bundle.signed_pre_key_public
    with_one_time ephemeral bundle.pre_key_public (dh1 ++ (dh2 ++ dh3))

module _ (P : Primitives) (K : Kem) where
  -- The secrets, and the ciphertext that goes to the responder.
  unfoldable pub initiator_secrets : Option ℕ → Bytes → Bytes → Bytes → Result (Secrets × Bytes)
  initiator_secrets none kyber_public coins ikm = do
    secrets ← derive_legacy_secret P ikm
    ok (secrets, [])
  initiator_secrets (some id) kyber_public coins ikm = do
    (kyber_ss, kyber_ct) ← kyber1024_encapsulate K kyber_public coins
    secrets ← derive_pq_secret P (discontinuity ++ (ikm ++ kyber_ss))
    ok (secrets, kyber_ct)

module _ (P : Primitives) (K : Kem) (verify : IdentityKey → Bytes → Bytes → Bool) where
  unfoldable pub process_pre_key_bundle :
      IdentityKeyPair → PreKeyBundle → Option Bytes → Bytes → Result Outcome
  unfolding initiator_ikm initiator_secrets
  process_pre_key_bundle identity bundle entropy coins = do
    valid ← validate P verify bundle
    ephemeral ← generate_key_pair P entropy
    ikm ← initiator_ikm P identity ephemeral bundle
    (secrets, kyber_ciphertext) ←
        initiator_secrets P K bundle.kyber_pre_key_id bundle.kyber_pre_key_public coins ikm
    ok (record {
      shared_secret = secrets.root;
      initial_chain_key = secrets.chain;
      pqr_key = secrets.pqr;
      associated_data = associated_data identity.public_key bundle.identity_key;
      remote_identity = bundle.identity_key;
      initial_message = record {
        identity_key = identity.public_key;
        ephemeral_key = ephemeral.public_key;
        pre_key_id = bundle.pre_key_id;
        signed_pre_key_id = bundle.signed_pre_key_id;
        kyber_pre_key_id = bundle.kyber_pre_key_id;
        kyber_ciphertext = kyber_ciphertext;
        ciphertext = [];
      };
      local_ephemeral = some ephemeral;
      local_ratchet_key = none;
      remote_ratchet_key = some bundle.signed_pre_key_public;
    })

-- ===== src/X3dh/Responder.antt =====
-- x3dh/responder.go, on the in-memory store. A signed pre-key without a key pair makes the code panic; it is
-- an error here.
pub mod Once
use signal.Common.{
  panicked, ℕ, not, none, some, Option, ◌++◌, Bytes, Result, ok, err, plain, pre_key_not_found,
  invalid_message, or_fail, ◌>>=◌ as bind, eqb, length, if◌then◌else◌,
}
use signal.Common.Exec.{Exec, lift, modify, ◌>>=◌, ◌>>◌}
use signal.Crypto.{Primitives, KeyPair, dh}
use signal.Crypto.Kyber.{Kem, kyber1024_decapsulate, KyberKeyPair}
use signal.Keys.{IdentityKeyPair, PreKey, SignedPreKey, KyberPreKey}
use signal.Store.{Store}
use signal.Store.PreKeys.{load_pre_key, remove_pre_key, load_kyber_pre_key}
use signal.X3dh.{Message, Outcome}
use signal.X3dh.Derive.{
  Secrets, derive_legacy_secret, derive_pq_secret, discontinuity, associated_data,
}

module _ (P : Primitives) where
  unfoldable pub responder_ikm : IdentityKeyPair → KeyPair → Message → Result Bytes
  responder_ikm identity signed msg =
      bind (dh P signed.private_key msg.identity_key.public_key) λ dh1.
        bind (dh P identity.private_key msg.ephemeral_key)
          λ dh2. bind (dh P signed.private_key msg.ephemeral_key) λ dh3. ok (dh1 ++ (dh2 ++ dh3))

  -- The key pair of a loaded pre-key, where there is one.
  pair_of : Option PreKey → Result KeyPair
  pair_of none = err pre_key_not_found
  pair_of (some pre) = or_fail pre.key_pair pre_key_not_found

  -- The one-time pre-key is removed as soon as it was used in the agreement.
  unfoldable pub use_one_time : Option ℕ → Bytes → Bytes → Exec Store Bytes
  unfolding pair_of
  use_one_time none ephemeral ikm m = (ok ikm, m)
  use_one_time (some id) ephemeral ikm m =
      (lift (bind (pair_of (load_pre_key id m)) λ pair. dh P pair.private_key ephemeral) >>= λ dh4.
      modify (remove_pre_key id) >> lift (ok (ikm ++ dh4)))
        m

module _ (P : Primitives) (K : Kem) where
  kyber_pair_of : Option KyberPreKey → Result KyberKeyPair
  kyber_pair_of none = err pre_key_not_found
  kyber_pair_of (some kyber) = or_fail kyber.key_pair pre_key_not_found

  pq_secrets : ℕ → Message → Bytes → Store → Result Secrets
  unfolding kyber_pair_of
  pq_secrets id msg ikm m = bind (kyber_pair_of (load_kyber_pre_key id m)) λ pair.
      bind (kyber1024_decapsulate K pair.private_key msg.kyber_ciphertext)
        λ kyber_ss. derive_pq_secret P (discontinuity ++ (ikm ++ kyber_ss))

  secrets_for : Option ℕ → Message → Bytes → Store → Result Secrets
  unfolding pq_secrets
  secrets_for none msg ikm m =
      if eqb (length msg.kyber_ciphertext) 0
      then derive_legacy_secret P ikm
      else err invalid_message
  secrets_for (some id) msg ikm m =
      if eqb (length msg.kyber_ciphertext) 0 then err invalid_message else pq_secrets id msg ikm m

  unfoldable pub responder_secrets : Message → Bytes → Exec Store Secrets
  unfolding secrets_for
  responder_secrets msg ikm m = (secrets_for msg.kyber_pre_key_id msg ikm m, m)

  check_id : SignedPreKey → Message → Result (Unit {0})
  check_id signed msg =
      if not (eqb msg.signed_pre_key_id signed.id)
      then err (plain "responder: signed pre-key id mismatch")
      else ok tt

  unfoldable pub process_initial_message :
      IdentityKeyPair → SignedPreKey → Message → Exec Store Outcome
  unfolding check_id responder_ikm use_one_time responder_secrets
  process_initial_message identity signed msg = do
    checked ← lift (check_id signed msg)
    pair ← lift (or_fail signed.key_pair panicked)
    agreed ← lift (responder_ikm P identity pair msg)
    ikm ← use_one_time P msg.pre_key_id msg.ephemeral_key agreed
    secrets ← responder_secrets msg ikm
    lift (
        ok (record {
          shared_secret = secrets.root;
          initial_chain_key = secrets.chain;
          pqr_key = secrets.pqr;
          associated_data = associated_data msg.identity_key identity.public_key;
          remote_identity = msg.identity_key;
          initial_message = msg;
          local_ephemeral = none;
          local_ratchet_key = some pair;
          remote_ratchet_key = none;
        }))

-- ===== src/X3dh/Agreed.antt =====
-- The two sides of the handshake (x3dh/initiator.go, x3dh/responder.go), step by step: what each derives from
-- keys that belong together.
pub mod Both
use signal.Common.{
  ℕ, Bool, true, false, ◌≡◌, refl, sym, ap, ◌∙◌, none, some, Option, [], ◌∷◌, ◌++◌, Bytes, Result,
  ok, err, ◌>>=◌, eqb, length, arith, inl, inr, ◌⊎◌, Result-bind-ok, Option-cases, Result-cases,
}
use signal.Common.Exec.{Exec}
use signal.Crypto.{Primitives, KeyPair, dh, generate_key_pair}
use signal.Crypto.Laws.{IsAgreement, IsKeyPair, dh_comm, generate_key_pair-IsKeyPair}
use signal.Crypto.Kyber.{
  Kem, KyberKeyPair, generate_kyber1024_key_pair, kyber1024_key_type, unmarshal_kyber_public_key,
  kyber1024_encapsulate, kyber1024_decapsulate,
}
use signal.Crypto.Kyber.RoundTrip.{IsKem, kyber1024_decapsulate-kyber1024_encapsulate}
use signal.Keys.{IdentityKey, IdentityKeyPair, PreKey, SignedPreKey, KyberPreKey}
use signal.Keys.Bundle.{PreKeyBundle, validate}
use signal.Store.{Store}
use signal.Store.PreKeys.{load_pre_key, remove_pre_key, load_kyber_pre_key}
use signal.X3dh.{Message, Outcome}
use signal.X3dh.Derive.{Secrets, derive_pq_secret, discontinuity, associated_data}
use signal.X3dh.Initiator.{process_pre_key_bundle, initiator_ikm, initiator_secrets, with_one_time}
use signal.X3dh.Responder.{process_initial_message, responder_ikm, use_one_time, responder_secrets}

abbrev pub identity_pair : IdentityKeyPair → KeyPair
identity_pair identity = record {
  public_key = identity.public_key.public_key;
  private_key = identity.private_key;
}

-- The store has the one-time pre-key that the bundle offers.
pub record OneTimeServed (P : Primitives) (b : PreKeyBundle) (m : Store) : Type 0 where
  pub id : ℕ
  pub pre : PreKey
  pub pair : KeyPair
  pub offered : b.pre_key_id ≡ some id
  pub public : b.pre_key_public ≡ some pair.public_key
  pub loaded : load_pre_key id m ≡ some pre
  pub has_pair : pre.key_pair ≡ some pair
  pub is_pair : IsKeyPair P pair

-- The store has the Kyber pre-key that the bundle offers, and it was generated.
pub record KyberServed (K : Kem) (b : PreKeyBundle) (m : Store) : Type 0 where
  pub id : ℕ
  pub kyber : KyberPreKey
  pub pair : KyberKeyPair
  pub entropy : Bytes
  pub offered : b.kyber_pre_key_id ≡ some id
  pub public : b.kyber_pre_key_public ≡ pair.public_key
  pub loaded : load_kyber_pre_key id m ≡ some kyber
  pub has_pair : kyber.key_pair ≡ some pair
  pub generated : generate_kyber1024_key_pair K entropy ≡ ok pair

-- The bundle offers keys of the responder.
pub record Serves (P : Primitives) (K : Kem) (identity : IdentityKeyPair) (signed : SignedPreKey)
    (spk : KeyPair) (b : PreKeyBundle) (m : Store) : Type 0 where
  pub identity_key : b.identity_key ≡ identity.public_key
  pub identity_is_pair : IsKeyPair P (identity_pair identity)
  pub signed_id : b.signed_pre_key_id ≡ signed.id
  pub signed_has_pair : signed.key_pair ≡ some spk
  pub signed_public : b.signed_pre_key_public ≡ spk.public_key
  pub signed_is_pair : IsKeyPair P spk
  pub one_time : ((b.pre_key_id ≡ none) × (b.pre_key_public ≡ none)) ⊎ OneTimeServed P b m
  pub kyber : (b.kyber_pre_key_id ≡ none) ⊎ KyberServed K b m

-- The outcome at the responder, from the initiator's.
unfoldable pub counterpart : IdentityKeyPair → KeyPair → Outcome → Outcome
counterpart initiator spk xa = record xa {
  remote_identity = initiator.public_key;
  local_ephemeral = none;
  local_ratchet_key = some spk;
  remote_ratchet_key = none;
}

-- The store without the one-time pre-key that was used.
unfoldable pub consumed : Option ℕ → Store → Store
consumed none m = m
consumed (some id) m = remove_pre_key id m

module _ {P : Primitives} (agrees : IsAgreement P) where
  pub ikm-split :
      (ida idb : IdentityKeyPair) (eph spk : KeyPair) (b : PreKeyBundle) (msg : Message)
      (ikm : Bytes)
      → IsKeyPair P (identity_pair ida)
      → IsKeyPair P (identity_pair idb)
      → IsKeyPair P eph
      → IsKeyPair P spk
      → b.identity_key ≡ idb.public_key
      → b.signed_pre_key_public ≡ spk.public_key
      → msg.identity_key ≡ ida.public_key
      → msg.ephemeral_key ≡ eph.public_key
      → initiator_ikm P ida eph b ≡ ok ikm
      → (base : Bytes) × (responder_ikm P idb spk msg ≡ ok base)
        × (with_one_time P eph b.pre_key_public base ≡ ok ikm)
  unfolding initiator_ikm responder_ikm
  ikm-split ida idb eph spk b msg ikm ha hb he hs identity signed from key made =
      let (d1, e1, r1) = Result-bind-ok (dh P ida.private_key b.signed_pre_key_public) _ ikm made in
      let (d2, e2, r2) = Result-bind-ok (dh P eph.private_key b.identity_key.public_key) _ ikm r1 in
      let (d3, e3, r3) = Result-bind-ok (dh P eph.private_key b.signed_pre_key_public) _ ikm r2 in
      let c1 : dh P spk.private_key ida.public_key.public_key ≡ ok d1 =
        sym (dh_comm agrees (identity_pair ida) spk ha hs)
        ∙ ap (dh P ida.private_key) (sym signed)
        ∙ e1 in
      let c2 : dh P idb.private_key eph.public_key ≡ ok d2 =
        sym (dh_comm agrees eph (identity_pair idb) he hb)
        ∙ ap (λ k. dh P eph.private_key k.public_key) (sym identity)
        ∙ e2 in
      let c3 : dh P spk.private_key eph.public_key ≡ ok d3 =
        sym (dh_comm agrees eph spk he hs) ∙ ap (dh P eph.private_key) (sym signed) ∙ e3 in
      (d1 ++ (d2 ++ d3), rw (from, key, c1, c2, c3) refl, r3)

  pub use_one_time-agrees :
      (eph : KeyPair) (b : PreKeyBundle) (base ikm : Bytes) (m : Store)
      → IsKeyPair P eph
      → ((b.pre_key_id ≡ none) × (b.pre_key_public ≡ none)) ⊎ OneTimeServed P b m
      → with_one_time P eph b.pre_key_public base ≡ ok ikm
      → use_one_time P b.pre_key_id eph.public_key base m ≡ (ok ikm, consumed b.pre_key_id m)
  unfolding with_one_time use_one_time consumed
  use_one_time-agrees eph b base ikm m he (inl (id, public)) made = ground (arith, id, public)
  use_one_time-agrees eph b base ikm m he (inr s) made =
      let same : dh P eph.private_key s.pair.public_key ≡ dh P s.pair.private_key eph.public_key =
        dh_comm agrees eph s.pair he s.is_pair in
      ground (arith, s.offered, s.public, s.loaded, s.has_pair, same)

module _ {K : Kem} (kem : IsKem K) (P : Primitives) where
  encapsulated-long :
      (pk coins ss ct : Bytes)
      → kyber1024_encapsulate K pk coins ≡ ok (ss, ct)
      → eqb (length ct) 0 ≡ false
  unfolding kyber1024_encapsulate
  encapsulated-long pk coins ss ct e = elim (Result-cases (unmarshal_kyber_public_key K pk)) [
    | inl (key, parsed) ↦ elim (Option-cases (K.encapsulate key coins)) [
      | inl failed ↦ absurd (ground (arith, parsed, failed))
      | inr ((raw, secret), given) ↦
          let same : ct ≡ kyber1024_key_type ∷ raw = ground (arith, parsed, given) in
          rw same (ground arith)
    ]
    | inr (x, bad) ↦ absurd (ground (arith, bad))
  ]

  pub secrets-agree :
      (b : PreKeyBundle) (msg : Message) (coins ikm ct : Bytes) (secrets : Secrets) (m : Store)
      → (b.kyber_pre_key_id ≡ none) ⊎ KyberServed K b m
      → msg.kyber_pre_key_id ≡ b.kyber_pre_key_id
      → msg.kyber_ciphertext ≡ ct
      → initiator_secrets P K b.kyber_pre_key_id b.kyber_pre_key_public coins ikm ≡ ok (secrets, ct)
      → responder_secrets P K msg ikm m ≡ (ok secrets, m)
  unfolding initiator_secrets responder_secrets
  secrets-agree b msg coins ikm ct secrets m (inl legacy) id cipher made =
      ground (arith, legacy, id, cipher)
  secrets-agree b msg coins ikm ct secrets m (inr s) id cipher made =
      let made' = rw (s.offered, s.public) at made in
      elim (Result-cases (kyber1024_encapsulate K s.pair.public_key coins)) [
        | inr (x, bad) ↦ absurd (ground (arith, made', bad))
        | inl ((ss, raw), sealed) ↦
            let opened =
              kyber1024_decapsulate-kyber1024_encapsulate K kem s.entropy coins ss raw s.pair
                s.generated sealed in
            let long = encapsulated-long s.pair.public_key coins ss raw sealed in
            let rest = rw sealed at made' in
            let (derived, e, both) =
              Result-bind-ok (derive_pq_secret P (discontinuity ++ (ikm ++ ss))) (λ d. ok (d, raw))
                (secrets, ct) rest in
            ground (arith, id, s.offered, cipher, s.loaded, s.has_pair, opened, long, e, both)
      ]

-- Removing a one-time pre-key leaves the Kyber pre-keys.
consumed-kyber :
    (o : Option ℕ) (id : ℕ) (m : Store)
    → load_kyber_pre_key id (consumed o m) ≡ load_kyber_pre_key id m
unfolding consumed load_kyber_pre_key remove_pre_key
consumed-kyber none id m = refl
consumed-kyber (some k) id m = refl

pub consumed-served :
    {K : Kem} {b : PreKeyBundle} {m : Store} (o : Option ℕ)
    → KyberServed K b m
    → KyberServed K b (consumed o m)
consumed-served {K} {b} {m} o s = record {
  id = s.id;
  kyber = s.kyber;
  pair = s.pair;
  entropy = s.entropy;
  offered = s.offered;
  public = s.public;
  loaded = consumed-kyber o s.id m ∙ s.loaded;
  has_pair = s.has_pair;
  generated = s.generated;
}

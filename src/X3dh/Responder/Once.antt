-- ===== src/X3dh/Responder/Once.antt =====
-- A one-time pre-key is used once (x3dh/responder.go).
use signal.Common.{
  panicked, ℕ, ◌≡◌, refl, sym, ap, ◌∙◌, Option, none, some, Bytes, Error, ok, err, or_fail,
  ◌>>=◌ as bind, arith, Result-cases, inl, inr, subst, nat_eq, eqb_iff, Result-bind-ok,
}
use signal.Common.Map
use signal.Common.Exec.{lift, bind-ok}
use signal.Crypto.{Primitives, KeyPair, dh}
use signal.Crypto.Kyber.{Kem}
use signal.Keys.{IdentityKeyPair, PreKey, SignedPreKey}
use signal.Store.{Store}
use signal.Store.PreKeys.{load_pre_key, remove_pre_key}
use signal.X3dh.{Message, Outcome}
use signal.X3dh.Responder.{
  process_initial_message, check_id, responder_ikm, use_one_time, responder_secrets, pair_of,
}

pub load_pre_key-remove_pre_key :
    (id : ℕ) (m : Store) → load_pre_key id (remove_pre_key id m) ≡ none
unfolding load_pre_key remove_pre_key
load_pre_key-remove_pre_key id m = ground (arith, Map.lookup-delete id id m.pre_keys, eqb_iff id id)

module _ (P : Primitives) where
  pair_of-some :
      (o : Option PreKey) (pair : KeyPair) → pair_of P o ≡ ok pair → (pre : PreKey) × (o ≡ some pre)
  unfolding pair_of
  pair_of-some none pair e = absurd (cc e)
  pair_of-some (some pre) pair e = (pre, refl)

  use_one_time-ok :
      (id : ℕ) (ephemeral ikm out : Bytes) (m t : Store)
      → use_one_time P (some id) ephemeral ikm m ≡ (ok out, t)
      → (pre : PreKey) × (load_pre_key id m ≡ some pre) × (t ≡ remove_pre_key id m)
  unfolding use_one_time
  use_one_time-ok id ephemeral ikm out m t e =
      let (dh4, m1, e1, r1) =
        bind-ok
          (lift (bind (pair_of P (load_pre_key id m)) λ pair. dh P pair.private_key ephemeral)) _ m
          e in
      let (pair, found, _) =
        Result-bind-ok (pair_of P (load_pre_key id m)) _ dh4 (ap (λ r. r.0) e1) in
      let (pre, loaded) = pair_of-some (load_pre_key id m) pair found in
      (pre, loaded, ap (λ r. r.1) (sym r1) ∙ ap (λ x. remove_pre_key id x) (ap (λ r. r.1) (sym e1)))

module _ (P : Primitives) (K : Kem) (identity : IdentityKeyPair) (signed : SignedPreKey)
    (msg : Message) where
  -- The store after a successful agreement is the one after the one-time pre-key was used.
  process_initial_message-uses :
      (out : Outcome) (m t : Store)
      → process_initial_message P K identity signed msg m ≡ (ok out, t)
      → (agreed ikm : Bytes) × (use_one_time P msg.pre_key_id msg.ephemeral_key agreed m
          ≡ (ok ikm, t))
  unfolding process_initial_message responder_secrets
  process_initial_message-uses out m t e =
      let (checked, m1, e1, r1) = bind-ok (lift (check_id P K signed msg)) _ m e in
      let (pair, m2, e2, r2) = bind-ok (lift (or_fail signed.key_pair panicked)) _ m1 r1 in
      let (agreed, m3, e3, r3) = bind-ok (lift (responder_ikm P identity pair msg)) _ m2 r2 in
      let (ikm, m4, e4, r4) =
        bind-ok (use_one_time P msg.pre_key_id msg.ephemeral_key agreed) _ m3 r3 in
      let (secrets, m5, e5, r5) = bind-ok (responder_secrets P K msg ikm) _ m4 r4 in
      let start : m ≡ m3 = ap (λ r. r.1) e1 ∙ ap (λ r. r.1) e2 ∙ ap (λ r. r.1) e3 in
      let last : m4 ≡ t = ap (λ r. r.1) e5 ∙ ap (λ r. r.1) r5 in
      (
        agreed,
        ikm,
        subst (λ x. use_one_time P msg.pre_key_id msg.ephemeral_key agreed x ≡ (ok ikm, t))
            (sym start)
            (subst (λ x. use_one_time P msg.pre_key_id msg.ephemeral_key agreed m3 ≡ (ok ikm, x))
              last e4),
      )

-- A key agreement that used a one-time pre-key leaves the store without it.
pub process_initial_message-consumes :
    (P : Primitives) (K : Kem) (identity : IdentityKeyPair) (signed : SignedPreKey) (msg : Message)
    (id : ℕ) (out : Outcome) (m t : Store)
    → msg.pre_key_id ≡ some id
    → process_initial_message P K identity signed msg m ≡ (ok out, t)
    → load_pre_key id t ≡ none
process_initial_message-consumes P K identity signed msg id out m t names e =
    let (agreed, ikm, used) = process_initial_message-uses P K identity signed msg out m t e in
    let (pre, loaded, removed) =
      use_one_time-ok P id msg.ephemeral_key agreed ikm m t
        (subst (λ o. use_one_time P o msg.ephemeral_key agreed m ≡ (ok ikm, t)) names used) in
    ap (load_pre_key id) removed ∙ load_pre_key-remove_pre_key id m

-- A one-time pre-key serves one message: after a key agreement that used it, every initial message that names it,
-- of whatever identities and keys, is refused.
pub process_initial_message-once :
    (P : Primitives) (K : Kem) (identity other : IdentityKeyPair) (signed another : SignedPreKey)
    (msg later : Message) (id : ℕ) (out : Outcome) (m t : Store)
    → msg.pre_key_id ≡ some id
    → later.pre_key_id ≡ some id
    → process_initial_message P K identity signed msg m ≡ (ok out, t)
    → (e : Error) × ((process_initial_message P K other another later t).0 ≡ err e)
process_initial_message-once P K identity other signed another msg later id out m t names again
      first =
    let gone = process_initial_message-consumes P K identity signed msg id out m t names first in
    elim (Result-cases (process_initial_message P K other another later t).0) [
      | inr failed ↦ failed
      | inl (out', succeeds) ↦
          let t' = (process_initial_message P K other another later t).1 in
          let (agreed', ikm', used') =
            process_initial_message-uses P K other another later out' t t'
              (λ i. (succeeds i, t')) in
          let (pre', loaded', _) = use_one_time-ok P id later.ephemeral_key agreed' ikm' t t' (
            subst (λ o. use_one_time P o later.ephemeral_key agreed' t ≡ (ok ikm', t')) again
              used') in
          absurd (cc (gone, loaded'))
    ]

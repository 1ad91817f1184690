-- ===== src/Session/Established.antt =====
-- A session from a pre-key bundle to its first message: x3dh/initiator.go, x3dh/responder.go,
-- ratchet/state.go and ratchet/message.go in the order in which session/builder.go and session/cipher.go call them.
use signal.Common.{
  Bool, true, false, ◌≡◌, ◌≢◌, refl, ap, ◌∙◌, some, Option, [], Bytes, Result, ok, arith, bytes_eq,
}
use signal.Common.Map
use signal.Common.Words.{zero_key}
use signal.Crypto.{Primitives, KeyPair, generate_key_pair}
use signal.Crypto.Laws.{IsSound, IsAgreement, IsKeyPair, generate_key_pair-IsKeyPair}
use signal.Crypto.Kyber.{Kem}
use signal.Crypto.Kyber.RoundTrip.{IsKem}
use signal.Keys.{IdentityKey, IdentityKeyPair, SignedPreKey}
use signal.Keys.Bundle.{PreKeyBundle}
use signal.Store.{Store}
use signal.X3dh.{Outcome}
use signal.X3dh.Initiator.{process_pre_key_bundle}
use signal.X3dh.Responder.{process_initial_message}
use signal.X3dh.Agreed.{identity_pair, Serves, counterpart, consumed}
use signal.X3dh.Agreed.Both.{process_initial_message-process_pre_key_bundle}
use signal.Ratchet.{State, Header, Message}
use signal.Ratchet.Chain.{kdf_chain, chain_key, message_key}
use signal.Ratchet.Turn.{next_root}
use signal.Ratchet.Send.{encrypt}
use signal.Ratchet.Send.Facts.{CanSend, next_header, with_sent, next_sending-CanSend}
use signal.Ratchet.Receive.{decrypt, is_current}
use signal.Ratchet.Delivery.{IsGenuine}
use signal.Ratchet.Exchange.{seal-opens}
use signal.Ratchet.Agreement.{CanFinish}
use signal.Ratchet.Agreement.First.{first_of_chain}
use signal.Ratchet.Init.{initialize_state, initial}
use signal.Ratchet.Init.Agreed.{IsSameHandshake, initiated_pq, responded_pq, initial-unseen}
use signal.Ratchet.Init.Linked.{initialize-pq}

-- The outcomes of the two sides are those of one handshake.
counterpart-IsSameHandshake :
    (ida : IdentityKeyPair) (eph spk : KeyPair) (xa : Outcome)
    → xa.local_ephemeral ≡ some eph
    → xa.initial_message.ephemeral_key ≡ eph.public_key
    → xa.remote_ratchet_key ≡ some spk.public_key
    → IsSameHandshake eph spk xa (counterpart ida spk xa)
unfolding counterpart
counterpart-IsSameHandshake ida eph spk xa ephemeral key ratchet = record {
  secret = refl;
  local_ephemeral = ephemeral;
  message_key = key;
  remote_ratchet = ratchet;
  local_ratchet = refl;
}

module _ {P : Primitives} (sound : IsSound P) where
  -- The first message of a state that can send is genuine.
  pub first_sent :
      (dhs : KeyPair) (a : State) (text ad : Bytes)
      → CanSend P dhs a
      → a.ns ≡ 0
      → (msg : Message) × (encrypt P text ad a ≡ (ok msg, with_sent P a))
        × (msg.header ≡ next_header dhs a)
        × IsGenuine P a.cks dhs.public_key 0 text ad msg
  unfolding encrypt message_key chain_key
  first_sent dhs a text ad can start =
      let (msg, sealed, same, opens) =
        seal-opens sound text ad (next_header dhs a) (kdf_chain P a.cks).1 in
      (
        msg,
        ground (arith, next_sending-CanSend P can, sealed),
        same,
        record { dh = ap Header.dh same; number = ap Header.n same ∙ start; opens = opens },
      )

chain_key-zero : (P : Primitives) (start : Bytes) → chain_key P start 0 ≡ start
unfolding chain_key
chain_key-zero P start = refl

-- Right after the handshake, from the states that both sides start with.
module _ {P : Primitives} (agrees : IsAgreement P) (sound : IsSound P)
    (eph spk fresh reply : KeyPair) (xa xb : Outcome) (same : IsSameHandshake eph spk xa xb)
    (chain : Bytes) (ra ra' rb rb' re : Option Bytes) (a bob : State) where
  first_after :
      (text ad root out : Bytes)
      → IsKeyPair P eph
      → IsKeyPair P spk
      → xa.initial_chain_key ≡ some chain
      → xb.initial_chain_key ≡ some chain
      → generate_key_pair P ra ≡ ok fresh
      → initialize_state P xa true ra ra' ≡ ok a
      → initialize_state P xb false rb rb' ≡ ok bob
      → fresh.public_key ≢ eph.public_key
      → a.cks ≢ zero_key
      → generate_key_pair P re ≡ ok reply
      → reply.public_key ≢ spk.public_key
      → next_root P a.rk reply fresh.public_key ≡ ok (root, out)
      → (msg : Message) × (t : State) × ((encrypt P text ad a).0 ≡ ok msg)
        × (decrypt P re msg ad bob ≡ (ok text, t))
  unfolding initialize_state
  first_after text ad root out he hs pa pb gen ea eb distinct live made other sent =
      let ea' = rw gen at ea in
      let fresh_pair = generate_key_pair-IsKeyPair P ra fresh gen in
      let g : Result KeyPair = generate_key_pair P ra' in
      let ((va, vb), (ahead, tracks)) =
        initialize-pq agrees eph spk xa xb same he hs fresh fresh_pair g (generate_key_pair P rb)
          (generate_key_pair P rb') a bob chain ea' eb pa pb distinct in
      let (_, sa) =
        initiated_pq P (ok fresh) g xa fresh spk.public_key chain a same.remote_ratchet ea' pa
          refl in
      let sb =
        responded_pq P (generate_key_pair P rb) (generate_key_pair P rb') xb spk chain bob
          same.local_ratchet eb pb in
      let zero_ns : a.ns ≡ 0 = rw sa (unfold initial in refl) in
      let zero_pn : a.pn ≡ 0 = rw sa (unfold initial in refl) in
      let zero_nr : bob.nr ≡ 0 = rw sb (unfold initial in refl) in
      let empty : bob.skipped ≡ [] = rw sb (unfold initial in refl) in
      let can : CanSend P fresh a = record {
        has_dhs = ahead.own;
        has_chain = live;
        room = omega (arith, zero_ns);
      } in
      let (msg, written, header, genuine) = first_sent sound fresh a text ad can zero_ns in
      let pn : msg.header.pn ≡ 0 = ap Header.pn header ∙ zero_pn in
      let finish : CanFinish msg.header.pn bob = record {
        last = xb.initial_message.ephemeral_key;
        remote = rw sb (unfold initial in refl);
        small = omega (arith, pn);
        behind = omega (arith, pn, zero_nr);
        room = rw empty (omega (arith, pn));
      } in
      let (new, unseen) = initial-unseen xa fresh spk.public_key reply.public_key other in
      let (t, opened, _, _) =
        first_of_chain P agrees a.cks fresh spk reply a bob re msg 0 text ad root out ahead vb
          finish genuine
          (record {
            near = omega arith;
            small = omega arith;
            live = rw (chain_key-zero P a.cks) live;
          })
          made sent (ap (λ s. is_current s.dhr reply.public_key) sa ∙ new)
          (ap (λ s. Map.lookup reply.public_key s.seen) sa ∙ unseen) in
      (msg, t, ap (λ r. r.0) written, opened)

-- A bundle with a Kyber pre-key that offers keys of the responder: when the initiator's key agreement and both
-- ratchets' initialisation succeed, the keys that are generated are new, and the key agreements of the
-- responder's turn succeed, then the responder's key agreement succeeds with the same associated data, and
-- the first message that the initiator encrypts decrypts to its text at the responder.
pub session-first_message :
    {P : Primitives} (agrees : IsAgreement P) (sound : IsSound P) {K : Kem} (kem : IsKem K)
    (verify : IdentityKey → Bytes → Bytes → Bool) (ida idb : IdentityKeyPair)
    (signed : SignedPreKey) (spk eph fresh reply : KeyPair) (b : PreKeyBundle)
    (coins chain text root out : Bytes) (m : Store) (xa : Outcome)
    (re0 ra ra' rb rb' re : Option Bytes) (a bob : State)
    → IsKeyPair P (identity_pair ida)
    → Serves P K idb signed spk b m
    → process_pre_key_bundle P K verify ida b re0 coins ≡ ok xa
    → generate_key_pair P re0 ≡ ok eph
    → xa.initial_chain_key ≡ some chain
    → generate_key_pair P ra ≡ ok fresh
    → initialize_state P xa true ra ra' ≡ ok a
    → initialize_state P (counterpart ida spk xa) false rb rb' ≡ ok bob
    → fresh.public_key ≢ eph.public_key
    → a.cks ≢ zero_key
    → generate_key_pair P re ≡ ok reply
    → reply.public_key ≢ spk.public_key
    → next_root P a.rk reply fresh.public_key ≡ ok (root, out)
    → (process_initial_message P K idb signed xa.initial_message m
        ≡ (ok (counterpart ida spk xa), consumed b.pre_key_id m))
      × ((msg : Message) × (t : State) × ((encrypt P text xa.associated_data a).0 ≡ ok msg)
          × (decrypt P re msg (counterpart ida spk xa).associated_data bob ≡ (ok text, t)))
unfolding counterpart
session-first_message {P} agrees sound {K} kem verify ida idb signed spk eph fresh reply b coins
      chain text root out m xa re0 ra ra' rb rb' re a bob ha serves made generated pq gen ea eb
      distinct live made' other sent =
    let (e, generated', local, key, remote, responds) =
      process_initial_message-process_pre_key_bundle agrees kem verify ida idb signed spk b re0
        coins m xa ha serves made in
    let is : e ≡ eph = cc (generated, generated') in
    let same : IsSameHandshake eph spk xa (counterpart ida spk xa) =
      counterpart-IsSameHandshake ida eph spk xa (local ∙ ap some is)
        (key ∙ ap KeyPair.public_key is) remote in
    (
      responds,
      first_after agrees sound eph spk fresh reply xa (counterpart ida spk xa) same chain ra ra' rb
          rb' re a bob text xa.associated_data root out
          (generate_key_pair-IsKeyPair P re0 eph generated) serves.signed_is_pair pq
          (unfold counterpart in pq) gen ea eb distinct live made' other sent,
    )

-- ===== src/SenderKeys/Group/Joined.antt =====
-- A distribution message that the builder of one member makes and that of another processes (senderkeys/builder.go).
use signal.Common.{
  ℕ, zero, suc, ◌+◌, ◌<◌, ◌≡◌, refl, ap, ◌∙◌, true, false, some, List, [], ◌∷◌, Bytes, ok, eqb, ltb,
  Bool, if◌then◌else◌, length, take, length-take, All, ◌^◌, arith, string_eq,
}
use signal.Common.Map.{lookup-insert}
use signal.Crypto.{Primitives, KeyPair}
use signal.Crypto.Padding.{BlockCipher}
use signal.Crypto.Xeddsa.{Edwards}
use signal.Store.{Store, SenderKeyName, SenderKeyRecord, sender_key_name_eq}
use signal.Store.SenderKeys.{load_sender_key, store_sender_key}
use signal.SenderKeys.{State, Archive}
use signal.SenderKeys.Record.{answers, current, filtered, set_state}
use signal.SenderKeys.Record.Limits.{set_state-current}
use signal.SenderKeys.Record.Present.{current-present}
use signal.SenderKeys.Chain.{chain_at}
use signal.SenderKeys.Serialize.{serialize_archive, states_or_default}
use signal.SenderKeys.Serialize.RoundTrip.{
  IsStorable, IsStorableArchive, deserialize_archive-serialize_archive,
}
use signal.SenderKeys.Message.{Protowire, serialize_distribution_message}
use signal.SenderKeys.Message.Parse.Distribution.{
  IsDistribution, parse_distribution_message-serialize,
}
use signal.SenderKeys.Group.{
  load_archive, persist_archive, parse_archive, with_limit, or_error, distribution_of,
  received_state, StateEntropy, builder_create, builder_process, create_if_empty, own_distribution,
  group_encrypt, group_decrypt,
}
use signal.SenderKeys.Group.Delivery.{IsTrusty, IsSending}
use signal.SenderKeys.Group.Delivered.{group_decrypt-group_encrypt}

All-if :
    (b : Bool) (xs ys : List State)
    → All IsStorable xs
    → All IsStorable ys
    → All IsStorable (if b then xs else ys)
All-if true xs ys hx hy = hx
All-if false xs ys hx hy = hy

All-filtered :
    (next : State) (states : List State)
    → All IsStorable states
    → All IsStorable (filtered next states)
unfolding filtered
All-filtered next [] h = h
All-filtered next (s ∷ states) (fits, h) =
    let rest = All-filtered next states h in
    All-if (answers next.distribution_id next.key_id s) _ _ rest (fits, rest)

All-take : (n : ℕ) (states : List State) → All IsStorable states → All IsStorable (take n states)
All-take zero states h = tt
All-take (suc n) [] h = h
All-take (suc n) (s ∷ states) (fits, h) = (fits, All-take n states h)

serialize_archive_some : (r : Archive) → eqb (length (serialize_archive r)) 0 ≡ false
unfolding serialize_archive
serialize_archive_some r = ground arith

with_limit_same : (r : Archive) → eqb r.max_states 0 ≡ false → with_limit r ≡ r
unfolding with_limit states_or_default
with_limit_same r some_room = rw some_room refl

found_again :
    (name : SenderKeyName) (rec : SenderKeyRecord) (m : Store)
    → load_sender_key name (store_sender_key name (some rec) m) ≡ some rec
unfolding load_sender_key store_sender_key
found_again name rec m =
    lookup-insert name name rec m.sender_keys
    ∙ rw ((sender_key_name_eq.beq_iff name name).1 refl) refl

-- A record that is written to the store is loaded as it was.
pub load_archive-persist_archive :
    (name : SenderKeyName) (r : Archive) (m : Store)
    → IsStorableArchive r
    → load_archive name (persist_archive name r m).1 ≡ (ok r, (persist_archive name r m).1)
unfolding load_archive persist_archive parse_archive or_error
load_archive-persist_archive name r m h =
    rw
      (
        found_again name (record { data_bytes = serialize_archive r }) m,
        serialize_archive_some r,
        deserialize_archive-serialize_archive r h,
        with_limit_same r h.some_room,
      )
      refl

-- A state that fits is added to a record that fits.
set_state-IsStorableArchive :
    (next : State) (r : Archive)
    → IsStorable next
    → IsStorableArchive r
    → IsStorableArchive (set_state next r)
unfolding set_state
set_state-IsStorableArchive next r fits h =
    let others = filtered next r.states in
    let all : All IsStorable (next ∷ others) = (fits, All-filtered next r.states h.states) in
    record {
      states =
          All-if (ltb r.max_states (length (next ∷ others))) _ _
            (All-take r.max_states (next ∷ others) all) all;
      some_room = h.some_room;
      small_max = h.small_max;
      room = ground (arith, length-take r.max_states (next ∷ others));
    }

received_state-IsStorable :
    (P : Primitives) (cur : State)
    → IsDistribution P (distribution_of cur)
    → IsStorable (received_state (distribution_of cur))
unfolding received_state distribution_of
received_state-IsStorable P cur h = record {
  distribution_id = h.distribution_id;
  key_id = h.key_id;
  chain_iteration = h.iteration;
  chain_seed = h.chain_key;
  signing_public = h.signing_public;
  private = refl;
  keys = tt;
  few_keys = omega arith;
}

module _ (P : Primitives) (C : BlockCipher) (E : Edwards) (W : Protowire)
    (trusty : IsTrusty P C E W) where
  create_current :
      (name : SenderKeyName) (m : Store) (r : Archive) (cur : State) (entropy : StateEntropy)
      → load_archive name m ≡ (ok r, m)
      → current r ≡ ok cur
      → cur.has_private ≡ true
      → builder_create P C E W name entropy m
        ≡ (ok (serialize_distribution_message W (distribution_of cur)), m)
  unfolding builder_create create_if_empty own_distribution load_archive
  create_current name m r cur entropy loaded now private =
      let parsed : parse_archive (load_sender_key name m) ≡ ok r = ap (λ p. p.0) loaded in
      rw (parsed, current-present r cur now, now, private) refl

  process_lem :
      (name : SenderKeyName) (m : Store) (q : Archive) (cur : State)
      → load_archive name m ≡ (ok q, m)
      → IsDistribution P (distribution_of cur)
      → builder_process P C E W name (serialize_distribution_message W (distribution_of cur)) m
        ≡ persist_archive name (set_state (received_state (distribution_of cur)) q) m
  unfolding builder_process load_archive persist_archive
  process_lem name m q cur loaded fits =
      let parsed : parse_archive (load_sender_key name m) ≡ ok q = ap (λ p. p.0) loaded in
      rw (parse_distribution_message-serialize trusty.wire P (distribution_of cur) fits, parsed)
        refl

  -- A member who joins reads what follows. The sender's current state sends: it has the library's version, sizes that the
  -- Go types fix, a valid public key with its private key, and an iteration of its chain below the last uint32. Create then makes
  -- a distribution message and leaves the sender's store; a receiver whose record fits its serialized form
  -- processes it, whatever states the record had; and from the store that this leaves the receiver decrypts what the sender
  -- encrypts next. The text is shorter than 4 GiB less 16 bytes, and the libraries do what they document.
  pub group_decrypt-builder_process :
      (name peer : SenderKeyName) (sender receiver : Store) (r q : Archive) (cur : State)
      (kp : KeyPair) (origin text random : Bytes) (entropy : StateEntropy)
      → load_archive name sender ≡ (ok r, sender)
      → current r ≡ ok cur
      → IsSending P kp cur
      → cur.signing_public ≡ kp.public_key
      → cur.chain_seed ≡ (chain_at P origin cur.chain_iteration).seed
      → IsDistribution P (distribution_of cur)
      → load_archive peer receiver ≡ (ok q, receiver)
      → IsStorableArchive q
      → length text + 16 < 2 ^ 32
      → (distribution input : Bytes) × (joined sender' receiver' : Store) × (builder_create P C E W
            name entropy sender
          ≡ (ok distribution, sender))
        × (builder_process P C E W peer distribution receiver ≡ (ok tt, joined))
        × (group_encrypt P C E W name (some random) text sender ≡ (ok input, sender'))
        × (group_decrypt P C E W peer input joined ≡ (ok text, receiver'))
  unfolding received_state distribution_of persist_archive
  group_decrypt-builder_process name peer sender receiver r q cur kp origin text random entropy
        load_s now sending public chain fits load_r storable short =
      let member = received_state (distribution_of cur) in
      let kept = set_state member q in
      let joined = (persist_archive peer kept receiver).1 in
      let room : 0 < q.max_states = ground (arith, storable.some_room) in
      let loaded : load_archive peer joined ≡ (ok kept, joined) =
        load_archive-persist_archive peer kept receiver
          (set_state-IsStorableArchive member q (received_state-IsStorable P cur fits) storable) in
      let (input, sender', receiver', encrypted, decrypted) =
        group_decrypt-group_encrypt P C E W trusty name peer sender joined r kept cur member kp
          origin text random load_s now sending loaded (set_state-current member q room).1
          (record {
            message_version = sending.message_version;
            signing_public = public;
            sender_chain = chain;
            chain = chain;
            behind = omega arith;
            near = omega arith;
          })
          short in
      (
        serialize_distribution_message W (distribution_of cur),
        input,
        joined,
        sender',
        receiver',
        create_current name sender r cur entropy load_s now sending.has_private,
        process_lem peer receiver q cur load_r fits,
        encrypted,
        decrypted,
      )

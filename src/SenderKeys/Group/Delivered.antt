-- ===== src/SenderKeys/Group/Delivered.antt =====
-- From the store of a sender to the store of a receiver (senderkeys/cipher.go).
use signal.Common.{
  ℕ, ◌+◌, ◌≤◌, ◌<◌, ◌≡◌, refl, true, eqb, ap, ◌∙◌, some, [], ◌∷◌, Bytes, ok, length, ◌^◌, arith,
}
use signal.Crypto.{Primitives, KeyPair}
use signal.Crypto.Padding.{BlockCipher}
use signal.Crypto.Xeddsa.{Edwards, xeddsa_verify}
use signal.Store.{Store, SenderKeyName}
use signal.Store.SenderKeys.{load_sender_key}
use signal.SenderKeys.{State, Archive, SenderMessageKey, max_message_keys_per_state}
use signal.SenderKeys.Record.{current, state}
use signal.SenderKeys.Record.Present.{current-present, state-present}
use signal.SenderKeys.Chain.{chain_at, sender_message_key}
use signal.SenderKeys.Cipher.{get_sender_message_key}
use signal.SenderKeys.Cipher.Keys.{get_sender_message_key-ahead, chain_at-iteration}
use signal.SenderKeys.Message.{
  Protowire, SenderKeyMessage, signed_bytes, serialize_sender_key_message,
}
use signal.SenderKeys.Message.Parse.RoundTrip.{parse_sender_key_message-serialize}
use signal.SenderKeys.Group.{
  load_archive, parse_archive, current_or_none, found_or_none, decrypt_state, group_encrypt,
  group_decrypt, keep_success, or_error, put_current, put_found, persist_archive,
}
use signal.SenderKeys.Group.Delivery.{IsTrusty, IsSending, IsMessageOf, encrypt_state-IsMessageOf}

-- The receiver's state for the sender: the same public key, and the same chain, not ahead of the sender's and at most 2000
-- messages behind it.
pub record IsReceiving (P : Primitives) (kp : KeyPair) (origin : Bytes) (st rt : State)
    : Type 0 where
  pub message_version : rt.message_version ≡ 3
  pub signing_public : rt.signing_public ≡ kp.public_key
  pub sender_chain : st.chain_seed ≡ (chain_at P origin st.chain_iteration).seed
  pub chain : rt.chain_seed ≡ (chain_at P origin rt.chain_iteration).seed
  pub behind : rt.chain_iteration ≤ st.chain_iteration
  pub near : st.chain_iteration ≤ rt.chain_iteration + max_message_keys_per_state

current_or_none-current : (r : Archive) (st : State) → current r ≡ ok st → current_or_none r ≡ ok st
unfolding current_or_none or_error
current_or_none-current r st e = rw (current-present r st e, e) refl

found_or_none-state :
    (msg : SenderKeyMessage) (r : Archive) (st : State)
    → state msg.distribution_id msg.key_id r ≡ ok st
    → found_or_none msg r ≡ ok st
unfolding found_or_none or_error
found_or_none-state msg r st e = rw (state-present msg.distribution_id msg.key_id r st e, e) refl

module _ (P : Primitives) (C : BlockCipher) (E : Edwards) (W : Protowire)
    (trusty : IsTrusty P C E W) where
  chain_start :
      (origin : Bytes) (n : ℕ) (seed : Bytes)
      → seed ≡ (chain_at P origin n).seed
      → record { iteration = n; seed = seed } ≡ chain_at P origin n
  chain_start origin n seed e = ground (arith, e, chain_at-iteration P trusty.sound origin n)

  decrypt_state-message :
      (kp : KeyPair) (st rt t : State) (mk : SenderMessageKey) (text origin : Bytes)
      (msg : SenderKeyMessage)
      → IsReceiving P kp origin st rt
      → IsMessageOf P C E W trusty kp st mk text msg
      → get_sender_message_key P st.chain_iteration rt ≡ (ok mk, t)
      → decrypt_state P C E W msg (signed_bytes W msg) rt ≡ (ok text, t)
  unfolding decrypt_state or_error
  decrypt_state-message kp st rt t mk text origin msg h m key =
      let version : eqb msg.message_version rt.message_version ≡ true =
        ground (arith, m.sendable.message_version, h.message_version) in
      let verified : xeddsa_verify E rt.signing_public msg.signature (signed_bytes W msg ∷ [])
          ≡ true =
        ap (λ k. xeddsa_verify E k msg.signature (signed_bytes W msg ∷ [])) h.signing_public
        ∙ m.signed in
      let given : get_sender_message_key P msg.iteration rt ≡ (ok mk, t) =
        ap (λ n. get_sender_message_key P n rt) m.iteration ∙ key in
      rw (version, verified, given, m.opens) refl

  -- The current state of the sender's record sends: it has the library's version, sizes that the Go types fix, its private
  -- key, and an iteration below the last uint32. A receiver whose record has a state with its identifiers, its
  -- public key, and its chain at most 2000 messages behind decrypts what the sender encrypts, in whichever stores the
  -- two records are. The text is shorter than 4 GiB less 16 bytes, and the libraries do what they document.
  pub group_decrypt-group_encrypt :
      (name peer : SenderKeyName) (sender receiver : Store) (r q : Archive) (st rt : State)
      (kp : KeyPair) (origin text random : Bytes)
      → load_archive name sender ≡ (ok r, sender)
      → current r ≡ ok st
      → IsSending P kp st
      → load_archive peer receiver ≡ (ok q, receiver)
      → state st.distribution_id st.key_id q ≡ ok rt
      → IsReceiving P kp origin st rt
      → length text + 16 < 2 ^ 32
      → (input : Bytes) × (sender' receiver' : Store) × (group_encrypt P C E W name
            (some random)
            text
            sender
          ≡ (ok input, sender'))
        × (group_decrypt P C E W peer input receiver ≡ (ok text, receiver'))
  unfolding group_encrypt group_decrypt keep_success persist_archive load_archive
  group_decrypt-group_encrypt name peer sender receiver r q st rt kp origin text random load_s cur
        sending load_r found receiving short =
      let (mk, t, key, made, next_iteration, next_seed) =
        get_sender_message_key-ahead P trusty.sound origin st.chain_iteration rt receiving.chain
          receiving.behind receiving.near sending.iteration in
      let start = chain_start origin st.chain_iteration st.chain_seed receiving.sender_chain in
      let (msg, later, encrypted, m) =
        encrypt_state-IsMessageOf P C E W trusty kp st mk text random sending short
          (ap (sender_message_key P) start ∙ made) in
      let parsed_s : parse_archive (load_sender_key name sender) ≡ ok r = ap (λ p. p.0) load_s in
      let parsed_r : parse_archive (load_sender_key peer receiver) ≡ ok q = ap (λ p. p.0) load_r in
      let there : state msg.distribution_id msg.key_id q ≡ ok rt =
        ap (λ id. state id msg.key_id q) m.distribution_id
        ∙ ap (λ k. state st.distribution_id k q) m.key_id
        ∙ found in
      (
        serialize_sender_key_message W msg,
        (persist_archive name (record r { states = put_current later r.states }) sender).1,
        (persist_archive peer (record q { states = put_found msg t q.states }) receiver).1,
        rw (parsed_s, current_or_none-current r st cur, encrypted) refl,
        rw
            (
              parse_sender_key_message-serialize trusty.wire msg m.sendable,
              parsed_r,
              found_or_none-state msg q rt there,
              decrypt_state-message kp st rt t mk text origin msg receiving m key,
            )
            refl,
      )

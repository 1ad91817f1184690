-- ===== src/SenderKeys/Group/Delivery.antt =====
-- What a member of the group encrypts, another decrypts (senderkeys/cipher.go).
use signal.Common.{
  ℕ, ◌+◌, ◌<◌, ◌≡◌, refl, true, some, List, [], ◌∷◌, Bytes, ok, length, take, drop, length-take,
  length-drop, arith, subst, replicate, ◌^◌,
}
use signal.Common.Words.{IsU32, max_uint32}
use signal.Crypto.{Primitives, KeyPair, key_pair_from_private}
use signal.Crypto.Laws.{IsSound, hkdf_total}
use signal.Crypto.Padding.{BlockCipher, aes_cbc_decrypt, is_key_size}
use signal.Crypto.Padding.RoundTrip.{IsCipher, aes_cbc_encrypt-opens}
use signal.Crypto.Xeddsa.{Edwards, xeddsa_verify}
use signal.Crypto.Xeddsa.Laws.{IsCoding, IsGroup, IsBirational}
use signal.Crypto.Xeddsa.Verified.{xeddsa_verify-xeddsa_sign}
use signal.SenderKeys.{State, SenderChainKey, SenderMessageKey}
use signal.SenderKeys.Chain.{derive, next, sender_message_key, new_sender_message_key, group_info}
use signal.SenderKeys.Message.{Protowire, SenderKeyMessage, signed_bytes}
use signal.SenderKeys.Message.Parse.Laws.{IsWire}
use signal.SenderKeys.Message.Parse.RoundTrip.{IsSendable}
use signal.SenderKeys.Group.{encrypt_state, or_error, sized_signature}

-- The keys of a message have the sizes that the cipher takes.
record IsSized (mk : SenderMessageKey) (n : ℕ) : Type 0 where
  pub iteration : mk.iteration ≡ n
  pub key : is_key_size (length mk.cipher_key) ≡ true
  pub iv : length mk.iv ≡ 16

module _ (P : Primitives) (sound : IsSound P) where
  new_sender_message_key-IsSized :
      (n : ℕ) (seed : Bytes) (mk : SenderMessageKey)
      → new_sender_message_key P n seed ≡ ok mk
      → IsSized mk n
  unfolding new_sender_message_key is_key_size
  new_sender_message_key-IsSized n seed mk made =
      let (okm, e, l) = hkdf_total sound seed [] group_info 48 (omega arith) in
      let built : SenderMessageKey = record {
        iteration = n;
        seed = seed;
        iv = take 16 okm;
        cipher_key = drop 16 okm;
      } in
      let exact : ok built ≡ ok mk = rw e at made in
      let same : built ≡ mk = cc in
      let key : length (drop 16 okm) ≡ 32 = omega (arith, l, length-drop 16 okm) in
      subst (λ k. IsSized k n) same
        (record { iteration = refl; key = rw key refl; iv = omega (arith, l, length-take 16 okm) })

  sender_message_key-IsSized :
      (k : SenderChainKey) (mk : SenderMessageKey)
      → sender_message_key P k ≡ ok mk
      → IsSized mk k.iteration
  unfolding sender_message_key
  sender_message_key-IsSized k mk made = new_sender_message_key-IsSized k.iteration _ mk made

next_total :
    (P : Primitives) (k : SenderChainKey)
    → k.iteration < max_uint32
    → (later : SenderChainKey) × (next P k ≡ ok later)
unfolding next
next_total P k small =
    (record { iteration = k.iteration + 1; seed = derive P 2 k }, ground (arith, small))

-- A state that sends: the library's version, the sizes that the Go types fix, and the private key of the public one.
pub record IsSending (P : Primitives) (kp : KeyPair) (st : State) : Type 0 where
  pub has_private : st.has_private ≡ true
  pub message_version : st.message_version ≡ 3
  pub distribution_id : length st.distribution_id ≡ 16
  pub key_id : IsU32 st.key_id
  pub iteration : st.chain_iteration < max_uint32
  pub private : length st.signing_private_seed ≡ 32
  pub pair : key_pair_from_private P st.signing_private_seed ≡ ok kp

-- What is relied on of the libraries that the cipher calls.
pub record IsTrusty (P : Primitives) (C : BlockCipher) (E : Edwards) (W : Protowire) : Type 0 where
  pub sound : IsSound P
  pub cipher : IsCipher C
  pub coding : IsCoding E
  pub group : IsGroup E
  pub birational : IsBirational P E
  pub wire : IsWire W

module _ (P : Primitives) (C : BlockCipher) (E : Edwards) (W : Protowire)
    (trusty : IsTrusty P C E W) where
  -- What a message of a state is, to a receiver that has its message key.
  pub record IsMessageOf (kp : KeyPair) (st : State) (mk : SenderMessageKey) (text : Bytes)
      (msg : SenderKeyMessage) : Type 0 where
    pub sendable : IsSendable msg
    pub distribution_id : msg.distribution_id ≡ st.distribution_id
    pub key_id : msg.key_id ≡ st.key_id
    pub iteration : msg.iteration ≡ st.chain_iteration
    pub signed : xeddsa_verify E kp.public_key msg.signature (signed_bytes W msg ∷ []) ≡ true
    pub opens : aes_cbc_decrypt C mk.cipher_key mk.iv msg.ciphertext ≡ ok text

  pub encrypt_state-IsMessageOf :
      (kp : KeyPair) (st : State) (mk : SenderMessageKey) (text random : Bytes)
      → IsSending P kp st
      → length text + 16 < 2 ^ 32
      → sender_message_key P (record { iteration = st.chain_iteration; seed = st.chain_seed })
        ≡ ok mk
      → (msg : SenderKeyMessage) × (later : State) × (encrypt_state P C E W (some random) text st
          ≡ ok (msg, later))
        × IsMessageOf kp st mk text msg
  unfolding encrypt_state or_error sized_signature signed_bytes
  encrypt_state-IsMessageOf kp st mk text random h short made =
      let sized =
        sender_message_key-IsSized P trusty.sound
          (record { iteration = st.chain_iteration; seed = st.chain_seed }) mk made in
      let (c, enc, opens, bound) =
        aes_cbc_encrypt-opens C trusty.cipher mk.cipher_key mk.iv text sized.key sized.iv in
      let unsigned : SenderKeyMessage = record {
        message_version = st.message_version;
        distribution_id = st.distribution_id;
        key_id = st.key_id;
        iteration = mk.iteration;
        ciphertext = c;
        signature = replicate 64 0;
      } in
      let pieces : List Bytes = signed_bytes W unsigned ∷ [] in
      let (sig, sign, sig_sized, verified) =
        xeddsa_verify-xeddsa_sign P E trusty.coding trusty.group trusty.birational
          st.signing_private_seed random pieces pieces kp h.private h.pair refl in
      let (chain, moved) =
        next_total P (record { iteration = st.chain_iteration; seed = st.chain_seed })
          h.iteration in
      (
        record unsigned { signature = sig },
        record st { chain_iteration = chain.iteration; chain_seed = chain.seed },
        rw (h.has_private, made, enc, sign, sig_sized, moved) refl,
        record {
          sendable = record {
            message_version = h.message_version;
            distribution_id = h.distribution_id;
            key_id = h.key_id;
            iteration = omega (arith, sized.iteration, h.iteration);
            ciphertext = omega (arith, bound, short);
            signature = sig_sized;
          };
          distribution_id = refl;
          key_id = refl;
          iteration = sized.iteration;
          signed = verified;
          opens = opens;
        },
      )

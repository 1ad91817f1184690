-- ===== src/SenderKeys/Group.antt =====
-- The cipher of senderkeys/cipher.go and the builder of senderkeys/builder.go on the in-memory store, for one name of a
-- group and a sender.
pub mod Delivery
pub mod Toy
pub mod Runs
pub mod Delivered
pub mod Joined
use signal.Common.{
  Option, none, some, List, [], ◌∷◌, Bytes, Result, ok, err, ◌>>=◌ as bind, invalid_message,
  invalid_signature, no_sender_key, panicked, Error, not, false, replicate, eqb, length,
  if◌then◌else◌, pos,
}
use signal.Common.Exec.{Exec, pure, lift, modify, ◌>>=◌, ◌>>◌}
use signal.Crypto.{Primitives}
use signal.Crypto.Padding.{BlockCipher, aes_cbc_encrypt, aes_cbc_decrypt}
use signal.Crypto.Xeddsa.{Edwards, xeddsa_sign, xeddsa_verify}
use signal.Store.{Store, SenderKeyName, SenderKeyRecord}
use signal.Store.SenderKeys.{load_sender_key, store_sender_key}
use signal.SenderKeys.{State, Archive, SenderChainKey}
use signal.SenderKeys.Record.{new_record, is_empty, current, state, answers, set_state}
use signal.SenderKeys.Chain.{next, sender_message_key}
use signal.SenderKeys.Cipher.{get_sender_message_key}
use signal.SenderKeys.Generate.{new_sending_state}
use signal.SenderKeys.Serialize.{serialize_archive, deserialize_archive, states_or_default}
use signal.SenderKeys.Message.{
  Protowire, SenderKeyMessage, DistributionMessage, sender_key_signature_size, signed_bytes,
  serialize_sender_key_message, serialize_distribution_message,
}
use signal.SenderKeys.Message.Parse.{parse_sender_key_message, parse_distribution_message}

-- fmt.Errorf("%w: ...: %v", signalerrors.X, err): the error becomes X. A panic stays one.
or_error {ℓ} : {A : Type ℓ} → Error → Result A → Result A
or_error e (ok a) = ok a
or_error e (err panicked) = err panicked
or_error e (err x) = err e

with_limit : Archive → Archive
with_limit r = record r { max_states = states_or_default r.max_states }

parse_archive : Option SenderKeyRecord → Result Archive
unfolding or_error with_limit
parse_archive none = ok (new_record (pos 0))
parse_archive (some rec) =
    if eqb (length rec.data_bytes) 0
    then ok (new_record (pos 0))
    else bind (or_error invalid_message (deserialize_archive rec.data_bytes))
        (λ r. ok (with_limit r))

unfoldable pub load_archive : SenderKeyName → Exec Store Archive
unfolding parse_archive
load_archive name m = (parse_archive (load_sender_key name m), m)

unfoldable pub persist_archive : SenderKeyName → Archive → Exec Store (Unit {0})
persist_archive name r =
    modify (store_sender_key name (some (record { data_bytes = serialize_archive r })))

current_or_none : Archive → Result State
unfolding or_error
current_or_none r = if is_empty r then err no_sender_key else or_error no_sender_key (current r)

found_or_none : SenderKeyMessage → Archive → Result State
unfolding or_error
found_or_none msg r =
    if is_empty r
    then err no_sender_key
    else or_error no_sender_key (state msg.distribution_id msg.key_id r)

-- The state that `current` gave is changed in place.
put_current : State → List State → List State
put_current later [] = []
put_current later (s ∷ rest) = later ∷ rest

-- The state that `state` gave is changed in place.
put_found : SenderKeyMessage → State → List State → List State
put_found msg later [] = []
put_found msg later (s ∷ rest) =
    let others = put_found msg later rest in
    if answers msg.distribution_id msg.key_id s then later ∷ rest else s ∷ others

unfoldable pub distribution_of : State → DistributionMessage
distribution_of st = record {
  message_version = st.message_version;
  distribution_id = st.distribution_id;
  key_id = st.key_id;
  iteration = st.chain_iteration;
  chain_key = st.chain_seed;
  signing_public = st.signing_public;
}

unfoldable pub received_state : DistributionMessage → State
received_state msg = record {
  message_version = msg.message_version;
  distribution_id = msg.distribution_id;
  key_id = msg.key_id;
  chain_iteration = msg.iteration;
  chain_seed = msg.chain_key;
  signing_public = msg.signing_public;
  signing_private_seed = replicate 32 0;
  has_private = false;
  message_keys = [];
}

-- The four random reads of newSendingState.
pub record StateEntropy : Type 0 where
  pub for_id : Option Bytes
  pub for_distribution : Option Bytes
  pub for_seed : Option Bytes
  pub for_signing : Option Bytes

module _ (P : Primitives) (C : BlockCipher) (E : Edwards) (W : Protowire) where
  sized_signature : Bytes → Result Bytes
  sized_signature signature =
      if not (eqb (length signature) sender_key_signature_size)
      then err invalid_message
      else ok signature

  -- The message of the chain's next iteration, and the state behind it. `random` is what the signature reads.
  unfoldable pub encrypt_state : Option Bytes → Bytes → State → Result (SenderKeyMessage × State)
  unfolding or_error sized_signature
  encrypt_state random plaintext st =
      let chain_key : SenderChainKey = record {
        iteration = st.chain_iteration;
        seed = st.chain_seed;
      } in
      if not st.has_private
      then err invalid_message
      else bind (sender_message_key P chain_key) λ mk.
        bind (or_error invalid_message (aes_cbc_encrypt C mk.cipher_key mk.iv plaintext))
          λ ciphertext.
            let unsigned : SenderKeyMessage = record {
              message_version = st.message_version;
              distribution_id = st.distribution_id;
              key_id = st.key_id;
              iteration = mk.iteration;
              ciphertext = ciphertext;
              signature = replicate sender_key_signature_size 0;
            } in
            bind
              (or_error invalid_message
                (xeddsa_sign E random st.signing_private_seed (signed_bytes W unsigned ∷ [])))
              λ made. bind (sized_signature made) λ signature. bind (next P chain_key) λ later. ok (
                record unsigned { signature = signature },
                record st { chain_iteration = later.iteration; chain_seed = later.seed },
              )

  -- The state moves on, unless the message is refused first.
  unfoldable pub decrypt_state : SenderKeyMessage → Bytes → Exec State Bytes
  unfolding or_error
  decrypt_state msg signed st =
      if not (eqb msg.message_version st.message_version)
      then (err invalid_message, st)
      else if not (xeddsa_verify E st.signing_public msg.signature (signed ∷ []))
      then (err invalid_signature, st)
      else (get_sender_message_key P msg.iteration >>= λ mk.
            lift (or_error invalid_message (aes_cbc_decrypt C mk.cipher_key mk.iv msg.ciphertext)))
          st

  module _ (name : SenderKeyName) where
    unfoldable pub group_encrypt : Option Bytes → Bytes → Exec Store Bytes
    unfolding load_archive persist_archive current_or_none put_current encrypt_state
        serialize_sender_key_message
    group_encrypt random plaintext = do
      r ← load_archive name
      st ← lift (current_or_none r)
      (msg, later) ← lift (encrypt_state random plaintext st)
      persist_archive name (record r { states = put_current later r.states })
      lift (ok (serialize_sender_key_message W msg))

    -- The record is written back with the state that a success leaves.
    keep_success : SenderKeyMessage → Archive → Result Bytes × State → Exec Store Bytes
    unfolding persist_archive put_found
    keep_success msg r (ok text, later) =
        persist_archive name (record r { states = put_found msg later r.states }) >> lift (ok text)
    keep_success msg r (err e, later) = lift (err e)

    unfoldable pub group_decrypt : Bytes → Exec Store Bytes
    unfolding load_archive keep_success found_or_none decrypt_state parse_sender_key_message
    group_decrypt input = do
      (msg, signed) ← lift (parse_sender_key_message W input)
      r ← load_archive name
      st ← lift (found_or_none msg r)
      keep_success msg r (decrypt_state msg signed st)

    new_state : StateEntropy → Result State
    unfolding new_sending_state
    new_state e = new_sending_state P e.for_id e.for_distribution e.for_seed e.for_signing

    add_state : State → Archive → Exec Store Archive
    unfolding persist_archive
    add_state st r = persist_archive name (set_state st r) >> pure (set_state st r)

    create_if_empty : StateEntropy → Archive → Exec Store Archive
    unfolding new_state add_state
    create_if_empty entropy r =
        if is_empty r then (lift (new_state entropy) >>= λ st. add_state st r) else pure r

    own_distribution : State → Result Bytes
    unfolding distribution_of serialize_distribution_message
    own_distribution cur =
        if not cur.has_private
        then err invalid_message
        else ok (serialize_distribution_message W (distribution_of cur))

    unfoldable pub builder_create : StateEntropy → Exec Store Bytes
    unfolding load_archive create_if_empty own_distribution
    builder_create entropy = do
      r ← load_archive name
      kept ← create_if_empty entropy r
      cur ← lift (current kept)
      lift (own_distribution cur)

    unfoldable pub builder_rotate : StateEntropy → Exec Store Bytes
    unfolding load_archive new_state add_state distribution_of serialize_distribution_message
    builder_rotate entropy = do
      r ← load_archive name
      st ← lift (new_state entropy)
      kept ← add_state st r
      lift (ok (serialize_distribution_message W (distribution_of st)))

    unfoldable pub builder_process : Bytes → Exec Store (Unit {0})
    unfolding load_archive received_state persist_archive parse_distribution_message
    builder_process distribution = do
      msg ← lift (parse_distribution_message W P distribution)
      r ← load_archive name
      persist_archive name (set_state (received_state msg) r)

-- ===== src/SenderKeys/Serialize.antt =====
-- senderkeys/serialize.go: a record as bytes. What stands at data[pos:] is the list that is left.
pub mod RoundTrip
pub mod Runs
use signal.Common.{
  ℕ, zero, suc, ◌+◌, ◌-◌, Bool, true, false, not, ◌&&◌, ◌||◌, List, [], ◌∷◌, ◌++◌, Bytes, bytes_beq,
  Result, ok, err, ◌>>=◌, invalid_message, eqb, ltb, length, take, drop, replicate, if◌then◌else◌,
}
use signal.Common.Words.{put_uint16, put_uint32}
use signal.Common.Reader.{Reader, cut, read_byte, read_uint16, read_uint32}
use signal.SenderKeys.{State, MessageKey, Archive, max_message_keys_per_state}
use signal.SenderKeys.Record.{default_max_states}
use signal.SenderKeys.Generate.{sender_key_message_version}

-- "SIGK"
abbrev record_serialize_magic : Bytes
record_serialize_magic = b'S' ∷ b'I' ∷ b'G' ∷ b'K' ∷ []

abbrev record_serialize_version : ℕ
record_serialize_version = 2

abbrev record_min_size : ℕ
record_min_size = 4 + 1 + 2 + 2

abbrev pub distribution_id_size : ℕ
distribution_id_size = 16

abbrev pub sender_key_seed_size : ℕ
sender_key_seed_size = 32

unfoldable pub states_or_default : ℕ → ℕ
states_or_default n = if eqb n 0 then default_max_states else n

private_bytes : Bool → Bytes → Bytes
private_bytes true seed = 1 ∷ seed
private_bytes false seed = 0 ∷ []

-- The last keys, as many as are kept.
last_keys : List MessageKey → List MessageKey
last_keys keys =
    if ltb max_message_keys_per_state (length keys)
    then drop (length keys - max_message_keys_per_state) keys
    else keys

key_bytes : List MessageKey → Bytes
key_bytes [] = []
key_bytes (mk ∷ keys) = put_uint32 mk.iteration ++ (mk.seed ++ key_bytes keys)

unfoldable pub state_bytes : State → Bytes → Bytes
unfolding private_bytes last_keys key_bytes
state_bytes st rest =
    st.message_version
    ∷ (st.distribution_id
        ++ (put_uint32 st.key_id
            ++ (put_uint32 st.chain_iteration
                ++ (st.chain_seed
                    ++ (st.signing_public
                        ++ (private_bytes st.has_private st.signing_private_seed
                            ++ (put_uint16 (length (last_keys st.message_keys))
                                ++ (key_bytes (last_keys st.message_keys) ++ rest))))))))

states_bytes : List State → Bytes
unfolding state_bytes
states_bytes [] = []
states_bytes (st ∷ states) = state_bytes st (states_bytes states)

unfoldable pub serialize_archive : Archive → Bytes
unfolding states_or_default states_bytes
serialize_archive r =
    let max = states_or_default r.max_states in
    let states = if ltb max (length r.states) then take max r.states else r.states in
    record_serialize_magic
    ++ (record_serialize_version
        ∷ (put_uint16 max ++ (put_uint16 (length states) ++ states_bytes states)))

-- The message version and the distribution's identifier, which version 1 has not.
read_ids : Bool → Reader (ℕ × Bytes)
unfolding read_byte cut
read_ids false input =
    if ltb (length input) (4 + 4 + sender_key_seed_size + 32 + 1 + 2)
    then err invalid_message
    else ok ((sender_key_message_version, replicate distribution_id_size 0), input)
read_ids true input =
    if ltb (length input) (1 + distribution_id_size + 4 + 4 + sender_key_seed_size + 32 + 1 + 2)
    then err invalid_message
    else do
      (version, b1) ← read_byte invalid_message input
      (id, rest) ← cut invalid_message distribution_id_size b1
      ok ((version, id), rest)

-- The flag and the private key.
read_private : Reader (Bool × Bytes)
unfolding cut
read_private [] = err invalid_message
read_private (flag ∷ rest) =
    if eqb flag 0
    then ok ((false, replicate 32 0), rest)
    else if eqb flag 1
    then (cut invalid_message 32 rest >>= λ cut_off. ok ((true, cut_off.0), cut_off.1))
    else err invalid_message

read_key_count : Reader ℕ
unfolding read_uint16
read_key_count input = do
  (count, rest) ← read_uint16 invalid_message input
  (if ltb max_message_keys_per_state count then err invalid_message else ok (count, rest))

read_keys : ℕ → Reader (List MessageKey)
unfolding read_uint32 cut
read_keys zero input = ok ([], input)
read_keys (suc n) input =
    if ltb (length input) (4 + sender_key_seed_size) then err invalid_message else do
      (iteration, b1) ← read_uint32 invalid_message input
      (seed, b2) ← cut invalid_message sender_key_seed_size b1
      (keys, rest) ← read_keys n b2
      ok (record { iteration = iteration; seed = seed } ∷ keys, rest)

unfoldable pub read_state : Bool → Reader State
unfolding read_ids read_private read_key_count read_keys read_uint32 cut
read_state whole input = do
  (ids, b1) ← read_ids whole input
  (key_id, b2) ← read_uint32 invalid_message b1
  (iteration, b3) ← read_uint32 invalid_message b2
  (seed, b4) ← cut invalid_message sender_key_seed_size b3
  (public, b5) ← cut invalid_message 32 b4
  (private, b6) ← read_private b5
  (count, b7) ← read_key_count b6
  (keys, rest) ← read_keys count b7
  ok (
    record {
      message_version = ids.0;
      distribution_id = ids.1;
      key_id = key_id;
      chain_iteration = iteration;
      chain_seed = seed;
      signing_public = public;
      signing_private_seed = private.1;
      has_private = private.0;
      message_keys = keys;
    },
    rest,
  )

-- Every state is read; those beyond the record's limit are dropped.
read_states : Bool → ℕ → ℕ → List State → Reader (List State)
unfolding read_state
read_states whole zero max states input = ok (states, input)
read_states whole (suc n) max states input = do
  (st, rest) ← read_state whole input
  read_states whole n max (if ltb (length states) max then states ++ (st ∷ []) else states) rest

no_trailing : Archive → Bytes → Result Archive
no_trailing r [] = ok r
no_trailing r (b ∷ rest) = err invalid_message

read_archive : Bool → Bytes → Result Archive
unfolding read_uint16 read_states states_or_default no_trailing
read_archive whole input = do
  (max, b1) ← read_uint16 invalid_message input
  (count, b2) ← read_uint16 invalid_message b1
  (states, rest) ← read_states whole count (states_or_default max) [] b2
  no_trailing (record { states = states; max_states = states_or_default max }) rest

read_version : Bytes → Result Archive
unfolding read_archive
read_version [] = err invalid_message
read_version (version ∷ rest) =
    if not (eqb version record_serialize_version) && not (eqb version 1)
    then err invalid_message
    else read_archive (eqb version record_serialize_version) rest

unfoldable pub deserialize_archive : Bytes → Result Archive
unfolding read_version
deserialize_archive input =
    if ltb (length input) record_min_size || not (bytes_beq (take 4 input) record_serialize_magic)
    then err invalid_message
    else read_version (drop 4 input)

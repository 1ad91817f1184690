-- ===== src/Spqr/Serialize.antt =====
-- serializeChain and deserializeChain of spqr/chain.go. What stands at data[pos:] is the list that is left.
pub mod RoundTrip
use signal.Common.{
  ℕ, zero, suc, ◌+◌, Option, none, some, List, [], ◌∷◌, ◌++◌, Bytes, Result, ok, err, ◌>>=◌,
  pqr_invalid_message, length, ltb, eqb, not, if◌then◌else◌, nat_eq,
}
use signal.Common.Map
use signal.Common.Map.Sorted.{sorted}
use signal.Common.Words.{put_uint32, put_uint64}
use signal.Common.Reader.{Reader, cut, read_uint32, read_uint64}
use signal.Spqr.{ChainParams, KeyHistory, ChainEpochDirection, ChainEpoch, Chain}

abbrev chain_serialize_version : ℕ
chain_serialize_version = 1

history_bytes : KeyHistory → Bytes
history_bytes [] = []
history_bytes ((idx, key) ∷ keys) = put_uint32 idx ++ (key ++ history_bytes keys)

-- appendChainDir
unfoldable pub chain_dir_bytes : ChainEpochDirection → Bytes
unfolding history_bytes
chain_dir_bytes d =
    let keys = sorted ltb d.prev in
    put_uint32 d.ctr
    ++ (put_uint32 (length d.next) ++ (d.next ++ (put_uint32 (length keys) ++ history_bytes keys)))

links_bytes : List ChainEpoch → Bytes
unfolding chain_dir_bytes
links_bytes [] = []
links_bytes (link ∷ links) =
    chain_dir_bytes link.send ++ (chain_dir_bytes link.recv ++ links_bytes links)

-- A nil chain is written as nothing.
unfoldable pub serialize_chain : Option Chain → Bytes
unfolding links_bytes
serialize_chain none = []
serialize_chain (some c) =
    chain_serialize_version
    ∷ c.dir
    ∷ (put_uint64 c.current_epoch
        ++ (put_uint64 c.send_epoch
            ++ (c.next_root
                ++ (put_uint32 c.params.max_jump
                    ++ (put_uint32 c.params.max_ooo
                        ++ (put_uint32 (length c.links) ++ links_bytes c.links))))))

read_history : ℕ → KeyHistory → Reader KeyHistory
unfolding cut read_uint32
read_history zero h input = ok (h, input)
read_history (suc n) h input = if ltb (length input) (4 + 32) then err pqr_invalid_message else do
  (idx, b1) ← read_uint32 pqr_invalid_message input
  (key, rest) ← cut pqr_invalid_message 32 b1
  read_history n (Map.insert idx key h) rest

unfoldable pub consume_chain_dir : Reader ChainEpochDirection
unfolding read_history cut read_uint32
consume_chain_dir input = if ltb (length input) (4 + 4) then err pqr_invalid_message else do
  (ctr, b1) ← read_uint32 pqr_invalid_message input
  (next_len, b2) ← read_uint32 pqr_invalid_message b1
  (next, b3) ← cut pqr_invalid_message next_len b2
  (key_count, b4) ← read_uint32 pqr_invalid_message b3
  (history, rest) ← read_history key_count [] b4
  ok (record { ctr = ctr; next = next; prev = history }, rest)

read_links : ℕ → Reader (List ChainEpoch)
unfolding consume_chain_dir
read_links zero input = ok ([], input)
read_links (suc n) input = do
  (send, b1) ← consume_chain_dir input
  (recv, b2) ← consume_chain_dir b1
  (links, rest) ← read_links n b2
  ok (record { send = send; recv = recv } ∷ links, rest)

no_trailing : Chain → Bytes → Result (Option Chain)
no_trailing c [] = ok (some c)
no_trailing c (b ∷ rest) = err pqr_invalid_message

read_chain : ℕ → Bytes → Result (Option Chain)
unfolding read_links no_trailing cut read_uint32 read_uint64
read_chain dir input =
    if ltb (length input) (8 + 8 + 32 + 4 + 4 + 4) then err pqr_invalid_message else do
      (current_epoch, b1) ← read_uint64 pqr_invalid_message input
      (send_epoch, b2) ← read_uint64 pqr_invalid_message b1
      (next_root, b3) ← cut pqr_invalid_message 32 b2
      (max_jump, b4) ← read_uint32 pqr_invalid_message b3
      (max_ooo, b5) ← read_uint32 pqr_invalid_message b4
      (link_count, b6) ← read_uint32 pqr_invalid_message b5
      (links, b7) ← read_links link_count b6
      no_trailing
          (record {
            dir = dir;
            current_epoch = current_epoch;
            send_epoch = send_epoch;
            next_root = next_root;
            params = record { max_jump = max_jump; max_ooo = max_ooo };
            links = links;
          })
          b7

-- No bytes are a nil chain.
unfoldable pub deserialize_chain : Bytes → Result (Option Chain)
unfolding read_chain
deserialize_chain [] = ok none
deserialize_chain (version ∷ []) = err pqr_invalid_message
deserialize_chain (version ∷ dir ∷ rest) =
    if not (eqb version chain_serialize_version)
    then err pqr_invalid_message
    else read_chain dir rest

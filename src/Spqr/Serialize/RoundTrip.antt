-- ===== src/Spqr/Serialize/RoundTrip.antt =====
-- A chain that is written reads back (spqr/chain.go).
use mathlib.Core.List.{append_assoc, append-nil}
use signal.Common.{
  ℕ, ◌≤◌, ◌≡◌, refl, some, List, [], ◌∷◌, ◌++◌, Bytes, ok, pqr_invalid_message, length,
  length-append, All, arith, nat_eq, ltb,
}
use signal.Common.Map
use signal.Common.Map.Sorted.{
  Distinct, fill_map, sorted, lookup-fill_map, lookup-sorted, sorted-Distinct, sorted-All,
  length-sorted,
}
use signal.Common.Words.{IsU32, IsU64, put_uint32, put_uint64, length-put_uint32, length-put_uint64}
use signal.Common.Reader.{cut-append, not_short, read_uint32-put_uint32, read_uint64-put_uint64}
use signal.Spqr.{KeyHistory, ChainEpochDirection, ChainEpoch, Chain}
use signal.Spqr.Serialize.{
  history_bytes, chain_dir_bytes, links_bytes, serialize_chain, read_history, consume_chain_dir,
  read_links, no_trailing, read_chain, deserialize_chain,
}

abbrev IsSizedKey : ℕ × Bytes → Type 0
IsSizedKey (idx, key) = IsU32 idx × (length key ≡ 32)

-- What the Go types ensure of a direction, and the counts that the format has room for.
pub record IsStorableDir (d : ChainEpochDirection) : Type 0 where
  pub ctr : IsU32 d.ctr
  pub next : IsU32 (length d.next)
  pub keys : All IsSizedKey d.prev
  pub one_key : Distinct d.prev
  pub few : IsU32 (length d.prev)

abbrev pub IsStorableLink : ChainEpoch → Type 0
IsStorableLink l = IsStorableDir l.send × IsStorableDir l.recv

pub record IsStorableChain (c : Chain) : Type 0 where
  pub current_epoch : IsU64 c.current_epoch
  pub send_epoch : IsU64 c.send_epoch
  pub next_root : length c.next_root ≡ 32
  pub max_jump : IsU32 c.params.max_jump
  pub max_ooo : IsU32 c.params.max_ooo
  pub few : IsU32 (length c.links)
  pub links : All IsStorableLink c.links

-- Equal counters and chains, and the same key under every index.
pub record IsSameDir (d d' : ChainEpochDirection) : Type 0 where
  pub ctr : d.ctr ≡ d'.ctr
  pub next : d.next ≡ d'.next
  pub prev : (i : ℕ) → Map.lookup i d.prev ≡ Map.lookup i d'.prev

abbrev pub IsSameLinks : List ChainEpoch → List ChainEpoch → Type 0
IsSameLinks [] [] = Unit {0}
IsSameLinks (l ∷ links) (l' ∷ links') =
    (IsSameDir l.send l'.send × IsSameDir l.recv l'.recv) × IsSameLinks links links'
IsSameLinks _ _ = ⊥

pub record IsSameChain (c c' : Chain) : Type 0 where
  pub dir : c.dir ≡ c'.dir
  pub current_epoch : c.current_epoch ≡ c'.current_epoch
  pub send_epoch : c.send_epoch ≡ c'.send_epoch
  pub next_root : c.next_root ≡ c'.next_root
  pub params : c.params ≡ c'.params
  pub links : IsSameLinks c.links c'.links

read_history-history_bytes :
    (h keys : KeyHistory) (rest : Bytes)
    → All IsSizedKey keys
    → read_history (length keys) h (history_bytes keys ++ rest) ≡ ok (fill_map h keys, rest)
unfolding read_history history_bytes fill_map
read_history-history_bytes h [] rest s = refl
read_history-history_bytes h ((idx, key) ∷ keys) rest ((small, sized), s) =
    let tail = history_bytes keys ++ rest in
    let enough : 36 ≤ length (put_uint32 idx ++ (key ++ tail)) = omega (
      arith,
      length-append (put_uint32 idx) (key ++ tail),
      length-append key tail,
      length-put_uint32 idx,
      sized,
    ) in
    rw
      (
        append_assoc (put_uint32 idx) (key ++ history_bytes keys) rest,
        append_assoc key (history_bytes keys) rest,
        not_short enough,
        read_uint32-put_uint32 pqr_invalid_message idx (key ++ tail) small,
        cut-append pqr_invalid_message 32 key tail sized,
      )
      (read_history-history_bytes (Map.insert idx key h) keys rest s)

stored_dir : ChainEpochDirection → ChainEpochDirection
stored_dir d = record d { prev = fill_map [] (sorted ltb d.prev) }

consume_chain_dir-chain_dir_bytes :
    (d : ChainEpochDirection) (rest : Bytes)
    → IsStorableDir d
    → consume_chain_dir (chain_dir_bytes d ++ rest) ≡ ok (stored_dir d, rest)
unfolding consume_chain_dir chain_dir_bytes stored_dir
consume_chain_dir-chain_dir_bytes d rest h =
    let keys = sorted ltb d.prev in
    let count : IsU32 (length keys) = rw (length-sorted ltb d.prev) h.few in
    let b4 = history_bytes keys ++ rest in
    let b3 = put_uint32 (length keys) ++ b4 in
    let b2 = d.next ++ b3 in
    let b1 = put_uint32 (length d.next) ++ b2 in
    let enough : 8 ≤ length (put_uint32 d.ctr ++ b1) = omega (
      arith,
      length-append (put_uint32 d.ctr) b1,
      length-append (put_uint32 (length d.next)) b2,
      length-put_uint32 d.ctr,
      length-put_uint32 (length d.next),
    ) in
    rw
      (
        append_assoc (put_uint32 d.ctr)
            (put_uint32 (length d.next)
              ++ (d.next ++ (put_uint32 (length keys) ++ history_bytes keys)))
            rest,
        append_assoc (put_uint32 (length d.next))
            (d.next ++ (put_uint32 (length keys) ++ history_bytes keys)) rest,
        append_assoc d.next (put_uint32 (length keys) ++ history_bytes keys) rest,
        append_assoc (put_uint32 (length keys)) (history_bytes keys) rest,
        not_short enough,
        read_uint32-put_uint32 pqr_invalid_message d.ctr b1 h.ctr,
        read_uint32-put_uint32 pqr_invalid_message (length d.next) b2 h.next,
        cut-append pqr_invalid_message (length d.next) d.next b3 refl,
        read_uint32-put_uint32 pqr_invalid_message (length keys) b4 count,
        read_history-history_bytes [] keys rest (sorted-All ltb IsSizedKey d.prev h.keys),
      )
      refl

stored_dir-IsSameDir : (d : ChainEpochDirection) → IsStorableDir d → IsSameDir d (stored_dir d)
unfolding stored_dir
stored_dir-IsSameDir d h = record {
  ctr = refl;
  next = refl;
  prev = λ i. ground (
    arith,
    lookup-fill_map i [] (sorted ltb d.prev) (sorted-Distinct ltb d.prev h.one_key),
    lookup-sorted ltb i d.prev h.one_key,
    Map.lookup-empty {V = Bytes} i,
  );
}

stored_links : List ChainEpoch → List ChainEpoch
stored_links [] = []
stored_links (l ∷ links) =
    record { send = stored_dir l.send; recv = stored_dir l.recv } ∷ stored_links links

read_links-links_bytes :
    (links : List ChainEpoch) (rest : Bytes)
    → All IsStorableLink links
    → read_links (length links) (links_bytes links ++ rest) ≡ ok (stored_links links, rest)
unfolding read_links links_bytes stored_links
read_links-links_bytes [] rest h = refl
read_links-links_bytes (l ∷ links) rest ((send, recv), h) =
    rw
      (
        append_assoc (chain_dir_bytes l.send) (chain_dir_bytes l.recv ++ links_bytes links) rest,
        append_assoc (chain_dir_bytes l.recv) (links_bytes links) rest,
        consume_chain_dir-chain_dir_bytes l.send
            (chain_dir_bytes l.recv ++ (links_bytes links ++ rest)) send,
        consume_chain_dir-chain_dir_bytes l.recv (links_bytes links ++ rest) recv,
        read_links-links_bytes links rest h,
      )
      refl

stored_links-IsSameLinks :
    (links : List ChainEpoch) → All IsStorableLink links → IsSameLinks links (stored_links links)
unfolding stored_links
stored_links-IsSameLinks [] h = tt
stored_links-IsSameLinks (l ∷ links) ((send, recv), h) = (
  (stored_dir-IsSameDir l.send send, stored_dir-IsSameDir l.recv recv),
  stored_links-IsSameLinks links h,
)

length-header :
    (c : Chain) (rest : Bytes)
    → IsStorableChain c
    → 60
      ≤ length (
          put_uint64 c.current_epoch
          ++ (put_uint64 c.send_epoch
              ++ (c.next_root
                  ++ (put_uint32 c.params.max_jump
                      ++ (put_uint32 c.params.max_ooo ++ (put_uint32 (length c.links) ++ rest))))))
length-header c rest h =
    let b5 = put_uint32 (length c.links) ++ rest in
    let b4 = put_uint32 c.params.max_ooo ++ b5 in
    let b3 = put_uint32 c.params.max_jump ++ b4 in
    let b2 = c.next_root ++ b3 in
    let b1 = put_uint64 c.send_epoch ++ b2 in
    omega (
      arith,
      h.next_root,
      length-append (put_uint64 c.current_epoch) b1,
      length-append (put_uint64 c.send_epoch) b2,
      length-append c.next_root b3,
      length-append (put_uint32 c.params.max_jump) b4,
      length-append (put_uint32 c.params.max_ooo) b5,
      length-append (put_uint32 (length c.links)) rest,
      length-put_uint64 c.current_epoch,
      length-put_uint64 c.send_epoch,
      length-put_uint32 c.params.max_jump,
      length-put_uint32 c.params.max_ooo,
      length-put_uint32 (length c.links),
    )

stored_chain : Chain → Chain
stored_chain c = record c { links = stored_links c.links }

deserialize_chain-stored :
    (c : Chain)
    → IsStorableChain c
    → deserialize_chain (serialize_chain (some c)) ≡ ok (some (stored_chain c))
unfolding deserialize_chain serialize_chain stored_chain read_chain no_trailing
deserialize_chain-stored c h =
    let b6 = links_bytes c.links in
    let b5 = put_uint32 (length c.links) ++ b6 in
    let b4 = put_uint32 c.params.max_ooo ++ b5 in
    let b3 = put_uint32 c.params.max_jump ++ b4 in
    let b2 = c.next_root ++ b3 in
    let b1 = put_uint64 c.send_epoch ++ b2 in
    rw
      (
        not_short (length-header c b6 h),
        read_uint64-put_uint64 pqr_invalid_message c.current_epoch b1 h.current_epoch,
        read_uint64-put_uint64 pqr_invalid_message c.send_epoch b2 h.send_epoch,
        cut-append pqr_invalid_message 32 c.next_root b3 h.next_root,
        read_uint32-put_uint32 pqr_invalid_message c.params.max_jump b4 h.max_jump,
        read_uint32-put_uint32 pqr_invalid_message c.params.max_ooo b5 h.max_ooo,
        read_uint32-put_uint32 pqr_invalid_message (length c.links) b6 h.few,
        ← append-nil (links_bytes c.links),
        read_links-links_bytes c.links [] h.links,
      )
      refl

-- A chain of the triple ratchet that is written reads back as a chain with the same fields, and in every link
-- the same counters, chains and skipped keys: its epochs are uint64, its counters, limits and counts uint32, its
-- keys have 32 bytes, and an index has one key.
pub deserialize_chain-serialize_chain :
    (c : Chain)
    → IsStorableChain c
    → (c' : Chain) × (deserialize_chain (serialize_chain (some c)) ≡ ok (some c'))
      × IsSameChain c c'
unfolding stored_chain
deserialize_chain-serialize_chain c h = (
  stored_chain c,
  deserialize_chain-stored c h,
  record {
    dir = refl;
    current_epoch = refl;
    send_epoch = refl;
    next_root = refl;
    params = refl;
    links = stored_links-IsSameLinks c.links h.links;
  },
)

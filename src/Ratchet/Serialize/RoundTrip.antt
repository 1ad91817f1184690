-- ===== src/Ratchet/Serialize/RoundTrip.antt =====
-- A state that is written reads back (ratchet/serialize.go).
use mathlib.Core.List.{append_assoc, append-nil}
use signal.Common.{
  ℕ, ◌+◌, ◌≤◌, ◌≡◌, refl, Bool, true, false, Option, none, some, [], ◌∷◌, ◌++◌, Bytes, bytes_eq, ok,
  invalid_message, length, length-append, All, arith, not, eqb, ◌%◌, ◌/◌, Eq, sym,
}
use signal.Common.Map.{Map}
use signal.Common.Map
use signal.Common.Map.Sorted.{
  Distinct, fill_map, sorted, lookup-fill_map, lookup-sorted, sorted-Distinct, sorted-All,
  length-sorted,
}
use signal.Common.Words.{IsU32, put_uint32, length-put_uint32}
use signal.Common.Reader.{cut-append, not_short, read_uint32-put_uint32}
use signal.Crypto.{KeyPair}
use signal.Ratchet.{State, SkippedKey, skipped_key_eq, max_skip}
use signal.Ratchet.Serialize.{
  serialize_state, deserialize_state, Fixed, dhs_bytes, dhr_bytes, skipped_bytes, seen_bytes,
  read_dhs, read_dhr, read_fixed, read_skipped_count, read_skipped, read_seen, read_state, flag,
  no_trailing, bytes_before, skipped_before,
}

-- What the Go types ensure of a key.
abbrev pub IsKey : Bytes → Type 0
IsKey k = length k ≡ 32

abbrev IsSizedPair : Option KeyPair → Type 0
IsSizedPair none = Unit {0}
IsSizedPair (some kp) = IsKey kp.public_key × IsKey kp.private_key

abbrev IsSizedKey : Option Bytes → Type 0
IsSizedKey none = Unit {0}
IsSizedKey (some k) = IsKey k

abbrev IsSizedEntry : SkippedKey × Bytes → Type 0
IsSizedEntry (k, mk) = IsKey k.public_key × (IsU32 k.n × IsKey mk)

abbrev IsSizedSeen : Bytes × Unit {0} → Type 0
IsSizedSeen (k, present) = IsKey k

-- The sizes that the Go types of the fields fix, one entry for a key in the maps, and the counts that the
-- format has room for.
pub record IsStorable (s : State) : Type 0 where
  pub dhs : IsSizedPair s.dhs
  pub dhr : IsSizedKey s.dhr
  pub rk : IsKey s.rk
  pub cks : IsKey s.cks
  pub ckr : IsKey s.ckr
  pub ns : IsU32 s.ns
  pub nr : IsU32 s.nr
  pub pn : IsU32 s.pn
  pub skipped : All IsSizedEntry s.skipped
  pub one_key : Distinct s.skipped
  pub room : length s.skipped ≤ max_skip
  pub seen : All IsSizedSeen s.seen
  pub one_seen : Distinct s.seen
  pub few_seen : IsU32 (length s.seen)

-- Equal fields, and maps with the same entries.
pub record IsSameState (s t : State) : Type 0 where
  pub dhs : s.dhs ≡ t.dhs
  pub dhr : s.dhr ≡ t.dhr
  pub rk : s.rk ≡ t.rk
  pub cks : s.cks ≡ t.cks
  pub ckr : s.ckr ≡ t.ckr
  pub ns : s.ns ≡ t.ns
  pub nr : s.nr ≡ t.nr
  pub pn : s.pn ≡ t.pn
  pub skipped : (k : SkippedKey) → Map.lookup k s.skipped ≡ Map.lookup k t.skipped
  pub seen : (k : Bytes) → Map.lookup k s.seen ≡ Map.lookup k t.seen

is_set {ℓ} : {A : Type ℓ} → Option A → Bool
is_set none = false
is_set (some a) = true

read_dhs-dhs_bytes :
    (o : Option KeyPair) (rest : Bytes)
    → IsSizedPair o
    → read_dhs (is_set o) (dhs_bytes o ++ rest) ≡ ok (o, rest)
unfolding read_dhs dhs_bytes is_set
read_dhs-dhs_bytes none rest h = refl
read_dhs-dhs_bytes (some kp) rest (public, private) =
    rw
      (
        append_assoc kp.public_key kp.private_key rest,
        cut-append invalid_message 32 kp.public_key (kp.private_key ++ rest) public,
        cut-append invalid_message 32 kp.private_key rest private,
      )
      (ground (
        arith,
        length-append kp.public_key (kp.private_key ++ rest),
        length-append kp.private_key rest,
        public,
        private,
      ))

read_dhr-dhr_bytes :
    (o : Option Bytes) (rest : Bytes)
    → IsSizedKey o
    → read_dhr (is_set o) (dhr_bytes o ++ rest) ≡ ok (o, rest)
unfolding read_dhr dhr_bytes is_set
read_dhr-dhr_bytes none rest h = refl
read_dhr-dhr_bytes (some k) rest h = rw (cut-append invalid_message 32 k rest h) refl

length-entry :
    (public : Bytes) (n : ℕ) (mk rest : Bytes)
    → IsKey public
    → IsKey mk
    → 68 ≤ length (public ++ (put_uint32 n ++ (mk ++ rest)))
length-entry public n mk rest hp hk = omega (
  arith,
  hp,
  hk,
  length-append public (put_uint32 n ++ (mk ++ rest)),
  length-append (put_uint32 n) (mk ++ rest),
  length-append mk rest,
  length-put_uint32 n,
)

read_skipped-skipped_bytes :
    (m entries : Map SkippedKey Bytes) (rest : Bytes)
    → All IsSizedEntry entries
    → read_skipped (length entries) m (skipped_bytes entries ++ rest)
      ≡ ok (fill_map m entries, rest)
unfolding read_skipped skipped_bytes fill_map
read_skipped-skipped_bytes m [] rest h = refl
read_skipped-skipped_bytes m ((k, mk) ∷ entries) rest ((public, (index, key)), h) =
    let tail = skipped_bytes entries ++ rest in
    rw
      (
        append_assoc k.public_key (put_uint32 k.n ++ (mk ++ skipped_bytes entries)) rest,
        append_assoc (put_uint32 k.n) (mk ++ skipped_bytes entries) rest,
        append_assoc mk (skipped_bytes entries) rest,
        not_short (length-entry k.public_key k.n mk tail public key),
        cut-append invalid_message 32 k.public_key (put_uint32 k.n ++ (mk ++ tail)) public,
        read_uint32-put_uint32 invalid_message k.n (mk ++ tail) index,
        cut-append invalid_message 32 mk tail key,
      )
      (read_skipped-skipped_bytes (Map.insert k mk m) entries rest h)

read_seen-seen_bytes :
    (m entries : Map Bytes (Unit {0})) (rest : Bytes)
    → All IsSizedSeen entries
    → read_seen (length entries) m (seen_bytes entries ++ rest) ≡ ok (fill_map m entries, rest)
unfolding read_seen seen_bytes fill_map
read_seen-seen_bytes m [] rest h = refl
read_seen-seen_bytes m ((k, tt) ∷ entries) rest (key, h) =
    rw
      (
        append_assoc k (seen_bytes entries) rest,
        cut-append invalid_message 32 k (seen_bytes entries ++ rest) key,
      )
      (read_seen-seen_bytes (Map.insert k tt m) entries rest h)

abbrev fixed_bytes : State → Bytes → Bytes
fixed_bytes s rest =
    s.rk
    ++ (s.cks ++ (s.ckr ++ (put_uint32 s.ns ++ (put_uint32 s.nr ++ (put_uint32 s.pn ++ rest)))))

abbrev fixed_of : State → Fixed
fixed_of s = record { rk = s.rk; cks = s.cks; ckr = s.ckr; ns = s.ns; nr = s.nr; pn = s.pn }

length-fixed_bytes : (s : State) (rest : Bytes) → IsStorable s → 108 ≤ length (fixed_bytes s rest)
length-fixed_bytes s rest h =
    let b5 = put_uint32 s.pn ++ rest in
    let b4 = put_uint32 s.nr ++ b5 in
    let b3 = put_uint32 s.ns ++ b4 in
    omega (
      arith,
      h.rk,
      h.cks,
      h.ckr,
      length-append s.rk (s.cks ++ (s.ckr ++ b3)),
      length-append s.cks (s.ckr ++ b3),
      length-append s.ckr b3,
      length-append (put_uint32 s.ns) b4,
      length-append (put_uint32 s.nr) b5,
      length-append (put_uint32 s.pn) rest,
      length-put_uint32 s.ns,
      length-put_uint32 s.nr,
      length-put_uint32 s.pn,
    )

read_fixed-fixed_bytes :
    (s : State) (rest : Bytes)
    → IsStorable s
    → read_fixed (fixed_bytes s rest) ≡ ok (fixed_of s, rest)
unfolding read_fixed
read_fixed-fixed_bytes s rest h =
    let b5 = put_uint32 s.pn ++ rest in
    let b4 = put_uint32 s.nr ++ b5 in
    let b3 = put_uint32 s.ns ++ b4 in
    rw
      (
        cut-append invalid_message 32 s.rk (s.cks ++ (s.ckr ++ b3)) h.rk,
        cut-append invalid_message 32 s.cks (s.ckr ++ b3) h.cks,
        cut-append invalid_message 32 s.ckr b3 h.ckr,
        read_uint32-put_uint32 invalid_message s.ns b4 h.ns,
        read_uint32-put_uint32 invalid_message s.nr b5 h.nr,
        read_uint32-put_uint32 invalid_message s.pn rest h.pn,
      )
      (ground (arith, length-fixed_bytes s rest h))

read_skipped_count-put_uint32 :
    (n : ℕ) (rest : Bytes) → n ≤ max_skip → read_skipped_count (put_uint32 n ++ rest) ≡ ok (n, rest)
unfolding read_skipped_count
read_skipped_count-put_uint32 n rest h =
    rw (read_uint32-put_uint32 invalid_message n rest (omega arith)) (ground arith)

-- The state as it is read back.
unfoldable pub stored : State → State
stored s = record s {
  skipped = fill_map [] (sorted skipped_before s.skipped);
  seen = fill_map [] (sorted bytes_before s.seen);
}

-- The two flags are read off their sum.
flag-low {ℓ κ} :
    {A : Type ℓ} {B : Type κ} (a : Option A) (b : Option B)
    → not (eqb ((flag 1 a + flag 2 b) % 2) 0) ≡ is_set a
unfolding flag is_set
flag-low none none = refl
flag-low none (some b) = refl
flag-low (some a) none = refl
flag-low (some a) (some b) = refl

flag-high {ℓ κ} :
    {A : Type ℓ} {B : Type κ} (a : Option A) (b : Option B)
    → not (eqb ((flag 1 a + flag 2 b) / 2 % 2) 0) ≡ is_set b
unfolding flag is_set
flag-high none none = refl
flag-high none (some b) = refl
flag-high (some a) none = refl
flag-high (some a) (some b) = refl

pub deserialize_state-stored :
    (s : State) → IsStorable s → deserialize_state (serialize_state s) ≡ ok (stored s)
unfolding deserialize_state serialize_state stored read_state no_trailing
deserialize_state-stored s h =
    let kept = sorted skipped_before s.skipped in
    let seen = sorted bytes_before s.seen in
    let skipped_count : length kept ≤ max_skip =
      rw (length-sorted skipped_before s.skipped) h.room in
    let seen_count : IsU32 (length seen) = rw (length-sorted bytes_before s.seen) h.few_seen in
    let b2 = put_uint32 (length seen) ++ seen_bytes seen in
    let b1 = skipped_bytes kept ++ b2 in
    let b0 = put_uint32 (length kept) ++ b1 in
    let b = fixed_bytes s b0 in
    rw
      (
        flag-low s.dhs s.dhr,
        flag-high s.dhs s.dhr,
        read_dhs-dhs_bytes s.dhs (dhr_bytes s.dhr ++ b) h.dhs,
        read_dhr-dhr_bytes s.dhr b h.dhr,
        read_fixed-fixed_bytes s b0 h,
        read_skipped_count-put_uint32 (length kept) b1 skipped_count,
        read_skipped-skipped_bytes [] kept b2
            (sorted-All skipped_before IsSizedEntry s.skipped h.skipped),
        read_uint32-put_uint32 invalid_message (length seen) (seen_bytes seen) seen_count,
        ← append-nil (seen_bytes seen),
        read_seen-seen_bytes [] seen [] (sorted-All bytes_before IsSizedSeen s.seen h.seen),
      )
      refl

same-fill_map :
    {K W : Type 0} ⦃e : Eq K⦄ (before : K → K → Bool) (k : K) (m : Map K W)
    → Distinct m
    → Map.lookup k (fill_map [] (sorted before m)) ≡ Map.lookup k m
same-fill_map {K} {W} before k m h = ground (
  arith,
  lookup-fill_map k [] (sorted before m) (sorted-Distinct before m h),
  lookup-sorted before k m h,
  Map.lookup-empty {V = W} k,
)

-- What reading back gives is the same state.
pub stored-IsSameState : (s : State) → IsStorable s → IsSameState s (stored s)
unfolding stored
stored-IsSameState s h = record {
  dhs = refl;
  dhr = refl;
  rk = refl;
  cks = refl;
  ckr = refl;
  ns = refl;
  nr = refl;
  pn = refl;
  skipped = λ k. sym (same-fill_map skipped_before k s.skipped h.one_key);
  seen = λ k. sym (same-fill_map bytes_before k s.seen h.one_seen);
}

-- Writing a state and reading it back succeeds, with a state that has the same fields and, under every key,
-- the same entries in its maps: for a state whose keys have 32 bytes and whose counters are uint32, that
-- stores at most 1000 message keys and has seen fewer than 2^32 ratchet keys.
pub deserialize_state-serialize_state :
    (s : State)
    → IsStorable s
    → (t : State) × (deserialize_state (serialize_state s) ≡ ok t) × IsSameState s t
deserialize_state-serialize_state s h =
    (stored s, deserialize_state-stored s h, stored-IsSameState s h)

-- ===== src/Ratchet/Serialize.antt =====
-- ratchet/serialize.go: the state as bytes. What stands at data[pos:] is the list that is left.
pub mod RoundTrip
use Prim.Native.Nat.{compare, Ordering}
use signal.Common.{
  ℕ, zero, suc, ◌+◌, ◌*◌, ◌/◌, ◌%◌, Bool, true, false, not, Option, none, some, [], ◌∷◌, ◌++◌,
  Bytes, bytes_beq, bytes_eq, Result, ok, err, ◌>>=◌, invalid_message, eqb, ltb, length,
  if◌then◌else◌,
}
use signal.Common.Map.{Map}
use signal.Common.Map
use signal.Common.Map.Sorted.{sorted}
use signal.Common.Words.{put_uint32}
use signal.Common.Reader.{Reader, cut, read_uint32}
use signal.Crypto.{KeyPair}
use signal.Ratchet.{State, SkippedKey, skipped_key_eq, max_skip}

abbrev state_serialize_version : ℕ
state_serialize_version = 1

-- bytes.Compare(a, b) < 0
unfoldable pub bytes_before : Bytes → Bytes → Bool
bytes_before [] [] = false
bytes_before [] (y ∷ ys) = true
bytes_before (x ∷ xs) [] = false
bytes_before (x ∷ xs) (y ∷ ys) =
    let rest = bytes_before xs ys in
    elim (compare x y) [ Ordering.lt ↦ true | Ordering.eq ↦ rest | Ordering.gt ↦ false ]

unfoldable pub skipped_before : SkippedKey → SkippedKey → Bool
unfolding bytes_before
skipped_before a b =
    if not (bytes_beq a.public_key b.public_key)
    then bytes_before a.public_key b.public_key
    else ltb a.n b.n

-- The bit of the flags for a pointer that is set.
flag {ℓ} : {A : Type ℓ} → ℕ → Option A → ℕ
flag bit none = 0
flag bit (some a) = bit

dhs_bytes : Option KeyPair → Bytes
dhs_bytes none = []
dhs_bytes (some kp) = kp.public_key ++ kp.private_key

dhr_bytes : Option Bytes → Bytes
dhr_bytes none = []
dhr_bytes (some dhr) = dhr

skipped_bytes : Map SkippedKey Bytes → Bytes
skipped_bytes [] = []
skipped_bytes ((k, mk) ∷ entries) =
    k.public_key ++ (put_uint32 k.n ++ (mk ++ skipped_bytes entries))

seen_bytes : Map Bytes (Unit {0}) → Bytes
seen_bytes [] = []
seen_bytes ((k, present) ∷ entries) = k ++ seen_bytes entries

unfoldable pub serialize_state : State → Bytes
unfolding flag dhs_bytes dhr_bytes skipped_bytes seen_bytes skipped_before
serialize_state s =
    state_serialize_version
    ∷ (flag 1 s.dhs + flag 2 s.dhr)
    ∷ (dhs_bytes s.dhs
        ++ (dhr_bytes s.dhr
            ++ (s.rk
                ++ (s.cks
                    ++ (s.ckr
                        ++ (put_uint32 s.ns
                            ++ (put_uint32 s.nr
                                ++ (put_uint32 s.pn
                                    ++ (put_uint32 (length (sorted skipped_before s.skipped))
                                        ++ (skipped_bytes (sorted skipped_before s.skipped)
                                            ++ (put_uint32 (length (sorted bytes_before s.seen))
                                                ++ seen_bytes
                                                    (sorted bytes_before s.seen))))))))))))

-- The fields of fixed size.
pub record Fixed : Type 0 where
  pub rk : Bytes
  pub cks : Bytes
  pub ckr : Bytes
  pub ns : ℕ
  pub nr : ℕ
  pub pn : ℕ

read_dhs : Bool → Reader (Option KeyPair)
unfolding cut
read_dhs false input = ok (none, input)
read_dhs true input = if ltb (length input) 64 then err invalid_message else do
  (public, b1) ← cut invalid_message 32 input
  (private, rest) ← cut invalid_message 32 b1
  ok (some (record { public_key = public; private_key = private }), rest)

read_dhr : Bool → Reader (Option Bytes)
unfolding cut
read_dhr false input = ok (none, input)
read_dhr true input = do (dhr, rest) ← cut invalid_message 32 input; ok (some dhr, rest)

read_fixed : Reader Fixed
unfolding cut read_uint32
read_fixed input = if ltb (length input) (32 * 3 + 4 * 3) then err invalid_message else do
  (rk, b1) ← cut invalid_message 32 input
  (cks, b2) ← cut invalid_message 32 b1
  (ckr, b3) ← cut invalid_message 32 b2
  (ns, b4) ← read_uint32 invalid_message b3
  (nr, b5) ← read_uint32 invalid_message b4
  (pn, rest) ← read_uint32 invalid_message b5
  ok (record { rk = rk; cks = cks; ckr = ckr; ns = ns; nr = nr; pn = pn }, rest)

read_skipped_count : Reader ℕ
unfolding read_uint32
read_skipped_count input = do
  (count, rest) ← read_uint32 invalid_message input
  (if ltb max_skip count then err invalid_message else ok (count, rest))

read_skipped : ℕ → Map SkippedKey Bytes → Reader (Map SkippedKey Bytes)
unfolding cut read_uint32
read_skipped zero m input = ok (m, input)
read_skipped (suc n) m input = if ltb (length input) (32 + 4 + 32) then err invalid_message else do
  (public, b1) ← cut invalid_message 32 input
  (index, b2) ← read_uint32 invalid_message b1
  (mk, rest) ← cut invalid_message 32 b2
  read_skipped n (Map.insert (record { public_key = public; n = index }) mk m) rest

read_seen : ℕ → Map Bytes (Unit {0}) → Reader (Map Bytes (Unit {0}))
unfolding cut
read_seen zero m input = ok (m, input)
read_seen (suc n) m input = do
  (k, rest) ← cut invalid_message 32 input
  read_seen n (Map.insert k tt m) rest

-- The test for trailing data.
no_trailing : State → Bytes → Result State
no_trailing s input = if not (eqb (length input) 0) then err invalid_message else ok s

read_state : ℕ → Bytes → Result State
unfolding read_dhs read_dhr read_fixed read_skipped_count read_skipped read_uint32 read_seen
    no_trailing
read_state flags input = do
  (dhs, b1) ← read_dhs (not (eqb (flags % 2) 0)) input
  (dhr, b2) ← read_dhr (not (eqb (flags / 2 % 2) 0)) b1
  (fixed, b3) ← read_fixed b2
  (skipped_count, b4) ← read_skipped_count b3
  (skipped, b5) ← read_skipped skipped_count [] b4
  (seen_count, b6) ← read_uint32 invalid_message b5
  (seen, b7) ← read_seen seen_count [] b6
  no_trailing
      (record {
        dhs = dhs;
        dhr = dhr;
        rk = fixed.rk;
        cks = fixed.cks;
        ckr = fixed.ckr;
        ns = fixed.ns;
        nr = fixed.nr;
        pn = fixed.pn;
        skipped = skipped;
        seen = seen;
      })
      b7

unfoldable pub deserialize_state : Bytes → Result State
unfolding read_state
deserialize_state (version ∷ flags ∷ rest) =
    if not (eqb version state_serialize_version) then err invalid_message else read_state flags rest
deserialize_state _ = err invalid_message

-- ===== src/Spqr/Keys/Requests.antt =====
-- Any requests to the keys of one direction (spqr/chain.go).
use signal.Common.{
  ℕ, ◌+◌, ◌^◌, ◌<◌, ◌≤◌, ◌≡◌, refl, List, [], ◌∷◌, Bytes, Result, err, true, length, All, arith,
  ltb, key_trimmed,
}
use signal.Common.Words.{add32, IsU32}
use signal.Crypto.{Primitives}
use signal.Crypto.Laws.{IsSound}
use signal.Spqr.{ChainParams, ChainEpochDirection, max_ooo_of}
use signal.Spqr.Keys.{key, get_key, new_chain_epoch_direction}
use signal.Spqr.Keys.Ideal.{Ideal, ideal_start, ask}
use signal.Spqr.Keys.Refines.{Refines, new-Refines, key-Refines}

-- The outcomes of requests, one after the other.
unfoldable pub outcomes {ℓ} :
    {S : Type ℓ} → (ℕ → S → Result Bytes × S) → List ℕ → S → List (Result Bytes)
outcomes request [] s = []
outcomes request (at ∷ ats) s = let (r, s') = request at s in r ∷ outcomes request ats s'

-- Neither the window nor the index overflows.
abbrev pub Fits : ChainParams → ℕ → Type 0
Fits params at = at + max_ooo_of params < 2 ^ 32

module _ {P : Primitives} (sound : IsSound P) (seed : Bytes) (sized : length seed ≡ 32)
    (params : ChainParams) where
  outcomes-Refines :
      (ats : List ℕ) (d : ChainEpochDirection) (s : Ideal)
      → All (Fits params) ats
      → Refines P seed (max_ooo_of params) d s
      → outcomes (λ at. key P at params) ats d ≡ outcomes (λ at. ask P seed at params) ats s
  unfolding outcomes
  outcomes-Refines [] d s h r = refl
  outcomes-Refines (at ∷ ats) d s (h, hs) r =
      let (same, r') = key-Refines sound seed sized params at d s h r in
      rw (same, outcomes-Refines ats (key P at params d).1 (ask P seed at params s).1 hs r') refl

  -- A direction that starts from a seed of 32 bytes gives, to any sequence of requests for keys, the same keys and
  -- errors as the ideal sequence: a key that the seed and the index fix is given once, while the index is at most the
  -- window behind the largest one given, and at most the allowed jump ahead of it; a key behind the window is
  -- refused as trimmed, one that was given before as requested already, and one too far ahead as a jump. The
  -- window behind an index that is asked for does not overflow a uint32.
  pub key-ask :
      (ats : List ℕ)
      → All (Fits params) ats
      → outcomes (λ at. key P at params) ats (new_chain_epoch_direction seed)
        ≡ outcomes (λ at. ask P seed at params) ats ideal_start
  key-ask ats h =
      outcomes-Refines ats (new_chain_epoch_direction seed) ideal_start h
        (new-Refines P seed (max_ooo_of params))

-- Where the window behind an index overflows a uint32, its key is refused as trimmed as soon as a later one was given,
-- however near that is, and although the key is stored; nothing changes.
pub key-overflow :
    (P : Primitives) (params : ChainParams) (at : ℕ) (d : ChainEpochDirection)
    → at < d.ctr
    → IsU32 d.ctr
    → IsU32 (max_ooo_of params)
    → 2 ^ 32 ≤ at + max_ooo_of params
    → key P at params d ≡ (err key_trimmed, d)
unfolding key get_key
key-overflow P params at d before c w over =
    let b : ltb at d.ctr ≡ true = ground arith in
    let trimmed : ltb (add32 at (max_ooo_of params)) d.ctr ≡ true = ground arith in
    rw (b, trimmed) refl

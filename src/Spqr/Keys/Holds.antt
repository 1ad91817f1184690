-- ===== src/Spqr/Keys/Holds.antt =====
-- Advancing a direction passes every key up to the one that is asked for (spqr/chain.go).

use signal.Common.{
  ℕ, zero, suc, ◌+◌, ◌-◌, ◌^◌, ◌≤◌, ◌<◌, ◌≡◌, refl, Bool, true, false, not, Option, none, some,
  Bytes, ok, length, ltb, eqb, if◌then◌else◌, nat_eq, arith, Bool-cases, inl, inr,
}
use signal.Common.Map
use signal.Common.Words.{inc32, add32}
use signal.Crypto.{Primitives}
use signal.Crypto.Laws.{IsSound}
use signal.Spqr.{ChainEpochDirection}
use signal.Spqr.Keys.{gc, keep_key, skip_key, skip_keys, drop_far, advance_to}
use signal.Spqr.Keys.Ideal.{chain_at, message_key, next_key_lem}

module _ (P : Primitives) (seed : Bytes) where
  -- What the history is to hold at an index.
  abbrev pub available : (ℕ → Bool) → ℕ → Option Bytes
  available given i = if given i then none else some (message_key P seed i)

  -- The direction stands at its counter's place of the sequence, and holds the keys that have not been given out, of
  -- those that the window of `at` reaches to.
  pub record Holds (ooo at : ℕ) (given : ℕ → Bool) (d : ChainEpochDirection) : Type 0 where
    pub chain : d.next ≡ chain_at P seed d.ctr
    pub above : (i : ℕ) → d.ctr < i → Map.lookup i d.prev ≡ none
    pub window : (i : ℕ) → i ≤ d.ctr → at ≤ i + ooo → Map.lookup i d.prev ≡ available given i

module _ {P : Primitives} (sound : IsSound P) (seed : Bytes) (sized : length seed ≡ 32) (ooo at : ℕ)
    (small : at + ooo < 2 ^ 32) (given : ℕ → Bool) where
  -- A round of the loop passes one key, which is kept where the window reaches to it.
  skip_key_lem :
      (d : ChainEpochDirection)
      → d.ctr + 1 < at
      → given (suc d.ctr) ≡ false
      → Holds P seed ooo at given d
      → (d' : ChainEpochDirection) × (skip_key P at ooo d ≡ (ok tt, d'))
        × (d'.ctr ≡ suc d.ctr)
        × Holds P seed ooo at given d'
  unfolding skip_key keep_key
  skip_key_lem d below new h =
      let n = suc d.ctr in
      let mk = message_key P seed n in
      let passed : ChainEpochDirection = record d { ctr = n; next = chain_at P seed n } in
      let d' = keep_key at ooo (n, mk) passed in
      (
        d',
        rw (next_key_lem sound seed sized d (omega arith) h.chain) refl,
        ground arith,
        record {
          chain = ground arith;
          above = λ i hi. ground (arith, h.above i, Map.lookup-insert n i mk d.prev);
          window =
              λ i hi w. ground (arith, h.above i, h.window i, new, Map.lookup-insert n i mk d.prev);
        },
      )

  -- The loop passes every key before the one that is asked for.
  skip_keys_lem :
      (fuel : ℕ) (d : ChainEpochDirection)
      → d.ctr < at
      → at ≤ d.ctr + fuel
      → ((i : ℕ) → d.ctr < i → given i ≡ false)
      → Holds P seed ooo at given d
      → (d' : ChainEpochDirection) × (skip_keys P fuel at ooo d ≡ (ok tt, d'))
        × (suc d'.ctr ≡ at)
        × Holds P seed ooo at given d'
  unfolding skip_keys
  skip_keys_lem zero d below enough new h = absurd (omega arith)
  skip_keys_lem (suc fuel) d below enough new h = elim (Bool-cases (ltb (inc32 d.ctr) at)) [
    | inr last ↦ (d, rw last refl, ground arith, h)
    | inl more ↦
        let (d1, e1, n1, h1) = skip_key_lem d (ground arith) (new (suc d.ctr) (omega arith)) h in
        let (d2, e2, n2, h2) =
          skip_keys_lem fuel d1 (ground arith) (omega (arith, n1))
            (λ i hi. new i (omega (arith, n1))) h1 in
        (d2, rw (more, e1) e2, n2, h2)
  ]

  dropped-Holds :
      (d : ChainEpochDirection)
      → d.ctr < at
      → Holds P seed ooo d.ctr given d
      → Holds P seed ooo at given (drop_far at ooo d)
  unfolding drop_far Map.lookup
  dropped-Holds d below h = elim (Bool-cases (ltb (add32 d.ctr ooo) at)) [
    | inl far ↦
        rw far (record {
          chain = h.chain;
          above = λ i hi. refl;
          window = λ i hi w. absurd (ground arith);
        })
    | inr near ↦ rw near (record {
      chain = h.chain;
      above = h.above;
      window = λ i hi w. h.window i hi (omega arith);
    })
  ]

  -- Clean-up removes no key of the window.
  collected-Holds :
      (d : ChainEpochDirection)
      → suc d.ctr ≡ at
      → Holds P seed ooo at given d
      → Holds P seed ooo at given (record d { prev = gc d.ctr ooo d.prev })
  unfolding gc
  collected-Holds d last h = record {
    chain = h.chain;
    above = λ i hi.
        ground
          (arith, h.above i, Map.lookup-retain (λ idx. not (ltb (add32 idx ooo) d.ctr)) i d.prev);
    window = λ i hi w.
        ground
          (arith, h.window i, Map.lookup-retain (λ idx. not (ltb (add32 idx ooo) d.ctr)) i d.prev);
  }

  abbrev pub gave : ℕ → Bool
  gave i = if eqb i at then true else given i

  -- Advancing gives the key of the index.
  pub advance_to_lem :
      (d : ChainEpochDirection)
      → d.ctr < at
      → ((i : ℕ) → d.ctr < i → given i ≡ false)
      → Holds P seed ooo d.ctr given d
      → (d' : ChainEpochDirection) × (advance_to P at ooo d ≡ (ok (message_key P seed at), d'))
        × (d'.ctr ≡ at)
        × Holds P seed ooo at gave d'
  unfolding advance_to
  advance_to_lem d below new h =
      let d0 = drop_far at ooo d in
      let c0 : d0.ctr ≡ d.ctr = unfold drop_far in ground arith in
      let (d1, e1, n1, h1) =
        skip_keys_lem (at - d.ctr) d0 (ground arith) (omega (arith, c0))
          (λ i hi. new i (omega (arith, c0))) (dropped-Holds d below h) in
      let d2 : ChainEpochDirection = record d1 { prev = gc d1.ctr ooo d1.prev } in
      let h2 = collected-Holds d1 n1 h1 in
      let d3 : ChainEpochDirection = record d2 {
        ctr = suc d1.ctr;
        next = chain_at P seed (suc d1.ctr);
      } in
      let e3 = next_key_lem sound seed sized d2 (ground arith) h2.chain in
      (
        d3,
        rw (e1, e3, n1) refl,
        n1,
        record {
          chain = refl;
          above = λ i hi. h2.above i (ground arith);
          window = λ i hi w. ground (arith, h2.above i, h2.window i);
        },
      )

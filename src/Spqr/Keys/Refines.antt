-- ===== src/Spqr/Keys/Refines.antt =====
-- The keys of one direction are given out as the ideal sequence gives them (spqr/chain.go).
use native.Mathlib.Decide.{dec_lt}
use signal.Common.{
  ◌⊎◌, ℕ, ◌+◌, ◌-◌, ◌^◌, ◌<◌, ◌≡◌, refl, true, false, none, some, Bytes, length, ltb, eqb, nat_eq,
  arith, Bool-cases, inl, inr,
}
use signal.Common.Map
use signal.Common.Words.{add32}
use signal.Crypto.{Primitives}
use signal.Crypto.Laws.{IsSound}
use signal.Spqr.{ChainParams, ChainEpochDirection, max_jump_of, max_ooo_of}
use signal.Spqr.Keys.{key, get_key, new_chain_epoch_direction, hand_out}
use signal.Spqr.Keys.Ideal.{ideal_start, chain_at, message_key, Ideal, ask}
use signal.Spqr.Keys.Holds.{Holds, advance_to_lem}

module _ (P : Primitives) (seed : Bytes) where
  -- A direction and the ideal one.
  pub record Refines (ooo : ℕ) (d : ChainEpochDirection) (s : Ideal) : Type 0 where
    pub counted : d.ctr ≡ s.count
    pub holds : Holds P seed ooo d.ctr s.given d
    pub fresh : (i : ℕ) → s.count < i → s.given i ≡ false
    pub last : s.given s.count ≡ true

  pub new-Refines : (ooo : ℕ) → Refines ooo (new_chain_epoch_direction seed) ideal_start
  unfolding new_chain_epoch_direction Map.lookup chain_at
  new-Refines ooo = record {
    counted = refl;
    holds = record { chain = refl; above = λ i h. refl; window = λ i h w. ground arith };
    fresh = λ i h. ground arith;
    last = refl;
  }

Order-cases : (a b : ℕ) → (a < b) ⊎ ((a ≡ b) ⊎ (b < a))
Order-cases a b = elim (dec_lt a b) [
  | yes p ↦ inl p
  | no p ↦ elim (dec_lt b a) [ yes q ↦ inr (inr q) | no q ↦ inr (inl (omega arith)) ]
]

module _ {P : Primitives} (sound : IsSound P) (seed : Bytes) (sized : length seed ≡ 32)
    (params : ChainParams) where
  -- What was asked for, and the outcome in both.
  abbrev Agrees : ℕ → ChainEpochDirection → Ideal → Type 0
  Agrees at d s =
      ((key P at params d).0 ≡ (ask P seed at params s).0)
      × Refines P seed (max_ooo_of params) (key P at params d).1 (ask P seed at params s).1

  -- A key of the window that was skipped, or is gone.
  stored-Agrees :
      (at : ℕ) (d : ChainEpochDirection) (s : Ideal)
      → at + max_ooo_of params < 2 ^ 32
      → at < d.ctr
      → Refines P seed (max_ooo_of params) d s
      → Agrees at d s
  unfolding key ask get_key hand_out
  stored-Agrees at d s small before r =
      let ooo = max_ooo_of params in
      let c = r.counted in
      elim (Bool-cases (ltb (at + ooo) s.count)) [
        | inl far ↦
            let far' : ltb (add32 at ooo) d.ctr ≡ true = ground arith in
            let b : ltb at d.ctr ≡ true = ground arith in rw (far, b, far') (refl, r)
        | inr near ↦
            let near' : ltb (add32 at ooo) d.ctr ≡ false = ground arith in
            let b : ltb at d.ctr ≡ true = ground arith in
            elim (Bool-cases (s.given at)) [
              | inl gone ↦
                  let missing : Map.lookup at d.prev ≡ none = ground (arith, r.holds.window at) in
                  rw (near, gone, b, near', missing) (refl, r)
              | inr kept ↦
                  let found : Map.lookup at d.prev ≡ some (message_key P seed at) =
                    ground (arith, r.holds.window at) in
                  let within : ltb (s.count + max_jump_of params) at ≡ false = ground arith in
                  rw (near, kept, b, near', found, within)
                    (
                      refl,
                      record {
                        counted = ground arith;
                        holds = record {
                          chain = r.holds.chain;
                          above = λ i hi.
                              ground (arith, r.holds.above i, Map.lookup-delete at i d.prev);
                          window = λ i hi w.
                              ground (arith, r.holds.window i, Map.lookup-delete at i d.prev);
                        };
                        fresh = λ i hi. ground (arith, r.fresh i);
                        last = ground (arith, r.last);
                      },
                    )
            ]
      ]

  -- A key ahead of the counter.
  ahead-Agrees :
      (at : ℕ) (d : ChainEpochDirection) (s : Ideal)
      → at + max_ooo_of params < 2 ^ 32
      → d.ctr < at
      → Refines P seed (max_ooo_of params) d s
      → Agrees at d s
  unfolding key ask
  ahead-Agrees at d s small below r =
      let c = r.counted in
      let near : ltb (at + max_ooo_of params) s.count ≡ false = ground arith in
      let new : s.given at ≡ false = r.fresh at (omega arith) in
      let b : ltb at d.ctr ≡ false = ground arith in
      let b' : eqb at d.ctr ≡ false = ground arith in
      elim (Bool-cases (ltb (s.count + max_jump_of params) at)) [
        | inl far ↦
            let far' : ltb (max_jump_of params) (at - d.ctr) ≡ true = ground arith in
            rw (near, new, far, b, b', far') (refl, r)
        | inr within ↦
            let within' : ltb (max_jump_of params) (at - d.ctr) ≡ false = ground arith in
            let (d', e, n, h) =
              advance_to_lem sound seed sized (max_ooo_of params) at small s.given d below
                (λ i hi. r.fresh i (omega (arith, c))) r.holds in
            rw (near, new, within, b, b', within', e)
              (
                refl,
                record {
                  counted = ground arith;
                  holds = rw n h;
                  fresh = λ i hi. ground (arith, r.fresh i);
                  last = ground arith;
                },
              )
      ]

  current-Agrees :
      (at : ℕ) (d : ChainEpochDirection) (s : Ideal)
      → at ≡ d.ctr
      → Refines P seed (max_ooo_of params) d s
      → Agrees at d s
  unfolding key ask
  current-Agrees at d s same r =
      let c = r.counted in
      let near : ltb (at + max_ooo_of params) s.count ≡ false = ground arith in
      let gone : s.given at ≡ true = ground (arith, r.last) in
      let b : ltb at d.ctr ≡ false = ground arith in
      let b' : eqb at d.ctr ≡ true = ground arith in rw (near, gone, b, b') (refl, r)

  -- Asking the code for a key gives what the ideal sequence gives.
  pub key-Refines :
      (at : ℕ) (d : ChainEpochDirection) (s : Ideal)
      → at + max_ooo_of params < 2 ^ 32
      → Refines P seed (max_ooo_of params) d s
      → Agrees at d s
  key-Refines at d s small r = elim (Order-cases at d.ctr) [
    | inl before ↦ stored-Agrees at d s small before r
    | inr (inr after) ↦ ahead-Agrees at d s small after r
    | inr (inl same) ↦ current-Agrees at d s same r
  ]

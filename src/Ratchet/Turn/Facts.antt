-- ===== src/Ratchet/Turn/Facts.antt =====
-- What a successful `DHRatchet` leaves in the state.
use signal.Common.{
  ◌≡◌, refl, Option, some, Bytes, bytes_eq, ok, arith, bytes_beq, Result-cases, Option-cases, inl,
  inr,
}
use signal.Common.Map
use signal.Crypto.{Primitives, KeyPair, generate_key_pair}
use signal.Ratchet.{State, skipped_key_eq}
use signal.Ratchet.Turn.{dh_ratchet, turn_with, next_root, mark_seen}

-- The state `t` that a turn to the key `theirs` makes of `s`.
pub record TurnedTo (P : Primitives) (entropy : Option Bytes) (theirs : Bytes) (s t : State)
    : Type 0 where
  pub dhs : KeyPair
  pub had_dhs : s.dhs ≡ some dhs
  pub fresh : KeyPair
  pub generated : generate_key_pair P entropy ≡ ok fresh
  pub middle : Bytes
  pub received : next_root P s.rk dhs theirs ≡ ok (middle, t.ckr)
  pub sent : next_root P middle fresh theirs ≡ ok (t.rk, t.cks)
  pub has_fresh : t.dhs ≡ some fresh
  pub dhr : t.dhr ≡ some theirs
  pub nr : t.nr ≡ 0
  pub ns : t.ns ≡ 0
  pub pn : t.pn ≡ s.ns
  pub kept : t.skipped ≡ Map.retain (λ k. bytes_beq k.public_key theirs) s.skipped
  pub marked : t.seen ≡ mark_seen (some theirs) (mark_seen s.dhr s.seen)

module _ (P : Primitives) (entropy : Option Bytes) (theirs : Bytes) where
  -- The state after both halves, from the results of the three computations.
  abbrev pub turned : State → KeyPair → Bytes → Bytes × Bytes → State
  turned s fresh chain (root, out) = record s {
    dhs = some fresh;
    dhr = some theirs;
    rk = root;
    cks = out;
    ckr = chain;
    ns = 0;
    nr = 0;
    pn = s.ns;
    skipped = Map.retain (λ k. bytes_beq k.public_key theirs) s.skipped;
    seen = mark_seen (some theirs) (mark_seen s.dhr s.seen);
  }

  -- When the three computations succeed the ratchet does.
  pub dh_ratchet-succeeds :
      (s : State) (dhs fresh : KeyPair) (middle chain : Bytes) (sent : Bytes × Bytes)
      → s.dhs ≡ some dhs
      → next_root P s.rk dhs theirs ≡ ok (middle, chain)
      → generate_key_pair P entropy ≡ ok fresh
      → next_root P middle fresh theirs ≡ ok sent
      → dh_ratchet P entropy theirs s ≡ (ok tt, turned s fresh chain sent)
  unfolding dh_ratchet turn_with
  dh_ratchet-succeeds s dhs fresh middle chain (root, out) had good made last = ground arith

  turn_with-ok :
      (dhs : KeyPair) (s t : State)
      → s.dhs ≡ some dhs
      → turn_with P entropy theirs dhs s ≡ (ok tt, t)
      → TurnedTo P entropy theirs s t
  unfolding turn_with
  turn_with-ok dhs s t had e = elim (Result-cases (next_root P s.rk dhs theirs)) [
    | inr (x, bad) ↦ absurd (ground (arith, bad))
    | inl ((middle, chain), good) ↦ elim (Result-cases (generate_key_pair P entropy)) [
      | inr (x, bad) ↦ absurd (ground (arith, good, bad))
      | inl (fresh, made) ↦ elim (Result-cases (next_root P middle fresh theirs)) [
        | inr (x, bad) ↦ absurd (ground (arith, good, made, bad))
        | inl ((root, out), last) ↦
            let same : t ≡ turned s fresh chain (root, out) = ground (arith, good, made, last) in
            rw same (record {
              dhs = dhs;
              had_dhs = had;
              fresh = fresh;
              generated = made;
              middle = middle;
              received = good;
              sent = last;
              has_fresh = refl;
              dhr = refl;
              nr = refl;
              ns = refl;
              pn = refl;
              kept = refl;
              marked = refl;
            })
      ]
    ]
  ]

  pub dh_ratchet-ok :
      (s t : State) → dh_ratchet P entropy theirs s ≡ (ok tt, t) → TurnedTo P entropy theirs s t
  unfolding dh_ratchet
  dh_ratchet-ok s t e = elim (Option-cases s.dhs) [
    | inl missing ↦ absurd (ground (arith, missing))
    | inr (dhs, had) ↦ turn_with-ok dhs s t had (rw (← e) (ground (arith, had)))
  ]

-- ===== src/Common/Map/Sorted.antt =====
-- A map's entries in the order of a test on keys (sort.Slice on the keys of a map), and a map that is filled
-- from a list of entries.
use mathlib.Core.Path.{◌≡◌, refl}
use mathlib.Core.Bool.{Bool}
use mathlib.Core.Option.{none, some}
use mathlib.Core.List.{[], ◌∷◌}
use Prim.Native.Nat.{suc}
use native.Mathlib.Omega.{arith}
use mathlib.Core.Logic.{inl, inr}
use signal.Common.Tests.{if◌then◌else◌, is_some, Bool-cases}
use signal.Common.Lists.{length, All}
use signal.Common.Equality.{Eq, ◌==◌}
use signal.Common.Map.{Map, lookup, insert, lookup-insert}

module _ {ℓ κ} {K : Type ℓ} {V : Type κ} ⦃e : Eq K⦄ where
  -- A key has one entry, as in every map of the program.
  abbrev pub Distinct : Map K V → Type κ
  Distinct [] = Unit {κ}
  Distinct ((k, v) ∷ m) = (lookup k m ≡ none) × Distinct m

  unfoldable pub fill_map : Map K V → Map K V → Map K V
  fill_map m [] = m
  fill_map m ((k, v) ∷ entries) = fill_map (insert k v m) entries

  -- What a filled map has under a key: the list's entry, else the old one.
  pub lookup-fill_map :
      (j : K) (m entries : Map K V)
      → Distinct entries
      → lookup j (fill_map m entries)
        ≡ (if is_some (lookup j entries) then lookup j entries else lookup j m)
  unfolding fill_map lookup
  lookup-fill_map j m [] h = refl
  lookup-fill_map j m ((k, v) ∷ entries) (new, h) =
      ground (
        arith,
        lookup-fill_map j (insert k v m) entries h,
        lookup-insert k j v m,
        e.beq_iff k j,
        new,
      )

  module _ (before : K → K → Bool) where
    unfoldable pub place : K → V → Map K V → Map K V
    place k v [] = (k, v) ∷ []
    place k v ((j, w) ∷ m) =
        let rest = place k v m in if before k j then (k, v) ∷ (j, w) ∷ m else (j, w) ∷ rest

    unfoldable pub sorted : Map K V → Map K V
    unfolding place
    sorted [] = []
    sorted ((k, v) ∷ m) = place k v (sorted m)

    lookup-place :
        (k j : K) (v : V) (m : Map K V)
        → lookup k m ≡ none
        → lookup j (place k v m) ≡ (if k == j then some v else lookup j m)
    unfolding place lookup
    lookup-place k j v [] new = refl
    lookup-place k j v ((i, w) ∷ m) new =
        ground (arith, e.beq_iff k j, e.beq_iff i k, e.beq_iff i j, lookup-place k j v m)

    place-Distinct :
        (k : K) (v : V) (m : Map K V) → lookup k m ≡ none → Distinct m → Distinct (place k v m)
    unfolding place lookup
    place-Distinct k v [] new h = (refl, tt)
    place-Distinct k v ((i, w) ∷ m) new (fresh, h) =
        ground (arith, e.beq_iff i k, e.beq_iff k i, lookup-place k i v m, place-Distinct k v m)

    length-place : (k : K) (v : V) (m : Map K V) → length (place k v m) ≡ suc (length m)
    unfolding place
    length-place k v [] = refl
    length-place k v ((i, w) ∷ m) = ground (arith, length-place k v m)

    pub length-sorted : (m : Map K V) → length (sorted m) ≡ length m
    unfolding sorted
    length-sorted [] = refl
    length-sorted ((k, v) ∷ m) = ground (arith, length-place k v (sorted m), length-sorted m)

    -- Sorting moves entries only.
    pub lookup-sorted : (j : K) (m : Map K V) → Distinct m → lookup j (sorted m) ≡ lookup j m
    unfolding sorted lookup
    lookup-sorted j [] h = refl
    lookup-sorted j ((k, v) ∷ m) (new, h) =
        ground (arith, lookup-place k j v (sorted m), lookup-sorted k m h, lookup-sorted j m h)

    pub sorted-Distinct : (m : Map K V) → Distinct m → Distinct (sorted m)
    unfolding sorted
    sorted-Distinct [] h = tt
    sorted-Distinct ((k, v) ∷ m) (new, h) =
        place-Distinct k v (sorted m) (ground (arith, lookup-sorted k m h, new))
          (sorted-Distinct m h)

    module _ {μ} (Q : K × V → Type μ) where
      place-All : (k : K) (v : V) (m : Map K V) → Q (k, v) → All Q m → All Q (place k v m)
      unfolding place
      place-All k v [] q h = (q, tt)
      place-All k v ((i, w) ∷ m) q (r, h) = elim (Bool-cases (before k i)) [
        | inl first ↦ rw first (q, (r, h))
        | inr later ↦ rw later (r, place-All k v m q h)
      ]

      pub sorted-All : (m : Map K V) → All Q m → All Q (sorted m)
      unfolding sorted
      sorted-All [] h = tt
      sorted-All ((k, v) ∷ m) (q, h) = place-All k v (sorted m) q (sorted-All m h)

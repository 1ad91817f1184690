-- ===== src/Session/Record/History.antt =====
-- A record over many calls of `Promote` (session/record.go): for a session that was built, which is not in the
-- archive, and for an archived one that read a message.
use signal.Common.{
  ℕ, zero, suc, ◌≤◌, ◌<◌, ◌≡◌, refl, sym, ap, ◌∙◌, Option, none, some, List, [], ◌∷◌, All, length,
  length-take, ltb, take, drop, ◌++◌, if◌then◌else◌, arith, Bool-cases, inl, inr,
}
use signal.Session.{Session, clone}
use signal.Session.Record.{Record, promote, without}
use signal.Session.Record.Limits.{IsBounded}

-- The session that becomes the current one, and its place in the archive if it was there.
pub record Move (Q : Type 0) : Type 0 where
  pub at : Option ℕ
  pub next : Session Q

-- The place, if any, is one that an archive of this size has.
abbrev IsPlace : ℕ → Option ℕ → Type 0
IsPlace max none = Unit {0}
IsPlace max (some i) = i < max

abbrev pub IsMove : {Q : Type 0} → ℕ → Move Q → Type 0
IsMove max mv = IsPlace max mv.at

take_of_length-le : {A : Type 0} (n : ℕ) (xs : List A) → length xs ≤ n → take n xs ≡ xs
take_of_length-le zero [] h = refl
take_of_length-le zero (x ∷ xs) h = absurd (omega arith)
take_of_length-le (suc n) [] h = refl
take_of_length-le (suc n) (x ∷ xs) h = ap (λ l. x ∷ l) (take_of_length-le n xs (omega arith))

take-take : {A : Type 0} (n : ℕ) (xs : List A) → take n (take (suc n) xs) ≡ take n xs
take-take zero xs = refl
take-take (suc n) [] = refl
take-take (suc n) (x ∷ xs) = ap (λ l. x ∷ l) (take-take n xs)

-- What lies beyond the cut does not come back when a place within it is freed.
take-without :
    {A : Type 0} (n i : ℕ) (xs : List A)
    → i ≤ n
    → take n (without (some i) (take (suc n) xs)) ≡ take n (without (some i) xs)
unfolding without
take-without n i [] h = refl
take-without n zero (x ∷ xs) h = take_of_length-le n (take n xs) (omega (arith, length-take n xs))
take-without zero (suc i) (x ∷ xs) h = absurd (omega arith)
take-without (suc n) (suc i) (x ∷ xs) h = ap (λ l. x ∷ l) (take-without n i xs (omega arith))

promoted_front :
    {A : Type 0} (n : ℕ) (at : Option ℕ) (x : A) (xs : List A)
    → IsPlace n at
    → take n (x ∷ without at (take n xs)) ≡ take n (x ∷ without at xs)
unfolding without
promoted_front zero at x xs h = refl
promoted_front (suc n) none x xs h = ap (λ l. x ∷ l) (take-take n xs)
promoted_front (suc n) (some i) x xs h = ap (λ l. x ∷ l) (take-without n i xs (omega arith))

-- The cut of `Promote` takes the front, whether there is something to cut or not.
cut_front :
    {A : Type 0} (n : ℕ) (xs : List A) → (if ltb n (length xs) then take n xs else xs) ≡ take n xs
cut_front n xs = elim (Bool-cases (ltb n (length xs))) [
  | inl longer ↦ rw longer refl
  | inr fits ↦ rw fits (sym (take_of_length-le n xs (ground (arith, fits))))
]

-- A list without what stands at the place.
abbrev pub removed : {A : Type 0} → Option ℕ → List A → List A
removed none xs = xs
removed (some i) xs = take i xs ++ drop (suc i) xs

without-removed : {A : Type 0} (at : Option ℕ) (xs : List A) → without at xs ≡ removed at xs
unfolding without
without-removed none xs = refl
without-removed (some zero) [] = refl
without-removed (some (suc i)) [] = refl
without-removed (some zero) (x ∷ xs) = refl
without-removed (some (suc i)) (x ∷ xs) = ap (λ l. x ∷ l) (without-removed (some i) xs)

module _ {Q : Type 0} where
  unfoldable pub promote_all : List (Move Q) → Record Q → Record Q
  promote_all [] r = r
  promote_all (mv ∷ mvs) r = promote_all mvs (promote mv.at mv.next r)

  -- All sessions that are not current any more, the latest first, when none is ever dropped: each in the state in
  -- which it was left, at the one place to which its last use brings it.
  unfoldable pub retired : List (Move Q) → Session Q → List (Session Q) → List (Session Q)
  retired [] current old = old
  retired (mv ∷ mvs) current old = retired mvs (clone mv.next) (clone current ∷ removed mv.at old)

  promote-front :
      (max : ℕ) (at : Option ℕ) (next current : Session Q) (old : List (Session Q))
      → IsPlace max at
      → promote at next (record { current = current; archived = take max old; max_archived = max })
        ≡ record {
          current = clone next;
          archived = take max (clone current ∷ removed at old);
          max_archived = max;
        }
  unfolding promote
  promote-front max at next current old h =
      let front =
        cut_front max (clone current ∷ without at (take max old))
        ∙ promoted_front max at (clone current) old h
        ∙ ap (λ l. take max (clone current ∷ l)) (without-removed at old) in
      ap (λ l. record { current = clone next; archived = l; max_archived = max }) front

  promote_all-front :
      (max : ℕ) (mvs : List (Move Q)) (current : Session Q) (old : List (Session Q))
      → All (IsMove max) mvs
      → (promote_all mvs
          (record { current = current; archived = take max old; max_archived = max })).archived
        ≡ take max (retired mvs current old)
  unfolding promote_all retired
  promote_all-front max [] current old h = refl
  promote_all-front max (mv ∷ mvs) current old (here, h) =
      ap (λ r. (promote_all mvs r).archived) (promote-front max mv.at mv.next current old here)
      ∙ promote_all-front max mvs (clone mv.next) (clone current ∷ removed mv.at old) h

  -- From a record within its limit, which is positive, and after any sequence of promotions, of sessions that were built
  -- and of sessions at a place of the archive below the limit, the archive holds exactly the sessions that were current
  -- last, as clones, the latest first and as many as the limit: the front of the list of all of them, each at the place
  -- of its last use.
  pub promote_all-retired :
      (mvs : List (Move Q)) (r : Record Q)
      → IsBounded r
      → All (IsMove r.max_archived) mvs
      → (promote_all mvs r).archived ≡ take r.max_archived (retired mvs r.current r.archived)
  promote_all-retired mvs r h places =
      let whole = take_of_length-le r.max_archived r.archived h.kept in
      ap (λ l. (promote_all mvs (record r { archived = l })).archived) (sym whole)
      ∙ promote_all-front r.max_archived mvs r.current r.archived places

-- ===== src/Spqr/Epochs/Links.antt =====
-- What the links of a chain hold, and what taking a key from one gives (spqr/chain.go).
use signal.Common.{
  ℕ, zero, suc, ◌+◌, ◌^◌, ◌<◌, ◌≤◌, ◌≡◌, ◌⊎◌, inl, inr, refl, List, [], ◌∷◌, ◌++◌, Bytes, Result,
  ok, err, length, Bool-cases, arith, ltb, subst, ap,
}
use signal.Common.Exec.{Exec}
use signal.Crypto.{Primitives}
use signal.Crypto.Laws.{IsSound}
use signal.Spqr.{ChainParams, ChainEpochDirection, ChainEpoch, max_ooo_of, max_jump_of}
use signal.Spqr.Keys.{next_key, key}
use signal.Spqr.Keys.Ideal.{Ideal, ask, chain_at, message_key, next_key_lem, next_key-cleared}
use signal.Spqr.Keys.Refines.{Refines, key-Refines}
use signal.Spqr.Keys.Requests.{Fits}
use signal.Spqr.Epochs.{at_link, trim_links, clear_sends}

-- What a success gives.
abbrev pub Gives {ℓ} : {A : Type ℓ} → (A → Type 0) → Result A → Type 0
Gives Q (ok a) = Q a
Gives Q (err e) = Unit {0}

-- A sending direction that has given at most `n` keys of its seed, or is closed.
pub record IsSending (P : Primitives) (seed : Bytes) (n : ℕ) (d : ChainEpochDirection)
    : Type 0 where
  pub few : d.ctr ≤ n
  pub chain : (d.next ≡ []) ⊎ (d.next ≡ chain_at P seed d.ctr)

abbrev pub IsKeyOf : Primitives → Bytes → ℕ × Bytes → Type 0
IsKeyOf P seed (i, k) = k ≡ message_key P seed i

module _ {P : Primitives} (sound : IsSound P) (seed : Bytes) (sized : length seed ≡ 32) where
  pub next_key-IsSending :
      (n : ℕ) (d : ChainEpochDirection)
      → n + 1 < 2 ^ 32
      → IsSending P seed n d
      → IsSending P seed (suc n) (next_key P d).1 × Gives (IsKeyOf P seed) (next_key P d).0
  next_key-IsSending n d small h = elim h.chain [
    | inl closed ↦
        rw (next_key-cleared P d closed)
          (record { few = omega (arith, h.few); chain = h.chain }, tt)
    | inr open_chain ↦
        rw (next_key_lem sound seed sized d (omega (arith, h.few)) open_chain)
          (record { few = omega (arith, h.few); chain = inr refl }, refl)
  ]

  ask-key :
      (params : ChainParams) (at : ℕ) (s : Ideal)
      → Gives (λ k. k ≡ message_key P seed at) (ask P seed at params s).0
  unfolding ask
  ask-key params at s = elim (Bool-cases (ltb (at + max_ooo_of params) s.count)) [
    | inl far ↦ rw far tt
    | inr near ↦ elim (Bool-cases (s.given at)) [
      | inl gone ↦ rw (near, gone) tt
      | inr new ↦ elim (Bool-cases (ltb (s.count + max_jump_of params) at)) [
        | inl jump ↦ rw (near, new, jump) tt
        | inr within ↦ rw (near, new, within) refl
      ]
    ]
  ]

  -- A receiving direction follows some ideal one.
  pub key-IsReceiving :
      (params : ChainParams) (at : ℕ) (d : ChainEpochDirection)
      → Fits params at
      → (s : Ideal) × Refines P seed (max_ooo_of params) d s
      → ((s : Ideal) × Refines P seed (max_ooo_of params) (key P at params d).1 s)
        × Gives (λ k. k ≡ message_key P seed at) (key P at params d).0
  key-IsReceiving params at d small (s, r) =
      let (same, r') = key-Refines sound seed sized params at d s small r in
      (((ask P seed at params s).1, r'), rw same (ask-key params at s))

-- The keys of the epochs from `first` on.
module _ (IsLink : ℕ → ChainEpoch → Type 0) where
  abbrev pub LinksFrom : ℕ → List ChainEpoch → Type 0
  LinksFrom first [] = Unit {0}
  LinksFrom first (l ∷ links) = IsLink first l × LinksFrom (suc first) links

pub LinksFrom-append :
    (IsLink : ℕ → ChainEpoch → Type 0) (first : ℕ) (links : List ChainEpoch) (l : ChainEpoch)
    → LinksFrom IsLink first links
    → IsLink (first + length links) l
    → LinksFrom IsLink first (links ++ (l ∷ []))
LinksFrom-append IsLink first [] l h new = (subst (λ e. IsLink e l) (omega arith) new, tt)
LinksFrom-append IsLink first (k ∷ links) l (h, hs) new =
    (h, LinksFrom-append IsLink (suc first) links l hs (subst (λ e. IsLink e l) (omega arith) new))

pub LinksFrom-imp :
    (Before After : ℕ → ChainEpoch → Type 0)
    → ((e : ℕ) (l : ChainEpoch) → Before e l → After e l)
    → (first : ℕ) (links : List ChainEpoch) → LinksFrom Before first links
    → LinksFrom After first links
LinksFrom-imp Before After grow first [] h = tt
LinksFrom-imp Before After grow first (l ∷ links) (h, hs) =
    (grow first l h, LinksFrom-imp Before After grow (suc first) links hs)

module _ {A : Type 0} (Before After : ℕ → ChainEpoch → Type 0) (Q : ℕ → A → Type 0)
    (grow : (e : ℕ) (l : ChainEpoch) → Before e l → After e l) (m : Exec ChainEpoch A)
    (keep : (e : ℕ) (l : ChainEpoch) → Before e l → After e (m l).1 × Gives (Q e) (m l).0) where
  -- A change to one link.
  pub at_link-LinksFrom :
      (i first : ℕ) (links : List ChainEpoch)
      → LinksFrom Before first links
      → (LinksFrom After first (at_link i m links).1 × Gives (Q (first + i)) (at_link i m links).0)
        × (length (at_link i m links).1 ≡ length links)
  unfolding at_link
  at_link-LinksFrom zero first [] h = ((tt, tt), refl)
  at_link-LinksFrom (suc i) first [] h = ((tt, tt), refl)
  at_link-LinksFrom zero first (l ∷ links) (h, hs) =
      let (kept, gives) = keep first l h in
      (
        (
          (kept, LinksFrom-imp Before After grow (suc first) links hs),
          subst (λ e. Gives (Q e) (m l).0) (omega arith) gives,
        ),
        refl,
      )
  at_link-LinksFrom (suc i) first (l ∷ links) (h, hs) =
      let ((rest, gives), same) = at_link-LinksFrom i (suc first) links hs in
      (
        (
          (grow first l h, rest),
          subst (λ e. Gives (Q e) (at_link i m links).0) (omega arith) gives,
        ),
        ap suc same,
      )

module _ (IsLink : ℕ → ChainEpoch → Type 0) where
  -- Trimming drops links of the oldest epochs.
  pub trim_links-LinksFrom :
      (idx first : ℕ) (links : List ChainEpoch)
      → idx < length links
      → LinksFrom IsLink first links
      → let (kept, i) = trim_links idx links in
        (first' : ℕ) × LinksFrom IsLink first' kept
        × (first' + i ≡ first + idx)
        × (first' + length kept ≡ first + length links)
        × (i < length kept)
  unfolding trim_links
  trim_links-LinksFrom zero first links below h = (first, h, refl, refl, below)
  trim_links-LinksFrom (suc zero) first links below h = (first, h, refl, refl, below)
  trim_links-LinksFrom (suc (suc idx)) first [] below h = absurd (omega arith)
  trim_links-LinksFrom (suc (suc idx)) first (l ∷ links) below (h, hs) =
      let (first', kept, i, n, inside) =
        trim_links-LinksFrom (suc idx) (suc first) links (omega arith) hs in
      (first', kept, omega (arith, i), omega (arith, n), inside)

  pub clear_sends-LinksFrom :
      ((e : ℕ) (l : ChainEpoch)
        → IsLink e l
        → IsLink e (record l { send = record l.send { next = [] } }))
      → (i first : ℕ) (links : List ChainEpoch) → LinksFrom IsLink first links
      → LinksFrom IsLink first (clear_sends i links) × (length (clear_sends i links) ≡ length links)
  unfolding clear_sends
  clear_sends-LinksFrom close zero first links h = (h, refl)
  clear_sends-LinksFrom close (suc i) first [] h = (tt, refl)
  clear_sends-LinksFrom close (suc i) first (l ∷ links) (h, hs) =
      let (rest, same) = clear_sends-LinksFrom close i (suc first) links hs in
      ((close first l h, rest), ap suc same)

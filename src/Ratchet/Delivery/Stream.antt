-- ===== src/Ratchet/Delivery/Stream.antt =====
-- A stream of calls of `Decrypt` over messages of one chain.
use mathlib.Core.List.{map}
use signal.Common.{ℕ, ◌≡◌, ◌≢◌, refl, Option, Bytes, Result, ok, List, [], ◌∷◌, All, ap}
use signal.Crypto.{Primitives}
use signal.Ratchet.{State, Message}
use signal.Ratchet.Receive.{decrypt}
use signal.Ratchet.Delivery.{Tracks, Pending, IsGenuine, InReach}
use signal.Ratchet.Delivery.Order.{Delivered, deliver}

-- No number twice.
abbrev pub Distinct : List ℕ → Type 0
Distinct [] = Unit {0}
Distinct (n ∷ ns) = All (λ m. m ≢ n) ns × Distinct ns

-- The results of decrypting the messages of the given numbers one after the other.
unfoldable pub receive_all :
    Primitives → (ℕ → Option Bytes) → (ℕ → Message) → Bytes → List ℕ → State → List (Result Bytes)
receive_all P entropy message ad [] s = []
receive_all P entropy message ad (n ∷ ns) s =
    (decrypt P (entropy n) (message n) ad s).0
    ∷ receive_all P entropy message ad ns (decrypt P (entropy n) (message n) ad s).1

module _ (P : Primitives) (start d : Bytes) (base : ℕ) (entropy : ℕ → Option Bytes)
    (message : ℕ → Message) (text : ℕ → Bytes) (ad : Bytes) where
  -- What the stream needs of a number.
  pub record Expected (s : State) (n : ℕ) : Type 0 where
    pub reach : InReach P start base n
    pub genuine : IsGenuine P start d n (text n) ad (message n)
    pub pending : Pending d s n

  still-Expected :
      (n : ℕ) (s : State) (given : Delivered P start d base n (text n) ad (entropy n) (message n) s)
      (ns : List ℕ)
      → All (λ m. m ≢ n) ns
      → All (Expected s) ns
      → All (Expected given.after) ns
  still-Expected n s given [] others es = tt
  still-Expected n s given (m ∷ ms) (other, others) (e, es) = (
    record { reach = e.reach; genuine = e.genuine; pending = given.others m other e.pending },
    still-Expected n s given ms others es,
  )

  pub any_order :
      (ns : List ℕ) (s : State)
      → Tracks P start d base s
      → Distinct ns
      → All (Expected s) ns
      → receive_all P entropy message ad ns s ≡ map (λ n. ok (text n)) ns
  unfolding receive_all
  any_order [] s tracks distinct es = refl
  any_order (n ∷ ns) s tracks (others, distinct) (e, es) =
      let given =
        deliver P start d base n (text n) ad (entropy n) (message n) s tracks e.reach e.genuine
          e.pending in
      rw given.result (
        ap (λ (rest : List (Result Bytes)). ok (text n) ∷ rest)
          (any_order ns given.after given.tracks distinct (still-Expected n s given ns others es)))

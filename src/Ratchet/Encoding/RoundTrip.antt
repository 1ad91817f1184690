-- ===== src/Ratchet/Encoding/RoundTrip.antt =====
-- Headers written and read (ratchet/header.go).
use signal.Common.{
  ℕ, zero, suc, ◌≡◌, refl, sym, ap, subst, ◌∙◌, [], ◌∷◌, ◌++◌, Bytes, ok, length, take, drop,
  take-append, drop-append, length-append, drop-drop, ◌>>=◌, Bool-cases, eqb, inl, inr, length-take,
  length-drop, take-append-drop, All, arith,
}
use signal.Common.Words.{
  IsU32, IsByte, put_uint32, uint32, uint32-put_uint32, put_uint32-uint32, length-put_uint32,
}
use signal.Crypto.{Primitives}
use signal.Crypto.Laws.{IsSound}
use signal.Ratchet.{Header}
use signal.Ratchet.Encoding.{serialize, deserialize, encrypt_header, decrypt_header}

-- What the Go type of a header ensures.
pub record IsSized (h : Header) : Type 0 where
  pub dh : length h.dh ≡ 32
  pub pn : IsU32 h.pn
  pub n : IsU32 h.n

pub length-serialize : (h : Header) → IsSized h → length (serialize h) ≡ 40
unfolding serialize
length-serialize h s = omega (
  arith,
  s.dh,
  length-append h.dh (put_uint32 h.pn ++ put_uint32 h.n),
  length-append (put_uint32 h.pn) (put_uint32 h.n),
  length-put_uint32 h.pn,
  length-put_uint32 h.n,
)

append-empty : (b : Bytes) → b ++ [] ≡ b
append-empty [] = refl
append-empty (x ∷ b) = ap (λ c. x ∷ c) (append-empty b)

four : (n : ℕ) → IsU32 n → uint32 (put_uint32 n) ≡ n
unfolding put_uint32
four n h = uint32-put_uint32 n [] h

-- The header in the parts of 40 bytes.
parts : Bytes → Header
parts b = record {
  dh = take 32 b;
  pn = uint32 (take 4 (drop 32 b));
  n = uint32 (take 4 (drop 36 b));
}

deserialize-parts : (b : Bytes) → length b ≡ 40 → deserialize b ≡ ok (parts b)
unfolding deserialize parts
deserialize-parts b l = ground (arith, l)

parts-serialize : (h : Header) → IsSized h → parts (serialize h) ≡ h
unfolding parts serialize
parts-serialize h s =
    let counters : Bytes = put_uint32 h.pn ++ put_uint32 h.n in
    let second : drop 36 (h.dh ++ counters) ≡ put_uint32 h.n =
      sym (drop-drop 4 32 (h.dh ++ counters))
      ∙ ap (drop 4) (drop-append 32 h.dh counters s.dh)
      ∙ drop-append 4 (put_uint32 h.pn) (put_uint32 h.n) (length-put_uint32 h.pn) in
    let last : take 4 (put_uint32 h.n) ≡ put_uint32 h.n = unfold put_uint32 in refl in
    rw
      (
        second,
        last,
        take-append 32 h.dh counters s.dh,
        drop-append 32 h.dh counters s.dh,
        take-append 4 (put_uint32 h.pn) (put_uint32 h.n) (length-put_uint32 h.pn),
        four h.pn s.pn,
        four h.n s.n,
      )
      refl

-- Reading what was written gives the header back, for a 32-byte key and uint32 counters.
pub deserialize-serialize : (h : Header) → IsSized h → deserialize (serialize h) ≡ ok h
deserialize-serialize h s =
    deserialize-parts (serialize h) (length-serialize h s) ∙ ap ok (parts-serialize h s)

take-all : (b : Bytes) → length b ≡ 4 → take 4 b ≡ b
take-all b l =
    let e : take 4 (b ++ []) ≡ b = take-append 4 b [] l in
    subst (λ c. take 4 c ≡ b) (append-empty b) e

All-take : (n : ℕ) (b : Bytes) → All IsByte b → All IsByte (take n b)
All-take zero b h = tt
All-take (suc n) [] h = tt
All-take (suc n) (x ∷ b) (hx, h) = (hx, All-take n b h)

All-drop : (n : ℕ) (b : Bytes) → All IsByte b → All IsByte (drop n b)
All-drop zero b h = h
All-drop (suc n) [] h = tt
All-drop (suc n) (x ∷ b) (hx, h) = All-drop n b h

written : (b : Bytes) → length b ≡ 4 → All IsByte b → put_uint32 (uint32 b) ≡ b
written [] e h = absurd (omega arith)
written (x ∷ []) e h = absurd (omega arith)
written (x ∷ y ∷ []) e h = absurd (omega arith)
written (x ∷ y ∷ z ∷ []) e h = absurd (omega arith)
written (x ∷ y ∷ z ∷ w ∷ []) e (hx, (hy, (hz, (hw, h)))) = put_uint32-uint32 x y z w [] hx hy hz hw
written (x ∷ y ∷ z ∷ w ∷ v ∷ b) e h = absurd (omega arith)

serialize-parts : (b : Bytes) → All IsByte b → length b ≡ 40 → serialize (parts b) ≡ b
unfolding serialize parts
serialize-parts b bytes l =
    let rest : Bytes = drop 32 b in
    let e : drop 4 rest ≡ drop 36 b = drop-drop 4 32 b in
    let whole : take 4 (drop 36 b) ≡ drop 36 b =
      take-all (drop 36 b) (omega (arith, length-drop 36 b)) in
    rw
      (
        whole,
        written (drop 36 b) (omega (arith, length-drop 36 b)) (All-drop 36 b bytes),
        written (take 4 rest) (omega (arith, length-drop 32 b, length-take 4 rest))
            (All-take 4 rest (All-drop 32 b bytes)),
        ← e,
        take-append-drop 4 rest,
        take-append-drop 32 b,
      )
      refl

-- Bytes that are read as a header are what the header is written as.
pub serialize-deserialize :
    (b : Bytes) (h : Header) → All IsByte b → deserialize b ≡ ok h → serialize h ≡ b
unfolding deserialize
serialize-deserialize b h bytes e = elim (Bool-cases (eqb (length b) 40)) [
  | inr differs ↦ absurd (ground (arith, differs))
  | inl equal ↦
      let l : length b ≡ 40 = ground (arith, equal) in
      let same : ok h ≡ ok (parts b) = sym e ∙ deserialize-parts b l in
      let same' : h ≡ parts b = cc in rw same' (serialize-parts b bytes l)
]

-- A header sealed under a 32-byte key and a 12-byte nonce opens to itself.
pub decrypt_header-encrypt_header :
    (P : Primitives) (sound : IsSound P) (h : Header) (key nonce : Bytes)
    → IsSized h
    → length key ≡ 32
    → length nonce ≡ 12
    → (encrypt_header P h key nonce >>= decrypt_header P key nonce) ≡ ok h
unfolding encrypt_header decrypt_header
decrypt_header-encrypt_header P sound h key nonce s k n =
    ground (arith, k, n, sound.opens key nonce (serialize h) [] k n, deserialize-serialize h s)

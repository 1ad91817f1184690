-- ===== src/Crypto/Xeddsa/Bytes32.antt =====
-- One byte of an array read and written, for the masks of crypto/xeddsa.go.
use signal.Common.{ℕ, zero, suc, ◌+◌, ◌<◌, ◌≡◌, refl, ap, [], ◌∷◌, ◌++◌, Bytes, length, arith}
use signal.Crypto.Xeddsa.{byte_at, put_at}

pub byte_at-put_at : (i v : ℕ) (bs : Bytes) → i < length bs → byte_at i (put_at i v bs) ≡ v
unfolding byte_at put_at
byte_at-put_at i v [] h = absurd (omega arith)
byte_at-put_at zero v (b ∷ bs) h = refl
byte_at-put_at (suc i) v (b ∷ bs) h = byte_at-put_at i v bs (omega arith)

pub put_at-put_at : (i v w : ℕ) (bs : Bytes) → put_at i w (put_at i v bs) ≡ put_at i w bs
unfolding put_at
put_at-put_at i v w [] = refl
put_at-put_at zero v w (b ∷ bs) = refl
put_at-put_at (suc i) v w (b ∷ bs) = ap (λ t. b ∷ t) (put_at-put_at i v w bs)

pub put_at_same : (i : ℕ) (bs : Bytes) → put_at i (byte_at i bs) bs ≡ bs
unfolding put_at byte_at
put_at_same i [] = refl
put_at_same zero (b ∷ bs) = refl
put_at_same (suc i) (b ∷ bs) = ap (λ t. b ∷ t) (put_at_same i bs)

pub length-put_at : (i v : ℕ) (bs : Bytes) → length (put_at i v bs) ≡ length bs
unfolding put_at
length-put_at i v [] = refl
length-put_at zero v (b ∷ bs) = refl
length-put_at (suc i) v (b ∷ bs) = ap suc (length-put_at i v bs)

-- Behind a front of n bytes, index n + i is index i of the rest.
pub put_at-append :
    (n m i v : ℕ) (front rest : Bytes)
    → length front ≡ n
    → m ≡ n + i
    → put_at m v (front ++ rest) ≡ front ++ put_at i v rest
unfolding put_at
put_at-append zero m i v [] rest h e = ap (λ k. put_at k v rest) (omega (arith, e))
put_at-append zero m i v (b ∷ front) rest h e = absurd (omega (arith, h))
put_at-append (suc n) m i v [] rest h e = absurd (omega (arith, h))
put_at-append (suc n) zero i v (b ∷ front) rest h e = absurd (omega (arith, e))
put_at-append (suc n) (suc m) i v (b ∷ front) rest h e =
    ap (λ t. b ∷ t) (put_at-append n m i v front rest (omega (arith, h)) (omega (arith, e)))

pub byte_at-append :
    (n m i : ℕ) (front rest : Bytes)
    → length front ≡ n
    → m ≡ n + i
    → byte_at m (front ++ rest) ≡ byte_at i rest
unfolding byte_at
byte_at-append zero m i [] rest h e = ap (λ k. byte_at k rest) (omega (arith, e))
byte_at-append zero m i (b ∷ front) rest h e = absurd (omega (arith, h))
byte_at-append (suc n) m i [] rest h e = absurd (omega (arith, h))
byte_at-append (suc n) zero i (b ∷ front) rest h e = absurd (omega (arith, e))
byte_at-append (suc n) (suc m) i (b ∷ front) rest h e =
    byte_at-append n m i front rest (omega (arith, h)) (omega (arith, e))

-- ===== src/SenderKeys/Record/Present.antt =====
-- A record that gives a state is not empty (senderkeys/record.go).
use signal.Common.{ℕ, ◌≡◌, false, List, [], ◌∷◌, Bytes, ok, eqb, length, arith}
use signal.SenderKeys.{State, Archive}
use signal.SenderKeys.Record.{current, first, state, find, is_empty}

first-present : (l : List State) (st : State) → first l ≡ ok st → eqb (length l) 0 ≡ false
unfolding first
first-present [] st e = cc
first-present (s ∷ l) st e = ground arith

pub current-present : (r : Archive) (st : State) → current r ≡ ok st → is_empty r ≡ false
unfolding current is_empty
current-present r st e = first-present r.states st e

find-present :
    (id : Bytes) (key_id : ℕ) (l : List State) (st : State)
    → find id key_id l ≡ ok st
    → eqb (length l) 0 ≡ false
unfolding find
find-present id key_id [] st e = cc
find-present id key_id (s ∷ l) st e = ground arith

pub state-present :
    (id : Bytes) (key_id : ℕ) (r : Archive) (st : State)
    → state id key_id r ≡ ok st
    → is_empty r ≡ false
unfolding state is_empty
state-present id key_id r st e = find-present id key_id r.states st e

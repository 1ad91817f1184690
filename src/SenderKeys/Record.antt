-- ===== src/SenderKeys/Record.antt =====
-- senderkeys/record.go.
pub mod Limits
pub mod Present
use signal.Common.{
  ℕ, ◌-◌, Bool, false, not, ◌&&◌, ◌||◌, Option, none, some, List, [], ◌∷◌, ◌++◌, Bytes, bytes_beq,
  Result, ok, err, plain, eqb, ltb, length, take, drop, if◌then◌else◌, ℤ, pos, is_non_positive,
}
use signal.SenderKeys.{State, MessageKey, Archive, max_message_keys_per_state}

abbrev pub default_max_states : ℕ
default_max_states = 5

limit_of : ℤ → ℕ
limit_of (pos n) = n
limit_of z = 0

unfoldable pub new_record : ℤ → Archive
unfolding limit_of
new_record max_states = record {
  states = [];
  max_states = if is_non_positive max_states then default_max_states else limit_of max_states;
}

unfoldable pub is_empty : Archive → Bool
is_empty r = eqb (length r.states) 0

first : List State → Result State
first [] = err (plain "sender key record: missing state")
first (s ∷ rest) = ok s

unfoldable pub current : Archive → Result State
unfolding first
current r = first r.states

-- keyID and distributionID are those of the state
unfoldable pub answers : Bytes → ℕ → State → Bool
answers distribution_id key_id s =
    eqb s.key_id key_id && bytes_beq s.distribution_id distribution_id

unfoldable pub find : Bytes → ℕ → List State → Result State
find distribution_id key_id [] = err (plain "sender key record: missing state")
find distribution_id key_id (s ∷ rest) =
    let later = find distribution_id key_id rest in
    if answers distribution_id key_id s then ok s else later

unfoldable pub state : Bytes → ℕ → Archive → Result State
state distribution_id key_id r = find distribution_id key_id r.states

unfoldable pub filtered : State → List State → List State
filtered next [] = []
filtered next (s ∷ rest) =
    let others = filtered next rest in
    if answers next.distribution_id next.key_id s then others else s ∷ others

unfoldable pub set_state : State → Archive → Archive
set_state next r =
    let states : List State = next ∷ filtered next r.states in
    record r {
      states = if ltb r.max_states (length states) then take r.max_states states else states;
    }

unfoldable pub has_message_key : ℕ → List MessageKey → Bool
has_message_key iteration [] = false
has_message_key iteration (mk ∷ rest) = eqb mk.iteration iteration || has_message_key iteration rest

unfoldable pub add_message_key : MessageKey → State → State
add_message_key mk s =
    let keys : List MessageKey = s.message_keys ++ (mk ∷ []) in
    record s {
      message_keys =
          if ltb max_message_keys_per_state (length keys)
          then drop (length keys - max_message_keys_per_state) keys
          else keys;
    }

kept_first : MessageKey → Option (Bytes × List MessageKey) → Option (Bytes × List MessageKey)
kept_first mk none = none
kept_first mk (some (seed, rest)) = some (seed, mk ∷ rest)

-- The seed of the first key of the iteration, and the keys without it.
unfoldable pub taken : ℕ → List MessageKey → Option (Bytes × List MessageKey)
unfolding kept_first
taken iteration [] = none
taken iteration (mk ∷ rest) =
    let later = taken iteration rest in
    if not (eqb mk.iteration iteration) then kept_first mk later else some (mk.seed, rest)

removed : State → Option (Bytes × List MessageKey) → Option Bytes × State
removed s none = (none, s)
removed s (some (seed, rest)) = (some seed, record s { message_keys = rest })

unfoldable pub remove_message_key : ℕ → State → Option Bytes × State
unfolding taken removed
remove_message_key iteration s = removed s (taken iteration s.message_keys)

-- ===== src/SenderKeys/Record/Limits.antt =====
-- What `setState` of senderkeys/record.go keeps of a record.
use signal.Common.{
  ℕ, zero, suc, ◌-◌, ◌≤◌, ◌<◌, ◌≡◌, ◌≢◌, refl, ◌⊎◌, List, [], ◌∷◌, Bytes, bytes_beq_iff, ok, arith,
  length, take, length-take,
}
use signal.SenderKeys.{State, Archive}
use signal.SenderKeys.Record.{current, state, find, answers, filtered, set_state}

-- Filtering takes out what answers to the identifiers of the new state, and nothing else.
find-filtered :
    (d : Bytes) (k : ℕ) (next : State) (states : List State)
    → (d ≢ next.distribution_id) ⊎ (k ≢ next.key_id)
    → find d k (filtered next states) ≡ find d k states
unfolding find filtered answers
find-filtered d k next [] other = refl
find-filtered d k next (s ∷ rest) other = ground (
  arith,
  other,
  bytes_beq_iff s.distribution_id d,
  bytes_beq_iff s.distribution_id next.distribution_id,
  find-filtered d k next rest other,
)

length-filtered-le :
    (next : State) (states : List State) → length (filtered next states) ≤ length states
unfolding filtered
length-filtered-le next [] = omega arith
length-filtered-le next (s ∷ rest) = ground (arith, length-filtered-le next rest)

take-first :
    (m : ℕ) (next : State) (rest : List State)
    → 0 < m
    → take m (next ∷ rest) ≡ next ∷ take (m - 1) rest
take-first zero next rest h = absurd (omega arith)
take-first (suc m) next rest h = let e : suc m - 1 ≡ m = omega arith in rw e refl

-- After `set_state` on a record that may hold a state, the new state is the current one and the one that
-- is found under its identifiers, and there are at most as many states as the record may hold.
pub set_state-current :
    (next : State) (r : Archive)
    → 0 < r.max_states
    → (current (set_state next r) ≡ ok next)
      × (state next.distribution_id next.key_id (set_state next r) ≡ ok next)
      × (length (set_state next r).states ≤ r.max_states)
unfolding set_state current state find answers
set_state-current next r h =
    let others : List State = filtered next r.states in
    (
      ground (arith, take-first r.max_states next others h),
      ground (
        arith,
        take-first r.max_states next others h,
        bytes_beq_iff next.distribution_id next.distribution_id,
      ),
      ground (arith, length-take r.max_states (next ∷ others)),
    )

-- In a record with room for one more state, every state with other identifiers is found as before.
pub set_state-keeps :
    (d : Bytes) (k : ℕ) (next : State) (r : Archive)
    → (d ≢ next.distribution_id) ⊎ (k ≢ next.key_id)
    → length r.states < r.max_states
    → state d k (set_state next r) ≡ state d k r
unfolding set_state state find answers
set_state-keeps d k next r other room = ground (
  arith,
  other,
  room,
  length-filtered-le next r.states,
  find-filtered d k next r.states other,
  bytes_beq_iff next.distribution_id d,
)

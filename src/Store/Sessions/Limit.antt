-- ===== src/Store/Sessions/Limit.antt =====
-- What `EnforceSessionLimit` and `DeleteAllSessions` keep (store/memory/memory_store.go).

use signal.Common.{
  ℕ, zero, suc, ◌-◌, ◌≡◌, ◌≢◌, refl, ◌∙◌, some, List, [], ◌∷◌, arith, Option-cases, Bool-cases, inl,
  inr, ◌⊎◌, string_eq, exceeds,
}
use signal.Common.Map
use signal.Common.Map.{Map}
use signal.Store.{Address, address_eq, SessionRecord, Store}
use signal.Store.Sessions.{load_session, trim, enforce_session_limit, count_of, removable}

-- The address has the name, and is not the one whose session was stored.
removable-ok :
    (address found : Address) (order : List Address)
    → removable address order ≡ some found
    → (found.name ≡ address.name) × (found ≢ address)
unfolding removable
removable-ok address found [] e = cc
removable-ok address found (addr ∷ rest) e = ground (
  arith,
  string_eq.beq_iff addr.name address.name,
  address_eq.beq_iff addr address,
  removable-ok address found rest,
)

module _ (order : Map Address SessionRecord → List Address) (address kept : Address) where
  trim-keeps :
      (fuel count : ℕ) (m : Store)
      → (kept.name ≢ address.name) ⊎ (kept ≡ address)
      → load_session kept (trim order fuel count address m) ≡ load_session kept m
  unfolding trim load_session
  trim-keeps zero count m safe = refl
  trim-keeps (suc fuel) count m safe = elim (Bool-cases (exceeds count m.max_sessions_per_name)) [
    | inr fits ↦ rw fits refl
    | inl over ↦ elim (Option-cases (removable address (order m.sessions))) [
      | inl stuck ↦ rw (over, stuck) refl
      | inr (found, e) ↦
          let (name, other) = removable-ok address found (order m.sessions) e in
          let kept_in : Map.lookup kept (Map.delete found m.sessions) ≡ Map.lookup kept m.sessions =
            ground (
              arith,
              Map.lookup-delete found kept m.sessions,
              address_eq.beq_iff found kept,
              safe,
              name,
              other,
            ) in
          rw (over, e)
            (trim-keeps fuel (count - 1) (record m { sessions = Map.delete found m.sessions }) safe
              ∙ kept_in)
    ]
  ]

  -- Whatever order Go ranges over the map in, enforcing the limit for an address keeps the session of that
  -- address, and the sessions of all other names.
  pub enforce_session_limit-keeps :
      (m : Store)
      → (kept.name ≢ address.name) ⊎ (kept ≡ address)
      → load_session kept (enforce_session_limit order address m) ≡ load_session kept m
  unfolding enforce_session_limit
  enforce_session_limit-keeps m safe = ground (
    arith,
    trim-keeps (count_of address.name m.sessions) (count_of address.name m.sessions) m safe,
  )

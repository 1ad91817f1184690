-- ===== src/Store/Sessions.antt =====
-- The sessions of store/memory/memory_store.go.
pub mod Limit
use Prim.Native.String.{String}
use signal.Common.{
  ℕ, zero, suc, ◌-◌, Bool, true, false, not, ◌||◌, Option, none, some, List, [], ◌∷◌, is_some,
  if◌then◌else◌, ◌==◌, string_eq, is_non_positive, exceeds,
}
use signal.Common.Map
use signal.Common.Map.{Map}
use signal.Store.{Address, address_eq, SessionRecord, Store}

unfoldable pub load_session : Address → Store → Option SessionRecord
load_session addr m = Map.lookup addr m.sessions

unfoldable pub store_session : Address → Option SessionRecord → Store → Store
store_session addr none m = record m { sessions = Map.delete addr m.sessions }
store_session addr (some rec) m = record m { sessions = Map.insert addr rec m.sessions }

unfoldable pub contains_session : Address → Store → Bool
contains_session addr m = is_some (Map.lookup addr m.sessions)

unfoldable pub delete_session : Address → Store → Store
delete_session addr m = record m { sessions = Map.delete addr m.sessions }

unfoldable pub delete_all_sessions : String → Store → Store
delete_all_sessions name m = record m {
  sessions = Map.retain (λ addr. not (addr.name == name)) m.sessions;
}

unfoldable pub count_of : String → Map Address SessionRecord → ℕ
count_of name [] = 0
count_of name ((addr, rec) ∷ m) =
    let rest = count_of name m in if addr.name == name then suc rest else rest

-- The first address of a round that may be removed.
unfoldable pub removable : Address → List Address → Option Address
removable address [] = none
removable address (addr ∷ rest) =
    let later = removable address rest in
    if not (addr.name == address.name) || addr == address then later else some addr

-- The loop on fuel: each round that removes takes one from `count`. `order` is the order in which a
-- round ranges over the map, which Go leaves open.
unfoldable pub trim : (Map Address SessionRecord → List Address) → ℕ → ℕ → Address → Store → Store
trim order zero count address m = m
trim order (suc fuel) count address m =
    let next = trim order fuel (count - 1) address in
    if exceeds count m.max_sessions_per_name
    then elim (removable address (order m.sessions)) [
      | none ↦ m
      | some addr ↦ next (record m { sessions = Map.delete addr m.sessions })
    ]
    else m

unfoldable pub enforce_session_limit :
    (Map Address SessionRecord → List Address) → Address → Store → Store
unfolding count_of trim
enforce_session_limit order address m =
    if is_non_positive m.max_sessions_per_name
    then m
    else if address.name == ""
    then m
    else trim order (count_of address.name m.sessions) (count_of address.name m.sessions) address m

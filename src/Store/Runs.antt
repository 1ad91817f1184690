-- ===== src/Store/Runs.antt =====
-- The in-memory store on small inputs.
use signal.Common.{
  ap, inr, ℕ, ◌*◌, ◌≡◌, refl, true, false, none, some, List, [], ◌∷◌, arith, pos, bytes_beq,
  string_eq,
}
use mathlib.Core.List.{map}
use signal.Common.Map.{Map}
use signal.Common.Map
use signal.Common.Words.{zero_key}
use signal.Crypto.Toy.{fill}
use signal.Keys.{IdentityKey, IdentityKeyPair, SignedPreKey}
use signal.Store.{Address, address_eq, address_beq, sending, SessionRecord, Store}
use signal.Store.Identities.{
  new_store, save_identity, is_trusted_identity, get_identity, is_zero_key32,
}
use signal.Store.Identities.Trust.{save_identity-pins, save_identity-stale_signing_key}
use signal.Store.PreKeys.{signed_pre_key_expired}
use signal.Store.Sessions.{load_session, enforce_session_limit}
use signal.Store.Sessions.Limit.{enforce_session_limit-keeps}

abbrev own : IdentityKeyPair
own = record {
  public_key = record { public_key = fill 1; signing_public = fill 2 };
  private_key = fill 3;
}

abbrev peer : Address
peer = record { name = "peer"; device = 1 }

abbrev phone : Address
phone = record { name = "peer"; device = 2 }

abbrev known : IdentityKey
known = record { public_key = fill 4; signing_public = fill 5 }

abbrev rekeyed : IdentityKey
rekeyed = record { public_key = fill 6; signing_public = fill 7 }

abbrev empty : Store
empty = new_store own 7

save_identity-pins_example :
    (is_trusted_identity peer (some known) sending (save_identity peer (some known) empty) ≡ true)
    × (is_trusted_identity peer (some rekeyed) sending (save_identity peer (some known) empty)
        ≡ false)
    × (is_trusted_identity phone none sending (save_identity peer (some known) empty)
        ≡ is_trusted_identity phone none sending empty)
save_identity-pins_example =
    save_identity-pins peer sending empty known rekeyed phone none
      (inr ((λ e. cc), (λ e. cc), λ e. cc))
      (λ e. let d : phone.device ≡ peer.device = ap Address.device e in omega arith)

known-saved : get_identity peer (save_identity peer (some known) empty) ≡ some known
unfolding get_identity save_identity is_zero_key32 bytes_beq new_store Map.insert Map.lookup
    address_beq
known-saved = refl

save_identity-stale_signing_key_example :
    is_trusted_identity peer (some rekeyed) sending (
      save_identity peer
        (some (record { public_key = fill 6; signing_public = zero_key }))
        (save_identity peer (some known) empty))
    ≡ false
save_identity-stale_signing_key_example =
    save_identity-stale_signing_key peer sending (save_identity peer (some known) empty) known
      rekeyed known-saved (λ e. cc) (λ e. cc) (λ e. cc)

abbrev signed : SignedPreKey
signed = record { id = 1; key_pair = none; signature = []; timestamp = 5 }

age-set : empty.signed_pre_key_max_age ≡ pos (30 * 24 * 3600 * 1000000000)
unfolding new_store
age-set = refl

abbrev long_after : ℕ
long_after = 31 * 24 * 3600 * 1000000000

expired : signed_pre_key_expired (some signed) long_after empty ≡ true
unfolding signed_pre_key_expired new_store
expired = refl

abbrev two_sessions : Store
two_sessions = record empty {
  max_sessions_per_name = pos 1;
  sessions = (phone, record { data_bytes = [] }) ∷ (peer, record { data_bytes = 1 ∷ [] }) ∷ [];
}

abbrev as_stored : Map Address SessionRecord → List Address
as_stored m = map (λ entry. entry.0) m

enforce_session_limit-keeps_example :
    load_session peer (enforce_session_limit as_stored peer two_sessions)
    ≡ load_session peer two_sessions
enforce_session_limit-keeps_example =
    enforce_session_limit-keeps as_stored peer peer two_sessions (inr refl)

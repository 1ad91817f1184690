-- ===== src/Store/SenderKeys.antt =====
-- The sender keys and the Sesame record of store/memory/memory_store.go.
use Prim.Native.String.{String}
use signal.Common.{Bool, not, Option, none, some, is_some, ◌==◌, string_eq}
use signal.Common.Map
use signal.Store.{SenderKeyName, sender_key_name_eq, SenderKeyRecord, SesameRecord, Store}

unfoldable pub load_sender_key : SenderKeyName → Store → Option SenderKeyRecord
load_sender_key name m = Map.lookup name m.sender_keys

unfoldable pub store_sender_key : SenderKeyName → Option SenderKeyRecord → Store → Store
store_sender_key name none m = record m { sender_keys = Map.delete name m.sender_keys }
store_sender_key name (some rec) m = record m { sender_keys = Map.insert name rec m.sender_keys }

unfoldable pub contains_sender_key : SenderKeyName → Store → Bool
contains_sender_key name m = is_some (Map.lookup name m.sender_keys)

unfoldable pub delete_sender_key : SenderKeyName → Store → Store
delete_sender_key name m = record m { sender_keys = Map.delete name m.sender_keys }

unfoldable pub delete_all_sender_keys : String → Store → Store
delete_all_sender_keys group m = record m {
  sender_keys = Map.retain (λ name. not (name.group == group)) m.sender_keys;
}

unfoldable pub load_sesame_state : Store → Option SesameRecord
load_sesame_state m = m.sesame

unfoldable pub store_sesame_state : Option SesameRecord → Store → Store
store_sesame_state rec m = record m { sesame = rec }

unfoldable pub delete_sesame_state : Store → Store
delete_sesame_state m = record m { sesame = none }

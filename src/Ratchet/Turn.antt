-- ===== src/Ratchet/Turn.antt =====
-- DHRatchet of ratchet/dh_ratchet.go, and RatchetOnSend of ratchet/state.go.
pub mod Facts
use signal.Common.{Option, none, some, Bytes, bytes_eq, Result, ok, err, plain, ◌>>=◌ as bind}
use signal.Common.Map
use signal.Common.Map.{Map}
use signal.Common.Exec.{Exec, lift, get, modify, ◌>>=◌, ◌>>◌}
use signal.Crypto.{Primitives, KeyPair, dh, generate_key_pair}
use signal.Ratchet.{State}
use signal.Ratchet.Chain.{kdf_root}
use signal.Ratchet.Skip.{cleanup_skipped_keys}

-- if DHr is set, SeenDH[*DHr] = struct{}{}
unfoldable pub mark_seen : Option Bytes → Map Bytes (Unit {0}) → Map Bytes (Unit {0})
mark_seen none seen = seen
mark_seen (some dhr) seen = Map.insert dhr tt seen

module _ (P : Primitives) where
  -- The key agreement and the root step that both halves of the ratchet make.
  unfoldable pub next_root : Bytes → KeyPair → Bytes → Result (Bytes × Bytes)
  next_root root dhs theirs = bind (dh P dhs.private_key theirs) (kdf_root P root)

  -- The counters are reset and both keys marked before anything can fail.
  unfoldable pub begin_turn : Bytes → State → State
  unfolding mark_seen
  begin_turn theirs s = record s {
    seen = mark_seen (some theirs) (mark_seen s.dhr s.seen);
    pn = s.ns;
    ns = 0;
    nr = 0;
  }

  unfoldable pub receive_root : Bytes × Bytes → State → State
  receive_root (root, chain) s = record s { rk = root; ckr = chain }

  unfoldable pub send_root : Bytes → Bytes × Bytes → State → State
  unfolding cleanup_skipped_keys
  send_root theirs (root, chain) s =
      cleanup_skipped_keys theirs (record s { rk = root; cks = chain; dhr = some theirs })

  -- The steps behind the nil check, with the key pair that it found.
  unfoldable pub turn_with : Option Bytes → Bytes → KeyPair → Exec State (Unit {0})
  unfolding next_root begin_turn receive_root send_root
  turn_with entropy theirs dhs = do
    modify (begin_turn theirs)
    s ← get
    received ← lift (next_root s.rk dhs theirs)
    modify (receive_root received)
    fresh ← lift (generate_key_pair P entropy)
    modify (λ t. record t { dhs = some fresh })
    t ← get
    sent ← lift (next_root t.rk fresh theirs)
    modify (send_root theirs sent)

  turn_from : Option KeyPair → Option Bytes → Bytes → Exec State (Unit {0})
  turn_from none entropy theirs s = (err (plain "dh ratchet: missing local dh key"), s)
  turn_from (some dhs) entropy theirs s = turn_with entropy theirs dhs s

  unfoldable pub dh_ratchet : Option Bytes → Bytes → Exec State (Unit {0})
  unfolding turn_from
  dh_ratchet entropy theirs s = turn_from s.dhs entropy theirs s

  ratchet_if : Option Bytes → Option KeyPair → Option Bytes → Exec State (Unit {0})
  unfolding dh_ratchet
  ratchet_if (some dhr) (some dhs) entropy s = dh_ratchet entropy dhr s
  ratchet_if _ _ entropy s = (ok tt, s)

  unfoldable pub ratchet_on_send : Option Bytes → Exec State (Unit {0})
  unfolding ratchet_if
  ratchet_on_send entropy s = ratchet_if s.dhr s.dhs entropy s

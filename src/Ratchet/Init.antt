-- ===== src/Ratchet/Init.antt =====
-- InitializeStateWithGenerator of ratchet/state.go.
pub mod Agreed
pub mod Linked
use signal.Common.{
  ℕ, Bool, Option, none, some, [], ◌∷◌, Bytes, bytes_eq, Result, ok, err, plain, or_fail, ◌>>=◌,
  bytes_beq, if◌then◌else◌,
}
use signal.Common.Map
use signal.Common.Words.{zero_key}
use signal.Crypto.{Primitives, KeyPair, generate_key_pair}
use signal.X3dh.{Outcome}
use signal.Ratchet.{State}
use signal.Ratchet.Turn.{next_root}

-- `make`, with the handshake's secret as the root key and the remote key marked
unfoldable pub initial : Outcome → KeyPair → Bytes → State
initial x3 dhs remote = record {
  dhs = some dhs;
  dhr = some remote;
  rk = x3.shared_secret;
  cks = zero_key;
  ckr = zero_key;
  ns = 0;
  nr = 0;
  pn = 0;
  skipped = [];
  seen = (remote, tt) ∷ [];
}

-- The key pair of the initiator: a new one beside an initial chain key, else the handshake's ephemeral.
initiator_key : Option Bytes → Option KeyPair → Result KeyPair → Result KeyPair
initiator_key (some chain) ephemeral generated = generated
initiator_key none (some ephemeral) generated = ok ephemeral
initiator_key none none generated = generated

or_zero : Option Bytes → Bytes
or_zero none = zero_key
or_zero (some chain) = chain

-- The key pair of the responder, and what the next call of the generator gives.
responder_key : Option KeyPair → Result KeyPair → Result KeyPair → Result KeyPair × Result KeyPair
responder_key (some ratchet) first second = (ok ratchet, first)
responder_key none first second = (first, second)

module _ (P : Primitives) where
  initiate : Outcome → Result KeyPair → Result State
  unfolding initial initiator_key or_zero
  initiate x3 generated = do
    remote ← or_fail x3.remote_ratchet_key (plain "ratchet: initiator missing remote ratchet key")
    dhs ← initiator_key x3.initial_chain_key x3.local_ephemeral generated
    (root, chain) ← next_root P x3.shared_secret dhs remote
    ok (record (initial x3 dhs remote) {
      ckr = or_zero x3.initial_chain_key;
      rk = root;
      cks = chain;
    })

  -- Both chains from two turns with the remote key, the second with a new key pair.
  respond_legacy : Outcome → KeyPair → Bytes → Result KeyPair → Result State
  unfolding initial
  respond_legacy x3 dhs remote generated = do
    (middle, receiving) ← next_root P x3.shared_secret dhs remote
    fresh ← generated
    (root, sending) ← next_root P middle fresh remote
    ok (record (initial x3 fresh remote) { rk = root; ckr = receiving; cks = sending })

  respond_with : Option Bytes → Outcome → KeyPair → Bytes → Result KeyPair → Result State
  unfolding initial respond_legacy
  respond_with (some chain) x3 dhs remote generated =
      ok (record (initial x3 dhs remote) { cks = chain })
  respond_with none x3 dhs remote generated = respond_legacy x3 dhs remote generated

  respond : Outcome → Result KeyPair → Result KeyPair → Result State
  unfolding responder_key respond_with
  respond x3 first second = do
    let (key, next) = responder_key x3.local_ratchet_key first second
    dhs ← key
    respond_with x3.initial_chain_key x3 dhs x3.initial_message.ephemeral_key next

  -- `first` and `second` are what the first and the second call of the generator give.
  unfoldable pub initialize_state_with_generator :
      Outcome → Bool → Result KeyPair → Result KeyPair → Result State
  unfolding initiate respond
  initialize_state_with_generator x3 is_initiator first second =
      if bytes_beq x3.shared_secret zero_key
      then err (plain "ratchet: shared secret must be set")
      else if is_initiator
      then initiate x3 first
      else respond x3 first second

  unfoldable pub initialize_state : Outcome → Bool → Option Bytes → Option Bytes → Result State
  unfolding initialize_state_with_generator
  initialize_state x3 is_initiator first second =
      initialize_state_with_generator x3 is_initiator (generate_key_pair P first)
        (generate_key_pair P second)

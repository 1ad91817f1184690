-- ===== src/Session/Receive.antt =====
-- decryptRatchetMessage of session/cipher.go. `random` gives what the attempt of that number reads from the random
-- source: 0 is the current session, the others are the archived ones in their order.
pub mod Archived
use signal.Common.{
  ℕ, suc, Bool, true, false, Option, none, some, List, [], ◌∷◌, Bytes, Error, duplicate_message,
  Result, ok, err, if◌then◌else◌,
}
use signal.Common.Exec.{Exec}
use signal.Crypto.{Primitives}
use signal.Ratchet.{State, Message}
use signal.Ratchet.Receive.{decrypt}
use signal.Session.{Session}
use signal.Session.Record.{Record, promote}

-- errors.Is(err, signalerrors.ErrDuplicateMessage)
unfoldable pub is_duplicate : Error → Bool
is_duplicate duplicate_message = true
is_duplicate _ = false

-- How the loop over the archive ends: at no session, at the text of one, at an error that stops it.
pub data Attempt (Q : Type 0) : Type 0 where
  none_opens : Attempt Q
  opened : Bytes → ℕ → Session Q → Attempt Q
  refused : Error → Attempt Q

module _ (P : Primitives) {Q : Type 0} (random : ℕ → Option Bytes) (msg : Message) where
  -- CurrentState().Decrypt(msg, AssociatedData())
  unfoldable pub decrypt_with : ℕ → Session Q → Result Bytes × State
  decrypt_with number s = decrypt P (random number) msg s.associated_data s.ratchet_state

  after_attempt :
      ℕ
      → Session Q
      → Result Bytes × State
      → List (Session Q)
      → Attempt Q × List (Session Q)
      → Attempt Q × List (Session Q)
  unfolding is_duplicate
  after_attempt i c (ok text, state) rest later =
      let c' : Session Q = record c { ratchet_state = state } in (opened text i c', c' ∷ rest)
  after_attempt i c (err e, state) rest later =
      let c' : Session Q = record c { ratchet_state = state } in
      if is_duplicate e then (refused e, c' ∷ rest) else (later.0, c' ∷ later.1)

  -- The sessions from position i on, and what they become.
  unfoldable pub try_archived : ℕ → List (Session Q) → Attempt Q × List (Session Q)
  unfolding decrypt_with after_attempt
  try_archived i [] = (none_opens, [])
  try_archived i (c ∷ rest) =
      after_attempt i c (decrypt_with (suc i) c) rest (try_archived (suc i) rest)

  finish_archived : Error → Record Q → Attempt Q × List (Session Q) → Result Bytes × Record Q
  unfolding promote
  finish_archived first r (none_opens, archived) = (err first, record r { archived = archived })
  finish_archived first r (opened text i c, archived) =
      (ok text, promote (some i) c (record r { archived = archived }))
  finish_archived first r (refused e, archived) = (err e, record r { archived = archived })

  after_current : Record Q → Result Bytes × State → Result Bytes × Record Q
  unfolding is_duplicate try_archived finish_archived
  after_current r (ok text, state) =
      (ok text, record r { current = record r.current { ratchet_state = state } })
  after_current r (err e, state) =
      let r' : Record Q = record r { current = record r.current { ratchet_state = state } } in
      if is_duplicate e then (err e, r') else finish_archived e r' (try_archived 0 r'.archived)

  unfoldable pub decrypt_ratchet_message : Exec (Record Q) Bytes
  unfolding decrypt_with after_current
  decrypt_ratchet_message r = after_current r (decrypt_with 0 r.current)

-- ===== src/Ratchet/Send/Facts.antt =====
-- What `Encrypt` and `NextSendingMessageKey` leave in the state.
use signal.Common.{
  ◌+◌, ◌<◌, ◌≡◌, ◌≢◌, some, Bytes, ok, arith, bytes_beq, bytes_beq_iff, Option-cases, Bool-cases,
  inl, inr, ◌⊎◌, eqb,
}
use signal.Common.Words.{IsU32, max_uint32, zero_key}
use signal.Common.Exec.{bind-ok, lift, state-bind-lift}
use signal.Crypto.{Primitives, KeyPair}
use signal.Ratchet.{State, Header, Message}
use signal.Ratchet.Chain.{kdf_chain}
use signal.Ratchet.Send.{next_sending_message_key, seal, encrypt}

-- The header of the next message.
abbrev pub next_header : KeyPair → State → Header
next_header dhs s = record { dh = dhs.public_key; pn = s.pn; n = s.ns }

module _ (P : Primitives) where
  abbrev pub with_sent : State → State
  with_sent s = record s { cks = (kdf_chain P s.cks).0; ns = s.ns + 1 }

  -- The state can send.
  pub record CanSend (dhs : KeyPair) (s : State) : Type 0 where
    pub has_dhs : s.dhs ≡ some dhs
    pub has_chain : s.cks ≢ zero_key
    pub room : s.ns < max_uint32

  pub next_sending-CanSend :
      {dhs : KeyPair} {s : State}
      → CanSend dhs s
      → next_sending_message_key P s ≡ (ok (next_header dhs s, (kdf_chain P s.cks).1), with_sent s)
  unfolding next_sending_message_key
  next_sending-CanSend {dhs} {s} c =
      ground (arith, c.has_dhs, c.has_chain, c.room, bytes_beq_iff s.cks zero_key)

  pub next_sending-ok :
      (s t : State) (h : Header) (mk : Bytes)
      → IsU32 s.ns
      → next_sending_message_key P s ≡ (ok (h, mk), t)
      → (dhs : KeyPair) × CanSend dhs s
        × (h ≡ next_header dhs s)
        × (mk ≡ (kdf_chain P s.cks).1)
        × (t ≡ with_sent s)
  unfolding next_sending_message_key
  next_sending-ok s t h mk small e = elim (Option-cases s.dhs) [
    | inl missing ↦ absurd (ground (arith, missing))
    | inr (dhs, had) ↦ (
      dhs,
      record {
        has_dhs = had;
        has_chain = λ z. ground (arith, had, bytes_beq_iff s.cks zero_key);
        room = ground (arith, had);
      },
      ground (arith, had),
      ground (arith, had),
      ground (arith, had),
    )
  ]

  next_sending-state :
      (s : State)
      → IsU32 s.ns
      → ((next_sending_message_key P s).1 ≡ s)
        ⊎ ((next_sending_message_key P s).1 ≡ with_sent s) × (s.ns < max_uint32)
  unfolding next_sending_message_key
  next_sending-state s small = elim (Option-cases s.dhs) [
    | inl missing ↦ inl (ground (arith, missing))
    | inr (dhs, had) ↦ elim (Bool-cases (bytes_beq s.cks zero_key)) [
      | inl zeros ↦ inl (ground (arith, had, zeros))
      | inr set ↦ elim (Bool-cases (eqb s.ns max_uint32)) [
        | inl full ↦ inl (ground (arith, had, set, full))
        | inr free ↦ inr (ground (arith, had, set, free), ground arith)
      ]
    ]
  ]

  -- Whatever happens, only the sending chain and its counter may move, and the counter by one.
  pub encrypt-state :
      (plaintext ad : Bytes) (s : State)
      → IsU32 s.ns
      → ((encrypt P plaintext ad s).1 ≡ s)
        ⊎ ((encrypt P plaintext ad s).1 ≡ with_sent s) × (s.ns < max_uint32)
  unfolding encrypt
  encrypt-state plaintext ad s small =
      rw (state-bind-lift (next_sending_message_key P) (seal P plaintext ad) s)
        (next_sending-state s small)

  -- A success of `encrypt` is one of the key step and one of the sealing under its key.
  pub encrypt-ok :
      (plaintext ad : Bytes) (s t : State) (msg : Message)
      → IsU32 s.ns
      → encrypt P plaintext ad s ≡ (ok msg, t)
      → (dhs : KeyPair) × CanSend dhs s
        × (t ≡ with_sent s)
        × (seal P plaintext ad (next_header dhs s, (kdf_chain P s.cks).1) ≡ ok msg)
  unfolding encrypt
  encrypt-ok plaintext ad s t msg small e =
      let ((h, mk), u, key, rest) =
        bind-ok (next_sending_message_key P) (λ k. lift (seal P plaintext ad k)) s {b = msg} {t = t}
          e in
      let (dhs, can, same_h, same_mk, same_u) = next_sending-ok s u h mk small key in
      (dhs, can, ground (arith, same_u), rw (← same_h, ← same_mk) (ground arith))

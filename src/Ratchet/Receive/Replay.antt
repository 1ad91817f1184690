-- ===== src/Ratchet/Receive/Replay.antt =====
-- A message that was decrypted once is a duplicate for good, whatever is sent and received meanwhile.
use signal.Common.{
  ◌+◌, ◌<◌, ◌≡◌, ◌≢◌, Option, none, some, Bytes, bytes_eq, ok, err, duplicate_message, arith, inl,
  inr, ◌⊎◌, bytes_beq_iff,
}
use signal.Common.Map
use signal.Common.Words.{IsU32, max_uint32}
use signal.Crypto.{Primitives}
use signal.Ratchet.{State, Header, Message, SkippedKey, skipped_key_eq, skipped_key_beq_iff}
use signal.Ratchet.Chain.{kdf_chain}
use signal.Ratchet.Skip.{skipped_key_for_header}
use signal.Ratchet.Receive.{decrypt, advance, reject_old, is_current}
use signal.Ratchet.Receive.Valid.{IsValid, IsReadyFor, advance-ok}
use signal.Ratchet.Receive.Outcome.{decrypt-ok}

-- The counters that a header carries.
abbrev pub IsHeader : Header → Type 0
IsHeader h = IsU32 h.n × IsU32 h.pn

-- The key of the header is an earlier one, which the state remembers.
pub record IsPassed (h : Header) (s : State) : Type 0 where
  pub dhr : Bytes
  pub current : s.dhr ≡ some dhr
  pub other : dhr ≢ h.dh
  pub remembered : Map.lookup h.dh s.seen ≡ some tt

-- The message of the header cannot be decrypted any more.
pub record IsSpent (h : Header) (s : State) : Type 0 where
  pub unstored : Map.lookup (skipped_key_for_header h) s.skipped ≡ none
  pub gone : ((s.dhr ≡ some h.dh) × (h.n < s.nr)) ⊎ IsPassed h s

module _ (P : Primitives) where
  reject-IsSpent :
      (h : Header) (s : State) → IsSpent h s → reject_old P h s ≡ (err duplicate_message, s)
  unfolding reject_old is_current
  reject-IsSpent h s spent = elim spent.gone [
    | inl (current, behind) ↦ ground (arith, current, behind, bytes_beq_iff h.dh h.dh)
    | inr passed ↦
        ground
          (arith, passed.current, passed.other, passed.remembered, bytes_beq_iff passed.dhr h.dh)
  ]

  -- `Decrypt` refuses a spent message as a duplicate and changes nothing.
  pub decrypt-IsSpent :
      (entropy : Option Bytes) (msg : Message) (ad : Bytes) (s : State)
      → IsSpent msg.header s
      → decrypt P entropy msg ad s ≡ (err duplicate_message, s)
  unfolding decrypt advance
  decrypt-IsSpent entropy msg ad s spent =
      ground (arith, spent.unstored, reject-IsSpent msg.header s spent)

  -- Taking a stored key out keeps the invariant.
  without-IsValid :
      (k : SkippedKey) (s : State)
      → IsValid s
      → IsValid (record s { skipped = Map.delete k s.skipped })
  without-IsValid k s v = record {
    own = λ j mk found. ground (arith, Map.lookup-delete k j s.skipped, v.own j mk);
    room = omega (arith, Map.length-delete-le k s.skipped, v.room);
    small_nr = v.small_nr;
    small_ns = v.small_ns;
  }

  -- The step over a message that the state is ready for.
  stepped-IsValid :
      (h : Header) (v : State) (ck : Bytes)
      → IsReadyFor h v
      → v.nr ≡ h.n
      → h.n < max_uint32
      → IsValid (record v { ckr = ck; nr = h.n + 1 })
  stepped-IsValid h v ck ready n small = record {
    own = λ j mk found. let (own, below) = ready.valid.own j mk found in (own, omega arith);
    room = ready.valid.room;
    small_nr = omega arith;
    small_ns = ready.valid.small_ns;
  }

  -- A decrypted message is spent, and the invariant holds.
  pub decrypt-spends :
      (entropy : Option Bytes) (msg : Message) (ad : Bytes) (s t : State) (plaintext : Bytes)
      → IsHeader msg.header
      → IsValid s
      → decrypt P entropy msg ad s ≡ (ok plaintext, t)
      → IsValid t × IsSpent msg.header t
  unfolding skipped_key_for_header
  decrypt-spends entropy msg ad s t plaintext (small_n, small_pn) v e =
      let key : SkippedKey = skipped_key_for_header msg.header in
      elim (decrypt-ok P entropy msg ad s t plaintext e) [
        | inl stored ↦ rw stored.after (
          without-IsValid key s v,
          record {
            unstored =
                ground (arith, Map.lookup-delete key key s.skipped, skipped_key_beq_iff key key);
            gone = inl (v.own key stored.mk stored.found);
          },
        )
        | inr chain ↦
            let (u, w, old, turn, skip, ready, n, after, small) =
              advance-ok P entropy msg.header s t chain.mk small_n small_pn v chain.unstored
                chain.advanced in
            rw after (
              stepped-IsValid msg.header w (kdf_chain P w.ckr).0 ready n small,
              record { unstored = ready.unstored; gone = inl (ready.current, omega arith) },
            )
      ]

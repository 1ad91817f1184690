-- ===== src/Ratchet/Delivery/Order.antt =====
-- Messages of one chain are decrypted in whatever order they come.
use signal.Common.{
  ℕ, suc, ◌+◌, ◌-◌, ◌≤◌, ◌≡◌, ◌≢◌, refl, ap, ◌∙◌, Option, none, some, Bytes, bytes_eq, ok, arith,
  Option-cases, inl, inr, bytes_beq_iff,
}
use signal.Common.Map
use signal.Crypto.{Primitives}
use signal.Ratchet.{State, Message, skipped_key_eq}
use signal.Ratchet.Chain.{kdf_chain, chain_key, message_key}
use signal.Ratchet.Skip.{skipped_key_for_header}
use signal.Ratchet.Skip.Stored.{stored, chain_key-add, dhr-stored, length-stored-le, lookup-stored}
use signal.Ratchet.Receive.{decrypt}
use signal.Ratchet.Delivery.{Tracks, Pending, IsGenuine, InReach, past, taken, key, advance-Tracks}
use native.Mathlib.Decide.{dec_le}

module _ (P : Primitives) (start d : Bytes) (base n : ℕ) where
  module _ (s : State) (tracks : Tracks P start d base s) (reach : InReach P start base n) where
    -- The m-th key that skipping stores is the m-th of the chain.
    message_key-at : (m : ℕ) → s.nr ≤ m → message_key P s.ckr (m - s.nr) ≡ message_key P start m
    unfolding message_key
    message_key-at m ahead =
        let e : s.nr + (m - s.nr) ≡ m = omega arith in
        ap (λ c. (kdf_chain P c).1)
          (ap (λ c. chain_key P c (m - s.nr)) tracks.chain
            ∙ chain_key-add P start s.nr (m - s.nr)
            ∙ ap (chain_key P start) e)

    past-holds :
        s.nr ≤ n
        → (m : ℕ) (mk : Bytes)
        → Map.lookup (record { public_key = d; n = m }) (stored P (n - s.nr) d s).skipped ≡ some mk
        → mk ≡ message_key P start m
    past-holds ahead m mk found = elim (dec_le s.nr m) [
      | yes h ↦
          ground (arith, lookup-stored P (n - s.nr) d s d m, message_key-at m h, tracks.holds m mk)
      | no h ↦ ground (arith, lookup-stored P (n - s.nr) d s d m, tracks.holds m mk)
    ]

    pub past-Tracks : s.nr ≤ n → Tracks P start d base (past P start d base n s)
    past-Tracks ahead = record {
      current = dhr-stored P (n - s.nr) d s ∙ tracks.current;
      chain = let e : n + 1 ≡ suc n = omega arith in rw e (unfold chain_key in refl);
      holds = past-holds ahead;
      window = omega (arith, length-stored-le P (n - s.nr) d s, tracks.window);
    }

    past-Pending :
        s.nr ≤ n → (m : ℕ) → m ≢ n → Pending d s m → Pending d (past P start d base n s) m
    past-Pending ahead m other pending = elim (dec_le m n) [
      | no h ↦ inl (omega arith)
      | yes h ↦ elim (dec_le s.nr m) [
        | yes g ↦ inr (
          message_key P s.ckr (m - s.nr),
          ground (arith, lookup-stored P (n - s.nr) d s d m, bytes_beq_iff d d),
        )
        | no g ↦ elim pending [
          | inl late ↦ absurd (omega arith)
          | inr (mk, found) ↦ inr (mk, ground (arith, lookup-stored P (n - s.nr) d s d m, found))
        ]
      ]
    ]

    taken-Tracks : Tracks P start d base (taken P start d base n s)
    taken-Tracks = record {
      current = tracks.current;
      chain = tracks.chain;
      holds = λ m mk found. ground (
        arith,
        Map.lookup-delete (key P start d base n) (record { public_key = d; n = m }) s.skipped,
        tracks.holds m mk,
      );
      window = omega (arith, Map.length-delete-le (key P start d base n) s.skipped, tracks.window);
    }

    taken-Pending : (m : ℕ) → m ≢ n → Pending d s m → Pending d (taken P start d base n s) m
    taken-Pending m other pending = elim pending [
      | inl late ↦ inl late
      | inr (mk, found) ↦ inr (
        mk,
        ground (
          arith,
          Map.lookup-delete (key P start d base n) (record { public_key = d; n = m }) s.skipped,
          found,
        ),
      )
    ]

  -- What a delivery of the n-th message does.
  pub record Delivered (text ad : Bytes) (entropy : Option Bytes) (msg : Message) (s : State)
      : Type 0 where
    pub after : State
    pub result : decrypt P entropy msg ad s ≡ (ok text, after)
    pub tracks : Tracks P start d base after
    pub others : (m : ℕ) → m ≢ n → Pending d s m → Pending d after m

  -- A message of the chain that was not decrypted yet decrypts to its text, and the others stay pending.
  pub deliver :
      (text ad : Bytes) (entropy : Option Bytes) (msg : Message) (s : State)
      → Tracks P start d base s
      → InReach P start base n
      → IsGenuine P start d n text ad msg
      → Pending d s n
      → Delivered text ad entropy msg s
  unfolding decrypt skipped_key_for_header
  deliver text ad entropy msg s tracks reach genuine pending =
      elim (Option-cases (Map.lookup (key P start d base n) s.skipped)) [
        | inr (mk, found) ↦
            let same : mk ≡ message_key P start n = tracks.holds n mk found in
            record {
              after = taken P start d base n s;
              result = ground (arith, found, same, genuine.dh, genuine.number, genuine.opens);
              tracks = taken-Tracks s tracks reach;
              others = taken-Pending s tracks reach;
            }
        | inl missing ↦
            let ahead : s.nr ≤ n = ahead_of missing pending in
            record {
              after = past P start d base n s;
              result = ground (
                arith,
                missing,
                genuine.dh,
                genuine.number,
                genuine.opens,
                advance-Tracks P start d base n s tracks reach entropy msg.header genuine.dh
                    genuine.number ahead,
              );
              tracks = past-Tracks s tracks reach ahead;
              others = past-Pending s tracks reach ahead;
            }
      ]
    where
      ahead_of : Map.lookup (key P start d base n) s.skipped ≡ none → Pending d s n → s.nr ≤ n
      ahead_of missing (inl h) = h
      ahead_of missing (inr (mk, found)) = cc

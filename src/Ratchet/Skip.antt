-- ===== src/Ratchet/Skip.antt =====
-- ratchet/skipped.go.
pub mod Rounds
pub mod Stored
pub mod Fuel
use signal.Common.{
  ℕ, zero, suc, ◌-◌, Option, none, some, Bytes, ok, err, plain, counter_overflow, max_skip_exceeded,
  ltb, leb, eqb, bytes_beq, length, if◌then◌else◌,
}
use signal.Common.Map
use signal.Common.Words.{inc32, max_uint32}
use signal.Common.Exec.{Exec, ◌>>◌}
use signal.Crypto.{Primitives}
use signal.Ratchet.{SkippedKey, skipped_key_eq, State, Header, max_skip}
use signal.Ratchet.Chain.{kdf_chain}

unfoldable pub skipped_key_for_header : Header → SkippedKey
skipped_key_for_header h = record { public_key = h.dh; n = h.n }

module _ (P : Primitives) where
  store_skipped : Option Bytes → Exec State (Unit {0})
  store_skipped none s = (err (plain "ratchet: missing DHr while skipping"), s)
  store_skipped (some dhr) s =
      let (next, mk) = kdf_chain P s.ckr in
      (
        ok tt,
        record s {
          ckr = next;
          skipped = Map.insert (record { public_key = dhr; n = s.nr }) mk s.skipped;
          nr = inc32 s.nr;
        },
      )

  -- One round of the loop of `skipMessageKeys`.
  unfoldable pub skip_one : Exec State (Unit {0})
  unfolding store_skipped
  skip_one s =
      if eqb s.nr max_uint32
      then (err counter_overflow, s)
      else if leb max_skip (length s.skipped)
      then (err max_skip_exceeded, s)
      else store_skipped s.dhr s

  -- The loop on fuel: `until - nr` rounds are all that its test lets through.
  unfoldable pub skip_loop : ℕ → ℕ → Exec State (Unit {0})
  skip_loop zero until s = (ok tt, s)
  skip_loop (suc fuel) until s =
      let rest = skip_loop fuel until in if ltb s.nr until then (skip_one >> rest) s else (ok tt, s)

  unfoldable pub skip_message_keys : ℕ → Exec State (Unit {0})
  unfolding skip_loop
  skip_message_keys until s = skip_loop (until - s.nr) until s

unfoldable pub cleanup_skipped_keys : Bytes → State → State
cleanup_skipped_keys current s = record s {
  skipped = Map.retain (λ k. bytes_beq k.public_key current) s.skipped;
}

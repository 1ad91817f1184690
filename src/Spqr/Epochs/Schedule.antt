-- ===== src/Spqr/Epochs/Schedule.antt =====
-- The secrets of the epochs, as the authentication key and the secret of each epoch fix them (NewChain and AddEpoch of
-- spqr/chain.go).
use signal.Common.{
  ℕ, zero, suc, ◌≡◌, ◌⊎◌, refl, none, some, Bytes, length, take, drop, length-take, length-drop,
  arith, Bool-cases, inl, inr, eqb,
}
use signal.Common.Words.{array32}
use signal.Crypto.{Primitives}
use signal.Crypto.Laws.{IsSound}
use signal.Spqr.{
  chain_info_start, chain_info_add_epoch, direction_a2b, direction_b2a, switch_direction,
}
use signal.Spqr.Keys.{hkdf_to}
use signal.Spqr.Keys.Ideal.{or_nothing, hkdf_to_total}
use signal.Spqr.Epochs.{chain_seeds_for_direction}

module _ (P : Primitives) (auth_key : Bytes) (secret : ℕ → Bytes) where
  unfoldable pub epoch_okm : ℕ → Bytes
  epoch_okm zero = or_nothing (hkdf_to P auth_key none chain_info_start 96)
  epoch_okm (suc e) =
      or_nothing (
        hkdf_to P (secret (suc e)) (some (array32 (take 32 (epoch_okm e)))) chain_info_add_epoch 96)

  unfoldable pub root_of : ℕ → Bytes
  root_of e = array32 (take 32 (epoch_okm e))

  unfoldable pub send_seed : ℕ → ℕ → Bytes
  send_seed dir e = (chain_seeds_for_direction (epoch_okm e) dir).0

  unfoldable pub recv_seed : ℕ → ℕ → Bytes
  recv_seed dir e = (chain_seeds_for_direction (epoch_okm e) dir).1

  -- One party's sending keys are the other's receiving keys.
  pub seeds_mirrored :
      (dir e : ℕ)
      → (dir ≡ direction_a2b) ⊎ (dir ≡ direction_b2a)
      → send_seed dir e ≡ recv_seed (switch_direction dir) e
  unfolding send_seed recv_seed chain_seeds_for_direction switch_direction
  seeds_mirrored dir e (inl a) = rw a refl
  seeds_mirrored dir e (inr b) = rw b refl

module _ {P : Primitives} (sound : IsSound P) (auth_key : Bytes) (secret : ℕ → Bytes) where
  pub length-epoch_okm : (e : ℕ) → length (epoch_okm P auth_key secret e) ≡ 96
  unfolding epoch_okm root_of array32
  length-epoch_okm zero = (hkdf_to_total sound auth_key none chain_info_start 96 (omega arith)).1
  length-epoch_okm (suc e) =
      (hkdf_to_total sound (secret (suc e)) (some (root_of P auth_key secret e))
        chain_info_add_epoch 96 (omega arith)).1

  seed-sized :
      (okm : Bytes) (dir : ℕ)
      → length okm ≡ 96
      → (length (chain_seeds_for_direction okm dir).0 ≡ 32)
        × (length (chain_seeds_for_direction okm dir).1 ≡ 32)
  unfolding chain_seeds_for_direction
  seed-sized okm dir l =
      let a = length-take 32 (drop 32 okm) in
      let b = length-take 32 (drop 64 okm) in
      elim (Bool-cases (eqb dir direction_b2a)) [
        | inl back ↦ rw back (
          omega (arith, a, b, length-drop 32 okm, length-drop 64 okm),
          omega (arith, a, b, length-drop 32 okm, length-drop 64 okm),
        )
        | inr forth ↦ rw forth (
          omega (arith, a, b, length-drop 32 okm, length-drop 64 okm),
          omega (arith, a, b, length-drop 32 okm, length-drop 64 okm),
        )
      ]

  pub length-send_seed : (dir e : ℕ) → length (send_seed P auth_key secret dir e) ≡ 32
  unfolding send_seed
  length-send_seed dir e = (seed-sized (epoch_okm P auth_key secret e) dir (length-epoch_okm e)).0

  pub length-recv_seed : (dir e : ℕ) → length (recv_seed P auth_key secret dir e) ≡ 32
  unfolding recv_seed
  length-recv_seed dir e = (seed-sized (epoch_okm P auth_key secret e) dir (length-epoch_okm e)).1

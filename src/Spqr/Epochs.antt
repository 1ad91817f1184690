-- ===== src/Spqr/Epochs.antt =====
-- Chain of spqr/chain.go: the epochs of one party, with a link for each that is kept.
pub mod Schedule
pub mod Links
pub mod Held
pub mod Agreed
use signal.Common.{
  ℕ, zero, suc, ◌-◌, ◌+◌, Option, none, some, List, [], ◌∷◌, ◌++◌, Bytes, Result, ok, err, not, ltb,
  leb, eqb, epoch_out_of_range, send_key_epoch_decreased, length, take, drop, if◌then◌else◌,
  ◌>>=◌ as bind,
}
use signal.Common.Words.{inc64, array32}
use signal.Common.Exec.{Exec, raise, lift, get, modify, ◌>>=◌, ◌>>◌}
use signal.Crypto.{Primitives}
use signal.Spqr.{
  ChainParams, ChainEpochDirection, ChainEpoch, Chain, direction_b2a, chain_info_start,
  chain_info_add_epoch,
}
use signal.Spqr.Keys.{new_chain_epoch_direction, hkdf_to, next_key, key}

abbrev epochs_to_keep_prior_to_send : ℕ
epochs_to_keep_prior_to_send = 1

-- okm[32:64] and okm[64:96]; a direction that is neither is taken as A2B.
unfoldable pub chain_seeds_for_direction : Bytes → ℕ → Bytes × Bytes
chain_seeds_for_direction okm dir =
    let first = take 32 (drop 32 okm) in
    let second = take 32 (drop 64 okm) in
    if eqb dir direction_b2a then (second, first) else (first, second)

unfoldable pub new_link : Bytes × Bytes → ChainEpoch
new_link (send, recv) = record {
  send = new_chain_epoch_direction send;
  recv = new_chain_epoch_direction recv;
}

-- A direction of one link, changed in its place.
module _ {A : Type 0} where
  on_send : Exec ChainEpochDirection A → Exec ChainEpoch A
  on_send m l = let (r, d) = m l.send in (r, record l { send = d })

  on_recv : Exec ChainEpochDirection A → Exec ChainEpoch A
  on_recv m l = let (r, d) = m l.recv in (r, record l { recv = d })

  pub at_link : ℕ → Exec ChainEpoch A → Exec (List ChainEpoch) A
  at_link i m [] = (err epoch_out_of_range, [])
  at_link zero m (l ∷ links) = let (r, l') = m l in (r, l' ∷ links)
  at_link (suc i) m (l ∷ links) = let (r, rest) = at_link i m links in (r, l ∷ rest)

  on_links : Exec (List ChainEpoch) A → Exec Chain A
  on_links m c = let (r, links) = m c.links in (r, record c { links = links })

-- for idx > epochsToKeepPriorToSend: the links that are left, and the index in them.
pub trim_links : ℕ → List ChainEpoch → List ChainEpoch × ℕ
trim_links (suc (suc i)) links = trim_links (suc i) (drop 1 links)
trim_links i links = (links, i)

-- links[i].send.next = nil for i < idx
pub clear_sends : ℕ → List ChainEpoch → List ChainEpoch
clear_sends zero links = links
clear_sends (suc i) [] = []
clear_sends (suc i) (l ∷ links) =
    record l { send = record l.send { next = [] } } ∷ clear_sends i links

unfoldable pub epoch_index : ℕ → Chain → Result ℕ
epoch_index epoch c =
    if ltb c.current_epoch epoch
    then err epoch_out_of_range
    else if leb (length c.links) (c.current_epoch - epoch)
    then err epoch_out_of_range
    else ok (length c.links - 1 - (c.current_epoch - epoch))

-- The index of the epoch's link, after the links that are no longer needed are dropped.
turn_send_epoch : ℕ → ℕ → Exec Chain ℕ
unfolding trim_links clear_sends
turn_send_epoch epoch idx c =
    if eqb epoch c.send_epoch
    then (ok idx, c)
    else let (links, i) = trim_links idx c.links in
      (ok i, record c { send_epoch = epoch; links = clear_sends i links })

module _ (P : Primitives) where
  unfoldable pub new_chain : Bytes → ℕ → ChainParams → Result Chain
  new_chain auth_key dir params = bind (hkdf_to P auth_key none chain_info_start 96) λ okm.
      ok (record {
        dir = dir;
        current_epoch = 0;
        send_epoch = 0;
        next_root = array32 (take 32 okm);
        params = params;
        links = new_link (chain_seeds_for_direction okm dir) ∷ [];
      })

  unfoldable pub add_epoch : ℕ → Bytes → Exec Chain (Unit {0})
  add_epoch epoch secret c =
      if not (eqb epoch (inc64 c.current_epoch))
      then (err epoch_out_of_range, c)
      else (do
        okm ← lift (hkdf_to P secret (some c.next_root) chain_info_add_epoch 96)
        modify λ s. record s {
          next_root = array32 (take 32 okm);
          current_epoch = epoch;
          links = s.links ++ (new_link (chain_seeds_for_direction okm s.dir) ∷ []);
        })
          c

  unfoldable pub send_key : ℕ → Exec Chain (ℕ × Bytes)
  unfolding turn_send_epoch at_link on_send on_links
  send_key epoch c =
      if ltb epoch c.send_epoch
      then (err send_key_epoch_decreased, c)
      else (do
        idx ← lift (epoch_index epoch c)
        i ← turn_send_epoch epoch idx
        on_links (at_link i (on_send (next_key P))))
          c

  unfoldable pub recv_key : ℕ → ℕ → Exec Chain Bytes
  unfolding at_link on_recv on_links
  recv_key epoch index c =
      (do idx ← lift (epoch_index epoch c); on_links (at_link idx (on_recv (key P index c.params))))
        c

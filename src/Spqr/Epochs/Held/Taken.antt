-- ===== src/Spqr/Epochs/Held/Taken.antt =====
-- Taking a key from a chain keeps what it holds, and gives the epoch's key (SendKey and RecvKey of spqr/chain.go).
use signal.Common.{
  ℕ, suc, ◌+◌, ◌^◌, ◌<◌, ◌≡◌, refl, subst, List, [], Bytes, ok, length, eqb, ltb, Bool-cases,
  Result-cases, inl, inr, arith,
}
use signal.Crypto.{Primitives}
use signal.Crypto.Laws.{IsSound}
use signal.Spqr.{ChainParams, ChainEpoch, Chain}
use signal.Spqr.Keys.{next_key, key}
use signal.Spqr.Keys.Ideal.{message_key}
use signal.Spqr.Keys.Requests.{Fits}
use signal.Spqr.Epochs.{
  at_link, on_send, on_recv, on_links, trim_links, clear_sends, epoch_index, turn_send_epoch,
  send_key, recv_key,
}
use signal.Spqr.Epochs.Schedule.{send_seed, recv_seed, length-send_seed, length-recv_seed}
use signal.Spqr.Epochs.Links.{
  Gives, IsKeyOf, LinksFrom, next_key-IsSending, key-IsReceiving, at_link-LinksFrom,
  trim_links-LinksFrom, clear_sends-LinksFrom,
}
use signal.Spqr.Epochs.Held.{IsLink, IsChain, grow, grow-IsChain}

module _ {P : Primitives} (sound : IsSound P) (auth_key : Bytes) (secret : ℕ → Bytes) (dir : ℕ)
    (params : ChainParams) where
  abbrev Link : ℕ → ℕ → ChainEpoch → Type 0
  Link = IsLink P auth_key secret dir params

  -- The links after a key was taken from the link at a place.
  send_at :
      (n i first : ℕ) (links : List ChainEpoch)
      → n + 1 < 2 ^ 32
      → LinksFrom (Link n) first links
      → (LinksFrom (Link (suc n)) first (at_link i (on_send (next_key P)) links).1
          × Gives
              (IsKeyOf P (send_seed P auth_key secret dir (first + i)))
              (at_link i (on_send (next_key P)) links).0)
        × (length (at_link i (on_send (next_key P)) links).1 ≡ length links)
  unfolding on_send
  send_at n i first links small h =
      at_link-LinksFrom (Link n) (Link (suc n)) (λ e. IsKeyOf P (send_seed P auth_key secret dir e))
        (grow sound auth_key secret dir params n) (on_send (next_key P))
        (λ e l hl.
          let (kept, gives) =
            next_key-IsSending sound (send_seed P auth_key secret dir e)
              (length-send_seed sound auth_key secret dir e) n l.send small hl.send in
          (record { send = kept; recv = hl.recv }, gives))
        i first links h

  recv_at :
      (n at i first : ℕ) (links : List ChainEpoch)
      → Fits params at
      → LinksFrom (Link n) first links
      → (LinksFrom (Link (suc n)) first (at_link i (on_recv (key P at params)) links).1
          × Gives
              (λ k. k ≡ message_key P (recv_seed P auth_key secret dir (first + i)) at)
              (at_link i (on_recv (key P at params)) links).0)
        × (length (at_link i (on_recv (key P at params)) links).1 ≡ length links)
  unfolding on_recv
  recv_at n at i first links fits h =
      at_link-LinksFrom (Link n) (Link (suc n))
        (λ e k. k ≡ message_key P (recv_seed P auth_key secret dir e) at)
        (grow sound auth_key secret dir params n) (on_recv (key P at params))
        (λ e l hl.
          let (kept, gives) =
            key-IsReceiving sound (recv_seed P auth_key secret dir e)
              (length-recv_seed sound auth_key secret dir e) params at l.recv fits hl.recv in
          (
            record {
              send = record { few = omega (arith, hl.send.few); chain = hl.send.chain };
              recv = kept;
            },
            gives,
          ))
        i first links h

  -- The place of an epoch's link.
  epoch_index-first :
      (epoch idx first : ℕ) (c : Chain)
      → first + length c.links ≡ suc c.current_epoch
      → epoch_index epoch c ≡ ok idx
      → (first + idx ≡ epoch) × (idx < length c.links)
  unfolding epoch_index
  epoch_index-first epoch idx first c counted e = ground arith

  close_send :
      (n e : ℕ) (l : ChainEpoch)
      → Link n e l
      → Link n e (record l { send = record l.send { next = [] } })
  close_send n e l h = record {
    send = record { few = h.send.few; chain = inl refl };
    recv = h.recv;
  }

  turn_send_epoch-IsChain :
      (n epoch idx : ℕ) (c : Chain) (h : IsChain P auth_key secret dir params n c)
      → h.first + idx ≡ epoch
      → idx < length c.links
      → (i : ℕ) × (c' : Chain) × (turn_send_epoch epoch idx c ≡ (ok i, c'))
        × (h' : IsChain P auth_key secret dir params n c') × (h'.first + i ≡ epoch)
  unfolding turn_send_epoch
  turn_send_epoch-IsChain n epoch idx c h place inside =
      elim (Bool-cases (eqb epoch c.send_epoch)) [
        | inl same ↦ (idx, c, rw same refl, h, place)
        | inr other ↦
            let (first', kept, i, count, _) =
              trim_links-LinksFrom (Link n) idx h.first c.links inside h.links in
            let (links, i') = trim_links idx c.links in
            let (closed, size) =
              clear_sends-LinksFrom (Link n) (close_send n) i' first' links kept in
            (
              i',
              record c { send_epoch = epoch; links = clear_sends i' links },
              rw other refl,
              record {
                dir_kept = h.dir_kept;
                params_kept = h.params_kept;
                first = first';
                links = closed;
                counted = omega (arith, size, count, h.counted);
                few = h.few;
                root = h.root;
              },
              omega (arith, i, place),
            )
      ]

  -- A key that is sent is the epoch's, at the index that goes with it.
  pub send_key-IsChain :
      (n epoch : ℕ) (c : Chain)
      → n + 1 < 2 ^ 32
      → IsChain P auth_key secret dir params n c
      → IsChain P auth_key secret dir params (suc n) (send_key P epoch c).1
        × Gives (IsKeyOf P (send_seed P auth_key secret dir epoch)) (send_key P epoch c).0
  unfolding send_key on_links
  send_key-IsChain n epoch c small h = elim (Bool-cases (ltb epoch c.send_epoch)) [
    | inl back ↦ rw back (grow-IsChain sound auth_key secret dir params n c h, tt)
    | inr forth ↦ elim (Result-cases (epoch_index epoch c)) [
      | inr (x, missing) ↦
          rw (forth, missing) (grow-IsChain sound auth_key secret dir params n c h, tt)
      | inl (idx, found) ↦
          let (place, inside) = epoch_index-first epoch idx h.first c h.counted found in
          let (i, c', turned, h', place') = turn_send_epoch-IsChain n epoch idx c h place inside in
          let ((links, gives), size) = send_at n i h'.first c'.links small h'.links in
          rw (forth, found, turned)
            (
              record {
                dir_kept = h'.dir_kept;
                params_kept = h'.params_kept;
                first = h'.first;
                links = links;
                counted = omega (arith, size, h'.counted);
                few = omega (arith, h'.few);
                root = h'.root;
              },
              subst
                  (λ e.
                    Gives (IsKeyOf P (send_seed P auth_key secret dir e))
                      (at_link i (on_send (next_key P)) c'.links).0)
                  place' gives,
            )
    ]
  ]

  -- A key that is received is the epoch's, at the index that was asked for.
  pub recv_key-IsChain :
      (n epoch index : ℕ) (c : Chain)
      → Fits params index
      → IsChain P auth_key secret dir params n c
      → IsChain P auth_key secret dir params (suc n) (recv_key P epoch index c).1
        × Gives
            (λ k. k ≡ message_key P (recv_seed P auth_key secret dir epoch) index)
            (recv_key P epoch index c).0
  unfolding recv_key on_links
  recv_key-IsChain n epoch index c fits h = elim (Result-cases (epoch_index epoch c)) [
    | inr (x, missing) ↦ rw missing (grow-IsChain sound auth_key secret dir params n c h, tt)
    | inl (idx, found) ↦
        let (place, inside) = epoch_index-first epoch idx h.first c h.counted found in
        let ((links, gives), size) = recv_at n index idx h.first c.links fits h.links in
        rw (found, h.params_kept)
          (
            record {
              dir_kept = h.dir_kept;
              params_kept = refl;
              first = h.first;
              links = links;
              counted = omega (arith, size, h.counted);
              few = omega (arith, h.few);
              root = h.root;
            },
            subst
                (λ e.
                  Gives (λ k. k ≡ message_key P (recv_seed P auth_key secret dir e) index)
                    (at_link idx (on_recv (key P index params)) c.links).0)
                place gives,
          )
  ]

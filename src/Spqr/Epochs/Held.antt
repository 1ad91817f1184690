-- ===== src/Spqr/Epochs/Held.antt =====
-- What every chain holds after any calls (Chain of spqr/chain.go).
pub mod Taken
use signal.Common.{
  ℕ, zero, suc, ◌+◌, ◌-◌, ◌^◌, ◌<◌, ◌≤◌, ◌≡◌, refl, subst, List, [], ◌∷◌, ◌++◌, Bytes, Result, ok,
  err, length, length-append, eqb, ltb, leb, not, All, Bool-cases, Result-cases, inl, inr, arith,
  some, none, sym, epoch_out_of_range, send_key_epoch_decreased,
}
use signal.Common.Words.{inc64, IsU32}
use signal.Crypto.{Primitives}
use signal.Crypto.Laws.{IsSound}
use signal.Spqr.{ChainParams, ChainEpoch, Chain, max_ooo_of, chain_info_start, chain_info_add_epoch}
use signal.Spqr.Keys.{next_key, key, new_chain_epoch_direction}
use signal.Spqr.Keys.Ideal.{Ideal, ideal_start, message_key, hkdf_to_total, chain_at}
use signal.Spqr.Keys.Refines.{Refines, new-Refines}
use signal.Spqr.Keys.Requests.{Fits}
use signal.Spqr.Epochs.{
  new_link, chain_seeds_for_direction, at_link, on_send, on_recv, on_links, trim_links, clear_sends,
  epoch_index, turn_send_epoch, new_chain, add_epoch, send_key, recv_key,
}
use signal.Spqr.Epochs.Schedule.{
  epoch_okm, root_of, send_seed, recv_seed, length-send_seed, length-recv_seed,
}
use signal.Spqr.Epochs.Links.{
  Gives, IsSending, IsKeyOf, LinksFrom, LinksFrom-append, LinksFrom-imp, next_key-IsSending,
  key-IsReceiving, at_link-LinksFrom, trim_links-LinksFrom, clear_sends-LinksFrom,
}

-- The calls on a chain. The secret of an epoch is the same at both parties.
pub data Call : Type 0 where
  add : ℕ → Call
  send : ℕ → Call
  recv : ℕ → ℕ → Call

module _ (P : Primitives) (secret : ℕ → Bytes) where
  -- The chain after a call, failed or not.
  unfoldable pub call : Call → Chain → Chain
  call (add epoch) c = (add_epoch P epoch (secret epoch) c).1
  call (send epoch) c = (send_key P epoch c).1
  call (recv epoch index) c = (recv_key P epoch index c).1

  unfoldable pub run : List Call → Chain → Chain
  run [] c = c
  run (x ∷ calls) c = run calls (call x c)

-- A request that the window does not overflow for.
abbrev pub CallFits : ChainParams → Call → Type 0
CallFits params (recv epoch index) = Fits params index
CallFits params _ = Unit {0}

module _ (P : Primitives) (auth_key : Bytes) (secret : ℕ → Bytes) (dir : ℕ)
    (params : ChainParams) where
  -- A link of an epoch: both directions stand at some place of the epoch's sequences.
  pub record IsLink (n e : ℕ) (l : ChainEpoch) : Type 0 where
    pub send : IsSending P (send_seed P auth_key secret dir e) n l.send
    pub recv :
        (s : Ideal) × Refines P (recv_seed P auth_key secret dir e) (max_ooo_of params) l.recv s

  -- A chain after `n` calls.
  pub record IsChain (n : ℕ) (c : Chain) : Type 0 where
    pub dir_kept : c.dir ≡ dir
    pub params_kept : c.params ≡ params
    pub first : ℕ
    pub links : LinksFrom (IsLink n) first c.links
    pub counted : first + length c.links ≡ suc c.current_epoch
    pub few : c.current_epoch ≤ n
    pub root : c.next_root ≡ root_of P auth_key secret c.current_epoch

module _ {P : Primitives} (sound : IsSound P) (auth_key : Bytes) (secret : ℕ → Bytes) (dir : ℕ)
    (params : ChainParams) where
  abbrev Link : ℕ → ℕ → ChainEpoch → Type 0
  Link = IsLink P auth_key secret dir params

  grow : (n e : ℕ) (l : ChainEpoch) → Link n e l → Link (suc n) e l
  grow n e l h = record {
    send = record { few = omega (arith, h.send.few); chain = h.send.chain };
    recv = h.recv;
  }

  new_link-IsLink :
      (n e : ℕ)
      → Link n e (new_link (chain_seeds_for_direction (epoch_okm P auth_key secret e) dir))
  unfolding new_link send_seed recv_seed new_chain_epoch_direction chain_at
  new_link-IsLink n e = record {
    send = record { few = omega arith; chain = inr refl };
    recv = (ideal_start, new-Refines P (recv_seed P auth_key secret dir e) (max_ooo_of params));
  }

  -- A call that fails at once.
  grow-IsChain :
      (n : ℕ) (c : Chain)
      → IsChain P auth_key secret dir params n c
      → IsChain P auth_key secret dir params (suc n) c
  grow-IsChain n c h = record {
    dir_kept = h.dir_kept;
    params_kept = h.params_kept;
    first = h.first;
    links = LinksFrom-imp (Link n) (Link (suc n)) (grow n) h.first c.links h.links;
    counted = h.counted;
    few = omega (arith, h.few);
    root = h.root;
  }

  started : Chain
  started = record {
    dir = dir;
    current_epoch = 0;
    send_epoch = 0;
    next_root = root_of P auth_key secret 0;
    params = params;
    links = new_link (chain_seeds_for_direction (epoch_okm P auth_key secret 0) dir) ∷ [];
  }

  new_chain_lem : new_chain P auth_key dir params ≡ ok started
  unfolding new_chain started root_of epoch_okm
  new_chain_lem =
      let (total, _) = hkdf_to_total sound auth_key none chain_info_start 96 (omega arith) in
      rw total refl

  started-IsChain : IsChain P auth_key secret dir params 0 started
  unfolding started
  started-IsChain = record {
    dir_kept = refl;
    params_kept = refl;
    first = 0;
    links = (new_link-IsLink 0 0, tt);
    counted = refl;
    few = omega arith;
    root = refl;
  }

  pub new_chain-IsChain :
      (c : Chain)
      → new_chain P auth_key dir params ≡ ok c
      → IsChain P auth_key secret dir params 0 c
  new_chain-IsChain c e =
      let same : started ≡ c = cc new_chain_lem in
      subst (IsChain P auth_key secret dir params 0) same started-IsChain

  pub add_epoch-IsChain :
      (n epoch : ℕ) (c : Chain)
      → n + 1 < 2 ^ 32
      → IsChain P auth_key secret dir params n c
      → IsChain P auth_key secret dir params (suc n) (add_epoch P epoch (secret epoch) c).1
  unfolding add_epoch root_of epoch_okm
  add_epoch-IsChain n epoch c small h = elim (Bool-cases (eqb epoch (inc64 c.current_epoch))) [
    | inr other ↦ rw other (grow-IsChain n c h)
    | inl next ↦
        let e : epoch ≡ suc c.current_epoch = ground (arith, h.few) in
        let (total, _) =
          hkdf_to_total sound (secret (suc c.current_epoch))
            (some (root_of P auth_key secret c.current_epoch)) chain_info_add_epoch 96
            (omega arith) in
        let new = new_link-IsLink (suc n) (suc c.current_epoch) in
        rw (next, e, h.root, total, h.dir_kept)
          (record {
            dir_kept = refl;
            params_kept = h.params_kept;
            first = h.first;
            links =
                LinksFrom-append (Link (suc n)) h.first c.links
                  (new_link (
                    chain_seeds_for_direction (epoch_okm P auth_key secret (suc c.current_epoch))
                      dir))
                  (LinksFrom-imp (Link n) (Link (suc n)) (grow n) h.first c.links h.links)
                  (subst
                    (λ e. Link (suc n) e (
                      new_link (
                        chain_seeds_for_direction
                          (epoch_okm P auth_key secret (suc c.current_epoch)) dir)))
                    (omega (arith, h.counted)) new);
            counted = omega (
              arith,
              h.counted,
              length-append c.links (
                  new_link (
                    chain_seeds_for_direction (epoch_okm P auth_key secret (suc c.current_epoch))
                      dir)
                  ∷ []),
            );
            few = omega (arith, h.few);
            root = refl;
          })
  ]

-- ===== src/Store/Identities/Trust.antt =====
-- What `SaveIdentity` makes of later trust decisions (store/memory/memory_store.go).
use signal.Common.{
  ◌⊎◌, inl, inr, ◌≡◌, ◌≢◌, true, false, Option, some, none, bytes_beq_iff, arith, ◌==◌, refl, ◌∙◌,
  if◌then◌else◌, beq_refl,
}
use signal.Common.Map
use signal.Common.Words.{zero_key}
use signal.Keys.{IdentityKey}
use signal.Store.{Address, address_eq, Direction, Store}
use signal.Store.Identities.{
  save_identity, is_trusted_identity, is_zero_key32, get_identity, signing_from, trusted_by,
}

-- The key that is stored for `k` over the entry `old`.
kept : Option IdentityKey → IdentityKey → IdentityKey
unfolding signing_from
kept old k = if is_zero_key32 k.signing_public then signing_from old k else k

kept-trusts :
    (old : Option IdentityKey) (k : IdentityKey) → trusted_by (some (kept old k)) (some k) ≡ true
unfolding kept trusted_by is_zero_key32
kept-trusts none k = ground (
  arith,
  bytes_beq_iff k.public_key k.public_key,
  bytes_beq_iff k.signing_public k.signing_public,
  bytes_beq_iff k.signing_public zero_key,
)
kept-trusts (some e) k = ground (
  arith,
  bytes_beq_iff k.public_key k.public_key,
  bytes_beq_iff k.signing_public k.signing_public,
  bytes_beq_iff k.signing_public zero_key,
)

kept-refuses_key :
    (old : Option IdentityKey) (k j : IdentityKey)
    → j.public_key ≢ k.public_key
    → trusted_by (some (kept old k)) (some j) ≡ false
unfolding kept trusted_by is_zero_key32
kept-refuses_key none k j other = ground (arith, other, bytes_beq_iff k.public_key j.public_key)
kept-refuses_key (some e) k j other = ground (arith, other, bytes_beq_iff k.public_key j.public_key)

kept-refuses_signing :
    (old : Option IdentityKey) (k j : IdentityKey)
    → k.signing_public ≢ zero_key
    → j.signing_public ≢ zero_key
    → j.signing_public ≢ k.signing_public
    → trusted_by (some (kept old k)) (some j) ≡ false
unfolding kept trusted_by is_zero_key32
kept-refuses_signing old k j ks js other = ground (
  arith,
  ks,
  js,
  other,
  bytes_beq_iff k.signing_public j.signing_public,
  bytes_beq_iff k.signing_public zero_key,
  bytes_beq_iff j.signing_public zero_key,
)

kept-stale :
    (k j : IdentityKey)
    → k.signing_public ≢ zero_key
    → j.signing_public ≢ zero_key
    → j.signing_public ≢ k.signing_public
    → trusted_by
        (some (kept (some k) (record { public_key = j.public_key; signing_public = zero_key })))
        (some j)
      ≡ false
unfolding kept trusted_by is_zero_key32
kept-stale k j ks js other = ground (
  arith,
  ks,
  js,
  other,
  bytes_beq_iff k.signing_public j.signing_public,
  bytes_beq_iff k.signing_public zero_key,
  bytes_beq_iff j.signing_public zero_key,
  bytes_beq_iff zero_key zero_key,
)

saved-here :
    (addr : Address) (direction : Direction) (k j : IdentityKey) (m : Store)
    → is_trusted_identity addr (some j) direction (save_identity addr (some k) m)
      ≡ trusted_by (some (kept (Map.lookup addr m.identities) k)) (some j)
unfolding is_trusted_identity save_identity kept
saved-here addr direction k j m =
    rw
      (
        Map.lookup-insert addr addr (kept (Map.lookup addr m.identities) k) m.identities,
        beq_refl addr,
      )
      refl

saved-elsewhere :
    (addr other : Address) (direction : Direction) (k : IdentityKey) (j : Option IdentityKey)
    (m : Store)
    → other ≢ addr
    → is_trusted_identity other j direction (save_identity addr (some k) m)
      ≡ is_trusted_identity other j direction m
unfolding is_trusted_identity save_identity kept
saved-elsewhere addr other direction k j m ne =
    let test : (addr == other) ≡ false = ground (arith, address_eq.beq_iff addr other, ne) in
    rw (Map.lookup-insert addr other (kept (Map.lookup addr m.identities) k) m.identities, test)
      refl

module _ (addr : Address) (direction : Direction) (m : Store) where
  pub save_identity-trusts :
      (k : IdentityKey)
      → is_trusted_identity addr (some k) direction (save_identity addr (some k) m) ≡ true
  save_identity-trusts k =
      saved-here addr direction k k m ∙ kept-trusts (Map.lookup addr m.identities) k

  -- After an identity `k` is saved for an address, it is trusted there; an identity `j` with another public
  -- key, or with another signing key where neither is zero, is not; and what is trusted at any other address
  -- is unchanged.
  pub save_identity-pins :
      (k j : IdentityKey) (other : Address) (i : Option IdentityKey)
      → (j.public_key ≢ k.public_key)
        ⊎ ((k.signing_public ≢ zero_key)
            × (j.signing_public ≢ zero_key)
            × (j.signing_public ≢ k.signing_public))
      → other ≢ addr
      → (is_trusted_identity addr (some k) direction (save_identity addr (some k) m) ≡ true)
        × (is_trusted_identity addr (some j) direction (save_identity addr (some k) m) ≡ false)
        × (is_trusted_identity other i direction (save_identity addr (some k) m)
            ≡ is_trusted_identity other i direction m)
  save_identity-pins k j other i differs elsewhere =
      let old : Option IdentityKey = Map.lookup addr m.identities in
      (
        save_identity-trusts k,
        saved-here addr direction k j m ∙ elim differs [
          | inl key ↦ kept-refuses_key old k j key
          | inr (ks, js, signing) ↦ kept-refuses_signing old k j ks js signing
        ],
        saved-elsewhere addr other direction k i m elsewhere,
      )

  -- An identity without a signing key takes over the signing key that was stored for the address, also
  -- when its public key is another: the same public key with its own signing key, not zero and not the
  -- old one, is then not trusted.
  pub save_identity-stale_signing_key :
      (k j : IdentityKey)
      → get_identity addr m ≡ some k
      → k.signing_public ≢ zero_key
      → j.signing_public ≢ zero_key
      → j.signing_public ≢ k.signing_public
      → is_trusted_identity addr (some j) direction (
          save_identity addr
            (some (record { public_key = j.public_key; signing_public = zero_key }))
            m)
        ≡ false
  unfolding get_identity
  save_identity-stale_signing_key k j saved ks js other =
      saved-here addr direction (record { public_key = j.public_key; signing_public = zero_key }) j
        m
      ∙ (rw saved (kept-stale k j ks js other))

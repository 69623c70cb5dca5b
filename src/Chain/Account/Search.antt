-- ===== src/Chain/Account/Search.antt =====
-- The searches down an account's chain: they end, and find the highest block that fits.
use naive_vite.Base.{
  ℕ, zero, suc, ◌<◌, ◌≡◌, refl, ◌⊎◌, Option, none, some, Bool-cases, inl, inr, ok, arith,
}
use naive_vite.Base.Int.{ℤ, pos, ◌≤ℤ◌, ◌<ℤ◌, leb_ℤ}
use naive_vite.Types.{AccountStateBlock}
use naive_vite.Store
use naive_vite.Store.{BlockStore}
use naive_vite.Chain.Account.{AccountChain, rounds, find_above, find_account_above_snapshot_height}

split : (n j : ℕ) → j < suc n → (j < n) ⊎ (j ≡ n)
split n j h = grind arith

module _ (c : AccountChain) (s : BlockStore) where
  abbrev pub StoredAt : ℕ → AccountStateBlock → Type 0
  StoredAt i b = Store.get_account_by_height s c.address (pos i) ≡ some b

  -- The account has a block at each height below `n`.
  abbrev pub IsDense : ℕ → Type 0
  IsDense n = (i : ℕ) → i < n → (b : AccountStateBlock) × StoredAt i b

  -- `r` is the highest block below `n` that refers to no snapshot above `height`, if there is one.
  abbrev pub IsHighest : ℤ → ℕ → Option AccountStateBlock → Type 0
  IsHighest height n none =
      (j : ℕ) (b : AccountStateBlock) → j < n → StoredAt j b → height <ℤ b.snapshot_height
  IsHighest height n (some r) =
      (i : ℕ) × (i < n)
      × StoredAt i r
      × (r.snapshot_height ≤ℤ height)
      × ((j : ℕ) (b : AccountStateBlock)
          → i < j
          → j < n
          → StoredAt j b
          → height <ℤ b.snapshot_height)

  at_top :
      (height : ℤ) (n j : ℕ) (b b' : AccountStateBlock)
      → StoredAt n b
      → height <ℤ b.snapshot_height
      → j ≡ n
      → StoredAt j b'
      → height <ℤ b'.snapshot_height
  at_top height n j b b' at above e stored = let same : b' ≡ b = cc in rw same above

  extend :
      (height : ℤ) (n : ℕ) (b : AccountStateBlock)
      → StoredAt n b
      → height <ℤ b.snapshot_height
      → (r : Option AccountStateBlock) → IsHighest height n r
      → IsHighest height (suc n) r
  extend height n b at above none h = λ j b' below stored. elim (split n j below) [
    | inl lower ↦ h j b' lower stored
    | inr top ↦ at_top height n j b b' at above top stored
  ]
  extend height n b at above (some r) (i, lt, here, fits, rest) = (
    i,
    omega arith,
    here,
    fits,
    λ j b' lo below stored. elim (split n j below) [
      | inl lower ↦ rest j b' lo lower stored
      | inr top ↦ at_top height n j b b' at above top stored
    ],
  )

  find_above-IsHighest :
      (height : ℤ) (n : ℕ)
      → IsDense n
      → (r : Option AccountStateBlock) × (find_above c s height n ≡ ok r) × IsHighest height n r
  unfolding find_above
  find_above-IsHighest height zero d = (none, refl, λ j b below stored. absurd (omega arith))
  find_above-IsHighest height (suc n) d =
      let (b, at) = d n (omega arith) in
      let (r, found, highest) = find_above-IsHighest height n (λ i h. d i (omega arith)) in
      elim (Bool-cases (leb_ℤ b.snapshot_height height)) [
        | inl fits ↦ (
          some b,
          rw (at, fits, find_above),
          (n, omega arith, at, ground arith, λ j b' lo below stored. absurd (omega arith)),
        )
        | inr above ↦
            (r, rw (at, above, find_above) found, extend height n b at (ground arith) r highest)
      ]

  -- On a chain with a head and a block at each height up to it, `findAccountAboveSnapshotHeight`
  -- does not run into a missing block, and returns the highest block that refers to no snapshot
  -- above `height`, or nothing where each block refers to a higher one.
  pub find_account_above-IsHighest :
      (height : ℤ) (head : AccountStateBlock)
      → c.head ≡ some head
      → IsDense (rounds head.height)
      → (r : Option AccountStateBlock) × (find_account_above_snapshot_height c s height ≡ ok r)
        × IsHighest height (rounds head.height) r
  unfolding find_account_above_snapshot_height
  find_account_above-IsHighest height head e d =
      rw (e, find_account_above_snapshot_height)
        (find_above-IsHighest height (rounds head.height) d)

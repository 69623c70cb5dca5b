-- ===== src/Pool/Modify/Chains.antt =====
-- The chains of a pool by their ids, and what `modifyRefer` keeps of them.
use naive_vite.Base.{
  ℕ, zero, suc, ◌<◌, ◌≡◌, ◌≢◌, refl, ◌⊎◌, inl, inr, some, ◌==◌, if◌then◌else◌, insert,
  lookup-insert, lookup-remove, ok, err, panic, Error, Option-cases, Bool-cases, Result-cases,
  arith,
}
use naive_vite.Base.Int.{pos_part, ℤ, pos, ◌-ℤ◌, ltb_ℤ}
use naive_vite.Pool.Chain.{disk, forked, ForkedChain, remove_tail, add_tail}
use naive_vite.Pool.Disk.{ChainRw, ChainPool}
use naive_vite.Pool.Refer.{chain_at, put_chain, modify_rounds, modify_refer}
use naive_vite.Pool.Modify.{put_current}

module _ {S : Type 0} where
  abbrev pub HasChain : ChainPool S → ℕ → Type 0
  HasChain p id = (x : ForkedChain) × (chain_at p id ≡ some x)

  -- Each chain stands at its own id.
  abbrev pub AreNamed : ChainPool S → Type 0
  AreNamed p = (id : ℕ) (x : ForkedChain) → chain_at p id ≡ some x → x.chain_id ≡ id

  -- The chain refers to the chain on disk, or to a chain of the pool with a rank below `k`.
  abbrev pub RefersBelow : (ℕ → ℕ) → ChainPool S → ℕ → ForkedChain → Type 0
  RefersBelow rank p k x =
      (x.refer_chain ≡ disk)
      ⊎ ((id : ℕ) × (y : ForkedChain) × (x.refer_chain ≡ forked id)
          × (chain_at p id ≡ some y)
          × (rank id < k))

  -- Each chain with a rank below `k` refers to the chain on disk, or to a chain of a lower rank.
  abbrev pub IsRanked : (ℕ → ℕ) → ℕ → ChainPool S → Type 0
  IsRanked rank k p =
      (id : ℕ) (x : ForkedChain)
      → rank id < k
      → chain_at p id ≡ some x
      → RefersBelow rank p (rank id) x

  pub chain_at-put_chain :
      (p : ChainPool S) (c : ForkedChain) (id : ℕ)
      → chain_at (put_chain p c) id ≡ (if c.chain_id == id then some c else chain_at p id)
  unfolding chain_at put_chain
  chain_at-put_chain p c id =
      let old = p.current in
      elim (Bool-cases (old.chain_id == c.chain_id)) [
        | inl e ↦ ground (arith, e)
        | inr e ↦ ground (arith, e, lookup-insert c.chain_id id c p.others)
      ]

  pub chain_at-put_current :
      (p : ChainPool S) (c : ForkedChain) (id : ℕ)
      → chain_at (put_current p c) id ≡ (if c.chain_id == id then some c else chain_at p id)
  unfolding chain_at put_current
  chain_at-put_current p c id =
      let old = p.current in
      ground (
        arith,
        lookup-remove c.chain_id id (insert old.chain_id old p.others),
        lookup-insert old.chain_id id old p.others,
      )

  pub put_chain-AreNamed :
      (p : ChainPool S) (c : ForkedChain) → AreNamed p → AreNamed (put_chain p c)
  put_chain-AreNamed p c named id x e = elim (Bool-cases (c.chain_id == id)) [
    | inl h ↦ ground (arith, h, e, chain_at-put_chain p c id)
    | inr h ↦ named id x (ground (arith, h, e, chain_at-put_chain p c id))
  ]

  pub put_chain-HasChain :
      (p : ChainPool S) (c : ForkedChain) (id : ℕ) → HasChain p id → HasChain (put_chain p c) id
  put_chain-HasChain p c id (x, e) = elim (Bool-cases (c.chain_id == id)) [
    | inl h ↦ (c, ground (arith, h, chain_at-put_chain p c id))
    | inr h ↦ (x, ground (arith, h, e, chain_at-put_chain p c id))
  ]

  pub put_current-HasChain :
      (p : ChainPool S) (c : ForkedChain) (id : ℕ) → HasChain p id → HasChain (put_current p c) id
  put_current-HasChain p c id (x, e) = elim (Bool-cases (c.chain_id == id)) [
    | inl h ↦ (c, ground (arith, h, chain_at-put_current p c id))
    | inr h ↦ (x, ground (arith, h, e, chain_at-put_current p c id))
  ]

  pub put_chain-current :
      (p : ChainPool S) (c : ForkedChain)
      → (let old = p.current in
          let q = put_chain p c in
          let new = q.current in (new.chain_id ≡ old.chain_id) × (q.disk ≡ p.disk))
  unfolding put_chain
  put_chain-current p c =
      let old = p.current in
      elim (Bool-cases (old.chain_id == c.chain_id)) [
        | inl e ↦ (ground (arith, e), ground (arith, e))
        | inr e ↦ (ground (arith, e), ground (arith, e))
      ]

module _ {S : Type 0} (rw : ChainRw S) (version : ℤ) where
  pub modify_rounds-ids :
      (n : ℕ) (i : ℤ) (from to from' to' : ForkedChain)
      → modify_rounds rw version n i from to ≡ ok (from', to')
      → (from'.chain_id ≡ from.chain_id) × (to'.chain_id ≡ to.chain_id)
  unfolding modify_rounds remove_tail add_tail
  modify_rounds-ids zero i from to from' to' e = (ground (arith, e), ground (arith, e))
  modify_rounds-ids (suc n) i from to from' to' e = elim (Bool-cases (ltb_ℤ from.tail_height i)) [
    | inr h ↦ (ground (arith, e, h), ground (arith, e, h))
    | inl h ↦ elim (Option-cases (from.height_blocks i)) [
      | inl g ↦ absurd (ground (arith, e, h, g))
      | inr (w, g) ↦
          modify_rounds-ids n (i -ℤ pos 1) (remove_tail from w) (add_tail to w) from' to'
            (ground (arith, e, h, g))
    ]
  ]

  pub modify_rounds-no_error :
      (n : ℕ) (i : ℤ) (from to : ForkedChain) (x : Error)
      → modify_rounds rw version n i from to ≢ err x
  unfolding modify_rounds
  modify_rounds-no_error zero i from to x e = absurd (ground (arith, e))
  modify_rounds-no_error (suc n) i from to x e = elim (Bool-cases (ltb_ℤ from.tail_height i)) [
    | inr h ↦ absurd (ground (arith, e, h))
    | inl h ↦ elim (Option-cases (from.height_blocks i)) [
      | inl g ↦ absurd (ground (arith, e, h, g))
      | inr (w, g) ↦
          modify_rounds-no_error n (i -ℤ pos 1) (remove_tail from w) (add_tail to w) x
            (ground (arith, e, h, g))
    ]
  ]

  pub modify_refer_cases :
      (from to : ForkedChain)
      → (modify_refer rw version from to ≡ panic)
        ⊎ ((from' : ForkedChain) × (to' : ForkedChain) × (modify_refer rw version from to
              ≡ ok (from', to'))
            × (from'.chain_id ≡ from.chain_id)
            × (to'.chain_id ≡ to.chain_id)
            × (to'.refer_chain ≡ from.refer_chain))
  unfolding modify_refer
  modify_refer_cases from to =
      let n = pos_part (to.tail_height -ℤ from.tail_height) in
      elim (Result-cases (modify_rounds rw version n to.tail_height from to)) [
        | inl ((from', to'), e) ↦
            let (i, j) = modify_rounds-ids n to.tail_height from to from' to' e in
            (inr (
              record from' { refer_chain = forked to'.chain_id },
              record to' { refer_chain = from.refer_chain },
              ground (arith, e),
              i,
              j,
              refl,
            ))
        | inr (inl (x, e)) ↦ absurd (modify_rounds-no_error n to.tail_height from to x e)
        | inr (inr e) ↦ inl (ground (arith, e))
      ]

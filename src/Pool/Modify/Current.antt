-- ===== src/Pool/Modify/Current.antt =====
-- What `currentModifyToChain` leaves.
use naive_vite.Base.{
  ℕ, zero, suc, ◌≤◌, ◌<◌, ◌≡◌, ◌≢◌, refl, sym, ap, ◌∙◌, ◌⊎◌, inl, inr, true, Option, some, length,
  Result, ok, panic, arith,
}
use naive_vite.Base.Int.{ℤ}
use naive_vite.Pool.Chain.{disk, forked, ForkedChain}
use naive_vite.Pool.Disk.{ChainRw, ChainPool}
use naive_vite.Pool.Refer.{chain_at, put_chain, modify_refer}
use naive_vite.Pool.Modify.Chains.{
  HasChain, AreNamed, RefersBelow, IsRanked, chain_at-put_chain, put_chain-AreNamed,
  put_chain-HasChain, put_current-HasChain, put_chain-current, modify_refer_cases,
}
use naive_vite.Pool.Modify.{put_current, refer_rounds, has_disk_head, current_modify_to_chain}

module _ {S : Type 0} (rw : ChainRw S) (version : ℤ) where
  abbrev moved : ChainPool S → ForkedChain → ForkedChain → ChainPool S
  moved p from' to' = put_chain (put_chain p from') to'

  chain_at-moved :
      (p : ChainPool S) (from' to' : ForkedChain) (id : ℕ)
      → from'.chain_id ≢ id
      → to'.chain_id ≢ id
      → chain_at (moved p from' to') id ≡ chain_at p id
  chain_at-moved p from' to' id f t =
      ground
        (arith, f, t, chain_at-put_chain (put_chain p from') to' id, chain_at-put_chain p from' id)

  step_moved :
      (n id : ℕ) (p : ChainPool S) (c from from' to' : ForkedChain)
      → c.refer_chain ≡ forked id
      → chain_at p id ≡ some from
      → modify_refer rw version from c ≡ ok (from', to')
      → refer_rounds rw version (suc n) p c ≡ refer_rounds rw version n (moved p from' to') to'
  unfolding refer_rounds
  step_moved n id p c from from' to' refer at e = ground (arith, refer, at, e)

  step_panics :
      (n id : ℕ) (p : ChainPool S) (c from : ForkedChain)
      → c.refer_chain ≡ forked id
      → chain_at p id ≡ some from
      → modify_refer rw version from c ≡ panic
      → refer_rounds rw version (suc n) p c ≡ some panic
  unfolding refer_rounds
  step_panics n id p c from refer at e = ground (arith, refer, at, e)

  -- The loop's results: the chain refers to the chain on disk, the current chain is the one of
  -- before, and no chain is lost.
  abbrev IsModified :
      ChainPool S → ForkedChain → Option (Result (ChainPool S × ForkedChain)) → Type 0
  IsModified p c r =
      (r ≡ some panic)
      ⊎ ((p' : ChainPool S) × (c' : ForkedChain) × (r ≡ some (ok (p', c')))
          × (c'.chain_id ≡ c.chain_id)
          × (c'.refer_chain ≡ disk)
          × (p'.disk ≡ p.disk)
          × (let new = p'.current in let old = p.current in new.chain_id ≡ old.chain_id)
          × ((id : ℕ) → HasChain p id → HasChain p' id))

  -- A chain of a lower rank than the two that have been modified is neither of them.
  lower_chain :
      (rank : ℕ → ℕ) (k id j : ℕ) (p : ChainPool S) (c from' to' : ForkedChain)
      → k ≤ rank c.chain_id
      → rank id < k
      → from'.chain_id ≡ id
      → to'.chain_id ≡ c.chain_id
      → rank j < rank id
      → chain_at (moved p from' to') j ≡ chain_at p j
  lower_chain rank k id j p c from' to' high low fid tid l =
      chain_at-moved p from' to' j (λ g. absurd (omega (arith, l, ap rank (sym fid ∙ g))))
        (λ g. absurd (omega (arith, l, high, low, ap rank (sym tid ∙ g))))

  moved-RefersBelow :
      (rank : ℕ → ℕ) (k id m : ℕ) (p : ChainPool S) (c from' to' x : ForkedChain)
      → k ≤ rank c.chain_id
      → rank id < k
      → from'.chain_id ≡ id
      → to'.chain_id ≡ c.chain_id
      → m ≤ rank id
      → RefersBelow rank p m x
      → RefersBelow rank (moved p from' to') m x
  moved-RefersBelow rank k id m p c from' to' x high low fid tid below (inl e) = inl e
  moved-RefersBelow rank k id m p c from' to' x high low fid tid below (inr (j, y, e, at, l)) =
      inr (
        j,
        y,
        e,
        lower_chain rank k id j p c from' to' high low fid tid (omega (arith, l, below)) ∙ at,
        l,
      )

  moved-IsRanked :
      (rank : ℕ → ℕ) (k id : ℕ) (p : ChainPool S) (c from' to' : ForkedChain)
      → IsRanked rank k p
      → k ≤ rank c.chain_id
      → rank id < k
      → from'.chain_id ≡ id
      → to'.chain_id ≡ c.chain_id
      → IsRanked rank (rank id) (moved p from' to')
  moved-IsRanked rank k id p c from' to' ranked high low fid tid j x l at =
      let same = lower_chain rank k id j p c from' to' high low fid tid l in
      moved-RefersBelow rank k id (rank j) p c from' to' x high low fid tid (omega (arith, l))
        (ranked j x (omega (arith, l, low)) (sym same ∙ at))

  subst_refer :
      (rank : ℕ → ℕ) (k : ℕ) (p : ChainPool S) (x y : ForkedChain)
      → y.refer_chain ≡ x.refer_chain
      → RefersBelow rank p k x
      → RefersBelow rank p k y
  subst_refer rank k p x y same (inl e) = inl (same ∙ e)
  subst_refer rank k p x y same (inr (j, z, e, at, l)) = inr (j, z, same ∙ e, at, l)

  first_round :
      (n id : ℕ) (p : ChainPool S) (c from from' to' : ForkedChain)
      → c.refer_chain ≡ forked id
      → chain_at p id ≡ some from
      → modify_refer rw version from c ≡ ok (from', to')
      → to'.chain_id ≡ c.chain_id
      → IsModified (moved p from' to') to' (refer_rounds rw version n (moved p from' to') to')
      → IsModified p c (refer_rounds rw version (suc n) p c)
  first_round n id p c from from' to' e at g tid (inl f) =
      inl (step_moved n id p c from from' to' e at g ∙ f)
  first_round n id p c from from' to' e at g tid (inr (p', c', f, i, d, s, u, kept)) =
      let (u1, s1) = put_chain-current p from' in
      let (u2, s2) = put_chain-current (put_chain p from') to' in
      inr (
        p',
        c',
        step_moved n id p c from from' to' e at g ∙ f,
        i ∙ tid,
        d,
        s ∙ s2 ∙ s1,
        u ∙ u2 ∙ u1,
        λ j h.
            kept j (put_chain-HasChain (put_chain p from') to' j (put_chain-HasChain p from' j h)),
      )

  refer_rounds-IsModified :
      (n k : ℕ) (rank : ℕ → ℕ) (p : ChainPool S) (c : ForkedChain)
      → k < n
      → AreNamed p
      → IsRanked rank k p
      → k ≤ rank c.chain_id
      → RefersBelow rank p k c
      → IsModified p c (refer_rounds rw version n p c)
  unfolding refer_rounds
  refer_rounds-IsModified zero k rank p c le named ranked high below = absurd (omega (arith, le))
  refer_rounds-IsModified (suc n) k rank p c le named ranked high (inl e) =
      inr (p, c, ground (arith, e), refl, e, refl, refl, λ id h. h)
  refer_rounds-IsModified (suc n) k rank p c le named ranked high (inr (id, from, e, at, l)) =
      elim (modify_refer_cases rw version from c) [
        | inl g ↦ inl (step_panics n id p c from e at g)
        | inr (from', to', g, fid, tid, refer) ↦
            let named_from : from'.chain_id ≡ id = fid ∙ named id from at in
            let q = moved p from' to' in
            let rest =
              refer_rounds-IsModified n (rank id) rank q to' (omega (arith, le, l))
                (put_chain-AreNamed (put_chain p from') to' (put_chain-AreNamed p from' named))
                (moved-IsRanked rank k id p c from' to' ranked high l named_from tid)
                (omega (arith, high, l, ap rank tid))
                (subst_refer rank (rank id) q from to' refer (
                  moved-RefersBelow rank k id (rank id) p c from' to' from high l named_from tid
                    (omega arith) (ranked id from l at))) in
            first_round n id p c from from' to' e at g tid rest
      ]

  -- After `currentModifyToChain` the chain is the current one and refers to the chain on disk, which
  -- is as before.
  abbrev pub IsCurrent : ChainPool S → ForkedChain → ChainPool S → Type 0
  IsCurrent p c q =
      let new = q.current in
      (new.chain_id ≡ c.chain_id) × (new.refer_chain ≡ disk) × (q.disk ≡ p.disk)

  modified_ok :
      (p q : ChainPool S) (c c' : ForkedChain)
      → has_disk_head rw version p c ≡ ok true
      → refer_rounds rw version (suc (suc (length p.others))) p c ≡ some (ok (q, c'))
      → current_modify_to_chain rw version p c ≡ some (ok (put_current q c'))
  unfolding current_modify_to_chain
  modified_ok p q c c' h e = ground (arith, h, e)

  modified_panic :
      (p : ChainPool S) (c : ForkedChain)
      → has_disk_head rw version p c ≡ ok true
      → refer_rounds rw version (suc (suc (length p.others))) p c ≡ some panic
      → current_modify_to_chain rw version p c ≡ some panic
  unfolding current_modify_to_chain
  modified_panic p c h e = ground (arith, h, e)

  -- In a pool whose chains stand at their ids and refer to no chain of a greater or an equal rank, with
  -- ranks up to one more than the number of the chains but the current one: if a chain of the pool
  -- has the head on disk, currentModifyToChain ends, and unless it panics the chain is then the current
  -- one and refers to the chain on disk, which is as before, and the other chains are still there.
  pub current_modify_to_chain-IsCurrent :
      (rank : ℕ → ℕ) (p : ChainPool S) (c : ForkedChain) (id : ℕ)
      → AreNamed p
      → ((j : ℕ) (x : ForkedChain) → chain_at p j ≡ some x → RefersBelow rank p (rank j) x)
      → rank c.chain_id ≤ suc (length p.others)
      → chain_at p c.chain_id ≡ some c
      → has_disk_head rw version p c ≡ ok true
      → HasChain p id
      → (current_modify_to_chain rw version p c ≡ some panic)
        ⊎ ((q : ChainPool S) × (current_modify_to_chain rw version p c ≡ some (ok q))
            × IsCurrent p c q
            × HasChain q id)
  unfolding put_current
  current_modify_to_chain-IsCurrent rank p c id named ranked small at head there =
      elim (refer_rounds-IsModified (suc (suc (length p.others))) (rank c.chain_id) rank p c
        (omega (arith, small)) named (λ j x l f. ranked j x f) (omega arith)
        (ranked c.chain_id c at)) [
          | inl e ↦ inl (modified_panic p c head e)
          | inr (q, c', e, i, d, s, u, kept) ↦ inr (
            put_current q c',
            modified_ok p q c c' head e,
            (i, d, s),
            put_current-HasChain q c' id (kept id there),
          )
        ]

-- ===== src/Pool/Refer/Gap.antt =====
-- What `modifyRefer` moves from one chain to another.
use naive_vite.Base.{◌-◌, ℕ, zero, suc, ◌≡◌, ap, ◌∙◌, none, some, false, ok, arith}
use naive_vite.Base.Int.{
  ℤ, -ℤ_parts, ltb_ℤ, pos, pos_part, neg_part, ◌+ℤ◌, ◌-ℤ◌, ◌≤ℤ◌, ◌<ℤ◌, int_laws,
}
use naive_vite.Pool.Chain.{PoolBlock, height, ForkedChain, forked, disk, remove_tail, add_tail}
use naive_vite.Pool.Chain.Segment.{Linked-get}
use naive_vite.Pool.Chain.Insertion.{IsChain}
use naive_vite.Pool.Disk.{ChainRw, ChainPool}
use naive_vite.Pool.Refer.{
  chain_at, put_chain, disk_get, get_along, get_block, modify_rounds, modify_refer,
}

module _ {S : Type 0} (rw : ChainRw S) (version : ℤ) where
  -- The first round moves the tail of `from` above every height that is left.
  one_round :
      (k : ℕ) (from to : ForkedChain) (w : PoolBlock)
      → from.tail_height <ℤ to.tail_height
      → from.height_blocks to.tail_height ≡ some w
      → height w ≡ to.tail_height
      → modify_rounds rw version (suc k) to.tail_height from to
        ≡ ok (remove_tail from w, add_tail to w)
  unfolding modify_rounds remove_tail
  one_round zero from to w low at h = ground (arith, low, at)
  one_round (suc k) from to w low at h =
      let stop : ltb_ℤ (height w) (to.tail_height -ℤ pos 1) ≡ false =
        ground (arith, -ℤ_parts to.tail_height (pos 1), ap pos_part h, ap neg_part h) in
      ground (arith, low, at, stop)

  -- The chains after a modification, where `w` is the block of `from` at the tail of `to`.
  abbrev from_after : ForkedChain → ForkedChain → PoolBlock → ForkedChain
  from_after from to w = record (remove_tail from w) { refer_chain = forked to.chain_id }

  abbrev to_after : ForkedChain → ForkedChain → PoolBlock → ForkedChain
  to_after from to w = record (add_tail to w) { refer_chain = from.refer_chain }

  modified :
      (k : ℕ) (from to : ForkedChain) (w : PoolBlock)
      → pos_part (to.tail_height -ℤ from.tail_height) ≡ suc k
      → from.tail_height <ℤ to.tail_height
      → from.height_blocks to.tail_height ≡ some w
      → height w ≡ to.tail_height
      → modify_refer rw version from to ≡ ok (from_after from to w, to_after from to w)
  unfolding modify_refer
  modified k from to w count low at h = ground (arith, count, one_round k from to w low at h)

  put_chain-disk : (p : ChainPool S) (c : ForkedChain) → (put_chain p c).disk ≡ p.disk
  unfolding put_chain
  put_chain-disk p c = ground arith

  -- A read through one chain that has the block.
  read_through :
      (p : ChainPool S) (to from : ForkedChain) (id : ℕ) (i : ℤ) (w : PoolBlock)
      → to.height_blocks i ≡ none
      → to.refer_chain ≡ forked id
      → chain_at p id ≡ some from
      → from.height_blocks i ≡ some w
      → get_block rw version p to i ≡ some w
  unfolding get_block get_along
  read_through p to from id i w missing refer at found = ground (arith, missing, refer, at, found)

  read_disk :
      (p : ChainPool S) (to : ForkedChain) (i : ℤ)
      → to.height_blocks i ≡ none
      → to.refer_chain ≡ disk
      → get_block rw version p to i ≡ disk_get rw version p.disk i
  unfolding get_block get_along
  read_disk p to i missing refer = ground (arith, missing, refer)

  not_added :
      (to : ForkedChain) (w : PoolBlock) (i : ℤ)
      → to.height_blocks i ≡ none
      → i <ℤ height w
      → (add_tail to w).height_blocks i ≡ none
  unfolding add_tail
  not_added to w i missing low = ground (arith, missing, low)

  -- `modifyRefer` moves one block only. Where the chain `to` leaves the linked chain `from` two or
  -- more heights above its tail, the block just above that tail, which `to` finds through `from`,
  -- is found by it no longer: not in its own blocks, and not on disk, to which it then refers.
  pub modify_refer_gap :
      (p : ChainPool S) (n id : ℕ) (from to : ForkedChain)
      → IsChain n from
      → from.tail_height +ℤ pos 1 <ℤ to.tail_height
      → to.tail_height ≤ℤ from.head_height
      → from.refer_chain ≡ disk
      → to.refer_chain ≡ forked id
      → chain_at p id ≡ some from
      → to.height_blocks (from.tail_height +ℤ pos 1) ≡ none
      → disk_get rw version p.disk (from.tail_height +ℤ pos 1) ≡ none
      → (from' : ForkedChain) × (to' : ForkedChain) × (w : PoolBlock) × (modify_refer rw version
            from to
          ≡ ok (from', to'))
        × (get_block rw version p to (from.tail_height +ℤ pos 1) ≡ some w)
        × (get_block rw version (put_chain (put_chain p from') to') to' (from.tail_height +ℤ pos 1)
            ≡ none)
  modify_refer_gap p n id from to chain far inside bottom refer at missing none_on_disk =
      let i = from.tail_height +ℤ pos 1 in
      let low : from.tail_height <ℤ to.tail_height = omega (int_laws, far) in
      let (w, found, h) =
        Linked-get from.height_blocks n from.tail_height from.tail_hash from.head_height
          from.head_hash to.tail_height chain low inside in
      let (v, lost, _) =
        Linked-get from.height_blocks n from.tail_height from.tail_hash from.head_height
          from.head_hash i chain (omega int_laws) (omega (int_laws, far, inside)) in
      let span = to.tail_height -ℤ from.tail_height in
      let count : pos_part span ≡ suc (pos_part span - 1) = omega (int_laws, low) in
      let to' = to_after from to w in
      let p' = put_chain (put_chain p (from_after from to w)) to' in
      let same : p'.disk ≡ p.disk =
        put_chain-disk (put_chain p (from_after from to w)) to'
        ∙ put_chain-disk p (from_after from to w) in
      (
        from_after from to w,
        to',
        v,
        modified (pos_part span - 1) from to w count low found h,
        read_through p to from id i v missing refer at lost,
        read_disk p' to' i
              (not_added to w i missing (omega (int_laws, far, ap pos_part h, ap neg_part h)))
              bottom
            ∙ ap (λ s. disk_get rw version s i) same
            ∙ none_on_disk,
      )

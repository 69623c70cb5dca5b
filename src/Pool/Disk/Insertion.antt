-- ===== src/Pool/Disk/Insertion.antt =====
-- What `tryInsert` writes to disk, and the chain of waiting blocks that it leaves.
use naive_vite.Base.{
  ℕ, zero, suc, ◌+◌, ◌≡◌, ◌≢◌, refl, sym, ap, subst, ◌∙◌, ◌⊎◌, inl, inr, Option, some, store,
  delete, ok, err, panic, Error, Result, Result-cases, arith,
}
use naive_vite.Base.Int.{ℤ, pos, ◌+ℤ◌, ◌<ℤ◌, ◌==ℤ◌, int_laws}
use naive_vite.Verifier.Task.{VerifyResult, VerifyResult-cases, pending, fail, success, Task}
use naive_vite.Pool.Chain.{
  Block, PoolBlock, Blocks, height, hash, pre_hash, ForkedChain, remove_tail,
}
use naive_vite.Pool.Chain.Segment.{Linked, Linked-length, Linked-change}
use naive_vite.Pool.Chain.Insertion.{IsChain}
use naive_vite.Pool.Disk.{ChainRw, ChainPool, write_to_chain, insert_loop, try_insert_blocks}

-- The block at `i` with another fork version.
abbrev renewed : ForkedChain → ℤ → PoolBlock → ForkedChain
renewed c i w = record c { height_blocks = store ◌==ℤ◌ c.height_blocks i w }

renewed-other : (m : Blocks) (i h : ℤ) (w : PoolBlock) → i <ℤ h → store ◌==ℤ◌ m i w h ≡ m h
renewed-other m i h w low = ground arith

renewed-here : (m : Blocks) (i : ℤ) (w : PoolBlock) → store ◌==ℤ◌ m i w i ≡ some w
renewed-here m i w = ground arith

removed-other :
    (m : Blocks) (i j h : ℤ) (w : PoolBlock)
    → i ≡ j
    → i <ℤ h
    → delete ◌==ℤ◌ (store ◌==ℤ◌ m i w) j h ≡ m h
removed-other m i j h w same low = ground arith

verdict_test : (v : VerifyResult) → (v ≡ success) ⊎ (v ≢ success)
verdict_test pending = inr (λ e. ground arith)
verdict_test fail = inr (λ e. ground arith)
verdict_test success = inl refl

not_ok : (r : Result (Unit {0})) → ((e : Error) × (r ≡ err e)) ⊎ (r ≡ panic) → r ≢ ok tt
not_ok r (inl (x, e)) f = absurd (ground arith)
not_ok r (inr e) f = absurd (ground arith)

module _ {S : Type 0} (rw : ChainRw S) (verify : S → Block → VerifyResult × Task)
    (version : ℤ) where
  -- The `k` blocks of `m` above `tail` are each verified with success on the chain on disk as it is
  -- then, and put on it, one after another: `s` becomes `s'`.
  abbrev pub Wrote : Blocks → ℕ → ℤ → S → S → Type 0
  Wrote m zero tail s s' = s ≡ s'
  Wrote m (suc k) tail s s' =
      (w : PoolBlock) × (m (tail +ℤ pos 1) ≡ some w)
      × ((verify s w.block).0 ≡ success)
      × (s1 : S) × (rw.insert_chain s w.block version ≡ (s1, ok tt))
      × Wrote m k (tail +ℤ pos 1) s1 s'

  -- What the last round leaves: the state as it was, or that of a failed insertion.
  abbrev pub Ended : S → S → Type 0
  Ended s s' =
      (s' ≡ s)
      ⊎ ((b : Block) × ((rw.insert_chain s b version).0 ≡ s')
          × ((rw.insert_chain s b version).1 ≢ ok tt))

  -- `k` of the `n` waiting blocks have gone to disk, in order, and the others wait, linked as before.
  abbrev pub IsWritten : ℕ → ChainPool S → ChainPool S → Type 0
  IsWritten n p p' =
      (k : ℕ) × (j : ℕ) × (k + j ≡ n)
      × (s : S) × Wrote p.current.height_blocks k p.current.tail_height p.disk s
      × Ended s p'.disk
      × IsChain j p'.current
      × (p'.current.head_height ≡ p.current.head_height)
      × (p'.current.head_hash ≡ p.current.head_hash)

  Wrote-change :
      (m m' : Blocks) (k : ℕ) (tail : ℤ) (s s' : S)
      → ((h : ℤ) → tail <ℤ h → m' h ≡ m h)
      → Wrote m' k tail s s'
      → Wrote m k tail s s'
  Wrote-change m m' zero tail s s' same l = l
  Wrote-change m m' (suc k) tail s s' same (w, at, v, s1, i, l) = (
    w,
    sym (same (tail +ℤ pos 1) (omega int_laws)) ∙ at,
    v,
    s1,
    i,
    Wrote-change m m' k (tail +ℤ pos 1) s1 s' (λ h low. same h (omega int_laws)) l,
  )

  abbrev reset : PoolBlock → PoolBlock
  reset w = record w { fork_version = version }

  renewed-IsChain :
      (n : ℕ) (c : ForkedChain) (w : PoolBlock)
      → c.height_blocks (c.tail_height +ℤ pos 1) ≡ some w
      → IsChain (suc n) c
      → IsChain (suc n) (renewed c (c.tail_height +ℤ pos 1) (reset w))
  renewed-IsChain n c w found (v, at, h, p, l) =
      let i = c.tail_height +ℤ pos 1 in
      let same : v ≡ w = ground (arith, at, found) in
      (
        reset w,
        renewed-here c.height_blocks i (reset w),
        ap height (sym same) ∙ h,
        ap pre_hash (sym same) ∙ p,
        subst
            (λ x. Linked (store ◌==ℤ◌ c.height_blocks i (reset w)) n i x c.head_height c.head_hash)
            (ap hash same)
            (Linked-change c.height_blocks (store ◌==ℤ◌ c.height_blocks i (reset w)) n i (hash v)
              c.head_height c.head_hash
              (λ j low high. renewed-other c.height_blocks i j (reset w) low) l),
      )

  abbrev written : ForkedChain → PoolBlock → ForkedChain
  written c w = remove_tail (renewed c (c.tail_height +ℤ pos 1) (reset w)) (reset w)

  written-IsChain :
      (n : ℕ) (c : ForkedChain) (w : PoolBlock)
      → height w ≡ c.tail_height +ℤ pos 1
      → Linked c.height_blocks n (c.tail_height +ℤ pos 1) (hash w) c.head_height c.head_hash
      → IsChain n (written c w)
  unfolding remove_tail
  written-IsChain n c w h l =
      let i = c.tail_height +ℤ pos 1 in
      let m = delete ◌==ℤ◌ (store ◌==ℤ◌ c.height_blocks i (reset w)) (height w) in
      subst (λ k. Linked m n k (hash w) c.head_height c.head_hash) (sym h)
        (Linked-change c.height_blocks m n i (hash w) c.head_height c.head_hash
          (λ j low high. removed-other c.height_blocks i (height w) j (reset w) (sym h) low) l)

  abbrev renewed_pool : ChainPool S → PoolBlock → ChainPool S
  renewed_pool p w = record p {
    current = renewed p.current (p.current.tail_height +ℤ pos 1) (reset w);
  }

  abbrev round : ℤ → ℕ → ChainPool S → ChainPool S × Option Task
  round now n p = insert_loop rw verify version now n (p.current.tail_height +ℤ pos 1) p

  step_refused :
      (now : ℤ) (n : ℕ) (p : ChainPool S) (w : PoolBlock)
      → p.current.height_blocks (p.current.tail_height +ℤ pos 1) ≡ some w
      → (verify p.disk w.block).0 ≢ success
      → (round now (suc n) p).0 ≡ renewed_pool p w
  unfolding insert_loop
  step_refused now n p w at v = elim (VerifyResult-cases (verify p.disk w.block).0) [
    | inl e ↦ ground (arith, at, e)
    | inr (inl e) ↦ ground (arith, at, e)
    | inr (inr e) ↦ absurd (v e)
  ]

  abbrev written_pool : ChainPool S → PoolBlock → S → ChainPool S
  written_pool p w s = record p { disk = s; current = written p.current w }

  step_written :
      (now : ℤ) (n : ℕ) (p : ChainPool S) (w : PoolBlock) (s : S)
      → p.current.height_blocks (p.current.tail_height +ℤ pos 1) ≡ some w
      → height w ≡ p.current.tail_height +ℤ pos 1
      → (verify p.disk w.block).0 ≡ success
      → rw.insert_chain p.disk w.block version ≡ (s, ok tt)
      → (round now (suc n) p).0 ≡ (round now n (written_pool p w s)).0
  unfolding insert_loop write_to_chain remove_tail
  step_written now n p w s at h v e = ground (arith, at, h, v, e, ap (λ i. i +ℤ pos 1) h)

  step_failed :
      (now : ℤ) (n : ℕ) (p : ChainPool S) (w : PoolBlock)
      → p.current.height_blocks (p.current.tail_height +ℤ pos 1) ≡ some w
      → height w ≡ p.current.tail_height +ℤ pos 1
      → (verify p.disk w.block).0 ≡ success
      → (rw.insert_chain p.disk w.block version).1 ≢ ok tt
      → (round now (suc n) p).0
        ≡ record (renewed_pool p w) { disk = (rw.insert_chain p.disk w.block version).0 }
  unfolding insert_loop write_to_chain
  step_failed now n p w at h v e = elim (Result-cases (rw.insert_chain p.disk w.block version).1) [
    | inl (u, f) ↦ absurd (e f)
    | inr (inl (x, f)) ↦ ground (arith, at, h, v, f)
    | inr (inr f) ↦ ground (arith, at, h, v, f)
  ]

  -- The first block is on disk, and the rest has been written as `rest` says.
  next-IsWritten :
      (n : ℕ) (p p' : ChainPool S) (w : PoolBlock) (s : S)
      → p.current.height_blocks (p.current.tail_height +ℤ pos 1) ≡ some w
      → height w ≡ p.current.tail_height +ℤ pos 1
      → (verify p.disk w.block).0 ≡ success
      → rw.insert_chain p.disk w.block version ≡ (s, ok tt)
      → IsWritten n (written_pool p w s) p'
      → IsWritten (suc n) p p'
  unfolding remove_tail
  next-IsWritten n p p' w s at h v e (k, j, count, s', l, end, chain, at_height, at_hash) =
      let i = p.current.tail_height +ℤ pos 1 in
      let m = p.current.height_blocks in
      let m' = delete ◌==ℤ◌ (store ◌==ℤ◌ m i (reset w)) (height w) in
      let l' =
        Wrote-change m m' k i s s' (λ x low. removed-other m i (height w) x (reset w) (sym h) low)
          (subst (λ t. Wrote m' k t s s') h l) in
      (suc k, j, omega (arith, count), s', (w, at, v, s, e, l'), end, chain, at_height, at_hash)

  loop-IsWritten :
      (now : ℤ) (n : ℕ) (p : ChainPool S) → IsChain n p.current → IsWritten n p (round now n p).0
  unfolding insert_loop
  loop-IsWritten now zero p l = (0, 0, refl, p.disk, refl, inl refl, l, refl, refl)
  loop-IsWritten now (suc n) p (w, at, h, q, l) =
      let here = renewed-IsChain n p.current w at (w, at, h, q, l) in
      elim (verdict_test (verify p.disk w.block).0) [
        | inr v ↦
            subst (IsWritten (suc n) p) (sym (step_refused now n p w at v))
              (0, suc n, omega arith, p.disk, refl, inl refl, here, refl, refl)
        | inl v ↦ elim (Result-cases (rw.insert_chain p.disk w.block version).1) [
          | inl (_, f) ↦
              let s = (rw.insert_chain p.disk w.block version).0 in
              let e : rw.insert_chain p.disk w.block version ≡ (s, ok tt) = ground (arith, f) in
              subst (IsWritten (suc n) p) (sym (step_written now n p w s at h v e)) (
                next-IsWritten n p (round now n (written_pool p w s)).0 w s at h v e
                  (loop-IsWritten now n (written_pool p w s) (written-IsChain n p.current w h l)))
          | inr failed ↦
              let f : (rw.insert_chain p.disk w.block version).1 ≢ ok tt =
                not_ok (rw.insert_chain p.disk w.block version).1 failed in
              subst (IsWritten (suc n) p) (sym (step_failed now n p w at h v f))
                (0, suc n, omega arith, p.disk, refl, inr (w.block, refl, f), here, refl, refl)
        ]
      ]

  -- Whatever the chain on disk and the verifier do: of `n` linked waiting blocks `tryInsert` puts
  -- the first `k` on the chain on disk, in order, each after a verification with success on the
  -- chain as it is then. The chain on disk is changed by nothing else but an insertion that fails;
  -- the other blocks wait as before, linked, up to the same head.
  pub try_insert_blocks-IsWritten :
      (now : ℤ) (n : ℕ) (p : ChainPool S)
      → IsChain n p.current
      → IsWritten n p (try_insert_blocks rw verify version now p).0
  unfolding try_insert_blocks
  try_insert_blocks-IsWritten now n p l =
      let c = p.current in
      subst (λ k. IsWritten n p (insert_loop rw verify version now k (c.tail_height +ℤ pos 1) p).0)
        (sym
          (Linked-length c.height_blocks n c.tail_height c.tail_hash c.head_height c.head_hash l))
        (loop-IsWritten now n p l)

-- ===== src/Pool/Fork/Insertion.antt =====
-- What `snapshotTryInsert` writes to disk.
use naive_vite.Base.{
  store, ℕ, zero, suc, ◌≡◌, refl, sym, ap, subst, ◌∙◌, inl, inr, some, ok, err, panic, Option-cases,
  if◌then◌else◌, arith,
}
use naive_vite.Base.Int.{ℤ, pos, pos_part, ◌+ℤ◌, ◌-ℤ◌, ◌==ℤ◌}
use naive_vite.Verifier.Task.{VerifyResult, pending, fail, success, Task, success_task}
use naive_vite.Verifier.Snapshot.{SnapshotBlockVerifyStat}
use naive_vite.Pool.Chain.{Block, PoolBlock, height}
use naive_vite.Pool.Chain.Insertion.{IsChain}
use naive_vite.Pool.Disk.{ChainRw, ChainPool, write_to_chain, insert_loop, try_insert_blocks}
use naive_vite.Pool.Disk.Insertion.{IsWritten, try_insert_blocks-IsWritten}
use naive_vite.Pool.Fork.{settled, snapshot_rounds, snapshot_blocks}

module _ {S : Type 0} (rw : ChainRw S) (verify : S → Block → SnapshotBlockVerifyStat)
    (version : ℤ) where
  -- The verifier's results alone.
  abbrev pub results : S → Block → VerifyResult × Task
  results s b = (let stat = verify s b in (stat.result, success_task))

  settled_version : (w : PoolBlock) → settled rw version w ≡ record w { fork_version = version }
  unfolding settled
  settled_version w = ground arith

  abbrev reset_pool : ChainPool S → ℤ → PoolBlock → ChainPool S
  reset_pool p i w =
      let c = p.current in
      record p { current = record c { height_blocks = store ◌==ℤ◌ c.height_blocks i w } }

  -- A round with the wrapper `w1` in the place of the settled one.
  abbrev round_with : ℕ → ℤ → ChainPool S → PoolBlock → PoolBlock → ChainPool S
  round_with n i p w w1 =
      let c = p.current in
      let p1 = reset_pool p i w1 in
      let (p2, done) = write_to_chain rw p1 w1 in
      let stat = verify p.disk w.block in
      elim stat.result [
        | pending ↦ p1
        | fail ↦ p1
        | success ↦
            if height w ==ℤ c.tail_height +ℤ pos 1
            then (elim done [
              | ok _ ↦ (snapshot_rounds rw verify version n (i +ℤ pos 1) p2).0
              | err _ ↦ p2
              | panic ↦ p2
            ])
            else p1
      ]

  settled_round :
      (n : ℕ) (i : ℤ) (p : ChainPool S) (w : PoolBlock)
      → (let c = p.current in c.height_blocks i ≡ some w)
      → (snapshot_rounds rw verify version (suc n) i p).0
        ≡ round_with n i p w (settled rw version w)
  unfolding snapshot_rounds
  settled_round n i p w e = ground (arith, e)

  insert_round :
      (n : ℕ) (i : ℤ) (p : ChainPool S) (w : PoolBlock)
      → (let c = p.current in c.height_blocks i ≡ some w)
      → (let p2 =
            (write_to_chain rw
              (reset_pool p i (record w { fork_version = version }))
              (record w { fork_version = version })).0 in
          (snapshot_rounds rw verify version n (i +ℤ pos 1) p2).0
          ≡ (insert_loop rw results version (pos 0) n (i +ℤ pos 1) p2).0)
      → round_with n i p w (record w { fork_version = version })
        ≡ (insert_loop rw results version (pos 0) (suc n) i p).0
  unfolding insert_loop
  insert_round n i p w e rest = ground (arith, e, rest)

  rounds-insert_loop :
      (n : ℕ) (i : ℤ) (p : ChainPool S)
      → (snapshot_rounds rw verify version n i p).0
        ≡ (insert_loop rw results version (pos 0) n i p).0
  unfolding snapshot_rounds insert_loop
  rounds-insert_loop zero i p = refl
  rounds-insert_loop (suc n) i p = elim (Option-cases (let c = p.current in c.height_blocks i)) [
    | inl e ↦ ground (arith, e)
    | inr (w, e) ↦
        let reset = record w { fork_version = version } in
        let settle : (snapshot_rounds rw verify version (suc n) i p).0 ≡ round_with n i p w reset =
          settled_round n i p w e ∙ ap (round_with n i p w) (settled_version w) in
        let (p2, done) = write_to_chain rw (reset_pool p i reset) reset in
        settle ∙ insert_round n i p w e (rounds-insert_loop n (i +ℤ pos 1) p2)
  ]

  -- Whatever the chain on disk and the verifier do: of `n` linked snapshot blocks that wait,
  -- snapshotTryInsert puts the first `k` on the chain on disk, in order, each after a verification
  -- with success on the chain as it is then; nothing else but an insertion that fails changes the
  -- chain on disk, and the other blocks wait as before, linked, up to the same head.
  pub snapshot_blocks-IsWritten :
      (n : ℕ) (p : ChainPool S)
      → IsChain n p.current
      → IsWritten rw results version n p (snapshot_blocks rw verify version p).0
  unfolding snapshot_blocks try_insert_blocks
  snapshot_blocks-IsWritten n p l =
      let c = p.current in
      subst (IsWritten rw results version n p)
        (sym (
          rounds-insert_loop (pos_part (c.head_height -ℤ c.tail_height)) (c.tail_height +ℤ pos 1)
            p))
        (try_insert_blocks-IsWritten rw results version (pos 0) n p l)

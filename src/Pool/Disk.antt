-- ===== src/Pool/Disk.antt =====
-- pool/chain.go and pool/bc_pool.go: the interface between a pool and its chain on disk, and the
-- operations that move blocks between the two. The pool's map of chains is the current chain and
-- the others; a chain's id is its index.
pub mod Reader
pub mod Insertion
pub mod Notify
pub mod Rollback
mod Tests
use naive_vite.Base.{
  ℕ, zero, suc, Bool, true, false, Option, none, some, ◌==◌, ◌&&◌, not, if◌then◌else◌, Table,
  insert, store, Result, ok, err, panic, Error, rollback_fail, pending_something, verify_fail,
}
use naive_vite.Base.Int.{ℤ, pos, negsuc, pos_part, ◌+ℤ◌, ◌-ℤ◌, ltb_ℤ, ◌==ℤ◌}
use naive_vite.Verifier.Task.{VerifyResult, pending, fail, success, Task, success_task, fail_task}
use naive_vite.Pool.Chain.{
  Block, block_height, block_hash, block_pre_hash, PoolBlock, height, ForkedChain, SnippetChain,
  init_forked, remove_tail, add_tail,
}

-- `chainRw`, over the states `S` of the chain on disk. A call that fails may have changed the state.
pub record ChainRw (S : Type 0) : Type 0 where
  pub insert_chain : S → Block → ℤ → S × Result (Unit {0})
  pub remove_chain : S → Block → S × Result (Unit {0})
  pub head : S → Option Block
  pub get_block : S → ℤ → Result (Option Block)

-- A chain pool with its chain on disk. The current chain stands apart from the others.
pub record ChainPool (S : Type 0) : Type 0 where
  pub disk : S
  pub current : ForkedChain
  pub others : Table ForkedChain
  pub snippet_chains : Table SnippetChain
  pub lastest_chain_idx : ℕ

module _ {S : Type 0} (rw : ChainRw S) where
  -- `getBlock` and `Head` of the `diskChain`, at the fork version `version`.
  unfoldable pub disk_block : ℤ → S → ℤ → Result (Option PoolBlock)
  disk_block version s at = if ltb_ℤ at (pos 0) then ok none else (elim (rw.get_block s at) [
    | ok none ↦ ok none
    | ok (some b) ↦ ok (some (record { block = b; fork_version = version }))
    | err e ↦ err e
    | panic ↦ panic
  ])

  unfoldable pub disk_head : S → Result (Option Block)
  disk_head s = elim (rw.head s) [ none ↦ rw.get_block s (negsuc 0) | some b ↦ ok (some b) ]

  unfoldable pub write_to_chain : ChainPool S → PoolBlock → ChainPool S × Result (Unit {0})
  write_to_chain p w =
      let (disk, done) = rw.insert_chain p.disk w.block w.fork_version in
      elim done [
        | ok _ ↦ (record p { disk = disk; current = remove_tail p.current w }, ok tt)
        | err e ↦ (record p { disk = disk }, err e)
        | panic ↦ (record p { disk = disk }, panic)
      ]

  -- A new current chain at `b`; the old one stays among the others.
  unfoldable pub current_modify : ChainPool S → Block → ChainPool S
  current_modify p b =
      let old = p.current in
      record p {
        current = init_forked (suc p.lastest_chain_idx) b;
        others = insert old.chain_id old p.others;
        lastest_chain_idx = suc p.lastest_chain_idx;
      }

  unfoldable pub insert_notify : ChainPool S → Block → ChainPool S
  unfolding current_modify
  insert_notify p head =
      let c = p.current in
      if c.head_height ==ℤ c.tail_height
        && (c.tail_hash == block_pre_hash head && c.head_hash == block_pre_hash head)
      then record p {
        current = record c {
          head_hash = block_hash head;
          tail_hash = block_hash head;
          tail_height = block_height head;
          head_height = block_height head;
        };
      }
      else current_modify p head

  -- `AddDirectBlock`: `verify` is the verifier on the chain on disk.
  unfoldable pub add_direct_block :
      (S → Block → VerifyResult) → ℤ → ChainPool S → Block → ChainPool S × Result (Unit {0})
  unfolding disk_head
  add_direct_block verify version p block = elim (verify p.disk block) [
    | pending ↦ (p, err pending_something)
    | fail ↦ (p, err verify_fail)
    | success ↦
        let (disk, done) = rw.insert_chain p.disk block version in
        let p' = record p { disk = disk } in
        elim done [
          | ok _ ↦ elim (disk_head disk) [
            | ok none ↦ (p', panic)
            | ok (some head) ↦ (insert_notify p' head, ok tt)
            | err e ↦ (p', err e)
            | panic ↦ (p', panic)
          ]
          | err e ↦ (p', err e)
          | panic ↦ (p', panic)
        ]
  ]

  -- The loop of `rollback`, from the height `i` down, for the `n` heights that are left.
  unfoldable pub rollback_rounds : ℕ → ℤ → ℤ → ChainPool S → ChainPool S × Result (Unit {0})
  unfolding disk_block
  rollback_rounds zero version i p = (p, ok tt)
  rollback_rounds (suc n) version i p = elim (disk_block version p.disk i) [
    | ok none ↦ (p, panic)
    | err e ↦ (p, err e)
    | panic ↦ (p, panic)
    | ok (some w) ↦
        let (disk, done) = rw.remove_chain p.disk w.block in
        elim done [
          | ok _ ↦
              rollback_rounds n version (i -ℤ pos 1)
                (record p { disk = disk; current = add_tail p.current w })
          | err e ↦ (record p { disk = disk }, err e)
          | panic ↦ (record p { disk = disk }, panic)
        ]
  ]

  -- The check at the end of `rollback`.
  unfoldable pub check_rollback : ChainPool S → Result (Unit {0})
  unfolding disk_head
  check_rollback p = elim (disk_head p.disk) [
    | ok none ↦ panic
    | err e ↦ err e
    | panic ↦ panic
    | ok (some head) ↦
        let c = p.current in
        if c.tail_height ==ℤ block_height head && c.tail_hash == block_hash head
        then ok tt
        else err rollback_fail
  ]

  unfoldable pub rollback : ℤ → ℤ → ChainPool S → ChainPool S × Result (Unit {0})
  unfolding rollback_rounds check_rollback
  rollback new_height version p =
      let c = p.current in
      let (p', done) =
        rollback_rounds (pos_part (c.tail_height -ℤ new_height)) version c.tail_height p in
      elim done [ ok _ ↦ (p', check_rollback p') | err e ↦ (p', err e) | panic ↦ (p', panic) ]

  -- The loop of the account pool's `tryInsert` at the height `i`, for the `n` heights that are left,
  -- while the fork version stays as it is. `verify` gives the result and the task of a pending
  -- block. A panic is `none`.
  unfoldable pub insert_loop :
      (S → Block → VerifyResult × Task) → ℤ → ℤ → ℕ → ℤ → ChainPool S → ChainPool S × Option Task
  unfolding write_to_chain
  insert_loop verify version now zero i p = (p, some success_task)
  insert_loop verify version now (suc n) i p =
      let c = p.current in
      elim (c.height_blocks i) [
        | none ↦ (p, none)
        | some w ↦
            let reset = record w { fork_version = version } in
            let p1 = record p {
              current = record c { height_blocks = store ◌==ℤ◌ c.height_blocks i reset };
            } in
            let (verdict, task) = verify p.disk w.block in
            elim verdict [
              | pending ↦ (p1, some task)
              | fail ↦ (p1, some (fail_task now))
              | success ↦
                  let (p2, done) = write_to_chain p1 reset in
                  let rest = insert_loop verify version now n (i +ℤ pos 1) p2 in
                  if height w ==ℤ c.tail_height +ℤ pos 1
                  then (elim done [
                    | ok _ ↦ rest
                    | err e ↦ (p2, some (fail_task now))
                    | panic ↦ (p2, none)
                  ])
                  else (p1, some success_task)
            ]
      ]

  unfoldable pub try_insert_blocks :
      (S → Block → VerifyResult × Task) → ℤ → ℤ → ChainPool S → ChainPool S × Option Task
  unfolding insert_loop
  try_insert_blocks verify version now p =
      let c = p.current in
      insert_loop verify version now (pos_part (c.head_height -ℤ c.tail_height))
        (c.tail_height +ℤ pos 1) p

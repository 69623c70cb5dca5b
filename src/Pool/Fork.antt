-- ===== src/Pool/Fork.antt =====
-- pool/snapshot_pool.go: the pool of the snapshot chain. It inserts the blocks that wait, and changes
-- to a longer chain, which takes back what the accounts have done since the fork.
pub mod Insertion
pub mod Switch
pub mod Outcome
mod Tests
use naive_vite.Base.{
  ℕ, zero, suc, Bool, true, false, Option, none, some, List, [], ◌∷◌, ◌==◌, if◌then◌else◌, Table,
  lookup, store, Result, ok, err, panic,
}
use naive_vite.Base.Int.{ℤ, pos, pos_part, ◌+ℤ◌, ◌-ℤ◌, ◌==ℤ◌}
use naive_vite.Types.{AccountHashH, SnapshotBlock}
use naive_vite.Version.{Version, val, inc}
use naive_vite.Chain.Block.{BlockChain}
use naive_vite.Verifier.Task.{VerifyResult, pending, fail, success}
use naive_vite.Verifier.Snapshot.{SnapshotBlockVerifyStat}
use naive_vite.Pool.Chain.{account_block, Block, snapshot_block, PoolBlock, height, ForkedChain}
use naive_vite.Pool.Disk.{ChainRw, ChainPool, disk_head, disk_block, write_to_chain, rollback}
use naive_vite.Pool.Disk.Reader.{snapshot_rw}
use naive_vite.Pool.Refer.{get_fork_point, longest_chain}
use naive_vite.Pool.Unlock.{get_unlock_account_snapshot, un_lock_accounts}
use naive_vite.Pool.Modify.{chains, block_of, current_modify_to_chain}
use naive_vite.Pool.Accounts.{AccountPools}
use naive_vite.Pool.Accounts.Fork.{fork_accounts, fork_account_to, pending_account_to}

-- The pool of the snapshot chain with that of all accounts; both have the one block chain.
pub record SnapshotPool : Type 0 where
  pub pending_sc : ChainPool BlockChain
  pub accounts : AccountPools
  pub version : Version

-- Why the loop of `snapshotTryInsert` stops: all is done or a write has failed, a block waits for
-- others, a block is refused.
pub data Stop : Type 0 where
  stops : Stop
  pends refuses : Block → SnapshotBlockVerifyStat → Stop

module _ {S : Type 0} (rw : ChainRw S) where
  -- The wrapper after `checkForkVersion` and, where that fails, `reset`.
  unfoldable pub settled : ℤ → PoolBlock → PoolBlock
  settled version w = if w.fork_version ==ℤ version then w else record w { fork_version = version }

  -- The loop of `snapshotTryInsert` at the height `i`, for the `n` heights that are left, while the
  -- fork version stays as it is. A panic is `none`.
  unfoldable pub snapshot_rounds :
      (S → Block → SnapshotBlockVerifyStat) → ℤ → ℕ → ℤ → ChainPool S → ChainPool S × Option Stop
  unfolding settled write_to_chain
  snapshot_rounds verify version zero i p = (p, some stops)
  snapshot_rounds verify version (suc n) i p =
      let c = p.current in
      elim (c.height_blocks i) [
        | none ↦ (p, none)
        | some w ↦
            let w1 = settled version w in
            let p1 = record p {
              current = record c { height_blocks = store ◌==ℤ◌ c.height_blocks i w1 };
            } in
            let stat = verify p.disk w.block in
            elim stat.result [
              | pending ↦ (p1, some (pends w.block stat))
              | fail ↦ (p1, some (refuses w.block stat))
              | success ↦
                  let (p2, done) = write_to_chain rw p1 w1 in
                  let rest = snapshot_rounds verify version n (i +ℤ pos 1) p2 in
                  if height w ==ℤ c.tail_height +ℤ pos 1
                  then (elim done [ ok _ ↦ rest | err e ↦ (p2, some stops) | panic ↦ (p2, none) ])
                  else (p1, some stops)
            ]
      ]

  unfoldable pub snapshot_blocks :
      (S → Block → SnapshotBlockVerifyStat) → ℤ → ChainPool S → ChainPool S × Option Stop
  unfolding snapshot_rounds
  snapshot_blocks verify version p =
      let c = p.current in
      snapshot_rounds verify version (pos_part (c.head_height -ℤ c.tail_height))
        (c.tail_height +ℤ pos 1) p

abbrev as_snapshot_block : Block → Option SnapshotBlock
as_snapshot_block (snapshot_block b) = some b
as_snapshot_block (account_block _) = none

-- The blocks of the snapshot chain on disk.
unfoldable pub snapshot_at : ℤ → BlockChain → ℤ → Option SnapshotBlock
unfolding disk_block
snapshot_at version bc i = elim (disk_block snapshot_rw version bc i) [
  | ok (some w) ↦ as_snapshot_block w.block
  | _ ↦ none
]

-- `results[account.Addr]`, which is 0 for a missing account.
unfoldable pub result_of : SnapshotBlockVerifyStat → AccountHashH → VerifyResult
result_of stat a = elim (lookup a.addr stat.results) [ none ↦ pending | some v ↦ v ]

-- What a call leaves, and the error that it logs or the panic. `none` if the rounds do not do.
abbrev pub Ending : Type 0
Ending = Option (SnapshotPool × Result (Unit {0}))

module _ (genesis : SnapshotBlock) where
  -- The pool of the snapshot chain over the block chain as it is.
  unfoldable pub snapshot_chains : SnapshotPool → ChainPool BlockChain
  snapshot_chains st =
      let p = st.pending_sc in let accounts = st.accounts in record p { disk = accounts.bc }

  unfoldable pub put_snapshot_chains : SnapshotPool → ChainPool BlockChain → SnapshotPool
  put_snapshot_chains st p =
      let accounts = st.accounts in
      record st { pending_sc = p; accounts = record accounts { bc = p.disk } }

  -- The last steps of `snapshotFork`, once the accounts have been rolled back.
  unfoldable pub snapshot_switch : SnapshotPool → SnapshotBlock → ForkedChain → Ending
  unfolding snapshot_chains put_snapshot_chains
  snapshot_switch st fork_point longest =
      let version = val st.version in
      let (p, done) = rollback snapshot_rw fork_point.height version (snapshot_chains st) in
      let st' = put_snapshot_chains st p in
      elim done [
        | ok _ ↦ elim (current_modify_to_chain snapshot_rw version p longest) [
          | none ↦ none
          | some (ok p') ↦
              some (record (put_snapshot_chains st' p') { version = inc st.version }, ok tt)
          | some (err e) ↦ some (st', err e)
          | some panic ↦ some (st', panic)
        ]
        | err e ↦ some (st', err e)
        | panic ↦ some (st', panic)
      ]

  -- `snapshotFork` from the key point and the fork point.
  unfoldable pub fork_at :
      ℕ → SnapshotPool → SnapshotBlock → SnapshotBlock → SnapshotBlock → ForkedChain → Ending
  unfolding snapshot_at snapshot_switch
  fork_at fuel st head key_point fork_point longest =
      let version = val st.version in
      let accounts = st.accounts in
      let (starts, ends) =
        get_unlock_account_snapshot head (snapshot_at version accounts.bc) fork_point in
      let (bc, done) = un_lock_accounts starts ends accounts.bc in
      let unlocked = record accounts { bc = bc } in
      elim done [
        | ok _ ↦ elim (fork_accounts genesis version fuel unlocked key_point fork_point) [
          | none ↦ none
          | some (accounts', ok _) ↦
              snapshot_switch (record st { accounts = accounts' }) fork_point longest
          | some (accounts', err e) ↦ some (record st { accounts = accounts' }, err e)
          | some (accounts', panic) ↦ some (record st { accounts = accounts' }, panic)
        ]
        | err e ↦ some (record st { accounts = unlocked }, err e)
        | panic ↦ some (record st { accounts = unlocked }, panic)
      ]

  -- `snapshotFork`: blocks of another kind, or none, fail the type assertions.
  unfoldable pub snapshot_fork : ℕ → SnapshotPool → ForkedChain → ForkedChain → Ending
  unfolding snapshot_chains block_of fork_at
  snapshot_fork fuel st longest current =
      let version = val st.version in
      let p = snapshot_chains st in
      elim (get_fork_point (block_of snapshot_rw version p longest)
        (block_of snapshot_rw version p current) current.head_height) [
          | none ↦ none
          | some (ok (some (snapshot_block k), snapshot_block f)) ↦
              elim (disk_head snapshot_rw p.disk) [
                | ok (some (snapshot_block head)) ↦ fork_at fuel st head k f longest
                | _ ↦ some (st, panic)
              ]
          | some (ok _) ↦ some (st, panic)
          | some (err e) ↦ some (st, err e)
          | some panic ↦ some (st, panic)
        ]

  unfoldable pub check_fork : ℕ → SnapshotPool → Ending
  unfolding snapshot_fork
  check_fork fuel st =
      let p = st.pending_sc in
      let current = p.current in
      let longest = longest_chain current (chains p) in
      if longest.chain_id == current.chain_id
      then some (st, ok tt)
      else snapshot_fork fuel st longest current

  -- The loop of `insertVerifyFail`, which takes no notice of errors.
  unfoldable pub fork_failed :
      ℕ
      → ℤ
      → SnapshotBlockVerifyStat
      → List AccountHashH
      → AccountPools
      → Option (AccountPools × Result (Unit {0}))
  unfolding result_of
  fork_failed fuel version stat [] ps = some (ps, ok tt)
  fork_failed fuel version stat (a ∷ rest) ps = elim (result_of stat a) [
    | fail ↦ elim (fork_account_to genesis version fuel ps a) [
      | none ↦ none
      | some (ps', ok _) ↦ fork_failed fuel version stat rest ps'
      | some (ps', err _) ↦ fork_failed fuel version stat rest ps'
      | some (ps', panic) ↦ some (ps', panic)
    ]
    | _ ↦ fork_failed fuel version stat rest ps
  ]

  unfoldable pub insert_verify_fail :
      ℕ → SnapshotPool → SnapshotBlock → SnapshotBlockVerifyStat → Ending
  unfolding fork_failed
  insert_verify_fail fuel st block stat =
      elim (fork_failed fuel (val st.version) stat block.accounts st.accounts) [
        | none ↦ none
        | some (ps, ok _) ↦ some (record st { accounts = ps; version = inc st.version }, ok tt)
        | some (ps, err e) ↦ some (record st { accounts = ps }, err e)
        | some (ps, panic) ↦ some (record st { accounts = ps }, panic)
      ]

  -- The loop of `insertVerifyPending`
  unfoldable pub insert_verify_pending :
      ℤ → SnapshotBlockVerifyStat → List AccountHashH → AccountPools → AccountPools
  unfolding result_of
  insert_verify_pending version stat [] ps = ps
  insert_verify_pending version stat (a ∷ rest) ps = elim (result_of stat a) [
    | pending ↦ insert_verify_pending version stat rest (pending_account_to genesis version ps a)
    | _ ↦ insert_verify_pending version stat rest ps
  ]

  -- `snapshotTryInsert`; `verify` is the verifier of snapshot blocks.
  unfoldable pub snapshot_try_insert :
      (BlockChain → Block → SnapshotBlockVerifyStat) → ℕ → SnapshotPool → Ending
  unfolding snapshot_chains put_snapshot_chains snapshot_blocks insert_verify_fail
      insert_verify_pending
  snapshot_try_insert verify fuel st =
      let (p, stop) = snapshot_blocks snapshot_rw verify (val st.version) (snapshot_chains st) in
      let st' = put_snapshot_chains st p in
      elim stop [
        | none ↦ some (st', panic)
        | some stops ↦ some (st', ok tt)
        | some (pends (snapshot_block b) stat) ↦ some (
          record st' {
            accounts = insert_verify_pending (val st.version) stat b.accounts st'.accounts;
          },
          ok tt,
        )
        | some (refuses (snapshot_block b) stat) ↦ insert_verify_fail fuel st' b stat
        | some _ ↦ some (st', panic)
      ]

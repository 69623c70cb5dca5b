-- ===== src/Pool/Fork/Outcome.antt =====
-- What `checkFork` leaves.
use naive_vite.Pool.Fork.Switch.{FromForkPoint}
use naive_vite.Base.{ℕ, ◌≡◌, Option, some, Result, ok}
use naive_vite.Types.{SnapshotBlock}
use naive_vite.Version.{val}
use naive_vite.Chain.Block.{BlockChain}
use naive_vite.Pool.Chain.{Block, snapshot_block, ForkedChain}
use naive_vite.Pool.Disk.{disk_head}
use naive_vite.Pool.Disk.Reader.{snapshot_rw}
use naive_vite.Pool.Refer.{get_fork_point}
use naive_vite.Pool.Unlock.{get_unlock_account_snapshot, un_lock_accounts}
use naive_vite.Pool.Modify.{block_of}
use naive_vite.Pool.Accounts.{AccountPools}
use naive_vite.Pool.Accounts.Fork.{fork_accounts}
use naive_vite.Pool.Fork.{SnapshotPool, snapshot_chains, snapshot_at}

module _ (genesis : SnapshotBlock) where
  module _ (fuel : ℕ) (st st' : SnapshotPool) (longest : ForkedChain) (r : Result (Unit {0})) where
    abbrev unlocked : SnapshotBlock → SnapshotBlock → BlockChain × Result (Unit {0})
    unlocked head fork_point =
        let accounts = st.accounts in
        let (starts, ends) =
          get_unlock_account_snapshot head (snapshot_at (val st.version) accounts.bc) fork_point in
        un_lock_accounts starts ends accounts.bc

    abbrev after_unlock : SnapshotBlock → SnapshotBlock → AccountPools
    after_unlock head fork_point =
        let accounts = st.accounts in record accounts { bc = (unlocked head fork_point).0 }

    abbrev forked_accounts :
        SnapshotBlock → SnapshotBlock → SnapshotBlock → Option (AccountPools × Result (Unit {0}))
    forked_accounts head key_point fork_point =
        fork_accounts genesis (val st.version) fuel (after_unlock head fork_point) key_point
          fork_point

    -- The steps before the current chain is changed: the snapshot points are taken back, the accounts are
    -- rolled back to the key point and the fork point, and the snapshot chain to the fork point.
    abbrev AreTakenBack : SnapshotBlock → SnapshotBlock → SnapshotBlock → Type 0
    AreTakenBack head key_point fork_point =
        ((unlocked head fork_point).1 ≡ ok tt)
        × (accounts : AccountPools) × (forked_accounts head key_point fork_point
            ≡ some (accounts, ok tt))
        × FromForkPoint genesis (record st { accounts = accounts }) fork_point longest st'

    abbrev IsSame : SnapshotPool → Type 0
    IsSame s = s ≡ record st { accounts = st.accounts }

    abbrev points : ForkedChain → Option (Result (Option Block × Block))
    points current =
        let p = snapshot_chains genesis st in
        get_fork_point (block_of snapshot_rw (val st.version) p longest)
          (block_of snapshot_rw (val st.version) p current) current.head_height

    -- From the key point and the fork point of the two chains, and the head of the chain on disk.
    abbrev pub IsTakenBack : ForkedChain → Type 0
    IsTakenBack current =
        let p = snapshot_chains genesis st in
        (key_point : SnapshotBlock) × (fork_point : SnapshotBlock) × (head : SnapshotBlock)
        × (points current ≡ some (ok (some (snapshot_block key_point), snapshot_block fork_point)))
        × (disk_head snapshot_rw p.disk ≡ ok (some (snapshot_block head)))
        × AreTakenBack head key_point fork_point

-- ===== src/Pool/Unlock.antt =====
-- pool/snapshot_pool.go and pool/pool.go: the snapshot points that a fork of the snapshot chain takes
-- back, and the rollback of the accounts to them.
pub mod Ends
mod Tests
use naive_vite.Base.{
  ℕ, zero, suc, Option, none, some, List, [], ◌∷◌, Table, lookup, insert, Result, ok, err, panic,
}
use naive_vite.Base.Int.{ℤ, pos, pos_part, ◌-ℤ◌}
use naive_vite.Types.{Hash, Address, AccountHashH, SnapshotPoint, SnapshotBlock}
use naive_vite.Chain.Block
use naive_vite.Chain.Block.{BlockChain}

-- The two maps: each account's first point, and its last one.
abbrev pub Points : Type 0
Points = Table SnapshotPoint × Table SnapshotPoint

unfoldable pub point_of : SnapshotBlock → AccountHashH → SnapshotPoint
point_of block v = record {
  snapshot_height = block.height;
  snapshot_hash = block.hash;
  account_height = v.height;
  account_hash = v.hash;
}

-- A point that is kept if the account has none yet.
unfoldable pub keep_first : Address → SnapshotPoint → Table SnapshotPoint → Table SnapshotPoint
keep_first addr point start = elim (lookup addr start) [
  | none ↦ insert addr point start
  | some _ ↦ start
]

-- The loop of `accounts` over a block's accounts.
unfoldable pub put_points : SnapshotBlock → List AccountHashH → Points → Points
unfolding point_of keep_first
put_points block [] ps = ps
put_points block (v ∷ vs) (start, end) =
    let point = point_of block v in
    put_points block vs (keep_first v.addr point start, insert v.addr point end)

unfoldable pub accounts : SnapshotBlock → Points → Points
unfolding put_points
accounts block ps = put_points block block.accounts ps

-- The loop of `getUnlockAccountSnapshot` at the height `i`, for the `n` heights that are left; `get` reads
-- the chain on disk.
unfoldable pub unlock_rounds : (ℤ → Option SnapshotBlock) → ℕ → ℤ → Points → Points
unfolding accounts
unlock_rounds get zero i ps = ps
unlock_rounds get (suc n) i ps = elim (get i) [
  | none ↦ unlock_rounds get n (i -ℤ pos 1) ps
  | some b ↦ unlock_rounds get n (i -ℤ pos 1) (accounts b ps)
]

-- `getUnlockAccountSnapshot(block)`, from the head on disk down to just above the block.
unfoldable pub get_unlock_account_snapshot :
    SnapshotBlock → (ℤ → Option SnapshotBlock) → SnapshotBlock → Points
unfolding unlock_rounds
get_unlock_account_snapshot head get block =
    let i = head.height -ℤ pos 1 in
    unlock_rounds get (pos_part (i -ℤ block.height)) i (accounts head ([], []))

-- `UnLockAccounts`: an error leaves what has been done before.
unfoldable pub un_lock_accounts :
    Table SnapshotPoint → Table SnapshotPoint → BlockChain → BlockChain × Result (Unit {0})
un_lock_accounts [] ends b = (b, ok tt)
un_lock_accounts ((k, v) ∷ rest) ends b = elim (lookup k ends) [
  | none ↦ (b, panic)
  | some end ↦
      let (b', done) = Block.rollback_snapshot_point b k v end in
      elim done [ ok _ ↦ un_lock_accounts rest ends b' | err e ↦ (b', err e) | panic ↦ (b', panic) ]
]

-- ===== src/Chain/Snapshot/Removal.antt =====
-- `removeChain` undoes `insertChain` on the snapshot chain.
use naive_vite.Base.{◌≡◌, none, some, arith}
use naive_vite.Base.Int.{ℤ}
use naive_vite.Types.{Hash, SnapshotBlock}
use naive_vite.Store
use naive_vite.Store.{BlockStore}
use naive_vite.Chain.Snapshot.{SnapshotChain, insert_chain, remove_chain}

module _ (c : SnapshotChain) (s : BlockStore) (head block : SnapshotBlock) where
  -- A block that follows the stored head, at a hash and a height that the store does not have yet,
  -- is inserted and then removed: the chain has its old head again, and every read of the snapshot
  -- blocks, and of the recorded head, gives what it gave before.
  pub remove-insert_chain :
      (hash : Hash) (height : ℤ)
      → c.head ≡ some head
      → Store.get_snapshot_head s ≡ some (record { hash = head.hash; height = head.height })
      → Store.get_snapshot_by_hash s head.hash ≡ some head
      → block.pre_hash ≡ head.hash
      → Store.get_snapshot_by_hash s block.hash ≡ none
      → Store.get_snapshot_by_height s block.height ≡ none
      → let (c', s') = insert_chain c s block in
        let (c'', s'') = remove_chain c' s' block in
        (c'' ≡ c)
        × (Store.get_snapshot_head s'' ≡ Store.get_snapshot_head s)
        × (Store.get_snapshot_by_hash s'' hash ≡ Store.get_snapshot_by_hash s hash)
        × (Store.get_snapshot_by_height s'' height ≡ Store.get_snapshot_by_height s height)
  unfolding insert_chain remove_chain Store.get_snapshot_by_hash Store.get_snapshot_by_height
      Store.get_snapshot_head Store.put_snapshot Store.delete_snapshot Store.set_snapshot_head
  remove-insert_chain hash height at_head recorded stored link new_hash new_height =
      (ground arith, ground arith, ground arith, ground arith)

-- ===== src/Chain/Snapshot.antt =====
-- chain/snapshot_chain.go: the snapshot chain over the store.
pub mod Removal
mod Tests
use naive_vite.Base.{Option, none, some, ◌==◌, if◌then◌else◌, Result, ok, panic}
use naive_vite.Base.Int.{ℤ, pos, ltb_ℤ}
use naive_vite.Types.{Hash, HashHeight, SnapshotBlock}
use naive_vite.Store
use naive_vite.Store.{BlockStore}

pub record SnapshotChain : Type 0 where
  pub head : Option SnapshotBlock

-- The genesis block is built into the program: here it is an argument. With another genesis block
-- in the store the constructor panics.
unfoldable pub new_snapshot_chain : SnapshotBlock → BlockStore → Result (SnapshotChain × BlockStore)
new_snapshot_chain genesis s = elim (Store.get_snapshot_head s) [
  | some head ↦ elim (Store.get_snapshot_by_height s genesis.height) [
    | none ↦ panic
    | some store_genesis ↦
        if store_genesis.hash == genesis.hash
        then ok (record { head = Store.get_snapshot_by_height s head.height }, s)
        else panic
  ]
  | none ↦ ok (
    record { head = some genesis },
    Store.set_snapshot_head (Store.put_snapshot s genesis)
        (some (record { hash = genesis.hash; height = genesis.height })),
  )
]

-- A negative height panics.
unfoldable pub get_block_height : BlockStore → ℤ → Result (Option SnapshotBlock)
get_block_height s height =
    if ltb_ℤ height (pos 0) then panic else ok (Store.get_snapshot_by_height s height)

unfoldable pub checked : Hash → Option SnapshotBlock → Option SnapshotBlock
checked hash none = none
checked hash (some b) = if hash == b.hash then some b else none

unfoldable pub get_block_by_hash_h : BlockStore → HashHeight → Option SnapshotBlock
unfolding checked
get_block_by_hash_h s h =
    if ltb_ℤ h.height (pos 0)
    then none
    else checked h.hash (Store.get_snapshot_by_height s h.height)

unfoldable pub get_block_by_hash : BlockStore → Hash → Option SnapshotBlock
get_block_by_hash s hash = Store.get_snapshot_by_hash s hash

unfoldable pub insert_chain :
    SnapshotChain → BlockStore → SnapshotBlock → SnapshotChain × BlockStore
insert_chain c s block = (
  record c { head = some block },
  Store.set_snapshot_head (Store.put_snapshot s block)
      (some (record { hash = block.hash; height = block.height })),
)

unfoldable pub remove_chain :
    SnapshotChain → BlockStore → SnapshotBlock → SnapshotChain × BlockStore
remove_chain c s block =
    let head = Store.get_snapshot_by_hash s block.pre_hash in
    (
      record c { head = head },
      Store.set_snapshot_head
          (Store.delete_snapshot s (record { hash = block.hash; height = block.height }))
          (elim head [ none ↦ none | some b ↦ some (record { hash = b.hash; height = b.height }) ]),
    )

-- ===== src/Chain/Snapshot/Tests.antt =====
-- A snapshot chain of two blocks: the witness of the round trip, and tests.
use naive_vite.Base.{◌≡◌, refl, some, ok}
use naive_vite.Base.Int.{pos}
use naive_vite.Samples.{no_blocks, genesis_block, next_block}
use naive_vite.Store
use naive_vite.Store.{BlockStore}
use naive_vite.Chain.Snapshot.{SnapshotChain, new_snapshot_chain, insert_chain, remove_chain}
use naive_vite.Chain.Snapshot.Removal.{remove-insert_chain}

abbrev genesis_chain : SnapshotChain
genesis_chain = record { head = some genesis_block }

genesis_store : BlockStore
unfolding Store.put_snapshot Store.set_snapshot_head
genesis_store =
    Store.set_snapshot_head (Store.put_snapshot no_blocks genesis_block)
      (some (record { hash = 900; height = pos 0 }))

new_snapshot_chain_run :
    new_snapshot_chain genesis_block no_blocks ≡ ok (genesis_chain, genesis_store)
unfolding new_snapshot_chain genesis_store Store.get_snapshot_head
new_snapshot_chain_run = refl

remove-insert_chain_example :
    let (c', s') = insert_chain genesis_chain genesis_store next_block in
    let (c'', s'') = remove_chain c' s' next_block in
    (c'' ≡ genesis_chain)
    × (Store.get_snapshot_head s'' ≡ Store.get_snapshot_head genesis_store)
    × (Store.get_snapshot_by_hash s'' 901 ≡ Store.get_snapshot_by_hash genesis_store 901)
    × (Store.get_snapshot_by_height s'' (pos 1)
        ≡ Store.get_snapshot_by_height genesis_store (pos 1))
unfolding genesis_store Store.get_snapshot_head Store.get_snapshot_by_hash
    Store.get_snapshot_by_height
remove-insert_chain_example =
    remove-insert_chain genesis_chain genesis_store genesis_block next_block 901 (pos 1) refl refl
      refl refl refl refl

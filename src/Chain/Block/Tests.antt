-- ===== src/Chain/Block/Tests.antt =====
-- A block chain of one account and one snapshot block: the witnesses, and tests.
use naive_vite.Base.{◌≡◌, refl, none, [], ◌∷◌, ok, lookup, insert}
use naive_vite.Base.Int.{pos}
use naive_vite.Types.{SnapshotBlock, AccountHashH, new_account_hash_h}
use naive_vite.Samples.{no_blocks, first, genesis_block}
use naive_vite.Store
use naive_vite.Store.{BlockStore}
use naive_vite.Chain.Account
use naive_vite.Chain.Account.{AccountChain, Backend}
use naive_vite.Chain.Account.Points.{Ordered}
use naive_vite.Chain.Snapshot
use naive_vite.Chain.Block.{
  BlockChain, self_ac, put_ac, insert_account_block, insert_snapshot_block, snapshot_points,
  next_account_snapshot,
}
use naive_vite.Chain.Block.Points.{here, next, account_in, snapshot_in, Reach-IsOrdered}
use naive_vite.Chain.Block.Insertion.{AllPushed, insert_snapshot_block_ok}

abbrev entry : AccountHashH
entry = record { hash = 100; height = pos 0; addr = 7 }

abbrev snapshot : SnapshotBlock
snapshot = record genesis_block {
  height = pos 1;
  hash = 901;
  pre_hash = 900;
  accounts = entry ∷ [];
}

abbrev empty_chain : BlockChain
empty_chain = record {
  ac = [];
  sc = record { head = none };
  backend = record { store = no_blocks; events = [] };
}

program : Unit {0}
unfolding lookup insert self_ac put_ac insert_account_block insert_snapshot_block snapshot_points
    Account.new_account_chain Account.insert_chain Account.snapshot_point
    Account.get_block_by_height Snapshot.insert_chain Store.put_account Store.set_account_head
    Store.put_source_hash Store.get_account_by_height Store.get_account_head Store.put_snapshot
    Store.set_snapshot_head next_account_snapshot new_account_hash_h Account.next_snapshot_point
program = tt

with_account : BlockChain
unfolding program
with_account = insert_account_block empty_chain 7 first

with_snapshot : BlockChain
unfolding with_account
with_snapshot = (insert_snapshot_block with_account snapshot).0

insert_snapshot_block_run : insert_snapshot_block with_account snapshot ≡ (with_snapshot, ok tt)
unfolding program with_snapshot
insert_snapshot_block_run = refl

Reach-IsOrdered_example :
    Ordered
      (self_ac
        (insert_snapshot_block (insert_account_block empty_chain 7 first) snapshot).0
        7).snapshot_point
Reach-IsOrdered_example =
    Reach-IsOrdered {b = empty_chain} 7 refl
      (next (next here (account_in 7 first)) (snapshot_in snapshot))

insert_snapshot_block_ok_example : AllPushed with_account with_snapshot (pos 1) 901 (entry ∷ [])
insert_snapshot_block_ok_example =
    insert_snapshot_block_ok with_account with_snapshot snapshot (tt, tt) insert_snapshot_block_run

-- ===== src/Pool/Fork/Tests.antt =====
-- A current chain of one block, and a chain of six that leaves it at the genesis block.
use naive_vite.Base.{
  refl, none, some, [], ◌∷◌, Result, ok, store, if◌then◌else◌, lookup, insert, remove,
}
use naive_vite.Base.Int.{ℤ, pos, ◌+ℤ◌, ◌-ℤ◌, ◌==ℤ◌, leb_ℤ}
use naive_vite.Samples.{no_blocks, genesis_block, next_block}
use naive_vite.Store
use naive_vite.Chain.Block
use naive_vite.Chain.Block.{BlockChain}
use naive_vite.Chain.Snapshot
use naive_vite.Pool.Chain.{Block, snapshot_block, PoolBlock, ForkedChain, disk}
use naive_vite.Pool.Fork.{
  snapshot_blocks, SnapshotPool, check_fork, snapshot_fork, snapshot_chains, put_snapshot_chains,
  snapshot_switch, fork_at, snapshot_at,
}
use naive_vite.Pool.Refer.{
  get_fork_point, fork_point_rounds, get_block, get_along, disk_get, longest_chain, longest_of,
  chain_at,
}
use naive_vite.Pool.Modify.{
  chains, block_of, current_modify_to_chain, has_disk_head, has_hash, refer_rounds, put_current,
}
use naive_vite.Pool.Disk.{disk_head, disk_block, rollback, rollback_rounds, check_rollback}
use naive_vite.Pool.Disk.Reader.{snapshot_rw}
use naive_vite.Pool.Unlock.{
  un_lock_accounts, get_unlock_account_snapshot, unlock_rounds, accounts, put_points,
}
use naive_vite.Pool.Accounts.{fork_tasks, touch_all, roll_back_all}
use naive_vite.Pool.Accounts.Fork.{fork_accounts, fork_waiting, fork_all}
use naive_vite.Pool.Cascade.{get_wait_rollback_accounts, wait_rounds, take_tasks, next_tasks}
use naive_vite.Version.{val, inc, next}
use naive_vite.Verifier.Task.{success}
use naive_vite.Verifier.Snapshot.{SnapshotBlockVerifyStat}
use naive_vite.Pool.Chain.Insertion.{IsChain}
use naive_vite.Pool.Disk.Insertion.{IsWritten}
use naive_vite.Pool.Fork.Insertion.{results, snapshot_blocks-IsWritten}

abbrev bc : BlockChain
bc = record {
  ac = [];
  sc = record { head = some genesis_block };
  backend = record {
    store = record no_blocks {
      snapshot_by_height = λ h. if h ==ℤ pos 0 then some genesis_block else none;
    };
    events = [];
  };
}

abbrev waiting : ℤ → PoolBlock
waiting h = record {
  block = snapshot_block (record next_block { height = h; hash = 950 });
  fork_version = pos 0;
}

abbrev short : ForkedChain
short = record {
  height_blocks =
      store ◌==ℤ◌ (λ _. none) (pos 1)
        (record { block = snapshot_block next_block; fork_version = pos 0 });
  head_height = pos 1;
  tail_height = pos 0;
  chain_id = 1;
  head_hash = 901;
  tail_hash = 900;
  refer_chain = disk;
}

abbrev long : ForkedChain
long = record short {
  height_blocks =
      λ h. if leb_ℤ (pos 1) h then (if leb_ℤ h (pos 6) then some (waiting h) else none) else none;
  head_height = pos 6;
  chain_id = 2;
  head_hash = 950;
}

abbrev before : SnapshotPool
before = record {
  pending_sc = record {
    disk = bc;
    current = short;
    others = (2, long) ∷ [];
    snippet_chains = [];
    lastest_chain_idx = 2;
  };
  accounts = record { bc = bc; pending_ac = []; fetched = [] };
  version = record { version = 0 };
}

abbrev after : SnapshotPool
after = record before {
  pending_sc = record {
    disk = bc;
    current = long;
    others = (1, short) ∷ [];
    snippet_chains = [];
    lastest_chain_idx = 2;
  };
  version = record { version = 1 };
}

program : Unit {0}
unfolding check_fork snapshot_fork snapshot_chains put_snapshot_chains snapshot_switch fork_at
    snapshot_at get_fork_point fork_point_rounds get_block get_along disk_get longest_chain
    longest_of chain_at chains block_of current_modify_to_chain has_disk_head has_hash refer_rounds
    put_current disk_head disk_block rollback rollback_rounds check_rollback snapshot_rw
    un_lock_accounts get_unlock_account_snapshot unlock_rounds accounts put_points fork_accounts
    fork_tasks fork_waiting touch_all roll_back_all fork_all get_wait_rollback_accounts wait_rounds
    take_tasks next_tasks val inc next Block.head_snapshot Block.get_snapshot_by_height
    Snapshot.get_block_height Store.get_snapshot_by_height lookup insert remove ◌+ℤ◌ ◌-ℤ◌
program = tt

abbrev done : Result (Unit {0})
done = ok tt

abbrev accept : BlockChain → Block → SnapshotBlockVerifyStat
accept _ _ = record { result = success; results = []; task = none }

short-IsChain : IsChain 1 short
unfolding ◌+ℤ◌
short-IsChain = (
  record { block = snapshot_block next_block; fork_version = pos 0 },
  refl,
  refl,
  refl,
  (refl, refl),
)

snapshot_blocks-IsWritten_example :
    IsWritten snapshot_rw
      (results snapshot_rw accept (pos 0))
      (pos 0)
      1
      before.pending_sc
      (snapshot_blocks snapshot_rw accept (pos 0) before.pending_sc).0
snapshot_blocks-IsWritten_example =
    snapshot_blocks-IsWritten snapshot_rw accept (pos 0) 1 before.pending_sc short-IsChain

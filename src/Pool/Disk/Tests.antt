-- ===== src/Pool/Disk/Tests.antt =====
-- The pool of account 7 over the chain of that account: two blocks wait, one comes directly.
use naive_vite.Base.{◌≢◌, ◌≡◌, refl, none, some, [], ok, store, lookup, insert}
use naive_vite.Base.Int.{negsuc, pos, ◌+ℤ◌, ◌==ℤ◌}
use naive_vite.Types.{AccountStateBlock}
use naive_vite.Samples.{no_blocks, first, second}
use naive_vite.Store
use naive_vite.Chain.Account
use naive_vite.Chain.Block
use naive_vite.Chain.Block.{BlockChain, self_ac, put_ac, insert_account_block}
use naive_vite.Verifier.Task.{VerifyResult, success, Task, success_task}
use naive_vite.Pool.Chain.{Block, account_block, PoolBlock, ForkedChain, init_forked, disk}
use naive_vite.Pool.Chain.Insertion.{IsChain}
use naive_vite.Pool.Disk.{
  ChainPool, add_direct_block, rollback, insert_notify, current_modify, disk_head,
  try_insert_blocks,
}
use naive_vite.Pool.Disk.Reader.{account_rw, account_insert}
use naive_vite.Pool.Disk.Insertion.{IsWritten, try_insert_blocks-IsWritten}
use naive_vite.Pool.Disk.Rollback.{rollback_account_fails}
use naive_vite.Pool.Disk.Notify.{IsAt, IsKept, add_direct_block_ok}

abbrev empty_chain : BlockChain
empty_chain = record {
  ac = [];
  sc = record { head = none };
  backend = record { store = no_blocks; events = [] };
}

abbrev third : AccountStateBlock
third = record second { height = pos 2; hash = 102; pre_hash = 101 }

abbrev waiting : AccountStateBlock → PoolBlock
waiting b = record { block = account_block b; fork_version = pos 0 }

abbrev two_waiting : ForkedChain
two_waiting = record {
  height_blocks =
      store ◌==ℤ◌ (store ◌==ℤ◌ (λ _. none) (pos 2) (waiting third)) (pos 1) (waiting second);
  head_height = pos 2;
  tail_height = pos 0;
  chain_id = 1;
  head_hash = 102;
  tail_hash = 100;
  refer_chain = disk;
}

abbrev pool : ChainPool BlockChain
pool = record {
  disk = empty_chain;
  current = two_waiting;
  others = [];
  snippet_chains = [];
  lastest_chain_idx = 1;
}

abbrev accept : BlockChain → Block → VerifyResult × Task
accept bc b = (success, success_task)

two_waiting-IsChain : IsChain 2 two_waiting
unfolding ◌+ℤ◌
two_waiting-IsChain =
    (waiting second, refl, refl, refl, (waiting third, refl, refl, refl, (refl, refl)))

try_insert_blocks-IsWritten_example :
    IsWritten
      (account_rw 7 (pos 0))
      accept
      (pos 0)
      2
      pool
      (try_insert_blocks (account_rw 7 (pos 0)) accept (pos 0) (pos 9) pool).0
try_insert_blocks-IsWritten_example =
    try_insert_blocks-IsWritten (account_rw 7 (pos 0)) accept (pos 0) (pos 9) 2 pool
      two_waiting-IsChain

program : Unit {0}
unfolding lookup insert self_ac put_ac insert_account_block Account.new_account_chain
    Account.insert_chain Store.put_account Store.set_account_head Store.put_source_hash
    Store.get_account_by_height Store.get_account_head Block.head_account account_rw account_insert
    add_direct_block insert_notify current_modify disk_head init_forked ◌+ℤ◌
    Block.get_account_by_height Block.get_account_by_hash Account.get_block_by_height
    Store.get_account_by_hash
program = tt

after_first : ChainPool BlockChain
unfolding program
after_first =
    (add_direct_block (account_rw 7 (pos 0)) (λ bc b. success) (pos 0) pool (account_block first)).0

first_added :
    add_direct_block (account_rw 7 (pos 0)) (λ bc b. success) (pos 0) pool (account_block first)
    ≡ (after_first, ok tt)
unfolding program after_first
first_added = refl

add_direct_block_ok_example :
    (success ≡ success)
    × ((account_rw 7 (pos 0)).insert_chain empty_chain (account_block first) (pos 0)
        ≡ (after_first.disk, ok tt))
    × (head : Block) × (disk_head (account_rw 7 (pos 0)) after_first.disk ≡ ok (some head))
    × IsAt after_first.current head
    × IsKept pool after_first
add_direct_block_ok_example =
    add_direct_block_ok (account_rw 7 (pos 0)) (λ bc b. success) (pos 0) pool after_first
      (account_block first) first_added

-- The pool once the first block is on disk, and the rollback that is to take it off again.
rollback_account_fails_example :
    (rollback (account_rw 7 (pos 0)) (negsuc 0) (pos 0) after_first).1 ≢ ok tt
unfolding program after_first
rollback_account_fails_example =
    rollback_account_fails 7 (pos 0) after_first (negsuc 0) first refl refl refl

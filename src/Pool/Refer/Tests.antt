-- ===== src/Pool/Refer/Tests.antt =====
-- A chain of three blocks, and one that leaves it at the second of them.
use naive_vite.Base.{
  arith, lookup, ◌≡◌, Option, none, some, [], ◌∷◌, ok, store, if◌then◌else◌, refl,
}
use naive_vite.Base.Int.{ℤ, pos, ◌+ℤ◌, ◌<ℤ◌, ◌==ℤ◌, int_laws}
use naive_vite.Types.{AccountStateBlock}
use naive_vite.Samples.{no_blocks, first, second}
use naive_vite.Chain.Block
use naive_vite.Chain.Block.{BlockChain, self_ac}
use naive_vite.Chain.Account
use naive_vite.Store
use naive_vite.Pool.Chain.{Block, account_block, PoolBlock, ForkedChain, forked, disk}
use naive_vite.Pool.Chain.Insertion.{IsChain}
use naive_vite.Pool.Disk.{ChainPool, disk_block}
use naive_vite.Pool.Disk.Reader.{account_rw}
use naive_vite.Pool.Refer.{modify_refer, get_block, put_chain, chain_at, disk_get, get_fork_point}
use naive_vite.Pool.Refer.Gap.{modify_refer_gap}
use naive_vite.Pool.Refer.ForkPoint.{Found, get_fork_point-Found}

abbrev third : AccountStateBlock
third = record second { height = pos 2; hash = 102; pre_hash = 101 }

abbrev other_third : AccountStateBlock
other_third = record third { hash = 202 }

abbrev waiting : AccountStateBlock → PoolBlock
waiting b = record { block = account_block b; fork_version = pos 0 }

-- The first block is on disk, and the second and the third wait.
abbrev trunk : ForkedChain
trunk = record {
  height_blocks =
      store ◌==ℤ◌ (store ◌==ℤ◌ (λ _. none) (pos 2) (waiting third)) (pos 1) (waiting second);
  head_height = pos 2;
  tail_height = pos 0;
  chain_id = 1;
  head_hash = 102;
  tail_hash = 100;
  refer_chain = disk;
}

-- A branch above the third block.
abbrev branch : ForkedChain
branch = record {
  height_blocks =
      store ◌==ℤ◌ (λ _. none) (pos 3)
        (waiting (record third { height = pos 3; hash = 103; pre_hash = 102 }));
  head_height = pos 3;
  tail_height = pos 2;
  chain_id = 2;
  head_hash = 103;
  tail_hash = 102;
  refer_chain = forked 1;
}

abbrev empty_chain : BlockChain
empty_chain = record {
  ac = [];
  sc = record { head = none };
  backend = record { store = no_blocks; events = [] };
}

abbrev pool : ChainPool BlockChain
pool = record {
  disk = empty_chain;
  current = trunk;
  others = (2, branch) ∷ [];
  snippet_chains = [];
  lastest_chain_idx = 2;
}

trunk-IsChain : IsChain 2 trunk
unfolding ◌+ℤ◌
trunk-IsChain = (waiting second, refl, refl, refl, (waiting third, refl, refl, refl, (refl, refl)))

nothing_on_disk : disk_get (account_rw 7 (pos 0)) (pos 0) empty_chain (pos 0 +ℤ pos 1) ≡ none
unfolding disk_get disk_block account_rw Block.get_account_by_height self_ac lookup
    Account.new_account_chain Account.get_block_by_height Store.get_account_by_height
    Store.get_account_head ◌+ℤ◌
nothing_on_disk = refl

modify_refer_gap_example :
    (from' : ForkedChain) × (to' : ForkedChain) × (w : PoolBlock) × (modify_refer
        (account_rw 7 (pos 0))
        (pos 0)
        trunk
        branch
      ≡ ok (from', to'))
    × (get_block (account_rw 7 (pos 0)) (pos 0) pool branch (pos 0 +ℤ pos 1) ≡ some w)
    × (get_block
          (account_rw 7 (pos 0))
          (pos 0)
          (put_chain (put_chain pool from') to')
          to'
          (pos 0 +ℤ pos 1)
        ≡ none)
unfolding ◌+ℤ◌ chain_at
modify_refer_gap_example =
    modify_refer_gap (account_rw 7 (pos 0)) (pos 0) pool 2 1 trunk branch trunk-IsChain
      (omega int_laws) (omega int_laws) refl refl refl refl nothing_on_disk

abbrev known : AccountStateBlock → ℤ → Option Block
known last h =
    if h ==ℤ pos 0
    then some (account_block first)
    else (if h ==ℤ pos 1
        then some (account_block second)
        else (if h ==ℤ pos 2 then some (account_block last) else none))

known-low : (h : ℤ) → h <ℤ pos 0 → known third h ≡ none
known-low h low = ground arith

get_fork_point-Found_example :
    Found
      (known third)
      (known other_third)
      (pos 2)
      (get_fork_point (known third) (known other_third) (pos 2))
get_fork_point-Found_example =
    get_fork_point-Found (known third) (known other_third) (pos 2) known-low

-- ===== src/Pool/Chain/Tests.antt =====
-- Three blocks of account 7: a chain at the first, a snippet of the other two, and a fork.
use naive_vite.Base.{◌≡◌, refl, Option, none, some, ok, store, if◌then◌else◌}
use naive_vite.Base.Int.{ℤ, pos, ◌+ℤ◌, ◌-ℤ◌, ◌==ℤ◌}
use naive_vite.Types.{AccountStateBlock}
use naive_vite.Samples.{first, second}
use naive_vite.Pool.Chain.{
  Block, account_block, PoolBlock, ForkedChain, SnippetChain, insert_block, insert_snippet,
  cut_snippet, find_fork_point, fork_rounds, add_head,
}
use naive_vite.Pool.Chain.Insertion.{IsChain, IsSnippet, IsMoved, insert_snippet-IsMoved}
use naive_vite.Pool.Chain

abbrev third : AccountStateBlock
third = record second { height = pos 2; hash = 102; pre_hash = 101 }

abbrev waiting : AccountStateBlock → PoolBlock
waiting b = record { block = account_block b; fork_version = pos 0 }

abbrev chain : ForkedChain
chain = record {
  height_blocks = λ _. none;
  head_height = pos 0;
  tail_height = pos 0;
  chain_id = 1;
  head_hash = 100;
  tail_hash = 100;
  refer_chain = Chain.disk;
}

abbrev snippet : SnippetChain
snippet = record {
  height_blocks =
      store ◌==ℤ◌ (store ◌==ℤ◌ (λ _. none) (pos 2) (waiting third)) (pos 1) (waiting second);
  head_height = pos 2;
  tail_height = pos 0;
  chain_id = 2;
  tail_hash = 100;
  head_hash = 102;
}

abbrev strange : SnippetChain
strange = record snippet {
  tail_hash = 99;
  height_blocks = store ◌==ℤ◌ (λ _. none) (pos 1) (waiting (record second { pre_hash = 99 }));
  head_height = pos 1;
  head_hash = 101;
}

chain-IsChain : IsChain 0 chain
chain-IsChain = (refl, refl)

snippet-IsSnippet : IsSnippet 2 snippet
unfolding ◌+ℤ◌
snippet-IsSnippet =
    (waiting second, refl, refl, refl, (waiting third, refl, refl, refl, (refl, refl)))

strange-IsSnippet : IsSnippet 1 strange
unfolding ◌+ℤ◌
strange-IsSnippet = (waiting (record second { pre_hash = 99 }), refl, refl, refl, (refl, refl))

second_inserted : insert_block chain (waiting second) ≡ ok (add_head chain (waiting second))
unfolding insert_block ◌+ℤ◌
second_inserted = refl

insert_snippet-IsMoved_example : IsMoved 2 chain snippet (insert_snippet chain snippet)
insert_snippet-IsMoved_example =
    insert_snippet-IsMoved 2 0 chain snippet chain-IsChain snippet-IsSnippet (refl, refl)

-- The other chain has the second block, and another third one.
abbrev other : ℤ → Option PoolBlock
other h =
    if h ==ℤ pos 0
    then some (waiting first)
    else (if h ==ℤ pos 1
        then some (waiting second)
        else some (waiting (record third { hash = 103 })))

find_fork_point_run : (find_fork_point snippet other).0 ≡ ok (some (waiting second))
unfolding find_fork_point fork_rounds ◌+ℤ◌ ◌-ℤ◌
find_fork_point_run = refl

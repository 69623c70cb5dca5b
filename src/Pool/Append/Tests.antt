-- ===== src/Pool/Append/Tests.antt =====
-- A snippet that goes on a chain after the block that they share, and one that forks off it.
use naive_vite.Base.{
  sym, ℕ, subst, ◌≡◌, refl, Option, none, some, [], ◌∷◌, ok, inl, inr, arith, if◌then◌else◌,
}
use naive_vite.Base.Int.{ℤ, pos, ◌+ℤ◌, ◌-ℤ◌, ◌==ℤ◌, ◌≤ℤ◌}
use naive_vite.Types.{AccountStateBlock}
use naive_vite.Samples.{first, second}
use naive_vite.Pool.Chain.{
  Block, account_block, PoolBlock, SnippetChain, ForkedChain, disk, find_fork_point, fork_rounds,
  cut_snippet, cut_rounds, same_chain, rem_tail, delete_tail,
}
use naive_vite.Pool.Append.Round.{IsWaiting}
use naive_vite.Pool.Append.Choice.{HasHead}
use naive_vite.Pool.Append.Place.{Among, Placed, forky-Placed}
use naive_vite.Pool.Disk.{ChainRw, ChainPool, disk_head}
use naive_vite.Pool.Modify.{chains}
use naive_vite.Pool.Append.{
  inserts, forky, forky_step, after_search, after_cut, settle, append_loop,
}
use naive_vite.Pool.Append.Good.{IsGood}
use naive_vite.Pool.Append.Sound.{Grows}
use naive_vite.Pool.Append.Ready.{IsReady, append_loop-IsReady}

abbrev third : AccountStateBlock
third = record second { height = pos 2; hash = 102; pre_hash = 101 }

abbrev waiting : AccountStateBlock → PoolBlock
waiting b = record { block = account_block b; fork_version = pos 0 }

-- The second block and the third.
abbrev snippet : SnippetChain
snippet = record {
  height_blocks = λ h.
      if h ==ℤ pos 1
      then some (waiting second)
      else (if h ==ℤ pos 2 then some (waiting third) else none);
  head_height = pos 2;
  tail_height = pos 0;
  chain_id = 9;
  tail_hash = 100;
  head_hash = 102;
}

-- A chain that ends with the second block.
abbrev chain : ForkedChain
chain = record {
  height_blocks = λ h. if h ==ℤ pos 1 then some (waiting second) else none;
  head_height = pos 1;
  tail_height = pos 0;
  chain_id = 1;
  head_hash = 101;
  tail_hash = 100;
  refer_chain = disk;
}

abbrev head : ForkedChain → Option Block
head c = some (account_block second)

abbrev get : ℤ → Option PoolBlock
get h = if h ==ℤ pos 0 then some (waiting first) else chain.height_blocks h

trimmed : (h : ℤ) → h ≤ℤ pos 0 → snippet.height_blocks h ≡ none
trimmed h low = ground (arith, low)

snippet-IsWaiting : IsWaiting snippet
unfolding ◌+ℤ◌
snippet-IsWaiting = (
  2,
  ((waiting second, refl, refl, refl, (waiting third, refl, refl, refl, (refl, refl))), trimmed),
)

only_head : (c : ForkedChain) → Among c (chain ∷ []) → HasHead head c
only_head c (inl same) = (account_block second, refl, ground (arith, same), ground (arith, same))
only_head c (inr bad) = absurd bad

inserted :
    (forky head (some (account_block first)) chain get (chain ∷ []) snippet).0 ≡ ok (inserts chain)
unfolding forky forky_step after_cut after_search cut_snippet cut_rounds rem_tail delete_tail
    same_chain find_fork_point fork_rounds settle ◌+ℤ◌ ◌-ℤ◌
inserted = refl

forky-Placed_example :
    Placed chain get
      (chain ∷ [])
      (forky head (some (account_block first)) chain get (chain ∷ []) snippet)
forky-Placed_example =
    forky-Placed chain get head (account_block first) (chain ∷ []) snippet only_head
      snippet-IsWaiting

-- A chain on disk with just the first block.
abbrev on_disk : ChainRw (Unit {0})
on_disk = record {
  insert_chain = λ s b version. (s, ok tt);
  remove_chain = λ s b. (s, ok tt);
  head = λ s. some (account_block first);
  get_block = λ s at. ok (if at ==ℤ pos 0 then some (account_block first) else none);
}

abbrev pool : ChainPool (Unit {0})
pool = record {
  disk = tt;
  current = chain;
  others = [];
  snippet_chains = (9, snippet) ∷ [];
  lastest_chain_idx = 9;
}

chain-IsGood : (c : ForkedChain) → Among c (chains pool) → IsGood on_disk (pos 0) tt c
unfolding chains ◌+ℤ◌
chain-IsGood c (inl same) =
    subst (IsGood on_disk (pos 0) tt) (sym same)
      (inl (0, 100, (waiting second, refl, refl, refl, (refl, refl))))
chain-IsGood c (inr bad) = absurd bad

pool-IsReady : IsReady on_disk (pos 0) pool
unfolding disk_head
pool-IsReady = record {
  top = (account_block first, refl);
  ids = (omega arith, tt);
  good = chain-IsGood;
  snippets = (snippet-IsWaiting, tt);
}

append_loop-IsReady_example :
    (q : ChainPool (Unit {0})) × (n : ℕ) × (append_loop on_disk
        (pos 0)
        pool
        (chains pool)
        (snippet ∷ [])
      ≡ ok (q, n))
    × IsReady on_disk (pos 0) q
    × (q.disk ≡ tt)
    × Grows pool q
append_loop-IsReady_example =
    append_loop-IsReady on_disk (pos 0) pool (snippet ∷ []) pool-IsReady (snippet-IsWaiting, tt)

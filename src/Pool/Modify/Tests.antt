-- ===== src/Pool/Modify/Tests.antt =====
-- A chain whose first block is on disk, and a branch above the second.
use naive_vite.Base.{
  ℕ, ◌≡◌, ◌⊎◌, inl, inr, refl, sym, ap, Option, none, some, [], ◌∷◌, Result, ok, panic, ◌==◌, store,
  true, if◌then◌else◌, lookup, insert, remove, Bool-cases, arith,
}
use naive_vite.Base.Int.{ℤ, pos, ◌-ℤ◌, ◌==ℤ◌}
use naive_vite.Types.{AccountStateBlock}
use naive_vite.Samples.{first, second}
use naive_vite.Pool.Chain.{
  account_block, PoolBlock, ForkedChain, forked, disk, remove_tail, add_tail,
}
use naive_vite.Pool.Disk.{ChainRw, ChainPool, disk_block, disk_head}
use naive_vite.Pool.Refer.{
  chain_at, put_chain, get_block, get_along, disk_get, modify_refer, modify_rounds,
}
use naive_vite.Pool.Modify.{
  has_hash, has_disk_head, put_current, refer_rounds, current_modify_to_chain,
}
use naive_vite.Pool.Modify.Chains.{AreNamed, HasChain, RefersBelow}
use naive_vite.Pool.Modify.Current.{IsCurrent, current_modify_to_chain-IsCurrent}

abbrev rw : ChainRw (Unit {0})
rw = record {
  insert_chain = λ s _ _. (s, ok tt);
  remove_chain = λ s _. (s, ok tt);
  head = λ _. some (account_block first);
  get_block = λ _ i. ok (if i ==ℤ pos 0 then some (account_block first) else none);
}

abbrev waiting : AccountStateBlock → PoolBlock
waiting b = record { block = account_block b; fork_version = pos 0 }

abbrev trunk : ForkedChain
trunk = record {
  height_blocks = store ◌==ℤ◌ (λ _. none) (pos 1) (waiting second);
  head_height = pos 1;
  tail_height = pos 0;
  chain_id = 1;
  head_hash = 101;
  tail_hash = 100;
  refer_chain = disk;
}

abbrev third : AccountStateBlock
third = record second { height = pos 2; hash = 102; pre_hash = 101 }

abbrev branch : ForkedChain
branch = record trunk {
  height_blocks = store ◌==ℤ◌ (λ _. none) (pos 2) (waiting third);
  head_height = pos 2;
  tail_height = pos 1;
  chain_id = 2;
  head_hash = 102;
  tail_hash = 101;
  refer_chain = forked 1;
}

abbrev pool : ChainPool (Unit {0})
pool = record {
  disk = tt;
  current = trunk;
  others = (2, branch) ∷ [];
  snippet_chains = [];
  lastest_chain_idx = 2;
}

abbrev rank : ℕ → ℕ
rank id = if id == 2 then 1 else 0

program : Unit {0}
unfolding has_disk_head disk_head get_block get_along disk_get disk_block has_hash chain_at
    put_chain put_current refer_rounds current_modify_to_chain modify_refer modify_rounds
    remove_tail add_tail lookup insert remove ◌-ℤ◌
program = tt

-- The branch takes the second block over.
abbrev current_after : Option (Result (ChainPool (Unit {0}))) → Option ForkedChain
current_after (some (ok p)) = some p.current
current_after _ = none

abbrev tail_of : Option ForkedChain → Option ℤ
tail_of (some c) = some c.tail_height
tail_of none = none

taken_over : tail_of (current_after (current_modify_to_chain rw (pos 0) pool branch)) ≡ some (pos 0)
unfolding program
taken_over = refl

head_found : has_disk_head rw (pos 0) pool branch ≡ ok true
unfolding program
head_found = refl

pool-AreNamed : AreNamed pool
unfolding chain_at lookup
pool-AreNamed id x e = elim (Bool-cases (id == 1)) [
  | inl h ↦ ground (arith, e, h)
  | inr h ↦ elim (Bool-cases (id == 2)) [
    | inl g ↦ ground (arith, e, h, g)
    | inr g ↦ absurd (ground (arith, e, h, g))
  ]
]

pool-IsRanked :
    (j : ℕ) (x : ForkedChain) → chain_at pool j ≡ some x → RefersBelow rank pool (rank j) x
unfolding chain_at lookup
pool-IsRanked j x e = elim (Bool-cases (j == 1)) [
  | inl h ↦ let same : trunk ≡ x = ground (arith, e, h) in inl (ap (λ c. c.refer_chain) (sym same))
  | inr h ↦ elim (Bool-cases (j == 2)) [
    | inl g ↦
        let same : branch ≡ x = ground (arith, e, h, g) in
        inr (1, trunk, ap (λ c. c.refer_chain) (sym same), refl, ground (arith, g))
    | inr g ↦ absurd (ground (arith, e, h, g))
  ]
]

branch_there : chain_at pool 2 ≡ some branch
unfolding chain_at lookup
branch_there = refl

trunk_there : chain_at pool 1 ≡ some trunk
unfolding chain_at
trunk_there = refl

current_modify_to_chain-IsCurrent_example :
    (current_modify_to_chain rw (pos 0) pool branch ≡ some panic)
    ⊎ ((q : ChainPool (Unit {0})) × (current_modify_to_chain rw (pos 0) pool branch ≡ some (ok q))
        × IsCurrent rw (pos 0) pool branch q
        × HasChain q 1)
current_modify_to_chain-IsCurrent_example =
    current_modify_to_chain-IsCurrent rw (pos 0) rank pool branch 1 pool-AreNamed pool-IsRanked
      (omega arith) branch_there head_found (trunk, trunk_there)

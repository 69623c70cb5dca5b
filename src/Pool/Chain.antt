-- ===== src/Pool/Chain.antt =====
-- pool/bc_pool.go: snippets (runs of waiting blocks) and the forked chains that they are put on.
-- A chain holds the blocks above its tail up to its head. `w := m[i]` of a missing key is nil, and
-- reading it a panic.
pub mod Segment
pub mod Insertion
pub mod Snippet
mod Tests
use naive_vite.Base.{
  ℕ, zero, suc, Bool, true, false, Option, none, some, List, [], ◌∷◌, ◌==◌, ◌&&◌, not,
  if◌then◌else◌, Map, store, delete, Result, ok, err, panic, fork_chain,
}
use naive_vite.Base.Int.{ℤ, pos, pos_part, ◌+ℤ◌, ◌-ℤ◌, leb_ℤ, ltb_ℤ, ◌==ℤ◌}
use naive_vite.Types.{Hash, AccountStateBlock, SnapshotBlock}

-- `common.Block`: the two kinds of block.
pub data Block : Type 0 where
  account_block : AccountStateBlock → Block
  snapshot_block : SnapshotBlock → Block

abbrev pub block_height : Block → ℤ
block_height (account_block b) = b.height
block_height (snapshot_block b) = b.height

abbrev pub block_hash : Block → Hash
block_hash (account_block b) = b.hash
block_hash (snapshot_block b) = b.hash

abbrev pub block_pre_hash : Block → Hash
block_pre_hash (account_block b) = b.pre_hash
block_pre_hash (snapshot_block b) = b.pre_hash

pub record PoolBlock : Type 0 where
  pub block : Block
  pub fork_version : ℤ

abbrev pub height : PoolBlock → ℤ
height w = block_height w.block

abbrev pub hash : PoolBlock → Hash
hash w = block_hash w.block

abbrev pub pre_hash : PoolBlock → Hash
pre_hash w = block_pre_hash w.block

abbrev pub Blocks : Type 0
Blocks = Map ℤ PoolBlock

-- A `snippetChain` with the `chain` in it.
pub record SnippetChain : Type 0 where
  pub height_blocks : Blocks
  pub head_height : ℤ
  pub tail_height : ℤ
  pub chain_id : ℕ
  pub tail_hash : Hash
  pub head_hash : Hash

-- `init` of a new snippet with the given id.
unfoldable pub init_snippet : ℕ → PoolBlock → SnippetChain
init_snippet id w = record {
  height_blocks = store ◌==ℤ◌ (λ _. none) (height w) w;
  head_height = height w;
  tail_height = height w -ℤ pos 1;
  chain_id = id;
  tail_hash = pre_hash w;
  head_hash = hash w;
}

unfoldable pub add_snippet_tail : SnippetChain → PoolBlock → SnippetChain
add_snippet_tail s w = record s {
  tail_hash = pre_hash w;
  tail_height = height w -ℤ pos 1;
  height_blocks = store ◌==ℤ◌ s.height_blocks (height w) w;
}

unfoldable pub delete_tail : SnippetChain → PoolBlock → SnippetChain
delete_tail s newtail = record s {
  tail_hash = hash newtail;
  tail_height = height newtail;
  height_blocks = delete ◌==ℤ◌ s.height_blocks (height newtail);
}

unfoldable pub rem_tail : SnippetChain → Option PoolBlock × SnippetChain
unfolding delete_tail
rem_tail s = elim (s.height_blocks (s.tail_height +ℤ pos 1)) [
  | none ↦ (none, s)
  | some w ↦ (some w, delete_tail s w)
]

-- `self.merge(snippet)`: a block of `snippet` replaces one of `self` at its height.
unfoldable pub merge : SnippetChain → SnippetChain → SnippetChain
merge self snippet = record self {
  tail_height = snippet.tail_height;
  tail_hash = snippet.tail_hash;
  height_blocks =
      λ h. elim (snippet.height_blocks h) [ none ↦ self.height_blocks h | some w ↦ some w ];
}

-- `cutSnippet` for at most `n` rounds.
unfoldable pub cut_rounds : ℕ → SnippetChain → ℤ → SnippetChain
unfolding rem_tail
cut_rounds zero s to = s
cut_rounds (suc n) s to =
    let (tail, s') = rem_tail s in
    let rest = cut_rounds n s' to in
    elim tail [ none ↦ s' | some w ↦ if leb_ℤ to (height w) then s' else rest ]

-- The loop ends at the first block that is missing, at the latest above the head.
unfoldable pub cut_snippet : SnippetChain → ℤ → SnippetChain
unfolding cut_rounds
cut_snippet s to = cut_rounds (suc (pos_part (s.head_height -ℤ s.tail_height))) s to

-- `sameChain`: `head` is the other chain's head.
unfoldable pub same_chain : SnippetChain → Block → Bool
same_chain s head = elim (s.height_blocks (block_height head)) [
  | none ↦ false
  | some b ↦ hash b == block_hash head
]

-- The loop of `findForkPoint` at `i`, for the `n` heights that are left; `get` is the other chain's
-- `getBlock`.
unfoldable pub fork_rounds :
    ℕ
    → (ℤ → Option PoolBlock)
    → ℤ
    → SnippetChain
    → PoolBlock
    → Result (Option PoolBlock) × SnippetChain
unfolding delete_tail
fork_rounds zero get i s forkpoint = (ok none, s)
fork_rounds (suc n) get i s forkpoint = elim (get i) [
  | none ↦ (ok none, s)
  | some uncle ↦ elim (s.height_blocks i) [
    | none ↦ (panic, s)
    | some point ↦
        let rest = fork_rounds n get (i +ℤ pos 1) (delete_tail s point) point in
        if not (hash point == hash uncle) then (ok (some forkpoint), s) else rest
  ]
]

unfoldable pub find_fork_point :
    SnippetChain → (ℤ → Option PoolBlock) → Result (Option PoolBlock) × SnippetChain
unfolding fork_rounds
find_fork_point s get = elim (get s.tail_height) [
  | none ↦ (ok none, s)
  | some forkpoint ↦
      if not (hash forkpoint == s.tail_hash)
      then (ok none, s)
      else fork_rounds (pos_part (s.head_height -ℤ s.tail_height)) get (s.tail_height +ℤ pos 1) s
          forkpoint
]

-- What a forked chain's missing blocks are looked up in: the chain on disk, or another forked chain.
pub data Refer : Type 0 where
  disk : Refer
  forked : ℕ → Refer

-- A `forkedChain` with the `chain` in it.
pub record ForkedChain : Type 0 where
  pub height_blocks : Blocks
  pub head_height : ℤ
  pub tail_height : ℤ
  pub chain_id : ℕ
  pub head_hash : Hash
  pub tail_hash : Hash
  pub refer_chain : Refer

unfoldable pub size : ForkedChain → ℤ
size c = c.head_height -ℤ c.tail_height

-- `init` of a new chain with the given id, which refers to the chain on disk.
unfoldable pub init_forked : ℕ → Block → ForkedChain
init_forked id b = record {
  height_blocks = λ _. none;
  head_height = block_height b;
  tail_height = block_height b;
  chain_id = id;
  head_hash = block_hash b;
  tail_hash = block_hash b;
  refer_chain = disk;
}

unfoldable pub add_head : ForkedChain → PoolBlock → ForkedChain
add_head c w = record c {
  head_hash = hash w;
  head_height = height w;
  height_blocks = store ◌==ℤ◌ c.height_blocks (height w) w;
}

unfoldable pub remove_tail : ForkedChain → PoolBlock → ForkedChain
remove_tail c w = record c {
  tail_hash = hash w;
  tail_height = height w;
  height_blocks = delete ◌==ℤ◌ c.height_blocks (height w);
}

unfoldable pub add_tail : ForkedChain → PoolBlock → ForkedChain
add_tail c w = record c {
  tail_hash = pre_hash w;
  tail_height = height w -ℤ pos 1;
  height_blocks = store ◌==ℤ◌ c.height_blocks (height w) w;
}

-- `insert`: the chain with the block at its head, or the error that it does not follow the head.
unfoldable pub insert_block : ForkedChain → PoolBlock → Result ForkedChain
insert_block c w =
    if height w ==ℤ c.head_height +ℤ pos 1
    then (if c.head_hash == pre_hash w then ok (add_head c w) else err fork_chain)
    else err fork_chain

-- The loop of `insertSnippet` at `i`, for the `n` heights that are left. What is inserted before an
-- error stays inserted.
unfoldable pub insert_rounds :
    ℕ → ℤ → ForkedChain → SnippetChain → ForkedChain × SnippetChain × Result (Unit {0})
unfolding insert_block
insert_rounds zero i c s = (c, s, ok tt)
insert_rounds (suc n) i c s = elim (s.height_blocks i) [
  | none ↦ (c, s, panic)
  | some w ↦ elim (insert_block c w) [
    | ok c' ↦ insert_rounds n (i +ℤ pos 1) c' (record s {
      height_blocks = delete ◌==ℤ◌ s.height_blocks i;
      tail_height = height w;
      tail_hash = hash w;
    })
    | err e ↦ (c, s, err e)
    | panic ↦ (c, s, panic)
  ]
]

-- `insertSnippet`, but for taking the snippet off the pool's list, which it does if the snippet is
-- used up.
unfoldable pub insert_snippet :
    ForkedChain → SnippetChain → ForkedChain × SnippetChain × Result (Unit {0})
unfolding insert_rounds
insert_snippet c s =
    insert_rounds (pos_part (s.head_height -ℤ s.tail_height)) (s.tail_height +ℤ pos 1) c s

-- `tryInsert`: whether some chain takes the block or has its height already, and the chains then.
unfoldable pub try_insert : List SnippetChain → PoolBlock → Bool × List SnippetChain
try_insert [] w = (false, [])
try_insert (c ∷ cs) w =
    let (taken, cs') = try_insert cs w in
    if c.tail_hash == hash w
    then (true, add_snippet_tail c w ∷ cs)
    else (if ltb_ℤ (height w) c.head_height && ltb_ℤ c.tail_height (height w)
        then (true, c ∷ cs)
        else (taken, c ∷ cs'))

-- ===== src/Pool/Refer.antt =====
-- pool/bc_pool.go: the chains of a pool as they refer to one another. A forked chain has only the
-- blocks above its tail, and looks the others up in the chain that it refers to.
pub mod ForkPoint
pub mod Gap
mod Tests
use naive_vite.Base.{
  ℕ, zero, suc, Bool, true, false, Option, none, some, List, [], ◌∷◌, ◌==◌, ◌&&◌, not,
  if◌then◌else◌, Table, lookup, insert, length, Result, ok, err, panic, Error, longest_error,
  current_error,
}
use naive_vite.Base.Int.{ℤ, pos, pos_part, ◌+ℤ◌, ◌-ℤ◌, ltb_ℤ, ◌==ℤ◌}
use naive_vite.Types.{Hash, empty_str}
use naive_vite.Pool.Chain.{
  Block, Blocks, block_hash, PoolBlock, Refer, disk, forked, ForkedChain, remove_tail, add_tail,
}
use naive_vite.Pool.Disk.{ChainRw, ChainPool, disk_block, disk_head}

-- The chain of the given id; the current chain is one of the pool's chains.
unfoldable pub chain_at : {S : Type 0} → ChainPool S → ℕ → Option ForkedChain
chain_at p id = let c = p.current in if c.chain_id == id then some c else lookup id p.others

-- A chain of the pool that has been changed.
unfoldable pub put_chain : {S : Type 0} → ChainPool S → ForkedChain → ChainPool S
put_chain p c =
    let old = p.current in
    if old.chain_id == c.chain_id
    then record p { current = c }
    else record p { others = insert c.chain_id c p.others }

-- `forkChain`: a new chain with the snippet's blocks. Its hash of the tail is not set.
unfoldable pub fork_chain_of : ℕ → Refer → Blocks → ℤ → ℤ → Hash → ForkedChain
fork_chain_of id refer blocks tail head head_hash = record {
  height_blocks = blocks;
  head_height = head;
  tail_height = tail;
  chain_id = id;
  head_hash = head_hash;
  tail_hash = empty_str;
  refer_chain = refer;
}

module _ {S : Type 0} (rw : ChainRw S) (version : ℤ) where
  -- A read of the chain on disk at a height that the pool asks for. It asks for no negative one,
  -- and elsewhere neither implementation fails.
  unfoldable pub disk_get : S → ℤ → Option PoolBlock
  unfolding disk_block
  disk_get s at = elim (disk_block rw version s at) [ ok o ↦ o | err _ ↦ none | panic ↦ none ]

  -- `getBlock(height, true)` along at most `n` chains.
  unfoldable pub get_along : ℕ → ChainPool S → ForkedChain → ℤ → Option PoolBlock
  unfolding disk_get chain_at
  get_along zero p c at = none
  get_along (suc n) p c at = elim (c.height_blocks at) [
    | some w ↦ some w
    | none ↦ elim c.refer_chain [
      | disk ↦ disk_get p.disk at
      | forked id ↦ elim (chain_at p id) [ none ↦ none | some from ↦ get_along n p from at ]
    ]
  ]

  -- No chain refers to itself over others: all of them are enough.
  unfoldable pub get_block : ChainPool S → ForkedChain → ℤ → Option PoolBlock
  unfolding get_along
  get_block p c at = get_along (suc (suc (length p.others))) p c at

  unfoldable pub head_block : ChainPool S → ForkedChain → Option Block
  unfolding get_block
  head_block p c = elim (get_block p c c.head_height) [ none ↦ none | some w ↦ some w.block ]

  -- The loop of `modifyRefer` at the height `i`, for at most `n` rounds.
  unfoldable pub modify_rounds :
      ℕ → ℤ → ForkedChain → ForkedChain → Result (ForkedChain × ForkedChain)
  modify_rounds zero i from to = ok (from, to)
  modify_rounds (suc n) i from to = elim (ltb_ℤ from.tail_height i) [
    | false ↦ ok (from, to)
    | true ↦ elim (from.height_blocks i) [
      | none ↦ panic
      | some w ↦ modify_rounds n (i -ℤ pos 1) (remove_tail from w) (add_tail to w)
    ]
  ]

  -- `modifyRefer(from, to)`, where `to` refers to `from`: the two chains as they are then.
  unfoldable pub modify_refer : ForkedChain → ForkedChain → Result (ForkedChain × ForkedChain)
  unfolding modify_rounds
  modify_refer from to =
      elim (modify_rounds (pos_part (to.tail_height -ℤ from.tail_height)) to.tail_height from to) [
        | ok (from', to') ↦ ok (
          record from' { refer_chain = forked to.chain_id },
          record to' { refer_chain = from.refer_chain },
        )
        | err e ↦ err e
        | panic ↦ panic
      ]

-- The loop of `getForkPoint` at the height `i`, for at most `n` rounds; `none` if these do not do.
-- `long` and `cur` are the blocks of the two chains.
unfoldable pub fork_point_rounds :
    ℕ → (ℤ → Option Block) → (ℤ → Option Block) → ℤ → Option (Result (Option Block × Block))
fork_point_rounds zero long cur i = none
fork_point_rounds (suc n) long cur i = elim (long i) [
  | none ↦ some (err longest_error)
  | some block ↦ elim (cur i) [
    | none ↦ some (err current_error)
    | some cur_block ↦
        let rest = fork_point_rounds n long cur (i -ℤ pos 1) in
        if block_hash block == block_hash cur_block
        then some (ok (long (i +ℤ pos 1), block))
        else rest
  ]
]

-- `getForkPoint`, from the head of the current chain down: the key point and the fork point. Below
-- the height 0 there are no blocks.
unfoldable pub get_fork_point :
    (ℤ → Option Block) → (ℤ → Option Block) → ℤ → Option (Result (Option Block × Block))
unfolding fork_point_rounds
get_fork_point long cur head = fork_point_rounds (suc (suc (pos_part head))) long cur head

-- The loop of `LongestChain` over the pool's chains.
unfoldable pub longest_of : ForkedChain → List ForkedChain → ForkedChain
longest_of longest [] = longest
longest_of longest (c ∷ cs) =
    longest_of (if ltb_ℤ longest.head_height c.head_height then c else longest) cs

unfoldable pub longest_chain : ForkedChain → List ForkedChain → ForkedChain
unfolding longest_of
longest_chain current readers =
    let longest = longest_of current readers in
    if ltb_ℤ current.head_height (longest.head_height -ℤ pos 4) then longest else current

-- ===== src/Pool/Modify.antt =====
-- pool/bc_pool.go: how another chain of a pool becomes its current one, and which chain has a block.

pub mod Chains
pub mod Success
pub mod Current
mod Tests
use naive_vite.Base.{
  ℕ, zero, suc, Bool, true, false, Option, none, some, List, [], ◌∷◌, ◌==◌, not, if◌then◌else◌, map,
  Table, insert, remove, length, Result, ok, err, panic, modify_error,
}
use naive_vite.Base.Int.{ℤ, ◌-ℤ◌, ltb_ℤ}
use naive_vite.Types.{Hash}
use naive_vite.Pool.Chain.{
  Block, block_height, block_hash, hash, PoolBlock, Refer, disk, forked, ForkedChain,
}
use naive_vite.Pool.Disk.{ChainRw, ChainPool, disk_head}
use naive_vite.Pool.Refer.{chain_at, put_chain, get_block, head_block, modify_refer, get_fork_point}

-- The pool's chains, in the order of the map.
unfoldable pub chains : {S : Type 0} → ChainPool S → List ForkedChain
chains p = p.current ∷ map (λ e. e.1) p.others

-- Whether a block is among some, with the hash.
unfoldable pub has_hash : Option PoolBlock → Hash → Bool
has_hash none h = false
has_hash (some w) h = hash w == h

-- `FindInChain`: only the blocks that wait are looked at.
unfoldable pub find_in : List ForkedChain → Hash → ℤ → Bool
unfolding has_hash
find_in [] h at = false
find_in (c ∷ cs) h at = if has_hash (c.height_blocks at) h then true else find_in cs h at

-- The loop of `whichChain`.
unfoldable pub which_of : List ForkedChain → ℤ → Hash → Option ForkedChain
unfolding has_hash
which_of [] at h = none
which_of (c ∷ cs) at h = if has_hash (c.height_blocks at) h then some c else which_of cs at h

-- `self.current = chain`, where `chain` is one of the pool's chains.
unfoldable pub put_current : {S : Type 0} → ChainPool S → ForkedChain → ChainPool S
put_current p c =
    let old = p.current in
    record p { current = c; others = remove c.chain_id (insert old.chain_id old p.others) }

module _ {S : Type 0} (rw : ChainRw S) (version : ℤ) where
  -- `whichChain`; where it gives none it asks for the block.
  unfoldable pub which_chain : ChainPool S → ℤ → Hash → Option ForkedChain
  unfolding chains which_of
  which_chain p at h = elim (which_of (chains p) at h) [
    | some c ↦ some c
    | none ↦ if has_hash (get_block rw version p p.current at) h then some p.current else none
  ]

  -- `GetBlock` of a chain.
  unfoldable pub block_of : ChainPool S → ForkedChain → ℤ → Option Block
  block_of p c at = elim (get_block rw version p c at) [ none ↦ none | some w ↦ some w.block ]

  unfoldable pub get_fork_point_by_chains :
      ChainPool S → ForkedChain → ForkedChain → Option (Result (Option Block × Block))
  unfolding block_of
  get_fork_point_by_chains p chain1 chain2 = elim (head_block rw version p chain1) [
    | none ↦ some panic
    | some head1 ↦ elim (head_block rw version p chain2) [
      | none ↦ some panic
      | some head2 ↦
          if ltb_ℤ (block_height head2) (block_height head1)
          then get_fork_point (block_of p chain1) (block_of p chain2) chain2.head_height
          else get_fork_point (block_of p chain2) (block_of p chain1) chain1.head_height
    ]
  ]

  -- The check of `currentModifyToChain` that the chain has the head on disk.
  unfoldable pub has_disk_head : ChainPool S → ForkedChain → Result Bool
  unfolding has_hash
  has_disk_head p c = elim (disk_head rw p.disk) [
    | ok none ↦ panic
    | ok (some head) ↦
        ok (has_hash (get_block rw version p c (block_height head)) (block_hash head))
    | err e ↦ err e
    | panic ↦ panic
  ]

  -- The loop of `currentModifyToChain` for at most `n` rounds: the chain takes over the blocks of the
  -- chains that it refers to, until it refers to the chain on disk. `none` if the rounds do not do.
  unfoldable pub refer_rounds :
      ℕ → ChainPool S → ForkedChain → Option (Result (ChainPool S × ForkedChain))
  refer_rounds zero p c = none
  refer_rounds (suc n) p c = elim c.refer_chain [
    | disk ↦ some (ok (p, c))
    | forked id ↦ elim (chain_at p id) [
      | none ↦ some panic
      | some from ↦ elim (modify_refer rw version from c) [
        | ok (from', c') ↦ refer_rounds n (put_chain (put_chain p from') c') c'
        | err e ↦ some (err e)
        | panic ↦ some panic
      ]
    ]
  ]

  -- `currentModifyToChain`: no chain refers to itself over others, and all of them are enough.
  unfoldable pub current_modify_to_chain : ChainPool S → ForkedChain → Option (Result (ChainPool S))
  unfolding has_disk_head refer_rounds put_current
  current_modify_to_chain p c = elim (has_disk_head p c) [
    | ok true ↦ elim (refer_rounds (suc (suc (length p.others))) p c) [
      | some (ok (p', c')) ↦ some (ok (put_current p' c'))
      | some (err e) ↦ some (err e)
      | some panic ↦ some panic
      | none ↦ none
    ]
    | ok false ↦ some (err modify_error)
    | err e ↦ some (err e)
    | panic ↦ some panic
  ]

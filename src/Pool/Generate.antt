-- ===== src/Pool/Generate.antt =====
-- pool/bc_pool.go: the blocks that a pool has received, and the snippets that it makes of them. Maps from
-- hashes are association lists; the order in which Go ranges over a map is the list's.
pub mod Sound
pub mod Merge
mod Tests
use naive_vite.Base.{
  ℕ, zero, suc, ◌+◌, Bool, true, false, Option, none, some, List, [], ◌∷◌, ◌++◌, map, length, ◌==◌,
  ◌||◌, if◌then◌else◌, Table, lookup, insert, remove,
}
use naive_vite.Base.Int.{ℤ}
use naive_vite.Types.{Hash}
use naive_vite.Pool.Chain.{
  Block, block_hash, PoolBlock, hash, SnippetChain, init_snippet, merge, try_insert,
}

pub record BlockPool : Type 0 where
  pub free_blocks : Table PoolBlock
  pub compound_blocks : Table PoolBlock

abbrev is_known : Option PoolBlock → Bool
is_known none = false
is_known (some _) = true

unfoldable pub contains : BlockPool → Hash → Bool
contains p hash = is_known (lookup hash p.free_blocks) || is_known (lookup hash p.compound_blocks)

-- `compound(w)`
unfoldable pub put_compound : PoolBlock → BlockPool → BlockPool
put_compound w p = record p {
  compound_blocks = insert (hash w) w p.compound_blocks;
  free_blocks = remove (hash w) p.free_blocks;
}

-- `AddBlock` at the fork version `version`.
unfoldable pub add_block : ℤ → Block → BlockPool → BlockPool
unfolding contains
add_block version block p = if contains p (block_hash block) then p else record p {
  free_blocks =
      insert (block_hash block) (record { block = block; fork_version = version }) p.free_blocks;
}

-- The first loop of `loopGenSnippetChains`, over the free blocks: the snippets, the last id given, and the
-- blocks then.
unfoldable pub gen_loop :
    List PoolBlock → List SnippetChain → ℕ → BlockPool → List SnippetChain × ℕ × BlockPool
unfolding put_compound
gen_loop [] chains idx p = (chains, idx, p)
gen_loop (v ∷ vs) chains idx p =
    let (taken, chains') = try_insert chains v in
    if taken
    then gen_loop vs chains' idx (put_compound v p)
    else gen_loop vs (chains' ++ (init_snippet (suc idx) v ∷ [])) (suc idx) (put_compound v p)

-- The snippets as objects, by their ids.
abbrev pub Objects : Type 0
Objects = Table SnippetChain

unfoldable pub objects : List SnippetChain → Objects
objects [] = []
objects (c ∷ cs) = insert c.chain_id c (objects cs)

-- `splitToMap`: the ids by the hashes of the heads; a later snippet replaces an earlier one.
unfoldable pub split_to_map : List SnippetChain → Table ℕ → Table ℕ
split_to_map [] head_map = head_map
split_to_map (c ∷ cs) head_map = split_to_map cs (insert c.head_hash c.chain_id head_map)

-- The inner loop for the snippet `id`: while another one ends at its tail, it takes that one over, which
-- leaves the map. There are at most as many rounds as entries of the map.
unfoldable pub merge_rounds : ℕ → ℕ → Table ℕ → Objects → Table ℕ × Objects
merge_rounds zero id head_map objs = (head_map, objs)
merge_rounds (suc n) id head_map objs = elim (lookup id objs) [
  | none ↦ (head_map, objs)
  | some chain ↦ elim (lookup chain.tail_hash head_map) [
    | none ↦ (head_map, objs)
    | some other ↦ elim (lookup other objs) [
      | none ↦ (head_map, objs)
      | some oc ↦
          if id == other
          then (head_map, objs)
          else merge_rounds n id (remove chain.tail_hash head_map) (insert id (merge chain oc) objs)
    ]
  ]
]

unfoldable pub merge_loop : List ℕ → Table ℕ → Objects → Table ℕ × Objects
unfolding merge_rounds
merge_loop [] head_map objs = (head_map, objs)
merge_loop (id ∷ ids) head_map objs =
    let (head_map', objs') = merge_rounds (length head_map) id head_map objs in
    merge_loop ids head_map' objs'

-- The snippets that the map of heads still names.
unfoldable pub final_chains : Table ℕ → Objects → Table SnippetChain
final_chains [] objs = []
final_chains ((h, id) ∷ rest) objs = elim (lookup id objs) [
  | none ↦ final_chains rest objs
  | some c ↦ (id, c) ∷ final_chains rest objs
]

abbrev pub ids : List SnippetChain → List ℕ
ids [] = []
ids (c ∷ cs) = c.chain_id ∷ ids cs

-- `loopGenSnippetChains` on the free blocks `free` and the snippets `chains`.
unfoldable pub gen_snippet_chains :
    List PoolBlock → List SnippetChain → ℕ → BlockPool → Table SnippetChain × ℕ × BlockPool
unfolding gen_loop objects split_to_map merge_loop final_chains
gen_snippet_chains free chains idx p =
    let (chains', idx', p') = gen_loop free chains idx p in
    let (head_map, objs) = merge_loop (ids chains') (split_to_map chains' []) (objects chains') in
    (final_chains head_map objs, idx', p')

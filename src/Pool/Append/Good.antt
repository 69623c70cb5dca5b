-- ===== src/Pool/Append/Good.antt =====
-- The chains of a pool whose heads can be read: what `forky` and `insertSnippet` need of a chain, and
-- that both ways of placing a snippet keep it.
use naive_vite.Base.{
  delete, ℕ, zero, suc, ◌+◌, ◌≡◌, sym, ap, subst, ◌∙◌, refl, none, some, ok, inl, inr, ◌⊎◌, arith,
  Option-cases,
}
use naive_vite.Base.Int.{neg_part, ◌==ℤ◌, pos_part, ℤ, pos, ◌+ℤ◌, ◌-ℤ◌, ◌≤ℤ◌}
use naive_vite.Types.{Hash}
use naive_vite.Pool.Chain.{
  add_head, Blocks, PoolBlock, height, hash, SnippetChain, ForkedChain, Refer, disk, insert_rounds,
  insert_snippet, insert_block,
}
use naive_vite.Pool.Chain.Segment.{Linked-count, Linked, Linked-length}
use naive_vite.Pool.Chain.Insertion.{IsMoved, IsSnippet, Fits, insert_snippet-IsMoved}
use naive_vite.Pool.Disk.{ChainRw, ChainPool}
use naive_vite.Pool.Refer.{disk_get, get_along, get_block, head_block, fork_chain_of}
use naive_vite.Pool.Append.Choice.{HasHead}
use naive_vite.Pool.Append.Decide.{IsPlaced}

-- The chain holds `n` linked blocks up to its head, the lowest on a block of the hash `x`.
abbrev IsRun : ℕ → Hash → ForkedChain → Type 0
IsRun n x c = Linked c.height_blocks n c.tail_height x c.head_height c.head_hash

-- Some hash links the blocks of the chain from its tail on. `forkChain` does not set the hash of the
-- tail, so that need not be the chain's own.
abbrev pub HasBlocks : ForkedChain → Type 0
HasBlocks c = (n : ℕ) × (x : Hash) × IsRun (suc n) x c

-- The last block of a run.
pub Linked-last :
    (m : Blocks) (n : ℕ) (tail : ℤ) (x : Hash) (head : ℤ) (y : Hash)
    → Linked m (suc n) tail x head y
    → (w : PoolBlock) × (m head ≡ some w) × (height w ≡ head) × (hash w ≡ y)
Linked-last m zero tail x head y (w, at, h, p, (same, link)) =
    (w, ap m (sym same) ∙ at, h ∙ same, link)
Linked-last m (suc n) tail x head y (w, at, h, p, l) =
    Linked-last m n (tail +ℤ pos 1) (hash w) head y l

-- The chain with another hash of its tail, which no insertion looks at.
abbrev with_tail : Hash → ForkedChain → ForkedChain
with_tail x c = record c { tail_hash = x }

insert_rounds-with_tail :
    (n : ℕ) (i : ℤ) (c : ForkedChain) (s : SnippetChain) (x : Hash)
    → insert_rounds n i (with_tail x c) s ≡ (
      with_tail x (insert_rounds n i c s).0,
      (insert_rounds n i c s).1,
      (insert_rounds n i c s).2,
    )
unfolding insert_rounds insert_block add_head
insert_rounds-with_tail zero i c s x = refl
insert_rounds-with_tail (suc n) i c s x = elim (Option-cases (s.height_blocks i)) [
  | inl e ↦ ground (arith, e)
  | inr (w, e) ↦ ground (
    arith,
    e,
    insert_rounds-with_tail n (i +ℤ pos 1) (add_head c w)
        (record s {
          height_blocks = delete ◌==ℤ◌ s.height_blocks i;
          tail_height = height w;
          tail_hash = hash w;
        })
        x,
  )
]

-- The chain `d` is `c` with blocks on its head.
abbrev pub IsGrown : ForkedChain → ForkedChain → Type 0
IsGrown c d =
    (d.chain_id ≡ c.chain_id) × (d.tail_height ≡ c.tail_height) × (c.head_height ≤ℤ d.head_height)

insert_rounds-chain_id :
    (n : ℕ) (i : ℤ) (c : ForkedChain) (s : SnippetChain)
    → (insert_rounds n i c s).0.chain_id ≡ c.chain_id
unfolding insert_rounds insert_block add_head
insert_rounds-chain_id zero i c s = refl
insert_rounds-chain_id (suc n) i c s = elim (Option-cases (s.height_blocks i)) [
  | inl e ↦ ground (arith, e)
  | inr (w, e) ↦ ground (
    arith,
    e,
    insert_rounds-chain_id n (i +ℤ pos 1) (add_head c w) (record s {
      height_blocks = delete ◌==ℤ◌ s.height_blocks i;
      tail_height = height w;
      tail_hash = hash w;
    }),
  )
]

-- A snippet that begins where a linked chain ends is put on it whole, whatever the hash of the tail.
insert_snippet-Linked :
    (n k : ℕ) (c : ForkedChain) (s : SnippetChain) (x : Hash)
    → IsRun k x c
    → IsSnippet n s
    → Fits c s
    → ((insert_snippet c s).2 ≡ ok tt)
      × IsRun (n + k) x (insert_snippet c s).0
      × IsSnippet 0 (insert_snippet c s).1
      × IsGrown c (insert_snippet c s).0
unfolding insert_snippet
insert_snippet-Linked n k c s x chain snippet fits =
    let rounds = pos_part (s.head_height -ℤ s.tail_height) in
    let (done, linked, empty, head, _, tail, _) =
      subst (IsMoved (n + k) (with_tail x c) s)
        (insert_rounds-with_tail rounds (s.tail_height +ℤ pos 1) c s x)
        (insert_snippet-IsMoved n k (with_tail x c) s chain snippet fits) in
    let count =
      Linked-count s.height_blocks n s.tail_height s.tail_hash s.head_height s.head_hash snippet in
    (
      done,
      linked,
      empty,
      (
        insert_rounds-chain_id rounds (s.tail_height +ℤ pos 1) c s,
        tail,
        omega (
          arith,
          count,
          ap pos_part head,
          ap neg_part head,
          ap pos_part fits.0,
          ap neg_part fits.0,
        ),
      ),
    )

-- A snippet with no block left changes nothing.
insert_nothing :
    (c : ForkedChain) (s : SnippetChain) → IsSnippet 0 s → insert_snippet c s ≡ (c, s, ok tt)
unfolding insert_snippet insert_rounds
insert_nothing c s l =
    let count =
      Linked-length s.height_blocks 0 s.tail_height s.tail_hash s.head_height s.head_hash l in
    ground (arith, count)

module _ {S : Type 0} (rw : ChainRw S) (version : ℤ) where
  -- The chain has no block of its own and refers to the chain on disk, which has its head.
  abbrev pub IsOnDisk : S → ForkedChain → Type 0
  IsOnDisk s c =
      (c.tail_height ≡ c.head_height)
      × (c.height_blocks c.head_height ≡ none)
      × (c.refer_chain ≡ disk)
      × (w : PoolBlock) × (disk_get rw version s c.head_height ≡ some w)
      × (height w ≡ c.head_height)
      × (hash w ≡ c.head_hash)

  abbrev pub IsGood : S → ForkedChain → Type 0
  IsGood s c = HasBlocks c ⊎ IsOnDisk s c

  head_block_own :
      (p : ChainPool S) (c : ForkedChain) (w : PoolBlock)
      → c.height_blocks c.head_height ≡ some w
      → head_block rw version p c ≡ some w.block
  unfolding head_block get_block get_along
  head_block_own p c w at = ground (arith, at)

  head_block_on_disk :
      (p : ChainPool S) (c : ForkedChain) (w : PoolBlock)
      → c.height_blocks c.head_height ≡ none
      → c.refer_chain ≡ disk
      → disk_get rw version p.disk c.head_height ≡ some w
      → head_block rw version p c ≡ some w.block
  unfolding head_block get_block get_along
  head_block_on_disk p c w at refers found = ground (arith, at, refers, found)

  pub IsGood-HasHead :
      (p : ChainPool S) (c : ForkedChain) → IsGood p.disk c → HasHead (head_block rw version p) c
  IsGood-HasHead p c (inl (n, x, l)) =
      let (w, at, h, same) =
        Linked-last c.height_blocks n c.tail_height x c.head_height c.head_hash l in
      (w.block, head_block_own p c w at, h, same)
  IsGood-HasHead p c (inr (_, at, refers, w, found, h, same)) =
      (w.block, head_block_on_disk p c w at refers found, h, same)

  -- What `insertSnippet` does where `forky` has said so.
  pub insert_snippet-IsGood :
      (state : S) (c : ForkedChain) (s : SnippetChain)
      → IsGood state c
      → IsPlaced c s
      → ((insert_snippet c s).2 ≡ ok tt)
        × IsGood state (insert_snippet c s).0
        × IsSnippet 0 (insert_snippet c s).1
        × IsGrown c (insert_snippet c s).0
  insert_snippet-IsGood state c s good (zero, (snippet, fits)) =
      let same = insert_nothing c s snippet in
      (
        ap (λ r. r.2) same,
        subst (IsGood state) (sym (ap (λ r. r.0) same)) good,
        subst (IsSnippet 0) (sym (ap (λ r. r.1) same)) snippet,
        subst (IsGrown c) (sym (ap (λ r. r.0) same)) (refl, refl, omega arith),
      )
  insert_snippet-IsGood state c s (inl (k, x, l)) (suc n, (snippet, fits)) =
      let (done, linked, empty, grown) =
        insert_snippet-Linked (suc n) (suc k) c s x l snippet fits in
      let count : suc n + suc k ≡ suc (n + suc k) = omega arith in
      (
        done,
        inl (n + suc k, x, subst (λ m. IsRun m x (insert_snippet c s).0) count linked),
        empty,
        grown,
      )
  insert_snippet-IsGood state c s (inr (ends, _, _, _, _, _, _)) (suc n, (snippet, fits)) =
      let (done, linked, empty, grown) =
        insert_snippet-Linked (suc n) 0 c s c.head_hash (ends, refl) snippet fits in
      let count : suc n + 0 ≡ suc n = omega arith in
      (
        done,
        inl (n, c.head_hash, subst (λ m. IsRun m c.head_hash (insert_snippet c s).0) count linked),
        empty,
        grown,
      )

-- The chain that `forkChain` makes of a snippet with a block.
pub fork_chain_of-HasBlocks :
    (id : ℕ) (refer : Refer) (n : ℕ) (s : SnippetChain)
    → IsSnippet (suc n) s
    → HasBlocks (fork_chain_of id refer s.height_blocks s.tail_height s.head_height s.head_hash)
unfolding fork_chain_of
fork_chain_of-HasBlocks id refer n s l = (n, s.tail_hash, l)

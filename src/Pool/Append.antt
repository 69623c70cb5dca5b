-- ===== src/Pool/Append.antt =====
-- pool/bc_pool.go: where a snippet goes. It is put on a chain that ends where it begins, or becomes
-- a new chain that forks off another, or is used up, or waits.
pub mod Round
pub mod Decide
pub mod Choice
pub mod Place
pub mod Good
pub mod Named
pub mod Sound
pub mod Forked
pub mod Loop
pub mod Ready
mod Tests
use naive_vite.Base.{
  ℕ, suc, zero, Bool, true, false, Option, none, some, List, [], ◌∷◌, ◌++◌, ◌==◌, ◌&&◌,
  if◌then◌else◌, Table, insert, remove, Result, ok, err, panic, Error,
}
use naive_vite.Base.Int.{ℤ, ltb_ℤ, leb_ℤ, ◌==ℤ◌}
use naive_vite.Pool.Chain.{
  Block, block_height, PoolBlock, SnippetChain, cut_snippet, same_chain, find_fork_point, Refer,
  disk, forked, ForkedChain, insert_snippet,
}
use naive_vite.Pool.Disk.{ChainRw, ChainPool, disk_head}
use naive_vite.Pool.Refer.{get_block, head_block, fork_chain_of, put_chain}

-- The results of `forky`: (true, false, c), (false, true, c), and (false, false, nil) with the
-- snippet taken off the pool's list or left on it.
pub data Verdict : Type 0 where
  forks : ForkedChain → Verdict
  inserts : ForkedChain → Verdict
  used_up : Verdict
  neither : Verdict

-- What one chain decides: `forky` returns, or its loop goes on.
pub data Step : Type 0 where
  returns : Result Verdict → Step
  goes_on : Step

-- The end of a round, after the search for a fork point.
unfoldable pub after_search :
    ForkedChain → Result (Option PoolBlock) × SnippetChain → Step × SnippetChain
after_search c (ok (some _), s) = (returns (ok (forks c)), s)
after_search c (ok none, s) =
    (if s.head_height ==ℤ s.tail_height then returns (ok used_up) else goes_on, s)
after_search c (err e, s) = (returns (err e), s)
after_search c (panic, s) = (returns panic, s)

-- The branch of a snippet that has the chain's head.
unfoldable pub after_cut : ForkedChain → SnippetChain → Step × SnippetChain
after_cut c s = (returns (ok (if s.head_height ==ℤ s.tail_height then used_up else inserts c)), s)

-- A round of the loop of `forky`; `head` is the chain's `Head()`, of which a nil is dereferenced.
unfoldable pub forky_step : Option Block → ForkedChain → SnippetChain → Step × SnippetChain
unfolding after_search after_cut
forky_step head c s =
    if (s.tail_height ==ℤ c.head_height) && (s.tail_hash == c.head_hash)
    then (returns (ok (inserts c)), s)
    else (if ltb_ℤ c.head_height s.tail_height
        then (goes_on, s)
        else (if leb_ℤ s.head_height c.head_height then (goes_on, s) else elim head [
          | none ↦ (returns panic, s)
          | some b ↦
              if same_chain s b
              then after_cut c (cut_snippet s c.head_height)
              else after_search c (find_fork_point s c.height_blocks)
        ]))

-- The last check of `forky`, if it has not returned.
unfoldable pub settle : Step × SnippetChain → Result Verdict × SnippetChain
settle (returns r, s) = (r, s)
settle (goes_on, s) = (ok (if s.head_height ==ℤ s.tail_height then used_up else neither), s)

-- `forky` after its loop: `top` is the head on disk, and `get` reads the current chain with all that
-- it refers to.
unfoldable pub forky_end :
    Option Block
    → ForkedChain
    → (ℤ → Option PoolBlock)
    → SnippetChain
    → Result Verdict × SnippetChain
unfolding after_search settle
forky_end none current get s = (panic, s)
forky_end (some top) current get s = settle (
    if leb_ℤ s.tail_height (block_height top)
    then after_search current (find_fork_point s get)
    else (goes_on, s))

-- `forky`, over the `Head()` of each chain.
unfoldable pub forky :
    (ForkedChain → Option Block)
    → Option Block
    → ForkedChain
    → (ℤ → Option PoolBlock)
    → List ForkedChain
    → SnippetChain
    → Result Verdict × SnippetChain
unfolding forky_step forky_end
forky head top current get [] s = forky_end top current get s
forky head top current get (c ∷ cs) s =
    let (step, s') = forky_step (head c) c s in
    elim step [ returns r ↦ (r, s') | goes_on ↦ forky head top current get cs s' ]

-- The chain among others after a change of it.
unfoldable pub replace : ForkedChain → List ForkedChain → List ForkedChain
replace c [] = []
replace c (d ∷ ds) = (if d.chain_id == c.chain_id then c else d) ∷ replace c ds

module _ {S : Type 0} (rw : ChainRw S) (version : ℤ) where
  -- `forky` on the chains of a pool. A head on disk that cannot be read matters only after the loop.
  unfoldable pub pool_forky :
      ChainPool S → List ForkedChain → SnippetChain → Result Verdict × SnippetChain
  unfolding forky
  pool_forky p cs s =
      let c = p.current in
      let top = elim (disk_head rw p.disk) as (λ _. Option Block) [
        | ok top ↦ top
        | err _ ↦ none
        | panic ↦ none
      ] in
      forky (head_block rw version p) top c (get_block rw version p c) cs s

  -- `forkChain`: the pool with the new chain, which takes over the snippet's blocks.
  unfoldable pub fork_chain : ChainPool S → ForkedChain → SnippetChain → ChainPool S × ForkedChain
  unfolding fork_chain_of
  fork_chain p c s =
      let new =
        fork_chain_of (suc p.lastest_chain_idx) (forked c.chain_id) s.height_blocks s.tail_height
          s.head_height s.head_hash in
      (
        record p {
          others = insert new.chain_id new p.others;
          lastest_chain_idx = suc p.lastest_chain_idx;
        },
        new,
      )

  -- A round of `loopAppendChains`: the pool, the chains that later snippets are tried on, and whether
  -- the snippet counts. A chain is an object: a change of it shows in both. A panic ends the loop.
  unfoldable pub append_step :
      ChainPool S → List ForkedChain → SnippetChain → Result (ChainPool S × List ForkedChain × Bool)
  unfolding pool_forky fork_chain
  append_step p cs s =
      let (verdict, s') = pool_forky p cs s in
      elim verdict [
        | ok (forks c) ↦
            let (p', new) = fork_chain p c s' in
            ok (
              record p' { snippet_chains = remove s.chain_id p'.snippet_chains },
              cs ++ (new ∷ []),
              true,
            )
        | ok (inserts c) ↦
            let (c', rest, done) = insert_snippet c s' in
            let p' = put_chain p c' in
            let kept = record p' { snippet_chains = insert s.chain_id rest p'.snippet_chains } in
            let gone = record p' { snippet_chains = remove s.chain_id p'.snippet_chains } in
            elim done [
              | ok _ ↦ ok (
                if rest.tail_height ==ℤ rest.head_height then gone else kept,
                replace c' cs,
                true,
              )
              | err _ ↦ ok (kept, replace c' cs, true)
              | panic ↦ panic
            ]
        | ok used_up ↦
            ok (record p { snippet_chains = remove s.chain_id p.snippet_chains }, cs, false)
        | ok neither ↦
            ok (record p { snippet_chains = insert s.chain_id s' p.snippet_chains }, cs, false)
        | err e ↦ err e
        | panic ↦ panic
      ]

  -- The loop of `loopAppendChains` over the snippets in their
  -- order, `cs` being the pool's chains in theirs; it counts those that found a place.
  unfoldable pub append_loop :
      ChainPool S → List ForkedChain → List SnippetChain → Result (ChainPool S × ℕ)
  unfolding append_step
  append_loop p cs [] = ok (p, 0)
  append_loop p cs (s ∷ rest) = elim (append_step p cs s) [
    | ok (p', cs', placed) ↦ elim (append_loop p' cs' rest) [
      | ok (q, n) ↦ ok (q, if placed then suc n else n)
      | err e ↦ err e
      | panic ↦ panic
    ]
    | err e ↦ err e
    | panic ↦ panic
  ]

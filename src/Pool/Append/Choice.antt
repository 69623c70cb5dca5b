-- ===== src/Pool/Append/Choice.antt =====
-- What one chain decides on a snippet.
use naive_vite.Base.{
  Bool, ◌≡◌, sym, ap, subst, ◌∙◌, refl, Option, some, ◌==◌, ◌&&◌, if◌then◌else◌, arith, ok,
  Option-cases, Bool-cases, inl, inr, true, false,
}
use naive_vite.Base.Int.{ℤ, ◌≤ℤ◌, ◌<ℤ◌, ◌==ℤ◌, leb_ℤ, eq_of_parts}
use naive_vite.Pool.Chain.{
  Block, block_height, block_hash, PoolBlock, hash, SnippetChain, ForkedChain, cut_snippet,
  find_fork_point, same_chain,
}
use naive_vite.Pool.Chain.Insertion.{Fits}
use naive_vite.Pool.Chain.Snippet.{find_fork_point-Outcome}
use naive_vite.Pool.Append.{inserts, returns, goes_on, forky_step, after_search, after_cut}
use naive_vite.Pool.Append.Round.{IsTrim, IsWaiting, find_fork_point-IsWaiting}
use naive_vite.Pool.Append.Decide.{
  RoundOutcome, cut_snippet-IsPlaced, after_cut-RoundOutcome, after_search-RoundOutcome,
}

-- The chain's `Head()` is the block that its head's height and hash name.
abbrev pub HasHead : (ForkedChain → Option Block) → ForkedChain → Type 0
HasHead head c =
    (b : Block) × (head c ≡ some b)
    × (block_height b ≡ c.head_height)
    × (block_hash b ≡ c.head_hash)

has_head_block :
    (s : SnippetChain) (b : Block)
    → same_chain s b ≡ true
    → (v : PoolBlock) × (s.height_blocks (block_height b) ≡ some v) × (hash v ≡ block_hash b)
unfolding same_chain
has_head_block s b e = elim (Option-cases (s.height_blocks (block_height b))) [
  | inl missing ↦ absurd (ground (arith, e, missing))
  | inr (v, found) ↦ (v, found, ground (arith, e, found))
]

-- A block that a snippet has is above its tail.
above_tail :
    (s : SnippetChain) (i : ℤ) (v : PoolBlock)
    → IsTrim s
    → s.height_blocks i ≡ some v
    → s.tail_height <ℤ i
above_tail s i v trim found = elim (Bool-cases (leb_ℤ i s.tail_height)) [
  | inl low ↦ absurd (ground (arith, trim i (ground (arith, low)), found))
  | inr high ↦ ground (arith, high)
]

module _ (head : ForkedChain → Option Block) (c : ForkedChain) (s : SnippetChain) where
  abbrev begins_at : Bool
  begins_at = (s.tail_height ==ℤ c.head_height) && (s.tail_hash == c.head_hash)

  at_head : begins_at ≡ true → forky_step (head c) c s ≡ (returns (ok (inserts c)), s)
  unfolding forky_step
  at_head e = ground (arith, e)

  too_high :
      begins_at ≡ false → c.head_height <ℤ s.tail_height → forky_step (head c) c s ≡ (goes_on, s)
  unfolding forky_step
  too_high e high = ground (arith, e, high)

  too_short :
      begins_at ≡ false
      → s.tail_height ≤ℤ c.head_height
      → s.head_height ≤ℤ c.head_height
      → forky_step (head c) c s ≡ (goes_on, s)
  unfolding forky_step
  too_short e low short = ground (arith, e, low, short)

  longer :
      (b : Block)
      → head c ≡ some b
      → begins_at ≡ false
      → s.tail_height ≤ℤ c.head_height
      → c.head_height <ℤ s.head_height
      → forky_step (head c) c s ≡ (
          if same_chain s b
          then after_cut c (cut_snippet s c.head_height)
          else after_search c (find_fork_point s c.height_blocks))
  unfolding forky_step
  longer b found e low long = ground (arith, found, e, low, long)

  longer-RoundOutcome :
      (b : Block)
      → IsWaiting s
      → block_height b ≡ c.head_height
      → block_hash b ≡ c.head_hash
      → c.head_height <ℤ s.head_height
      → RoundOutcome c (
          if same_chain s b
          then after_cut c (cut_snippet s c.head_height)
          else after_search c (find_fork_point s c.height_blocks))
  longer-RoundOutcome b waits h same long = elim (Bool-cases (same_chain s b)) [
    | inl e ↦
        let (v, found, met) = has_head_block s b e in
        let here : s.height_blocks c.head_height ≡ some v = ap s.height_blocks (sym h) ∙ found in
        let placed =
          cut_snippet-IsPlaced s c v waits (above_tail s c.head_height v waits.1.1 here)
            (omega (arith, long)) here (met ∙ same) in
        subst
          (λ x. RoundOutcome c (
            if x
            then after_cut c (cut_snippet s c.head_height)
            else after_search c (find_fork_point s c.height_blocks)))
          (sym e) (after_cut-RoundOutcome c (cut_snippet s c.head_height) placed)
    | inr e ↦
        let found = find_fork_point s c.height_blocks in
        subst
          (λ x. RoundOutcome c (
            if x
            then after_cut c (cut_snippet s c.head_height)
            else after_search c (find_fork_point s c.height_blocks)))
          (sym e)
          (after_search-RoundOutcome c found
            (find_fork_point-Outcome waits.0 c.height_blocks s waits.1.0)
            (find_fork_point-IsWaiting c.height_blocks s waits))
  ]

  pub forky_step-RoundOutcome :
      HasHead head c → IsWaiting s → RoundOutcome c (forky_step (head c) c s)
  forky_step-RoundOutcome (b, found, h, same) waits = elim (Bool-cases begins_at) [
    | inl e ↦
        let fits : Fits c s = ground (arith, e, eq_of_parts c.head_height s.tail_height) in
        subst (RoundOutcome c) (sym (at_head e)) (refl, (waits.0, (waits.1.0, fits)))
    | inr e ↦ elim (Bool-cases (leb_ℤ s.tail_height c.head_height)) [
      | inl low ↦ elim (Bool-cases (leb_ℤ s.head_height c.head_height)) [
        | inl short ↦
            subst (RoundOutcome c) (sym (too_short e (ground (arith, low)) (ground (arith, short))))
              waits
        | inr long ↦
            let is_longer : c.head_height <ℤ s.head_height = ground (arith, long) in
            subst (RoundOutcome c) (sym (longer b found e (ground (arith, low)) is_longer))
              (longer-RoundOutcome b waits h same is_longer)
      ]
      | inr high ↦ subst (RoundOutcome c) (sym (too_high e (ground (arith, high)))) waits
    ]
  ]

-- ===== src/Pool/Append/Place.antt =====
-- Where `forky` puts a snippet.
use naive_vite.Base.{
  ◌≡◌, sym, subst, refl, Option, none, some, List, [], ◌∷◌, arith, Result, ok, err, panic,
  Bool-cases, inl, inr, ◌⊎◌,
}
use naive_vite.Base.Int.{ℤ, ◌≤ℤ◌, ◌<ℤ◌, ◌==ℤ◌, leb_ℤ, ==ℤ_iff}
use naive_vite.Pool.Chain.{
  Block, block_height, PoolBlock, SnippetChain, ForkedChain, find_fork_point,
}
use naive_vite.Pool.Chain.Snippet.{IsFork, Outcome, find_fork_point-Outcome}
use naive_vite.Pool.Append.{
  settle, Verdict, forks, inserts, used_up, neither, Step, returns, goes_on, forky_step, forky_end,
  forky, after_search,
}
use naive_vite.Pool.Append.Round.{IsWaiting, find_fork_point-IsWaiting}
use naive_vite.Pool.Append.Decide.{
  goes_on_after_search, used_up_after_search, IsPlaced, RoundOutcome,
}
use naive_vite.Pool.Append.Choice.{HasHead, forky_step-RoundOutcome}

Step-cases :
    (r : Step × SnippetChain)
    → ((s : SnippetChain) × (r ≡ (goes_on, s)))
      ⊎ ((v : Result Verdict) × (s : SnippetChain) × (r ≡ (returns v, s)))
Step-cases (goes_on, s) = inl (s, refl)
Step-cases (returns v, s) = inr (v, s, refl)

abbrev pub Among : ForkedChain → List ForkedChain → Type 0
Among c [] = ⊥
Among c (d ∷ ds) = (c ≡ d) ⊎ Among c ds

-- The snippet parts from the chain `c`: by its own blocks, or, where `c` is the current chain, by all
-- blocks that `get` finds from it.
abbrev pub PartsFrom :
    ForkedChain → (ℤ → Option PoolBlock) → List ForkedChain → ForkedChain → SnippetChain → Type 0
PartsFrom current get cs c s =
    (p : PoolBlock) × ((Among c cs × IsFork c.height_blocks p s) ⊎ ((c ≡ current) × IsFork get p s))

module _ (current : ForkedChain) (get : ℤ → Option PoolBlock) where
  abbrev pub Placed : List ForkedChain → Result Verdict × SnippetChain → Type 0
  Placed cs (ok (inserts c), s) = Among c cs × IsPlaced c s
  Placed cs (ok (forks c), s) = PartsFrom current get cs c s
  Placed cs (ok used_up, s) = s.tail_height ≡ s.head_height
  Placed cs (ok neither, s) = IsWaiting s
  Placed cs (err e, s) = ⊥
  Placed cs (panic, s) = ⊥

  Placed-cons :
      (c : ForkedChain) (cs : List ForkedChain) (r : Result Verdict × SnippetChain)
      → Placed cs r
      → Placed (c ∷ cs) r
  Placed-cons c cs (ok (inserts d), s) (among, placed) = (inr among, placed)
  Placed-cons c cs (ok (forks d), s) (p, inl (among, fork)) = (p, inl (inr among, fork))
  Placed-cons c cs (ok (forks d), s) (p, inr fork) = (p, inr fork)
  Placed-cons c cs (ok used_up, s) up = up
  Placed-cons c cs (ok neither, s) waits = waits
  Placed-cons c cs (err e, s) bad = absurd bad
  Placed-cons c cs (panic, s) bad = absurd bad

  settled :
      (s : SnippetChain)
      → (settle (goes_on, s) ≡ (ok used_up, s)) × (s.tail_height ≡ s.head_height)
        ⊎ (settle (goes_on, s) ≡ (ok neither, s))
  unfolding settle
  settled s = elim (Bool-cases (s.head_height ==ℤ s.tail_height)) [
    | inl e ↦ inl (ground (arith, e), sym ((==ℤ_iff s.head_height s.tail_height).0 e))
    | inr e ↦ inr (ground (arith, e))
  ]

  settle-Placed : (s : SnippetChain) → IsWaiting s → Placed [] (settle (goes_on, s))
  settle-Placed s waits = elim (settled s) [
    | inl (e, up) ↦ subst (Placed []) (sym e) up
    | inr e ↦ subst (Placed []) (sym e) waits
  ]

  search-Placed :
      (found : Result (Option PoolBlock) × SnippetChain)
      → Outcome get found
      → IsWaiting found.1
      → Placed [] (settle (after_search current found))
  unfolding settle after_search
  search-Placed (ok (some p), s) fork waits = (p, inr (refl, fork))
  search-Placed (ok none, s) fork waits = elim (Bool-cases (s.head_height ==ℤ s.tail_height)) [
    | inl e ↦
        let same = (==ℤ_iff s.head_height s.tail_height).0 e in
        subst (λ r. Placed [] (settle r)) (sym (used_up_after_search current s same)) (sym same)
    | inr e ↦
        subst (λ r. Placed [] (settle r)) (sym (goes_on_after_search current s e))
          (settle-Placed s waits)
  ]
  search-Placed (err e, s) fork waits = absurd fork
  search-Placed (panic, s) fork waits = absurd fork

  RoundOutcome-Placed :
      (c : ForkedChain) (cs : List ForkedChain) (v : Result Verdict) (s : SnippetChain)
      → RoundOutcome c (returns v, s)
      → Placed (c ∷ cs) (v, s)
  RoundOutcome-Placed c cs (ok (inserts d)) s (same, placed) =
      (inl same, subst (λ x. IsPlaced x s) (sym same) placed)
  RoundOutcome-Placed c cs (ok (forks d)) s (same, p, fork) =
      (p, inl (inl same, subst (λ x. IsFork x.height_blocks p s) (sym same) fork))
  RoundOutcome-Placed c cs (ok used_up) s up = up
  RoundOutcome-Placed c cs (ok neither) s bad = absurd bad
  RoundOutcome-Placed c cs (err e) s bad = absurd bad
  RoundOutcome-Placed c cs panic s bad = absurd bad

  module _ (head : ForkedChain → Option Block) (top : Block) where
    leaves :
        (c : ForkedChain) (cs : List ForkedChain) (s s' : SnippetChain) (r : Result Verdict)
        → forky_step (head c) c s ≡ (returns r, s')
        → forky head (some top) current get (c ∷ cs) s ≡ (r, s')
    unfolding forky
    leaves c cs s s' r e = ground (arith, e)

    stays :
        (c : ForkedChain) (cs : List ForkedChain) (s s' : SnippetChain)
        → forky_step (head c) c s ≡ (goes_on, s')
        → forky head (some top) current get (c ∷ cs) s ≡ forky head (some top) current get cs s'
    unfolding forky
    stays c cs s s' e = ground (arith, e)

    searches :
        (s : SnippetChain)
        → s.tail_height ≤ℤ block_height top
        → forky_end (some top) current get s ≡ settle (after_search current (find_fork_point s get))
    unfolding forky_end
    searches s low = ground (arith, low)

    above_disk :
        (s : SnippetChain)
        → block_height top <ℤ s.tail_height
        → forky_end (some top) current get s ≡ settle (goes_on, s)
    unfolding forky_end
    above_disk s high = ground (arith, high)

    forky_end-Placed :
        (s : SnippetChain) → IsWaiting s → Placed [] (forky_end (some top) current get s)
    forky_end-Placed s waits = elim (Bool-cases (leb_ℤ s.tail_height (block_height top))) [
      | inl low ↦ subst (Placed []) (sym (searches s (ground (arith, low)))) (
          search-Placed (find_fork_point s get) (find_fork_point-Outcome waits.0 get s waits.1.0)
            (find_fork_point-IsWaiting get s waits))
      | inr high ↦
          subst (Placed []) (sym (above_disk s (ground (arith, high)))) (settle-Placed s waits)
    ]

    no_chains :
        (s : SnippetChain)
        → forky head (some top) current get [] s ≡ forky_end (some top) current get s
    unfolding forky
    no_chains s = refl

    -- Where the heads of the chains are known, `forky` never panics on a linked snippet, and says what
    -- is so. `inserts c`: what is left of the snippet is linked and begins at the head of `c`, one of
    -- the chains. `forks c`: `c` has the block at its tail, and another one just above. `used_up`: no
    -- block is left. `neither`: what is left is still linked, without blocks at or below its tail.
    pub forky-Placed :
        (cs : List ForkedChain) (s : SnippetChain)
        → ((c : ForkedChain) → Among c cs → HasHead head c)
        → IsWaiting s
        → Placed cs (forky head (some top) current get cs s)
    forky-Placed [] s heads waits = subst (Placed []) (sym (no_chains s)) (forky_end-Placed s waits)
    forky-Placed (c ∷ cs) s heads waits =
        let round = forky_step-RoundOutcome head c s (heads c (inl refl)) waits in
        elim (Step-cases (forky_step (head c) c s)) [
          | inl (s', e) ↦
              let rest =
                forky-Placed cs s' (λ d among. heads d (inr among))
                  (subst (RoundOutcome c) e round) in
              subst (Placed (c ∷ cs)) (sym (stays c cs s s' e))
                (Placed-cons c cs (forky head (some top) current get cs s') rest)
          | inr (v, s', e) ↦
              subst (Placed (c ∷ cs)) (sym (leaves c cs s s' v e))
                (RoundOutcome-Placed c cs v s' (subst (RoundOutcome c) e round))
        ]

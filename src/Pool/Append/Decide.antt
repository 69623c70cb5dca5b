-- ===== src/Pool/Append/Decide.antt =====
-- What each way out of a round of `forky` means.
use naive_vite.Base.{
  ℕ, suc, ◌+◌, ◌-◌, ◌≡◌, sym, subst, ◌∙◌, refl, Option, none, some, arith, Result, ok, err, panic,
  Bool-cases, inl, inr, ◌<◌, false,
}
use naive_vite.Base.Int.{ℤ, pos_part, neg_part, ◌-ℤ◌, ◌≤ℤ◌, ◌<ℤ◌, ◌==ℤ◌, ==ℤ_iff}
use naive_vite.Pool.Chain.{PoolBlock, hash, SnippetChain, ForkedChain, cut_snippet}
use naive_vite.Pool.Chain.Segment.{Linked-length}
use naive_vite.Pool.Chain.Insertion.{IsSnippet, Fits}
use naive_vite.Pool.Chain.Snippet.{IsFork, Outcome, cut_rounds-IsRest}
use naive_vite.Pool.Append.{
  forks, inserts, used_up, neither, Step, returns, goes_on, after_search, after_cut,
}
use naive_vite.Pool.Append.Round.{IsWaiting, cut_rounds-tail_hash}

-- The snippet is linked and begins at the head of the chain.
abbrev pub IsPlaced : ForkedChain → SnippetChain → Type 0
IsPlaced c s = (n : ℕ) × (IsSnippet n s × Fits c s)

abbrev pub RoundOutcome : ForkedChain → Step × SnippetChain → Type 0
RoundOutcome c (returns (ok (inserts d)), s) = (d ≡ c) × IsPlaced c s
RoundOutcome c (returns (ok (forks d)), s) = (d ≡ c) × (p : PoolBlock) × IsFork c.height_blocks p s
RoundOutcome c (returns (ok used_up), s) = s.tail_height ≡ s.head_height
RoundOutcome c (returns (ok neither), s) = ⊥
RoundOutcome c (returns (err e), s) = ⊥
RoundOutcome c (returns panic, s) = ⊥
RoundOutcome c (goes_on, s) = IsWaiting s

span : (a b : ℤ) → a ≤ℤ b → pos_part (b -ℤ a) + pos_part a + neg_part b ≡ pos_part b + neg_part a
unfolding ◌-ℤ◌
span a b low = ground arith

pub cut_snippet-IsPlaced :
    (s : SnippetChain) (c : ForkedChain) (v : PoolBlock)
    → IsWaiting s
    → s.tail_height <ℤ c.head_height
    → c.head_height ≤ℤ s.head_height
    → s.height_blocks c.head_height ≡ some v
    → hash v ≡ c.head_hash
    → IsPlaced c (cut_snippet s c.head_height)
unfolding cut_snippet
cut_snippet-IsPlaced s c v (t, (l, _)) above inside here same =
    let to = c.head_height in
    let n = pos_part (to -ℤ s.tail_height) - 1 in
    let count =
      Linked-length s.height_blocks t s.tail_height s.tail_hash s.head_height s.head_hash l in
    let room = span s.tail_height to (omega (arith, above)) in
    let whole = span s.tail_height s.head_height (omega (arith, above, inside)) in
    let m = suc (pos_part (s.head_height -ℤ s.tail_height)) in
    let enough : n < m = omega (arith, above, inside, count, room, whole) in
    let fits : t ≡ suc n + (t - suc n) = omega (arith, above, inside, count, room, whole) in
    let gap : pos_part s.tail_height + neg_part to + suc n ≡ pos_part to + neg_part s.tail_height =
      omega (arith, above, room) in
    let (rest, tail_is, _, _) = cut_rounds-IsRest n (t - suc n) t m s to fits l enough gap in
    let hash_is =
      cut_rounds-tail_hash n m s to t v (omega (arith, above, inside, count, room, whole)) l enough
        gap here in
    (t - suc n, (rest, (sym tail_is, sym (hash_is ∙ same))))

used_up_after_cut :
    (c : ForkedChain) (s : SnippetChain)
    → s.head_height ≡ s.tail_height
    → after_cut c s ≡ (returns (ok used_up), s)
unfolding after_cut
used_up_after_cut c s e = ground (arith, (==ℤ_iff s.head_height s.tail_height).1 e)

placed_after_cut :
    (c : ForkedChain) (s : SnippetChain)
    → (s.head_height ==ℤ s.tail_height) ≡ false
    → after_cut c s ≡ (returns (ok (inserts c)), s)
unfolding after_cut
placed_after_cut c s e = ground (arith, e)

pub after_cut-RoundOutcome :
    (c : ForkedChain) (s : SnippetChain) → IsPlaced c s → RoundOutcome c (after_cut c s)
after_cut-RoundOutcome c s placed = elim (Bool-cases (s.head_height ==ℤ s.tail_height)) [
  | inl e ↦
      let same = (==ℤ_iff s.head_height s.tail_height).0 e in
      subst (RoundOutcome c) (sym (used_up_after_cut c s same)) (sym same)
  | inr e ↦ subst (RoundOutcome c) (sym (placed_after_cut c s e)) (refl, placed)
]

pub used_up_after_search :
    (c : ForkedChain) (s : SnippetChain)
    → s.head_height ≡ s.tail_height
    → after_search c (ok none, s) ≡ (returns (ok used_up), s)
unfolding after_search
used_up_after_search c s e = ground (arith, (==ℤ_iff s.head_height s.tail_height).1 e)

pub goes_on_after_search :
    (c : ForkedChain) (s : SnippetChain)
    → (s.head_height ==ℤ s.tail_height) ≡ false
    → after_search c (ok none, s) ≡ (goes_on, s)
unfolding after_search
goes_on_after_search c s e = ground (arith, e)

forks_after_search :
    (c : ForkedChain) (p : PoolBlock) (s : SnippetChain)
    → after_search c (ok (some p), s) ≡ (returns (ok (forks c)), s)
unfolding after_search
forks_after_search c p s = refl

pub after_search-RoundOutcome :
    (c : ForkedChain) (found : Result (Option PoolBlock) × SnippetChain)
    → Outcome c.height_blocks found
    → IsWaiting found.1
    → RoundOutcome c (after_search c found)
after_search-RoundOutcome c (ok (some p), s) fork waits =
    subst (RoundOutcome c) (sym (forks_after_search c p s)) (refl, p, fork)
after_search-RoundOutcome c (ok none, s) fork waits =
    elim (Bool-cases (s.head_height ==ℤ s.tail_height)) [
      | inl e ↦
          let same = (==ℤ_iff s.head_height s.tail_height).0 e in
          subst (RoundOutcome c) (sym (used_up_after_search c s same)) (sym same)
      | inr e ↦ subst (RoundOutcome c) (sym (goes_on_after_search c s e)) waits
    ]
after_search-RoundOutcome c (err e, s) fork waits = absurd fork
after_search-RoundOutcome c (panic, s) fork waits = absurd fork

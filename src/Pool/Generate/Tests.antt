-- ===== src/Pool/Generate/Tests.antt =====
-- The second block and the third, which meet in one snippet.
use naive_vite.Base.{
  ℕ, ◌≡◌, refl, ap, sym, subst, some, [], ◌∷◌, ◌⊎◌, inl, inr, ◌==◌, if◌then◌else◌, Table, lookup,
  insert, remove, arith, Bool-cases,
}
use naive_vite.Base.Int.{ℤ, pos, ◌-ℤ◌}
use naive_vite.Types.{Hash, AccountStateBlock}
use naive_vite.Samples.{second}
use naive_vite.Pool.Chain.{PoolBlock, account_block, SnippetChain, init_snippet, merge}
use naive_vite.Pool.Generate.{Objects, merge_loop, merge_rounds}
use naive_vite.Pool.Generate.Sound.{IsSound, init_snippet-IsSound}
use naive_vite.Pool.Generate.Merge.{IsConsistent, Consistent, merge_loop-Consistent}

abbrev third : AccountStateBlock
third = record second { height = pos 2; hash = 102; pre_hash = 101 }

abbrev waiting : AccountStateBlock → PoolBlock
waiting b = record { block = account_block b; fork_version = pos 0 }

abbrev at : Hash → ℤ
at h = if h == 100 then pos 0 else (if h == 101 then pos 1 else pos 2)

abbrev heads : Table ℕ
heads = (102, 2) ∷ (101, 1) ∷ []

abbrev two : Objects
two = (1, init_snippet 1 (waiting second)) ∷ (2, init_snippet 2 (waiting third)) ∷ []

second-IsSound : IsSound at (init_snippet 1 (waiting second))
unfolding ◌-ℤ◌
second-IsSound = init_snippet-IsSound at 1 (waiting second) (refl, refl)

third-IsSound : IsSound at (init_snippet 2 (waiting third))
unfolding ◌-ℤ◌
third-IsSound = init_snippet-IsSound at 2 (waiting third) (refl, refl)

two_cases :
    (id : ℕ) (c : SnippetChain)
    → lookup id two ≡ some c
    → ((id ≡ 1) × (init_snippet 1 (waiting second) ≡ c))
      ⊎ ((id ≡ 2) × (init_snippet 2 (waiting third) ≡ c))
unfolding lookup
two_cases id c found = elim (Bool-cases (1 == id)) [
  | inl one ↦ inl (ground (arith, one), ground (arith, one, found))
  | inr not_one ↦ elim (Bool-cases (2 == id)) [
    | inl other ↦ inr (ground (arith, other), ground (arith, not_one, other, found))
    | inr neither ↦ absurd (ground (arith, not_one, neither, found))
  ]
]

heads_cases :
    (h : Hash) (id : ℕ) → lookup h heads ≡ some id → ((h ≡ 102) × (id ≡ 2)) ⊎ ((h ≡ 101) × (id ≡ 1))
unfolding lookup
heads_cases h id found = ground (arith, found)

two-IsConsistent : IsConsistent at heads two
unfolding init_snippet
two-IsConsistent = record {
  sound = λ id. λ c. λ found. elim (two_cases id c found) [
    | inl (_, e) ↦ subst (IsSound at) e second-IsSound
    | inr (_, e) ↦ subst (IsSound at) e third-IsSound
  ];
  heads = λ h. λ id. λ c. λ named. λ found. elim (two_cases id c found) [
    | inl (one, e) ↦ ground (arith, one, heads_cases h id named, ap (λ s. s.head_hash) (sym e))
    | inr (other, e) ↦ ground (arith, other, heads_cases h id named, ap (λ s. s.head_hash) (sym e))
  ];
}

merged : (merge_loop (1 ∷ 2 ∷ []) heads two).0 ≡ (102, 2) ∷ []
unfolding merge_loop merge_rounds merge init_snippet lookup insert remove ◌-ℤ◌
merged = refl

merge_loop-Consistent_example : Consistent at (merge_loop (1 ∷ 2 ∷ []) heads two)
merge_loop-Consistent_example = merge_loop-Consistent at (1 ∷ 2 ∷ []) heads two two-IsConsistent

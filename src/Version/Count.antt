-- ===== src/Version/Count.antt =====
-- No call of `Inc` is lost.
use naive_vite.Base.{
  set, ◌≢◌, All, ◌≤◌, ℕ, zero, suc, ◌+◌, ◌%◌, ◌≡◌, ◌<◌, refl, ◌∙◌, inl, inr, some, List, [], ◌∷◌,
  ◌==◌, Option-cases, Bool-cases, get_elem?, arith,
}
use naive_vite.Version.{next, compare_and_swap, Place, reads, swaps, Run, step, run}

-- From `s` to `t` the counter has gone up by the calls that have returned.
abbrev Counts : Run → Run → Type 0
Counts s t = (n : ℕ) × (t.returned ≡ s.returned + n) × (t.version ≡ (s.version + n) % 4294967296)

step-Counts : (s : Run) (k : ℕ) → s.version < 4294967296 → Counts s (step s k)
unfolding step next compare_and_swap
step-Counts s k small = elim (Option-cases (get_elem? s.places k)) [
  | inl e ↦ (0, ground (arith, e), ground (arith, e, small))
  | inr (reads, e) ↦ (0, ground (arith, e), ground (arith, e, small))
  | inr (swaps i, e) ↦ elim (Bool-cases (s.version == i)) [
    | inl h ↦ (1, ground (arith, e, h), ground (arith, e, h))
    | inr h ↦ (0, ground (arith, e, h), ground (arith, e, h, small))
  ]
]

-- Whatever the order in which goroutines read and swap the counter: its bits have gone up, modulo
-- 2 ^ 32, by just the number of calls of Inc that have returned.
pub run-Counts :
    (s : Run) (ks : List ℕ)
    → s.version < 4294967296
    → (n : ℕ) × ((run s ks).returned ≡ s.returned + n)
      × ((run s ks).version ≡ (s.version + n) % 4294967296)
unfolding run
run-Counts s [] small = (0, omega arith, omega (arith, small))
run-Counts s (k ∷ ks) small =
    let (n, r, v) = step-Counts s k small in
    let (m, r', v') = run-Counts (step s k) ks (omega (arith, v)) in
    (n + m, omega (arith, r, r'), omega (arith, v, v'))

get-set_other :
    (ps : List Place) (j k : ℕ) (v : Place) → j ≢ k → get_elem? (set ps j v) k ≡ get_elem? ps k
get-set_other [] j k v ne = refl
get-set_other (p ∷ ps) zero zero v ne = absurd (ne refl)
get-set_other (p ∷ ps) zero (suc k) v ne = refl
get-set_other (p ∷ ps) (suc j) zero v ne = refl
get-set_other (p ∷ ps) (suc j) (suc k) v ne = get-set_other ps j k v (λ e. ne (omega (arith, e)))

step-place : (s : Run) (j k : ℕ) → j ≢ k → get_elem? (step s j).places k ≡ get_elem? s.places k
unfolding step compare_and_swap
step-place s j k ne = elim (Option-cases (get_elem? s.places j)) [
  | inl e ↦ ground (arith, e)
  | inr (reads, e) ↦ ground (arith, e, get-set_other s.places j k (swaps s.version) ne)
  | inr (swaps i, e) ↦ ground (arith, e, get-set_other s.places j k reads ne)
]

run-place :
    (s : Run) (ks : List ℕ) (k : ℕ)
    → All (λ j. j ≢ k) ks
    → get_elem? (run s ks).places k ≡ get_elem? s.places k
unfolding run
run-place s [] k others = refl
run-place s (j ∷ ks) k (ne, others) = run-place (step s j) ks k others ∙ step-place s j k ne

swap_returns :
    (s : Run) (k i : ℕ)
    → get_elem? s.places k ≡ some (swaps i)
    → s.version ≡ i
    → (step s k).returned ≡ suc s.returned
unfolding step compare_and_swap
swap_returns s k i e f = ground (arith, e, f)

step-returned : (s : Run) (k : ℕ) → s.returned ≤ (step s k).returned
unfolding step compare_and_swap
step-returned s k = elim (Option-cases (get_elem? s.places k)) [
  | inl e ↦ ground (arith, e)
  | inr (reads, e) ↦ ground (arith, e)
  | inr (swaps i, e) ↦ ground (arith, e)
]

-- Inc is lock-free: between a goroutine's read of the counter and its swap, and whatever the others
-- do in the meantime, at least one call of Inc returns, its own or another's.
pub run-step_returned :
    (s : Run) (ks : List ℕ) (k : ℕ)
    → s.version < 4294967296
    → get_elem? s.places k ≡ some (swaps s.version)
    → All (λ j. j ≢ k) ks
    → s.returned < (step (run s ks) k).returned
run-step_returned s ks k small at others =
    let (n, r, v) = run-Counts s ks small in
    let there : get_elem? (run s ks).places k ≡ some (swaps s.version) =
      run-place s ks k others ∙ at in
    elim (Bool-cases (n == 0)) [
      | inr some_other ↦
          let some_n : 0 < n = ground (arith, some_other) in
          omega (arith, r, step-returned (run s ks) k, some_n)
      | inl none_other ↦
          let zero_n : n ≡ 0 = ground (arith, none_other) in
          let same : (run s ks).version ≡ s.version = omega (arith, v, zero_n, small) in
          omega (arith, r, swap_returns (run s ks) k s.version there same)
    ]

-- ===== src/Pool/Append/Round.antt =====
-- What a round of `forky` decides.
use naive_vite.Base.{
  ℕ, zero, suc, ◌+◌, ◌≡◌, sym, ap, subst, ◌∙◌, Option, none, some, ◌==◌, arith, ok, Option-cases,
  Bool-cases, inl, inr, ◌<◌, false,
}
use naive_vite.Base.Int.{
  +ℤ_parts, ℤ, pos, pos_part, neg_part, ◌+ℤ◌, ◌≤ℤ◌, ◌<ℤ◌, ◌==ℤ◌, int_laws, eq_of_parts,
}
use naive_vite.Pool.Chain.{
  PoolBlock, height, hash, SnippetChain, delete_tail, cut_rounds, fork_rounds, find_fork_point,
}
use naive_vite.Pool.Chain.Segment.{Linked-length, delete_other}
use naive_vite.Pool.Chain.Insertion.{IsSnippet}
use naive_vite.Pool.Chain.Snippet.{
  cut_step, delete_tail-IsSnippet, fork_step, missing_step, no_tail, tail_after, tail_hash_after,
}

-- A snippet has no block at its tail or below.
abbrev pub IsTrim : SnippetChain → Type 0
IsTrim s = (h : ℤ) → h ≤ℤ s.tail_height → s.height_blocks h ≡ none

-- A snippet as the pool keeps it.
abbrev pub IsWaiting : SnippetChain → Type 0
IsWaiting s = (n : ℕ) × (IsSnippet n s × IsTrim s)

below :
    (s : SnippetChain) (w : PoolBlock) (i : ℤ)
    → height w ≡ s.tail_height +ℤ pos 1
    → i ≤ℤ height w
    → (i ==ℤ height w) ≡ false
    → i ≤ℤ s.tail_height
below s w i h low other =
    ground (arith, +ℤ_parts s.tail_height (pos 1), ap pos_part h, ap neg_part h, low, other)

delete_tail-IsTrim :
    (s : SnippetChain) (w : PoolBlock)
    → height w ≡ s.tail_height +ℤ pos 1
    → IsTrim s
    → IsTrim (delete_tail s w)
unfolding delete_tail
delete_tail-IsTrim s w h trim i low = elim (Bool-cases (i ==ℤ height w)) [
  | inl same ↦ ground (arith, same)
  | inr other ↦ ground (arith, other, trim i (below s w i h low other))
]

-- What the search leaves of a snippet is a snippet still.
fork_rounds-IsWaiting :
    (n : ℕ) (get : ℤ → Option PoolBlock) (s : SnippetChain) (p : PoolBlock)
    → IsSnippet n s
    → IsTrim s
    → IsWaiting (fork_rounds n get (s.tail_height +ℤ pos 1) s p).1
unfolding fork_rounds
fork_rounds-IsWaiting zero get s p l trim = (0, (l, trim))
fork_rounds-IsWaiting (suc n) get s p (w, at, h, pl, l) trim =
    elim (Option-cases (get (s.tail_height +ℤ pos 1))) [
      | inl e ↦
          subst (λ r. IsWaiting r.1) (sym (missing_step n get s p e))
            (suc n, ((w, at, h, pl, l), trim))
      | inr (uncle, e) ↦ elim (Bool-cases (hash w == hash uncle)) [
        | inl met ↦
            let next =
              fork_rounds-IsWaiting n get (delete_tail s w) w (delete_tail-IsSnippet n s w h l)
                (delete_tail-IsTrim s w h trim) in
            let go : fork_rounds (suc n) get (s.tail_height +ℤ pos 1) s p
                ≡ fork_rounds n get ((delete_tail s w).tail_height +ℤ pos 1) (delete_tail s w) w =
              ground (
                arith,
                fork_step n get s p uncle w e at,
                met,
                ap (λ i. i +ℤ pos 1) (tail_after s w ∙ h),
              ) in
            subst (λ r. IsWaiting r.1) (sym go) next
        | inr differs ↦
            let stop : fork_rounds (suc n) get (s.tail_height +ℤ pos 1) s p ≡ (ok (some p), s) =
              ground (arith, fork_step n get s p uncle w e at, differs) in
            subst (λ r. IsWaiting r.1) (sym stop) (suc n, ((w, at, h, pl, l), trim))
      ]
    ]

pub find_fork_point-IsWaiting :
    (get : ℤ → Option PoolBlock) (s : SnippetChain)
    → IsWaiting s
    → IsWaiting (find_fork_point s get).1
unfolding find_fork_point
find_fork_point-IsWaiting get s (n, (l, trim)) = elim (Option-cases (get s.tail_height)) [
  | inl e ↦ subst (λ r. IsWaiting r.1) (sym (no_tail get s e)) (n, (l, trim))
  | inr (q, e) ↦ elim (Bool-cases (hash q == s.tail_hash)) [
    | inl met ↦
        let count =
          Linked-length s.height_blocks n s.tail_height s.tail_hash s.head_height s.head_hash l in
        let search : find_fork_point s get ≡ fork_rounds n get (s.tail_height +ℤ pos 1) s q =
          ground (arith, e, met, count) in
        subst (λ r. IsWaiting r.1) (sym search) (fork_rounds-IsWaiting n get s q l trim)
    | inr differs ↦
        let stop : find_fork_point s get ≡ (ok none, s) = ground (arith, e, differs) in
        subst (λ r. IsWaiting r.1) (sym stop) (n, (l, trim))
  ]
]

kept_above :
    (s : SnippetChain) (w : PoolBlock) (i : ℤ)
    → height w <ℤ i
    → (delete_tail s w).height_blocks i ≡ s.height_blocks i
unfolding delete_tail
kept_above s w i high = delete_other s.height_blocks (height w) i high

-- A snippet that has the block `v` at the height `to` is cut to what lies above that block.
pub cut_rounds-tail_hash :
    (n m : ℕ) (s : SnippetChain) (to : ℤ) (t : ℕ) (v : PoolBlock)
    → n < t
    → IsSnippet t s
    → n < m
    → pos_part s.tail_height + neg_part to + suc n ≡ pos_part to + neg_part s.tail_height
    → s.height_blocks to ≡ some v
    → (cut_rounds m s to).tail_hash ≡ hash v
cut_rounds-tail_hash n zero s to t v fits l enough e here = absurd (omega (arith, enough))
cut_rounds-tail_hash n (suc m) s to zero v fits l enough e here = absurd (omega (arith, fits))
cut_rounds-tail_hash zero (suc m) s to (suc t) v fits (w, at, h, p, l) enough e here =
    let low : to ≤ℤ height w = omega (int_laws, ap pos_part h, ap neg_part h) in
    let same : s.tail_height +ℤ pos 1 ≡ to =
      eq_of_parts (s.tail_height +ℤ pos 1) to (omega int_laws) in
    let cut : cut_rounds (suc m) s to ≡ delete_tail s w =
      ground (arith, cut_step m s to w at, low) in
    let block : some w ≡ some v = sym at ∙ ap s.height_blocks same ∙ here in
    ap (λ r. r.tail_hash) cut ∙ tail_hash_after s w ∙ ground (arith, block)
cut_rounds-tail_hash (suc n) (suc m) s to (suc t) v fits (w, at, h, p, l) enough e here =
    let high : height w <ℤ to = omega (int_laws, ap pos_part h, ap neg_part h) in
    let go : cut_rounds (suc m) s to ≡ cut_rounds m (delete_tail s w) to =
      ground (arith, cut_step m s to w at, high) in
    let tail_is = tail_after s w ∙ h in
    ap (λ r. r.tail_hash) go
    ∙ cut_rounds-tail_hash n m (delete_tail s w) to t v (omega (arith, fits))
        (delete_tail-IsSnippet t s w h l) (omega (arith, enough))
        (omega (int_laws, e, ap pos_part tail_is, ap neg_part tail_is))
        (kept_above s w to high ∙ here)

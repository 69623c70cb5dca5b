-- ===== src/Pool/Chain/Snippet.antt =====
-- Cutting a snippet, and where it forks off another chain.
use naive_vite.Base.{
  ℕ, zero, suc, ◌+◌, ◌≡◌, ◌≢◌, sym, ap, subst, ◌∙◌, refl, Option, none, some, ◌==◌, if◌then◌else◌,
  delete, arith, Result, ok, panic, Option-cases, Bool-cases, inl, inr, ◌⊎◌, ◌<◌, err,
}
use naive_vite.Base.Int.{
  ℤ, pos, pos_part, neg_part, ◌+ℤ◌, ◌-ℤ◌, ◌≤ℤ◌, ◌<ℤ◌, ◌==ℤ◌, leb_ℤ, int_laws, eq_of_parts,
}
use naive_vite.Pool.Chain.{
  PoolBlock, height, hash, SnippetChain, delete_tail, rem_tail, cut_rounds, cut_snippet,
  fork_rounds, find_fork_point,
}
use naive_vite.Pool.Chain.Segment.{Linked, Linked-length, Linked-change, delete_other}
use naive_vite.Pool.Chain.Insertion.{IsSnippet}

pub delete_tail-IsSnippet :
    (n : ℕ) (s : SnippetChain) (w : PoolBlock)
    → height w ≡ s.tail_height +ℤ pos 1
    → Linked s.height_blocks n (s.tail_height +ℤ pos 1) (hash w) s.head_height s.head_hash
    → IsSnippet n (delete_tail s w)
unfolding delete_tail
delete_tail-IsSnippet n s w h l =
    Linked-change s.height_blocks (delete ◌==ℤ◌ s.height_blocks (height w)) n (height w) (hash w)
      s.head_height s.head_hash (λ j low high. delete_other s.height_blocks (height w) j low)
      (subst (λ k. Linked s.height_blocks n k (hash w) s.head_height s.head_hash) (sym h) l)

-- What is left of the snippet `s` from the height `to` on.
abbrev pub IsRest : ℕ → SnippetChain → ℤ → SnippetChain → Type 0
IsRest n s to s' =
    IsSnippet n s'
    × (s'.tail_height ≡ to)
    × (s'.head_height ≡ s.head_height)
    × (s'.head_hash ≡ s.head_hash)

pub cut_step :
    (n : ℕ) (s : SnippetChain) (to : ℤ) (w : PoolBlock)
    → s.height_blocks (s.tail_height +ℤ pos 1) ≡ some w
    → cut_rounds (suc n) s to
      ≡ (if leb_ℤ to (height w) then delete_tail s w else cut_rounds n (delete_tail s w) to)
unfolding cut_rounds rem_tail
cut_step n s to w at = ground (arith, at)

pub tail_after : (s : SnippetChain) (w : PoolBlock) → (delete_tail s w).tail_height ≡ height w
unfolding delete_tail
tail_after s w = refl

pub tail_hash_after : (s : SnippetChain) (w : PoolBlock) → (delete_tail s w).tail_hash ≡ hash w
unfolding delete_tail
tail_hash_after s w = refl

pub head_after :
    (s : SnippetChain) (w : PoolBlock)
    → ((delete_tail s w).head_height ≡ s.head_height) × ((delete_tail s w).head_hash ≡ s.head_hash)
unfolding delete_tail
head_after s w = (refl, refl)

-- `n + 1` blocks go, and `k` stay.
pub cut_rounds-IsRest :
    (n k t m : ℕ) (s : SnippetChain) (to : ℤ)
    → t ≡ suc n + k
    → IsSnippet t s
    → n < m
    → pos_part s.tail_height + neg_part to + suc n ≡ pos_part to + neg_part s.tail_height
    → IsRest k s to (cut_rounds m s to)
cut_rounds-IsRest n k zero m s to count l enough e = absurd (omega (arith, count))
cut_rounds-IsRest n k (suc t) zero s to count l enough e = absurd (omega arith)
cut_rounds-IsRest zero k (suc t) (suc m) s to count (w, at, h, p, l) enough e =
    let low : to ≤ℤ height w = omega (int_laws, ap pos_part h, ap neg_part h) in
    let same : height w ≡ to =
      eq_of_parts (height w) to (omega (int_laws, ap pos_part h, ap neg_part h)) in
    let cut : cut_rounds (suc m) s to ≡ delete_tail s w =
      ground (arith, cut_step m s to w at, low) in
    let l' =
      subst
        (λ j. Linked s.height_blocks j (s.tail_height +ℤ pos 1) (hash w) s.head_height s.head_hash)
        (omega (arith, count)) l in
    subst (IsRest k s to) (sym cut) (
      delete_tail-IsSnippet k s w h l',
      tail_after s w ∙ same,
      (head_after s w).0,
      (head_after s w).1,
    )
cut_rounds-IsRest (suc n) k (suc t) (suc m) s to count (w, at, h, p, l) enough e =
    let high : height w <ℤ to = omega (int_laws, ap pos_part h, ap neg_part h) in
    let go : cut_rounds (suc m) s to ≡ cut_rounds m (delete_tail s w) to =
      ground (arith, cut_step m s to w at, high) in
    let tail_is = tail_after s w ∙ h in
    let (rest, at_to, at_head, at_hash) =
      cut_rounds-IsRest n k t m (delete_tail s w) to (omega (arith, count))
        (delete_tail-IsSnippet t s w h l) (omega (arith, enough))
        (omega (int_laws, e, ap pos_part tail_is, ap neg_part tail_is)) in
    subst (IsRest k s to) (sym go)
      (rest, at_to, at_head ∙ (head_after s w).0, at_hash ∙ (head_after s w).1)

-- Cutting a snippet of `n + 1 + k` linked blocks at the height of its `n + 1`st takes just those
-- `n + 1` away: what is left begins at that height and ends where the snippet ended.
pub cut_snippet-IsRest :
    (n k : ℕ) (s : SnippetChain)
    → IsSnippet (suc n + k) s
    → IsRest k s (s.tail_height +ℤ pos (suc n)) (cut_snippet s (s.tail_height +ℤ pos (suc n)))
unfolding cut_snippet
cut_snippet-IsRest n k s l =
    let count =
      Linked-length s.height_blocks (suc n + k) s.tail_height s.tail_hash s.head_height s.head_hash
        l in
    cut_rounds-IsRest n k (suc n + k) (suc (pos_part (s.head_height -ℤ s.tail_height))) s
      (s.tail_height +ℤ pos (suc n)) refl l (omega (arith, count)) (omega int_laws)

-- The chain that is read and the snippet agree at the snippet's tail and differ just above it.
abbrev pub IsFork : (ℤ → Option PoolBlock) → PoolBlock → SnippetChain → Type 0
IsFork get p s =
    (n : ℕ) × IsSnippet (suc n) s
    × (hash p ≡ s.tail_hash)
    × (q : PoolBlock) × (get s.tail_height ≡ some q)
    × (hash q ≡ s.tail_hash)
    × (uncle : PoolBlock) × (w : PoolBlock) × (get (s.tail_height +ℤ pos 1) ≡ some uncle)
    × (s.height_blocks (s.tail_height +ℤ pos 1) ≡ some w)
    × (hash w ≢ hash uncle)

-- Nothing to fork: the chain has no block, or another one, at the snippet's tail; it has none just
-- above it; or no block of the snippet is left.
abbrev pub IsNoFork : (ℤ → Option PoolBlock) → SnippetChain → Type 0
IsNoFork get s =
    (get s.tail_height ≡ none)
    ⊎ ((q : PoolBlock) × (get s.tail_height ≡ some q) × (hash q ≢ s.tail_hash))
    ⊎ (get (s.tail_height +ℤ pos 1) ≡ none)
    ⊎ IsSnippet 0 s

abbrev pub Outcome : (ℤ → Option PoolBlock) → Result (Option PoolBlock) × SnippetChain → Type 0
Outcome get (ok none, s) = IsNoFork get s
Outcome get (ok (some p), s) = IsFork get p s
Outcome get (err e, s) = ⊥
Outcome get (panic, s) = ⊥

pub fork_step :
    (n : ℕ) (get : ℤ → Option PoolBlock) (s : SnippetChain) (p uncle w : PoolBlock)
    → get (s.tail_height +ℤ pos 1) ≡ some uncle
    → s.height_blocks (s.tail_height +ℤ pos 1) ≡ some w
    → fork_rounds (suc n) get (s.tail_height +ℤ pos 1) s p ≡ (
        if hash w == hash uncle
        then fork_rounds n get (s.tail_height +ℤ pos 1 +ℤ pos 1) (delete_tail s w) w
        else (ok (some p), s))
unfolding fork_rounds
fork_step n get s p uncle w e at = ground (arith, e, at)

pub missing_step :
    (n : ℕ) (get : ℤ → Option PoolBlock) (s : SnippetChain) (p : PoolBlock)
    → get (s.tail_height +ℤ pos 1) ≡ none
    → fork_rounds (suc n) get (s.tail_height +ℤ pos 1) s p ≡ (ok none, s)
unfolding fork_rounds
missing_step n get s p e = ground (arith, e)

fork_rounds-Outcome :
    (n : ℕ) (get : ℤ → Option PoolBlock) (s : SnippetChain) (p q : PoolBlock)
    → IsSnippet n s
    → hash p ≡ s.tail_hash
    → get s.tail_height ≡ some q
    → hash q ≡ s.tail_hash
    → Outcome get (fork_rounds n get (s.tail_height +ℤ pos 1) s p)
unfolding fork_rounds
fork_rounds-Outcome zero get s p q l agree found same = inr (inr (inr l))
fork_rounds-Outcome (suc n) get s p q (w, at, h, pl, l) agree found same =
    elim (Option-cases (get (s.tail_height +ℤ pos 1))) [
      | inl e ↦ subst (Outcome get) (sym (missing_step n get s p e)) (inr (inr (inl e)))
      | inr (uncle, e) ↦ elim (Bool-cases (hash w == hash uncle)) [
        | inl met ↦
            let next =
              fork_rounds-Outcome n get (delete_tail s w) w uncle (delete_tail-IsSnippet n s w h l)
                (sym (tail_hash_after s w)) (ap get (tail_after s w ∙ h) ∙ e)
                (ground (arith, met, tail_hash_after s w)) in
            let go : fork_rounds (suc n) get (s.tail_height +ℤ pos 1) s p
                ≡ fork_rounds n get ((delete_tail s w).tail_height +ℤ pos 1) (delete_tail s w) w =
              ground (
                arith,
                fork_step n get s p uncle w e at,
                met,
                ap (λ i. i +ℤ pos 1) (tail_after s w ∙ h),
              ) in
            subst (Outcome get) (sym go) next
        | inr differs ↦
            let stop : fork_rounds (suc n) get (s.tail_height +ℤ pos 1) s p ≡ (ok (some p), s) =
              ground (arith, fork_step n get s p uncle w e at, differs) in
            subst (Outcome get) (sym stop) (
              n,
              (w, at, h, pl, l),
              agree,
              q,
              found,
              same,
              uncle,
              w,
              e,
              at,
              ground (arith, differs),
            )
      ]
    ]

pub no_tail :
    (get : ℤ → Option PoolBlock) (s : SnippetChain)
    → get s.tail_height ≡ none
    → find_fork_point s get ≡ (ok none, s)
unfolding find_fork_point
no_tail get s e = ground (arith, e)

-- The search for a fork of a linked snippet never panics. A fork point that it finds is the last
-- block that the chain and the snippet share: the snippet is cut to what lies above it, which is
-- not empty and stays linked, and whose first block differs from the chain's. It finds none only
-- if the chain has no block or another one at the tail that is left, has none just above it, or
-- has all of the snippet.
pub find_fork_point-Outcome :
    (n : ℕ) (get : ℤ → Option PoolBlock) (s : SnippetChain)
    → IsSnippet n s
    → Outcome get (find_fork_point s get)
unfolding find_fork_point
find_fork_point-Outcome n get s l = elim (Option-cases (get s.tail_height)) [
  | inl e ↦ subst (Outcome get) (sym (no_tail get s e)) (inl e)
  | inr (q, e) ↦ elim (Bool-cases (hash q == s.tail_hash)) [
    | inl met ↦
        let count =
          Linked-length s.height_blocks n s.tail_height s.tail_hash s.head_height s.head_hash l in
        let search : find_fork_point s get ≡ fork_rounds n get (s.tail_height +ℤ pos 1) s q =
          ground (arith, e, met, count) in
        subst (Outcome get) (sym search)
          (fork_rounds-Outcome n get s q q l (ground arith) e (ground arith))
    | inr differs ↦
        let stop : find_fork_point s get ≡ (ok none, s) = ground (arith, e, differs) in
        subst (Outcome get) (sym stop) (inr (inl (q, e, ground (arith, differs))))
  ]
]

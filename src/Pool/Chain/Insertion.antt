-- ===== src/Pool/Chain/Insertion.antt =====
-- Putting blocks and snippets on a forked chain.
use naive_vite.Base.{
  ℕ, zero, suc, ◌+◌, ◌≡◌, sym, ap, subst, ◌∙◌, refl, some, store, delete, arith, Result, ok, err,
  fork_chain, Result-cases, inl, inr,
}
use naive_vite.Base.Int.{ℤ, pos, pos_part, neg_part, ◌+ℤ◌, ◌==ℤ◌, int_laws, ==ℤ_iff}
use naive_vite.Pool.Chain.{
  PoolBlock, height, hash, pre_hash, ForkedChain, SnippetChain, insert_block, insert_rounds,
  insert_snippet, add_head,
}
use naive_vite.Pool.Chain.Segment.{
  Linked-length, next_inj, Linked, Linked-change, Linked-snoc, outside, store_here, delete_other,
}

-- The chain holds `n` linked blocks from its tail to its head.
abbrev pub IsChain : ℕ → ForkedChain → Type 0
IsChain n c = Linked c.height_blocks n c.tail_height c.tail_hash c.head_height c.head_hash

abbrev pub IsSnippet : ℕ → SnippetChain → Type 0
IsSnippet n s = Linked s.height_blocks n s.tail_height s.tail_hash s.head_height s.head_hash

add_head-IsChain :
    (n : ℕ) (c : ForkedChain) (w : PoolBlock)
    → height w ≡ c.head_height +ℤ pos 1
    → c.head_hash ≡ pre_hash w
    → IsChain n c
    → IsChain (suc n) (add_head c w)
unfolding add_head
add_head-IsChain n c w h p l =
    let m = store ◌==ℤ◌ c.height_blocks (height w) w in
    let kept =
      Linked-change c.height_blocks m n c.tail_height c.tail_hash c.head_height c.head_hash
        (λ i low high. outside c.height_blocks w i (omega (int_laws, ap pos_part h, ap neg_part h)))
        l in
    let put : m (c.head_height +ℤ pos 1) ≡ some w =
      store_here c.height_blocks w (c.head_height +ℤ pos 1) (sym h) in
    subst (λ k. Linked m (suc n) c.tail_height c.tail_hash k (hash w)) (sym h)
      (Linked-snoc m n c.tail_height c.tail_hash c.head_height c.head_hash w kept put h (sym p))

insert_block_cases :
    (c c' : ForkedChain) (w : PoolBlock)
    → insert_block c w ≡ ok c'
    → (height w ≡ c.head_height +ℤ pos 1) × (c.head_hash ≡ pre_hash w) × (c' ≡ add_head c w)
unfolding insert_block
insert_block_cases c c' w e = ground (arith, ==ℤ_iff (height w) (c.head_height +ℤ pos 1))

-- `insert` takes exactly the blocks that link to the head of the chain, and a chain of `n` linked
-- blocks becomes one of `n + 1`.
pub insert_block-IsChain :
    (n : ℕ) (c c' : ForkedChain) (w : PoolBlock)
    → IsChain n c
    → insert_block c w ≡ ok c'
    → IsChain (suc n) c'
insert_block-IsChain n c c' w l e =
    let (h, p, same) = insert_block_cases c c' w e in
    subst (IsChain (suc n)) (sym same) (add_head-IsChain n c w h p l)

add_head_ends :
    (c : ForkedChain) (w : PoolBlock)
    → ((add_head c w).head_height ≡ height w) × ((add_head c w).head_hash ≡ hash w)
unfolding add_head
add_head_ends c w = (refl, refl)

abbrev after : SnippetChain → PoolBlock → ℤ → SnippetChain
after s w i = record s {
  height_blocks = delete ◌==ℤ◌ s.height_blocks i;
  tail_height = height w;
  tail_hash = hash w;
}

-- The chain ends where the snippet begins.
abbrev pub Fits : ForkedChain → SnippetChain → Type 0
Fits c s = (c.head_height ≡ s.tail_height) × (c.head_hash ≡ s.tail_hash)

insert_fitting :
    (c : ForkedChain) (s : SnippetChain) (w : PoolBlock)
    → Fits c s
    → height w ≡ s.tail_height +ℤ pos 1
    → pre_hash w ≡ s.tail_hash
    → insert_block c w ≡ ok (add_head c w)
unfolding insert_block
insert_fitting c s w (at_height, at_hash) h p =
    ground (arith, h ∙ ap (λ t. t +ℤ pos 1) (sym at_height), at_hash ∙ sym p)

after-IsSnippet :
    (n : ℕ) (s : SnippetChain) (w : PoolBlock)
    → height w ≡ s.tail_height +ℤ pos 1
    → Linked s.height_blocks n (s.tail_height +ℤ pos 1) (hash w) s.head_height s.head_hash
    → IsSnippet n (after s w (s.tail_height +ℤ pos 1))
after-IsSnippet n s w h l =
    let i = s.tail_height +ℤ pos 1 in
    subst (λ k. Linked (delete ◌==ℤ◌ s.height_blocks i) n k (hash w) s.head_height s.head_hash)
      (sym h)
      (Linked-change s.height_blocks (delete ◌==ℤ◌ s.height_blocks i) n i (hash w) s.head_height
        s.head_hash (λ j low high. delete_other s.height_blocks i j low) l)

-- What the chain and the snippet are once all of the snippet is on the chain.
abbrev pub IsMoved :
    ℕ → ForkedChain → SnippetChain → ForkedChain × SnippetChain × Result (Unit {0}) → Type 0
IsMoved n c s r =
    (r.2 ≡ ok tt)
    × IsChain n r.0
    × IsSnippet 0 r.1
    × (r.0.head_height ≡ s.head_height)
    × (r.0.head_hash ≡ s.head_hash)
    × (r.0.tail_height ≡ c.tail_height)
    × (r.0.tail_hash ≡ c.tail_hash)

insert_step :
    (n : ℕ) (c : ForkedChain) (s : SnippetChain) (w : PoolBlock)
    → s.height_blocks (s.tail_height +ℤ pos 1) ≡ some w
    → insert_block c w ≡ ok (add_head c w)
    → height w ≡ s.tail_height +ℤ pos 1
    → insert_rounds (suc n) (s.tail_height +ℤ pos 1) c s
      ≡ insert_rounds n (height w +ℤ pos 1) (add_head c w) (after s w (s.tail_height +ℤ pos 1))
unfolding insert_rounds
insert_step n c s w at e h = ground (arith, at, e, ap (λ i. i +ℤ pos 1) h)

insert_rounds-IsMoved :
    (n k t : ℕ) (c : ForkedChain) (s : SnippetChain)
    → n + k ≡ t
    → IsChain k c
    → IsSnippet n s
    → Fits c s
    → IsMoved t c s (insert_rounds n (s.tail_height +ℤ pos 1) c s)
unfolding insert_rounds add_head
insert_rounds-IsMoved zero k t c s count chain snippet (at_height, at_hash) = (
  refl,
  subst (λ x. IsChain x c) (omega (arith, count)) chain,
  snippet,
  at_height ∙ snippet.0,
  at_hash ∙ snippet.1,
  refl,
  refl,
)
insert_rounds-IsMoved (suc n) k t c s count chain (w, at, h, p, l) fits =
    let c' = add_head c w in
    let s' = after s w (s.tail_height +ℤ pos 1) in
    let linked =
      add_head-IsChain k c w (h ∙ ap (λ t. t +ℤ pos 1) (sym fits.0)) (fits.1 ∙ sym p) chain in
    let rest =
      insert_rounds-IsMoved n (suc k) t c' s' (omega (arith, count)) linked
        (after-IsSnippet n s w h l) (add_head_ends c w) in
    subst (IsMoved t c s) (sym (insert_step n c s w at (insert_fitting c s w fits h p) h)) rest

-- A snippet of `n` linked blocks that begins where a chain of `k` linked blocks ends is put on it
-- whole: the chain then has `n + k` linked blocks from its old tail to the snippet's head, and the
-- snippet is used up.
pub insert_snippet-IsMoved :
    (n k : ℕ) (c : ForkedChain) (s : SnippetChain)
    → IsChain k c
    → IsSnippet n s
    → Fits c s
    → IsMoved (n + k) c s (insert_snippet c s)
unfolding insert_snippet
insert_snippet-IsMoved n k c s chain snippet fits =
    subst (λ m. IsMoved (n + k) c s (insert_rounds m (s.tail_height +ℤ pos 1) c s))
      (sym (
        Linked-length s.height_blocks n s.tail_height s.tail_hash s.head_height s.head_hash
          snippet))
      (insert_rounds-IsMoved n k (n + k) c s refl chain snippet fits)

unfitting :
    (c : ForkedChain) (s : SnippetChain) (w : PoolBlock)
    → ¬ (Fits c s)
    → height w ≡ s.tail_height +ℤ pos 1
    → pre_hash w ≡ s.tail_hash
    → insert_block c w ≡ err fork_chain
unfolding insert_block
unfitting c s w misfit h p = elim (Result-cases (insert_block c w)) [
  | inl (c', e) ↦
      let (at, link, same) = insert_block_cases c c' w e in
      absurd (misfit (next_inj c.head_height s.tail_height (sym at ∙ h), link ∙ p))
  | inr (inl (x, e)) ↦ ground arith
  | inr (inr e) ↦ absurd (ground arith)
]

-- A linked snippet with a block that does not begin where the chain ends is refused, and neither
-- the chain nor the snippet is changed.
pub insert_snippet_refused :
    (n : ℕ) (c : ForkedChain) (s : SnippetChain)
    → IsSnippet (suc n) s
    → ¬ (Fits c s)
    → insert_snippet c s ≡ (c, s, err fork_chain)
unfolding insert_snippet insert_rounds
insert_snippet_refused n c s (w, at, h, p, l) misfit =
    let count =
      Linked-length s.height_blocks (suc n) s.tail_height s.tail_hash s.head_height s.head_hash
        (w, at, h, p, l) in
    let refused = unfitting c s w misfit h p in ground (arith, count, at, refused)

-- ===== src/Pool/Generate/Merge.antt =====
-- The loops of loopGenSnippetChains keep snippets sound.
use naive_vite.Base.{
  ℕ, zero, suc, ◌≡◌, refl, ap, sym, subst, ◌∙◌, some, List, [], ◌∷◌, ◌++◌, All, true, false, ◌⊎◌,
  inl, inr, ◌==◌, ◌&&◌, if◌then◌else◌, Table, lookup, insert, remove, lookup-insert, lookup-remove,
  length, arith, Bool-cases, Option-cases,
}
use naive_vite.Base.Int.{ℤ, ltb_ℤ}
use naive_vite.Types.{Hash}
use naive_vite.Pool.Chain.{
  PoolBlock, hash, height, SnippetChain, init_snippet, add_snippet_tail, merge, try_insert,
}
use naive_vite.Pool.Generate.{BlockPool, put_compound, gen_loop, Objects, merge_rounds, merge_loop}
use naive_vite.Pool.Generate.Sound.{
  IsLocated, IsSound, init_snippet-IsSound, add_snippet_tail-IsSound, merge-IsSound, merged_ends,
}

All-snoc {ℓ κ} :
    {A : Type ℓ} (P : A → Type κ) (xs : List A) (x : A) → All P xs → P x → All P (xs ++ (x ∷ []))
All-snoc P [] x all px = (px, tt)
All-snoc P (y ∷ ys) x (py, all) px = (py, All-snoc P ys x all px)

module _ (at : Hash → ℤ) where
  -- Three ways for the first snippet.
  put_first :
      (c : SnippetChain) (cs : List SnippetChain) (w : PoolBlock)
      → (c.tail_hash == hash w) ≡ true
      → (try_insert (c ∷ cs) w).1 ≡ add_snippet_tail c w ∷ cs
  unfolding try_insert
  put_first c cs w e = ground (arith, e)

  not_first :
      (c : SnippetChain) (cs : List SnippetChain) (w : PoolBlock)
      → (c.tail_hash == hash w) ≡ false
      → ((try_insert (c ∷ cs) w).1 ≡ c ∷ cs) ⊎ ((try_insert (c ∷ cs) w).1 ≡ c ∷ (try_insert cs w).1)
  unfolding try_insert
  not_first c cs w e =
      elim (Bool-cases (ltb_ℤ (height w) c.head_height && ltb_ℤ c.tail_height (height w))) [
        | inl inside ↦ inl (ground (arith, e, inside))
        | inr outside ↦ inr (ground (arith, e, outside))
      ]

  no_snippet : (w : PoolBlock) → (try_insert [] w).1 ≡ []
  unfolding try_insert
  no_snippet w = refl

  try_insert-IsSound :
      (cs : List SnippetChain) (w : PoolBlock)
      → All (IsSound at) cs
      → IsLocated at w
      → All (IsSound at) (try_insert cs w).1
  try_insert-IsSound [] w sound located = subst (All (IsSound at)) (sym (no_snippet w)) tt
  try_insert-IsSound (c ∷ cs) w (sc, sound) located = elim (Bool-cases (c.tail_hash == hash w)) [
    | inl met ↦
        subst (All (IsSound at)) (sym (put_first c cs w met))
          (add_snippet_tail-IsSound at c w sc located (ground (arith, met)), sound)
    | inr apart ↦ elim (not_first c cs w apart) [
      | inl e ↦ subst (All (IsSound at)) (sym e) (sc, sound)
      | inr e ↦ subst (All (IsSound at)) (sym e) (sc, try_insert-IsSound cs w sound located)
    ]
  ]

  -- Taking free blocks that stand at the heights of their hashes into sound snippets leaves every snippet
  -- sound.
  pub gen_loop-IsSound :
      (vs : List PoolBlock) (cs : List SnippetChain) (idx : ℕ) (p : BlockPool)
      → All (IsLocated at) vs
      → All (IsSound at) cs
      → All (IsSound at) (gen_loop vs cs idx p).0
  unfolding gen_loop
  gen_loop-IsSound [] cs idx p located sound = sound
  gen_loop-IsSound (v ∷ vs) cs idx p (here, located) sound =
      let cs' = (try_insert cs v).1 in
      let sound' = try_insert-IsSound cs v sound here in
      elim (Bool-cases (try_insert cs v).0) [
        | inl taken ↦
            subst
              (λ b.
                All (IsSound at)
                  (if b
                    then gen_loop vs cs' idx (put_compound v p)
                    else gen_loop vs (cs' ++ (init_snippet (suc idx) v ∷ [])) (suc idx)
                        (put_compound v p)).0)
              (sym taken) (gen_loop-IsSound vs cs' idx (put_compound v p) located sound')
        | inr new ↦
            subst
              (λ b.
                All (IsSound at)
                  (if b
                    then gen_loop vs cs' idx (put_compound v p)
                    else gen_loop vs (cs' ++ (init_snippet (suc idx) v ∷ [])) (suc idx)
                        (put_compound v p)).0)
              (sym new)
              (gen_loop-IsSound vs (cs' ++ (init_snippet (suc idx) v ∷ [])) (suc idx)
                (put_compound v p) located
                (All-snoc (IsSound at) cs' (init_snippet (suc idx) v) sound'
                  (init_snippet-IsSound at (suc idx) v here)))
      ]

  -- Every snippet is sound, and the map names a snippet under the hash of its head.
  pub record IsConsistent (head_map : Table ℕ) (objs : Objects) : Type 0 where
    pub sound : (id : ℕ) (c : SnippetChain) → lookup id objs ≡ some c → IsSound at c
    pub heads :
        (h : Hash) (id : ℕ) (c : SnippetChain)
        → lookup h head_map ≡ some id
        → lookup id objs ≡ some c
        → c.head_hash ≡ h

  inserted :
      (id i : ℕ) (m x : SnippetChain) (objs : Objects)
      → lookup i (insert id m objs) ≡ some x
      → ((x ≡ m) × (id ≡ i)) ⊎ (lookup i objs ≡ some x)
  inserted id i m x objs found = elim (Bool-cases (id == i)) [
    | inl same ↦
        let e : some m ≡ some x = sym (lookup-insert id i m objs ∙ ground (arith, same)) ∙ found in
        inl (ground (arith, e), ground (arith, same))
    | inr apart ↦ inr (sym (lookup-insert id i m objs ∙ ground (arith, apart)) ∙ found)
  ]

  removed :
      (h k : Hash) (i : ℕ) (head_map : Table ℕ)
      → lookup h (remove k head_map) ≡ some i
      → lookup h head_map ≡ some i
  removed h k i head_map named = ground (arith, lookup-remove k h head_map, named)

  merged-IsConsistent :
      (head_map : Table ℕ) (objs : Objects) (id other : ℕ) (c d : SnippetChain)
      → IsConsistent head_map objs
      → lookup id objs ≡ some c
      → lookup c.tail_hash head_map ≡ some other
      → lookup other objs ≡ some d
      → IsConsistent (remove c.tail_hash head_map) (insert id (merge c d) objs)
  merged-IsConsistent head_map objs id other c d known at_id at_tail at_other =
      let met : c.tail_hash ≡ d.head_hash =
        sym (known.heads c.tail_hash other d at_tail at_other) in
      record {
        sound = λ i. λ x. λ found. elim (inserted id i (merge c d) x objs found) [
          | inl (e, _) ↦
              subst (IsSound at) (sym e)
                (merge-IsSound at c d (known.sound id c at_id) (known.sound other d at_other) met)
          | inr old ↦ known.sound i x old
        ];
        heads = λ h. λ i. λ x. λ named. λ found.
            let named' = removed h c.tail_hash i head_map named in
            elim (inserted id i (merge c d) x objs found) [
              | inl (e, same) ↦
                  ap (λ y. y.head_hash) e
                  ∙ (merged_ends at c d).3
                  ∙ known.heads h id c (named' ∙ ap some (sym same)) at_id
              | inr old ↦ known.heads h i x named' old
            ];
      }

  -- A round either ends or merges two snippets.
  round_cases :
      (n id : ℕ) (head_map : Table ℕ) (objs : Objects)
      → (merge_rounds (suc n) id head_map objs ≡ (head_map, objs))
        ⊎ ((c : SnippetChain) × (other : ℕ) × (d : SnippetChain) × (lookup id objs ≡ some c)
            × (lookup c.tail_hash head_map ≡ some other)
            × (lookup other objs ≡ some d)
            × (merge_rounds (suc n) id head_map objs
                ≡ merge_rounds n id (remove c.tail_hash head_map) (insert id (merge c d) objs)))
  unfolding merge_rounds
  round_cases n id head_map objs = elim (Option-cases (lookup id objs)) [
    | inl e ↦ inl (ground (arith, e))
    | inr (c, e) ↦ elim (Option-cases (lookup c.tail_hash head_map)) [
      | inl f ↦ inl (ground (arith, e, f))
      | inr (other, f) ↦ elim (Option-cases (lookup other objs)) [
        | inl g ↦ inl (ground (arith, e, f, g))
        | inr (d, g) ↦ elim (Bool-cases (id == other)) [
          | inl same ↦ inl (ground (arith, e, f, g, same))
          | inr apart ↦ inr (c, other, d, e, f, g, ground (arith, e, f, g, apart))
        ]
      ]
    ]
  ]

  abbrev pub Consistent : Table ℕ × Objects → Type 0
  Consistent (head_map, objs) = IsConsistent head_map objs

  no_round :
      (id : ℕ) (head_map : Table ℕ) (objs : Objects)
      → merge_rounds zero id head_map objs ≡ (head_map, objs)
  unfolding merge_rounds
  no_round id head_map objs = refl

  merge_rounds-Consistent :
      (n id : ℕ) (head_map : Table ℕ) (objs : Objects)
      → IsConsistent head_map objs
      → Consistent (merge_rounds n id head_map objs)
  merge_rounds-Consistent zero id head_map objs known =
      subst Consistent (sym (no_round id head_map objs)) known
  merge_rounds-Consistent (suc n) id head_map objs known = elim (round_cases n id head_map objs) [
    | inl e ↦ subst Consistent (sym e) known
    | inr (c, other, d, e, f, g, run) ↦ subst Consistent (sym run) (
        merge_rounds-Consistent n id (remove c.tail_hash head_map) (insert id (merge c d) objs)
          (merged-IsConsistent head_map objs id other c d known e f g))
  ]

  -- Where every snippet has just linked blocks from its tail to its head, with both ends at the
  -- heights of their hashes, and the map of heads names each snippet under the hash of its head, the
  -- merging of snippets that meet keeps both so.
  pub merge_loop-Consistent :
      (ids : List ℕ) (head_map : Table ℕ) (objs : Objects)
      → IsConsistent head_map objs
      → Consistent (merge_loop ids head_map objs)
  unfolding merge_loop
  merge_loop-Consistent [] head_map objs known = known
  merge_loop-Consistent (id ∷ ids) head_map objs known =
      let r = merge_rounds (length head_map) id head_map objs in
      merge_loop-Consistent ids r.0 r.1
        (merge_rounds-Consistent (length head_map) id head_map objs known)

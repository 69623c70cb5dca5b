-- ===== src/Pool/Generate/Sound.antt =====
-- Snippets whose blocks are linked and at the heights that their hashes stand for.
use naive_vite.Base.{ℕ, zero, suc, ◌≡◌, refl, ap, sym, subst, ◌∙◌, none, some, store, arith}
use naive_vite.Base.Int.{
  ℤ, pos, pos_part, neg_part, ◌+ℤ◌, ◌-ℤ◌, ◌≤ℤ◌, ◌<ℤ◌, ◌==ℤ◌, int_laws, eq_of_parts,
}
use naive_vite.Types.{Hash}
use naive_vite.Pool.Chain.{
  PoolBlock, Blocks, height, hash, pre_hash, SnippetChain, init_snippet, add_snippet_tail, merge,
}
use naive_vite.Pool.Chain.Segment.{
  Linked, Linked-change, Linked-get, Linked-count, outside, store_here,
}
use naive_vite.Pool.Chain.Insertion.{IsSnippet}

pub Linked-append :
    (m : Blocks) (n k : ℕ) (t h h' : ℤ) (x y z : Hash)
    → Linked m n t x h y
    → Linked m k h y h' z
    → (j : ℕ) × Linked m j t x h' z
Linked-append m zero k t h h' x y z (e, f) l =
    (k, subst (λ i. Linked m k i x h' z) (sym e) (subst (λ u. Linked m k h u h' z) (sym f) l))
Linked-append m (suc n) k t h h' x y z (w, at, is_height, p, l) l' =
    let (j, rest) = Linked-append m n k (t +ℤ pos 1) h h' (hash w) y z l l' in
    (suc j, (w, at, is_height, p, rest))

stored_above :
    (m : Blocks) (w : PoolBlock) (i : ℤ) → height w <ℤ i → store ◌==ℤ◌ m (height w) w i ≡ m i
stored_above m w i high = ground (arith, high)

module _ (at : Hash → ℤ) where
  -- A block stands at the height of its hash, and the one before it just below.
  abbrev pub IsLocated : PoolBlock → Type 0
  IsLocated w = (height w ≡ at (hash w)) × (height w -ℤ pos 1 ≡ at (pre_hash w))

  -- Just the heights above the tail up to the head have blocks, which are linked, and both ends are at
  -- the heights of their hashes.
  pub record IsSound (s : SnippetChain) : Type 0 where
    pub count : ℕ
    pub linked : IsSnippet count s
    pub below : (h : ℤ) → h ≤ℤ s.tail_height → s.height_blocks h ≡ none
    pub above : (h : ℤ) → s.head_height <ℤ h → s.height_blocks h ≡ none
    pub tail_at : s.tail_height ≡ at s.tail_hash
    pub head_at : s.head_height ≡ at s.head_hash

  tail_low : (s : SnippetChain) → IsSound s → s.tail_height ≤ℤ s.head_height
  tail_low s sound = omega (
    arith,
    Linked-count s.height_blocks sound.count s.tail_height s.tail_hash s.head_height s.head_hash
        sound.linked,
  )

  pub init_snippet-IsSound : (id : ℕ) (w : PoolBlock) → IsLocated w → IsSound (init_snippet id w)
  unfolding init_snippet
  init_snippet-IsSound id w (here, before) =
      let next : height w ≡ height w -ℤ pos 1 +ℤ pos 1 =
        eq_of_parts (height w) (height w -ℤ pos 1 +ℤ pos 1) (omega int_laws) in
      record {
        count = 1;
        linked = (
          w,
          store_here (λ _. none) w (height w -ℤ pos 1 +ℤ pos 1) (sym next),
          next,
          refl,
          (sym next, refl),
        );
        below = λ h. λ low. outside (λ _. none) w h (omega (int_laws, low));
        above = λ h. λ high. ground (arith, high);
        tail_at = before;
        head_at = here;
      }

  pub add_snippet_tail-IsSound :
      (s : SnippetChain) (w : PoolBlock)
      → IsSound s
      → IsLocated w
      → s.tail_hash ≡ hash w
      → IsSound (add_snippet_tail s w)
  unfolding add_snippet_tail
  add_snippet_tail-IsSound s w sound (here, before) met =
      let same : s.tail_height ≡ height w = sound.tail_at ∙ ap at met ∙ sym here in
      let next : height w ≡ height w -ℤ pos 1 +ℤ pos 1 =
        eq_of_parts (height w) (height w -ℤ pos 1 +ℤ pos 1) (omega int_laws) in
      let m = store ◌==ℤ◌ s.height_blocks (height w) w in
      let kept =
        Linked-change s.height_blocks m sound.count s.tail_height s.tail_hash s.head_height
          s.head_hash
          (λ i low high.
            stored_above s.height_blocks w i
              (omega (arith, low, ap pos_part same, ap neg_part same)))
          sound.linked in
      let rest =
        subst (λ t. Linked m sound.count t (hash w) s.head_height s.head_hash) (same ∙ next)
          (subst (λ x. Linked m sound.count s.tail_height x s.head_height s.head_hash) met kept) in
      let long = tail_low s sound in
      record {
        count = suc sound.count;
        linked = (
          w,
          store_here s.height_blocks w (height w -ℤ pos 1 +ℤ pos 1) (sym next),
          next,
          refl,
          rest,
        );
        below = λ h. λ low.
            outside s.height_blocks w h (omega (int_laws, low))
            ∙ sound.below h (omega (int_laws, low, ap pos_part same, ap neg_part same));
        above = λ h. λ high.
            stored_above s.height_blocks w h
              (omega (arith, high, long, ap pos_part same, ap neg_part same))
            ∙ sound.above h high;
        tail_at = before;
        head_at = sound.head_at;
      }

  overlay_none :
      (c d : SnippetChain) (h : ℤ)
      → d.height_blocks h ≡ none
      → (merge c d).height_blocks h ≡ c.height_blocks h
  unfolding merge
  overlay_none c d h e = ground (arith, e)

  overlay_some :
      (c d : SnippetChain) (h : ℤ) (w : PoolBlock)
      → d.height_blocks h ≡ some w
      → (merge c d).height_blocks h ≡ d.height_blocks h
  unfolding merge
  overlay_some c d h w e = ground (arith, e)

  merged_blocks :
      (c d : SnippetChain)
      → IsSound c
      → IsSound d
      → c.tail_hash ≡ d.head_hash
      → (j : ℕ) × Linked
          (merge c d).height_blocks
          j
          d.tail_height
          d.tail_hash
          c.head_height
          c.head_hash
  merged_blocks c d sc sd met =
      let m = (merge c d).height_blocks in
      let meet : c.tail_height ≡ d.head_height = sc.tail_at ∙ ap at met ∙ sym sd.head_at in
      let low_part =
        Linked-change d.height_blocks m sd.count d.tail_height d.tail_hash d.head_height d.head_hash
          (λ i low high.
            let (w, found, _) =
              Linked-get d.height_blocks sd.count d.tail_height d.tail_hash d.head_height
                d.head_hash i sd.linked low high in
            overlay_some c d i w found)
          sd.linked in
      let high_part =
        Linked-change c.height_blocks m sc.count c.tail_height c.tail_hash c.head_height c.head_hash
          (λ i low high.
            overlay_none c d i
              (sd.above i (omega (arith, low, ap pos_part meet, ap neg_part meet))))
          sc.linked in
      let moved =
        subst (λ t. Linked m sc.count t d.head_hash c.head_height c.head_hash) meet
          (subst (λ x. Linked m sc.count c.tail_height x c.head_height c.head_hash) met
            high_part) in
      Linked-append m sd.count sc.count d.tail_height d.head_height c.head_height d.tail_hash
        d.head_hash c.head_hash low_part moved

  pub merged_ends :
      (c d : SnippetChain)
      → ((merge c d).tail_height ≡ d.tail_height)
        × ((merge c d).tail_hash ≡ d.tail_hash)
        × ((merge c d).head_height ≡ c.head_height)
        × ((merge c d).head_hash ≡ c.head_hash)
  unfolding merge
  merged_ends c d = (refl, refl, refl, refl)

  merged-Linked :
      (c d : SnippetChain) (j : ℕ)
      → Linked (merge c d).height_blocks j d.tail_height d.tail_hash c.head_height c.head_hash
      → IsSnippet j (merge c d)
  unfolding merge
  merged-Linked c d j l = l

  pub merge-IsSound :
      (c d : SnippetChain) → IsSound c → IsSound d → c.tail_hash ≡ d.head_hash → IsSound (merge c d)
  merge-IsSound c d sc sd met =
      let meet : c.tail_height ≡ d.head_height = sc.tail_at ∙ ap at met ∙ sym sd.head_at in
      let (j, blocks) = merged_blocks c d sc sd met in
      let (tail_is, tail_hash_is, head_is, head_hash_is) = merged_ends c d in
      let low_d = tail_low d sd in
      let low_c = tail_low c sc in
      record {
        count = j;
        linked = merged-Linked c d j blocks;
        below = λ h. λ low.
            let under : h ≤ℤ d.tail_height =
              omega (arith, low, ap pos_part tail_is, ap neg_part tail_is) in
            overlay_none c d h (sd.below h under)
            ∙ sc.below h (omega (arith, under, low_d, ap pos_part meet, ap neg_part meet));
        above = λ h. λ high.
            let over : c.head_height <ℤ h =
              omega (arith, high, ap pos_part head_is, ap neg_part head_is) in
            overlay_none c d h
              (sd.above h (omega (arith, over, low_c, ap pos_part meet, ap neg_part meet)))
            ∙ sc.above h over;
        tail_at = tail_is ∙ sd.tail_at ∙ ap at (sym tail_hash_is);
        head_at = head_is ∙ sc.head_at ∙ ap at (sym head_hash_is);
      }

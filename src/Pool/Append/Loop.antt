-- ===== src/Pool/Append/Loop.antt =====
-- The whole of `loopAppendChains`.
use naive_vite.Base.{
  ℕ, suc, ◌≡◌, sym, ap, subst, ◌∙◌, refl, Option, some, List, [], ◌∷◌, ◌++◌, if◌then◌else◌, Result,
  ok, err, panic, inl, inr, arith, All, All-insert, Table, insert, remove, Bool, true, false,
  Result-cases,
}
use naive_vite.Base.Int.{ℤ, ==ℤ_iff}
use naive_vite.Pool.Chain.{Block, PoolBlock, SnippetChain, ForkedChain, insert_snippet}
use naive_vite.Pool.Chain.Insertion.{IsSnippet}
use naive_vite.Pool.Disk.{ChainRw, ChainPool, disk_head}
use naive_vite.Pool.Refer.{chain_at, get_block, head_block, put_chain}
use naive_vite.Pool.Append.{
  Verdict, forks, inserts, used_up, neither, forky, pool_forky, fork_chain, replace, append_step,
  append_loop,
}
use naive_vite.Pool.Append.Choice.{HasHead}
use naive_vite.Pool.Append.Round.{IsWaiting}
use naive_vite.Pool.Append.Place.{PartsFrom, Among, Placed, forky-Placed}
use naive_vite.Pool.Append.Good.{IsGood, IsGood-HasHead, insert_snippet-IsGood}
use naive_vite.Pool.Append.Sound.{
  IsSound, Grows, with_snippets, with_snippets-IsSound, removed-IsSound, put_chain-IsSound,
  put_chain-Grows,
}
use naive_vite.Pool.Append.Forked.{new, with_new, fork_chain-IsSound, fork_chain-Grows}

module _ {S : Type 0} (rw : ChainRw S) (version : ℤ) where
  pool_forky_known :
      (p : ChainPool S) (cs : List ForkedChain) (s : SnippetChain) (b : Block)
      → disk_head rw p.disk ≡ ok (some b)
      → pool_forky rw version p cs s
        ≡ forky (head_block rw version p) (some b) p.current (get_block rw version p p.current) cs s
  unfolding pool_forky
  pool_forky_known p cs s b e = ground (arith, e)

  module _ (p : ChainPool S) (cs : List ForkedChain) (s s' : SnippetChain) where
    step_forks :
        (c : ForkedChain)
        → pool_forky rw version p cs s ≡ (ok (forks c), s')
        → append_step rw version p cs s ≡ (
            let (q, new) = fork_chain rw version p c s' in
            ok (
              with_snippets rw version q (remove s.chain_id q.snippet_chains),
              cs ++ (new ∷ []),
              true,
            ))
    unfolding append_step
    step_forks c e = ground (arith, e)

    step_inserts :
        (c : ForkedChain)
        → pool_forky rw version p cs s ≡ (ok (inserts c), s')
        → (insert_snippet c s').2 ≡ ok tt
        → IsSnippet 0 (insert_snippet c s').1
        → append_step rw version p cs s ≡ (
            let c' = (insert_snippet c s').0 in
            let q = put_chain p c' in
            ok (
              with_snippets rw version q (remove s.chain_id q.snippet_chains),
              replace c' cs,
              true,
            ))
    unfolding append_step
    step_inserts c e done empty =
        let same =
          (==ℤ_iff (insert_snippet c s').1.tail_height (insert_snippet c s').1.head_height).1
            empty.0 in
        ground (arith, e, done, same)

    step_used_up :
        pool_forky rw version p cs s ≡ (ok used_up, s')
        → append_step rw version p cs s
          ≡ ok (with_snippets rw version p (remove s.chain_id p.snippet_chains), cs, false)
    unfolding append_step
    step_used_up e = ground (arith, e)

    step_neither :
        pool_forky rw version p cs s ≡ (ok neither, s')
        → append_step rw version p cs s
          ≡ ok (with_snippets rw version p (insert s.chain_id s' p.snippet_chains), cs, false)
    unfolding append_step
    step_neither e = ground (arith, e)

  forking :
      (current : ForkedChain) (get : ℤ → Option PoolBlock) (cs : List ForkedChain) (c : ForkedChain)
      (s : SnippetChain)
      → PartsFrom current get cs c s
      → (n : ℕ) × IsSnippet (suc n) s
  forking current get cs c s (p, inl (among, fork)) = (fork.0, fork.1)
  forking current get cs c s (p, inr (same, fork)) = (fork.0, fork.1)

  Grows-with_snippets :
      (p q : ChainPool S) (snippets : Table SnippetChain)
      → Grows p q
      → Grows p (with_snippets rw version q snippets)
  unfolding chain_at
  Grows-with_snippets p q snippets grows = grows

  Grows-refl : (p : ChainPool S) → Grows p p
  Grows-refl p = (omega arith, λ id c low at. (c, at, (refl, refl, omega arith)))

  Grows-trans : (p q r : ChainPool S) → Grows p q → Grows q r → Grows p r
  Grows-trans p q r (idx, first) (idx', second) = (
    omega (arith, idx, idx'),
    λ id c low at.
        let (d, at_d, g) = first id c low at in
        let (e, at_e, h) = second id d (omega (arith, low, idx)) at_d in
        (e, at_e, (h.0 ∙ g.0, h.1 ∙ g.1, omega (arith, g.2, h.2))),
  )

  -- A round does not fail, keeps the invariant and loses no chain.
  abbrev Goes : S → ChainPool S → Result (ChainPool S × List ForkedChain × Bool) → Type 0
  Goes state p (ok (q, cs, placed)) = IsSound rw version state q cs × Grows p q
  Goes state p (err e) = ⊥
  Goes state p panic = ⊥

  removed-Goes :
      (state : S) (p q : ChainPool S) (cs : List ForkedChain) (k : ℕ) (placed : Bool)
      → IsSound rw version state q cs
      → Grows p q
      → Goes state p (ok (with_snippets rw version q (remove k q.snippet_chains), cs, placed))
  removed-Goes state p q cs k placed sound grows = (
    removed-IsSound rw version state q cs k sound,
    Grows-with_snippets p q (remove k q.snippet_chains) grows,
  )

  -- A round by the verdict of `forky`.
  by_verdict :
      (state : S) (p : ChainPool S) (cs : List ForkedChain) (s s' : SnippetChain)
      (v : Result Verdict)
      → IsSound rw version state p cs
      → pool_forky rw version p cs s ≡ (v, s')
      → Placed p.current (get_block rw version p p.current) cs (v, s')
      → Goes state p (append_step rw version p cs s)
  by_verdict state p cs s s' (ok (forks c)) sound e parts =
      let (n, l) = forking p.current (get_block rw version p p.current) cs c s' parts in
      subst (Goes state p) (sym (step_forks p cs s s' c e)) (
        removed-Goes state p (with_new rw version state p cs c s')
          (cs ++ (new rw version state p cs c s' ∷ [])) s.chain_id true
          (fork_chain-IsSound rw version state p cs c s' n sound l)
          (fork_chain-Grows rw version state p cs c s' sound.ids.0))
  by_verdict state p cs s s' (ok (inserts c)) sound e (among, placed) =
      let (done, good, empty, grown) =
        insert_snippet-IsGood rw version state c s' (sound.tried c among) placed in
      let c' = (insert_snippet c s').0 in
      subst (Goes state p) (sym (step_inserts p cs s s' c e done empty)) (
        removed-Goes state p (put_chain p c') (replace c' cs) s.chain_id true
          (put_chain-IsSound rw version state p cs c c' sound among grown good)
          (put_chain-Grows rw version state p cs c c' (sound.here c among) grown))
  by_verdict state p cs s s' (ok used_up) sound e up =
      subst (Goes state p) (sym (step_used_up p cs s s' e))
        (removed-Goes state p p cs s.chain_id false sound (Grows-refl p))
  by_verdict state p cs s s' (ok neither) sound e waits =
      let snippets = insert s.chain_id s' p.snippet_chains in
      subst (Goes state p) (sym (step_neither p cs s s' e)) (
        with_snippets-IsSound rw version state p cs snippets sound (
            All-insert (λ (e : ℕ × SnippetChain). IsWaiting e.1) s.chain_id s' p.snippet_chains
              waits sound.snippets),
        Grows-with_snippets p p snippets (Grows-refl p),
      )
  by_verdict state p cs s s' (err x) sound e bad = absurd bad
  by_verdict state p cs s s' panic sound e bad = absurd bad

  append_step-IsSound :
      (state : S) (p : ChainPool S) (cs : List ForkedChain) (s : SnippetChain)
      → IsSound rw version state p cs
      → IsWaiting s
      → Goes state p (append_step rw version p cs s)
  append_step-IsSound state p cs s sound waits =
      let (b, top) = sound.top in
      let known = pool_forky_known p cs s b (ap (disk_head rw) sound.on ∙ top) in
      let heads : (c : ForkedChain) → Among c cs → HasHead (head_block rw version p) c = λ c among.
        IsGood-HasHead rw version p c
          (subst (λ d. IsGood rw version d c) (sym sound.on) (sound.tried c among)) in
      let placed =
        forky-Placed p.current (get_block rw version p p.current) (head_block rw version p) b cs s
          heads waits in
      let r = pool_forky rw version p cs s in
      by_verdict state p cs s r.1 r.0 sound refl
        (subst (Placed p.current (get_block rw version p p.current) cs) (sym known) placed)

  append_next :
      (p q r : ChainPool S) (cs ds : List ForkedChain) (s : SnippetChain) (rest : List SnippetChain)
      (placed : Bool) (n : ℕ)
      → append_step rw version p cs s ≡ ok (q, ds, placed)
      → append_loop rw version q ds rest ≡ ok (r, n)
      → append_loop rw version p cs (s ∷ rest) ≡ ok (r, if placed then suc n else n)
  unfolding append_loop
  append_next p q r cs ds s rest placed n e f = ground (arith, e, f)

  pub append_loop-IsSound :
      (state : S) (p : ChainPool S) (cs : List ForkedChain) (ss : List SnippetChain)
      → IsSound rw version state p cs
      → All IsWaiting ss
      → (q : ChainPool S) × (n : ℕ) × (append_loop rw version p cs ss ≡ ok (q, n))
        × ((ds : List ForkedChain) × IsSound rw version state q ds)
        × Grows p q
  unfolding append_loop
  append_loop-IsSound state p cs [] sound waiting = (p, 0, refl, (cs, sound), Grows-refl p)
  append_loop-IsSound state p cs (s ∷ ss) sound (waits, waiting) =
      let goes = append_step-IsSound state p cs s sound waits in
      elim (Result-cases (append_step rw version p cs s)) [
        | inl ((q, ds, placed), e) ↦
            let (sound', grows) = subst (Goes state p) e goes in
            let (r, n, run, (es, good), more) = append_loop-IsSound state q ds ss sound' waiting in
            (
              r,
              if placed then suc n else n,
              append_next p q r cs ds s ss placed n e run,
              (es, good),
              Grows-trans p q r grows more,
            )
        | inr (inl (x, e)) ↦ absurd (subst (Goes state p) e goes)
        | inr (inr e) ↦ absurd (subst (Goes state p) e goes)
      ]

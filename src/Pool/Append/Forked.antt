-- ===== src/Pool/Append/Forked.antt =====
-- The new chain of `forkChain` keeps the invariant of `loopAppendChains`.
use naive_vite.Pool.Append.Named.{fork_chain-HasIds}
use naive_vite.Base.{
  ◌≤◌, ℕ, suc, ◌≡◌, sym, ap, subst, refl, some, List, [], ◌∷◌, ◌++◌, ◌==◌, if◌then◌else◌,
  lookup-insert, inl, inr, arith, All-insert,
}
use naive_vite.Base.Int.{ℤ}
use naive_vite.Pool.Chain.{SnippetChain, ForkedChain, forked}
use naive_vite.Pool.Chain.Insertion.{IsSnippet}
use naive_vite.Pool.Disk.{ChainRw, ChainPool}
use naive_vite.Pool.Refer.{chain_at, fork_chain_of}
use naive_vite.Pool.Append.{fork_chain}
use naive_vite.Pool.Append.Good.{IsGood, fork_chain_of-HasBlocks}
use naive_vite.Pool.Append.Sound.{IsSound, Grows, Among-snoc}

module _ {S : Type 0} (rw : ChainRw S) (version : ℤ) where
  -- The new chain of `forkChain`.
  module _ (state : S) (p : ChainPool S) (cs : List ForkedChain) (c : ForkedChain)
      (s : SnippetChain) where
    abbrev pub new : ForkedChain
    new = (fork_chain rw version p c s).1

    abbrev pub with_new : ChainPool S
    with_new = (fork_chain rw version p c s).0

    new_id : (d : ForkedChain) → d ≡ new → d.chain_id ≡ suc p.lastest_chain_idx
    unfolding fork_chain fork_chain_of
    new_id d same = ap (λ (x : ForkedChain). x.chain_id) same

    chain_at-with_new :
        (id : ℕ)
        → (let d = p.current in d.chain_id ≤ p.lastest_chain_idx)
        → chain_at with_new id ≡ (if id == suc p.lastest_chain_idx then some new else chain_at p id)
    unfolding fork_chain fork_chain_of chain_at
    chain_at-with_new id first =
        ground (arith, lookup-insert (suc p.lastest_chain_idx) id new p.others, first)

    stays_at :
        (id : ℕ) (d : ForkedChain)
        → (let d = p.current in d.chain_id ≤ p.lastest_chain_idx)
        → id ≤ p.lastest_chain_idx
        → chain_at p id ≡ some d
        → chain_at with_new id ≡ some d
    stays_at id d first low at = ground (arith, chain_at-with_new id first, low, at)

    pub fork_chain-IsSound :
        (n : ℕ)
        → IsSound rw version state p cs
        → IsSnippet (suc n) s
        → IsSound rw version state with_new (cs ++ (new ∷ []))
    unfolding fork_chain
    fork_chain-IsSound n sound l =
        let id = suc p.lastest_chain_idx in
        let good : IsGood rw version state new =
          inl (fork_chain_of-HasBlocks id (forked c.chain_id) n s l) in
        record {
          on = sound.on;
          top = sound.top;
          tried = λ d m. elim (Among-snoc new d cs m) [
            | inl old ↦ sound.tried d old
            | inr same ↦ subst (IsGood rw version state) (sym same) good
          ];
          here = λ d m. elim (Among-snoc new d cs m) [
            | inl old ↦ stays_at d.chain_id d sound.ids.0 (sound.known d old) (sound.here d old)
            | inr same ↦
                let at = new_id d same in
                ground (arith, chain_at-with_new d.chain_id sound.ids.0, at, same)
          ];
          known = λ d m. elim (Among-snoc new d cs m) [
            | inl old ↦ omega (arith, sound.known d old)
            | inr same ↦ omega (arith, new_id d same)
          ];
          ids = fork_chain-HasIds rw version p c s sound.ids;
          current = sound.current;
          others =
              All-insert (λ (e : ℕ × ForkedChain). IsGood rw version state e.1) id new p.others good
                sound.others;
          snippets = sound.snippets;
        }

    pub fork_chain-Grows :
        (let d = p.current in d.chain_id ≤ p.lastest_chain_idx) → Grows p with_new
    unfolding fork_chain
    fork_chain-Grows first =
        (omega arith, λ id d low at. (d, stays_at id d first low at, (refl, refl, omega arith)))

-- ===== src/Pool/Append/Sound.antt =====
-- The invariant of `loopAppendChains`, and that each way of placing a snippet keeps it.
use naive_vite.Pool.Append.Named.{HasIds, put_chain-HasIds}
use naive_vite.Base.{
  ◌≤◌, ℕ, ◌≡◌, sym, ap, subst, ◌∙◌, refl, some, List, [], ◌∷◌, ◌++◌, ◌==◌, ok, inl, inr, ◌⊎◌, arith,
  All, All-insert, All-remove, Table, insert, remove, false, Bool-cases,
}
use naive_vite.Base.Int.{ℤ}
use naive_vite.Pool.Chain.{Block, SnippetChain, ForkedChain}
use naive_vite.Pool.Disk.{ChainRw, ChainPool, disk_head}
use naive_vite.Pool.Refer.{chain_at, put_chain}
use naive_vite.Pool.Append.{replace}
use naive_vite.Pool.Modify.Chains.{chain_at-put_chain}
use naive_vite.Pool.Append.Round.{IsWaiting}
use naive_vite.Pool.Append.Place.{Among}
use naive_vite.Pool.Append.Good.{IsGrown, IsGood}

-- The chains after a change of one of them.
Among-replace :
    (c d : ForkedChain) (cs : List ForkedChain)
    → Among d (replace c cs)
    → (d ≡ c) ⊎ (Among d cs × ((d.chain_id == c.chain_id) ≡ false))
unfolding replace
Among-replace c d [] among = absurd among
Among-replace c d (e ∷ cs) (inl same) = elim (Bool-cases (e.chain_id == c.chain_id)) [
  | inl h ↦ inl (ground (arith, h, same))
  | inr h ↦
      let is : d ≡ e = ground (arith, h, same) in
      inr (inl is, ap (λ (x : ForkedChain). x.chain_id == c.chain_id) is ∙ h)
]
Among-replace c d (e ∷ cs) (inr among) = elim (Among-replace c d cs among) [
  | inl same ↦ inl same
  | inr (old, other) ↦ inr (inr old, other)
]

pub Among-snoc :
    (c d : ForkedChain) (cs : List ForkedChain) → Among d (cs ++ (c ∷ [])) → Among d cs ⊎ (d ≡ c)
Among-snoc c d [] (inl same) = inr same
Among-snoc c d [] (inr bad) = absurd bad
Among-snoc c d (e ∷ cs) (inl same) = inl (inl same)
Among-snoc c d (e ∷ cs) (inr among) = elim (Among-snoc c d cs among) [
  | inl old ↦ inl (inr old)
  | inr same ↦ inr same
]

abbrev pub AllWaiting : Table SnippetChain → Type 0
AllWaiting snippets = All (λ (e : ℕ × SnippetChain). IsWaiting e.1) snippets

-- Every chain of before is still at its id, with blocks on its head at most, and ids only grow.
abbrev pub Grows : {S : Type 0} → ChainPool S → ChainPool S → Type 0
Grows p q =
    (p.lastest_chain_idx ≤ q.lastest_chain_idx)
    × ((id : ℕ) (c : ForkedChain)
        → id ≤ p.lastest_chain_idx
        → chain_at p id ≡ some c
        → (d : ForkedChain) × (chain_at q id ≡ some d) × IsGrown c d)

module _ {S : Type 0} (rw : ChainRw S) (version : ℤ) where
  -- `cs` are chains of the pool. Each of them and of the pool has a head that can be read, the pool's
  -- snippets are linked, each chain stands once, at its own id, none above the last one given, and the chain on disk has a head.
  pub record IsSound (state : S) (p : ChainPool S) (cs : List ForkedChain) : Type 0 where
    pub on : p.disk ≡ state
    pub top : (b : Block) × (disk_head rw state ≡ ok (some b))
    pub tried : (c : ForkedChain) → Among c cs → IsGood rw version state c
    pub here : (c : ForkedChain) → Among c cs → chain_at p c.chain_id ≡ some c
    pub known : (c : ForkedChain) → Among c cs → c.chain_id ≤ p.lastest_chain_idx
    pub ids : HasIds p
    pub current : IsGood rw version state p.current
    pub others : All (λ (e : ℕ × ForkedChain). IsGood rw version state e.1) p.others
    pub snippets : AllWaiting p.snippet_chains

  abbrev pub with_snippets : ChainPool S → Table SnippetChain → ChainPool S
  with_snippets p snippets = record p { snippet_chains = snippets }

  pub with_snippets-IsSound :
      (state : S) (p : ChainPool S) (cs : List ForkedChain) (snippets : Table SnippetChain)
      → IsSound state p cs
      → AllWaiting snippets
      → IsSound state (with_snippets p snippets) cs
  unfolding chain_at
  with_snippets-IsSound state p cs snippets sound waiting = record {
    on = sound.on;
    top = sound.top;
    tried = sound.tried;
    here = sound.here;
    known = sound.known;
    ids = sound.ids;
    current = sound.current;
    others = sound.others;
    snippets = waiting;
  }

  pub removed-IsSound :
      (state : S) (p : ChainPool S) (cs : List ForkedChain) (k : ℕ)
      → IsSound state p cs
      → IsSound state (with_snippets p (remove k p.snippet_chains)) cs
  removed-IsSound state p cs k sound =
      with_snippets-IsSound state p cs (remove k p.snippet_chains) sound
        (All-remove (λ (e : ℕ × SnippetChain). IsWaiting e.1) k p.snippet_chains sound.snippets)

  -- What is put in place of a chain of the pool.
  module _ (state : S) (p : ChainPool S) (cs : List ForkedChain) (c c' : ForkedChain) where
    put_chain_fields :
        ((put_chain p c').disk ≡ p.disk)
        × ((put_chain p c').lastest_chain_idx ≡ p.lastest_chain_idx)
        × ((put_chain p c').snippet_chains ≡ p.snippet_chains)
    unfolding put_chain
    put_chain_fields = (ground arith, ground arith, ground arith)

    put_chain_current :
        IsGood rw version state p.current
        → IsGood rw version state c'
        → IsGood rw version state (put_chain p c').current
    unfolding put_chain
    put_chain_current current good =
        let d = p.current in
        elim (Bool-cases (d.chain_id == c'.chain_id)) [
          | inl h ↦
              subst (IsGood rw version state) {x = c'} {y = (put_chain p c').current}
                (ground (arith, h)) good
          | inr h ↦
              subst (IsGood rw version state) {x = d} {y = (put_chain p c').current}
                (ground (arith, h)) current
        ]

    put_chain_others :
        All (λ (e : ℕ × ForkedChain). IsGood rw version state e.1) p.others
        → IsGood rw version state c'
        → All (λ (e : ℕ × ForkedChain). IsGood rw version state e.1) (put_chain p c').others
    unfolding put_chain
    put_chain_others others good =
        let d = p.current in
        let P = λ (e : ℕ × ForkedChain). IsGood rw version state e.1 in
        elim (Bool-cases (d.chain_id == c'.chain_id)) [
          | inl h ↦
              subst (All P) {x = p.others} {y = (put_chain p c').others} (ground (arith, h)) others
          | inr h ↦
              subst (All P) {x = insert c'.chain_id c' p.others} {y = (put_chain p c').others}
                (ground (arith, h)) (All-insert P c'.chain_id c' p.others good others)
        ]

    pub put_chain-IsSound :
        IsSound state p cs
        → Among c cs
        → IsGrown c c'
        → IsGood rw version state c'
        → IsSound state (put_chain p c') (replace c' cs)
    put_chain-IsSound sound among grown good =
        let (disk, idx, snippets) = put_chain_fields in
        let low : c'.chain_id ≤ p.lastest_chain_idx = omega (arith, grown.0, sound.known c among) in
        record {
          on = disk ∙ sound.on;
          top = sound.top;
          tried = λ d m. elim (Among-replace c' d cs m) [
            | inl same ↦ subst (IsGood rw version state) (sym same) good
            | inr (old, _) ↦ sound.tried d old
          ];
          here = λ d m. elim (Among-replace c' d cs m) [
            | inl same ↦ ground (arith, same, chain_at-put_chain p c' d.chain_id)
            | inr (old, other) ↦
                ground (arith, other, chain_at-put_chain p c' d.chain_id, sound.here d old)
          ];
          known = λ d m. elim (Among-replace c' d cs m) [
            | inl same ↦ ground (arith, same, low, idx)
            | inr (old, _) ↦ omega (arith, sound.known d old, idx)
          ];
          ids = put_chain-HasIds p c' low sound.ids;
          current = put_chain_current sound.current good;
          others = put_chain_others sound.others good;
          snippets = subst AllWaiting (sym snippets) sound.snippets;
        }

    old_chain :
        (id : ℕ) (d : ForkedChain)
        → chain_at p id ≡ some d
        → chain_at p c.chain_id ≡ some c
        → id ≡ c.chain_id
        → d ≡ c
    old_chain id d at here same = ground (arith, ap (chain_at p) same)

    pub put_chain-Grows : chain_at p c.chain_id ≡ some c → IsGrown c c' → Grows p (put_chain p c')
    put_chain-Grows here grown =
        let (_, idx, _) = put_chain_fields in
        (
          omega (arith, idx),
          λ id d low at. elim (Bool-cases (c'.chain_id == id)) [
            | inl h ↦
                let same : d ≡ c = old_chain id d at here (ground (arith, h, grown.0)) in
                (
                  c',
                  ground (arith, h, chain_at-put_chain p c' id),
                  subst (λ x. IsGrown x c') (sym same) grown,
                )
            | inr h ↦
                (d, ground (arith, h, at, chain_at-put_chain p c' id), (refl, refl, omega arith))
          ],
        )

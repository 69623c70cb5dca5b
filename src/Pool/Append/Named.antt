-- ===== src/Pool/Append/Named.antt =====
-- The ids of a pool's chains: each chain stands once, at its own id, and no id is above the last one
-- given.
use naive_vite.Base.Int.{ℤ}
use naive_vite.Pool.Append.{fork_chain}
use naive_vite.Base.{
  ℕ, suc, ◌≤◌, ◌≡◌, ◌≢◌, sym, ap, subst, ◌∙◌, refl, some, [], ◌∷◌, ◌==◌, inl, inr, arith, All,
  All-insert, All-lookup, Table, lookup, insert, false, Bool-cases, map,
}
use naive_vite.Pool.Chain.{ForkedChain, SnippetChain}
use naive_vite.Pool.Disk.{ChainRw, ChainPool}
use naive_vite.Pool.Refer.{chain_at, put_chain, fork_chain_of}
use naive_vite.Pool.Append.Place.{Among}
use naive_vite.Pool.Modify.{chains}

-- The chains besides the current one, whose id is `cur`; `idx` is the last id given.
abbrev IsNamed : ℕ → ℕ → Table ForkedChain → Type 0
IsNamed cur idx [] = Unit
IsNamed cur idx ((k, c) ∷ t) =
    (k ≡ c.chain_id)
    × (k ≢ cur)
    × (k ≤ idx)
    × All (λ (e : ℕ × ForkedChain). (e.0 == k) ≡ false) t
    × IsNamed cur idx t

IsNamed-lookup :
    (cur idx : ℕ) (t : Table ForkedChain) (d : ForkedChain)
    → IsNamed cur idx t
    → Among d (map (λ e. e.1) t)
    → (lookup d.chain_id t ≡ some d) × (d.chain_id ≢ cur) × (d.chain_id ≤ idx)
unfolding lookup
IsNamed-lookup cur idx [] d named among = absurd among
IsNamed-lookup cur idx ((k, c) ∷ t) d (own, other, low, once, named) (inl same) =
    let e : k ≡ d.chain_id = own ∙ ap (λ (x : ForkedChain). x.chain_id) (sym same) in
    (ground (arith, e, same), (λ h. other (e ∙ h)), omega (arith, e, low))
IsNamed-lookup cur idx ((k, c) ∷ t) d (own, other, low, once, named) (inr among) =
    let (at, out, small) = IsNamed-lookup cur idx t d named among in
    let apart = All-lookup (λ (e : ℕ × ForkedChain). (e.0 == k) ≡ false) t d.chain_id d once at in
    (ground (arith, at, apart), out, small)

IsNamed-insert :
    (cur idx : ℕ) (c : ForkedChain) (t : Table ForkedChain)
    → c.chain_id ≢ cur
    → c.chain_id ≤ idx
    → IsNamed cur idx t
    → IsNamed cur idx (insert c.chain_id c t)
unfolding insert
IsNamed-insert cur idx c [] out small named = (refl, out, small, tt, tt)
IsNamed-insert cur idx c ((k, d) ∷ t) out small (own, other, low, once, named) =
    elim (Bool-cases (k == c.chain_id)) [
      | inl e ↦
          let same : k ≡ c.chain_id = ground (arith, e) in
          subst (IsNamed cur idx) {x = (c.chain_id, c) ∷ t} {y = insert c.chain_id c ((k, d) ∷ t)}
            (ground (arith, e))
            (
              refl,
              out,
              small,
              subst (λ j. All (λ (x : ℕ × ForkedChain). (x.0 == j) ≡ false) t) same once,
              named,
            )
      | inr e ↦
          subst (IsNamed cur idx) {x = (k, d) ∷ insert c.chain_id c t}
            {y = insert c.chain_id c ((k, d) ∷ t)} (ground (arith, e))
            (
              own,
              other,
              low,
              All-insert (λ (x : ℕ × ForkedChain). (x.0 == k) ≡ false) c.chain_id c t
                  (ground (arith, e)) once,
              IsNamed-insert cur idx c t out small named,
            )
    ]

IsNamed-le :
    (cur idx idx' : ℕ) (t : Table ForkedChain) → idx ≤ idx' → IsNamed cur idx t → IsNamed cur idx' t
IsNamed-le cur idx idx' [] le named = tt
IsNamed-le cur idx idx' ((k, c) ∷ t) le (own, other, low, once, named) =
    (own, other, omega (arith, low, le), once, IsNamed-le cur idx idx' t le named)

module _ {S : Type 0} where
  abbrev pub HasIds : ChainPool S → Type 0
  HasIds p =
      let c = p.current in
      (c.chain_id ≤ p.lastest_chain_idx) × IsNamed c.chain_id p.lastest_chain_idx p.others

  -- So every chain of the pool is found at its id.
  pub chains-known :
      (p : ChainPool S) (d : ForkedChain)
      → HasIds p
      → Among d (chains p)
      → (chain_at p d.chain_id ≡ some d) × (d.chain_id ≤ p.lastest_chain_idx)
  unfolding chains chain_at
  chains-known p d (first, named) (inl same) = (ground (arith, same), ground (arith, same, first))
  chains-known p d (first, named) (inr among) =
      let c = p.current in
      let (at, out, small) = IsNamed-lookup c.chain_id p.lastest_chain_idx p.others d named among in
      (ground (arith, at, out), small)

  pub put_chain-HasIds :
      (p : ChainPool S) (c : ForkedChain)
      → c.chain_id ≤ p.lastest_chain_idx
      → HasIds p
      → HasIds (put_chain p c)
  unfolding put_chain
  put_chain-HasIds p c low (first, named) =
      let d = p.current in
      elim (Bool-cases (d.chain_id == c.chain_id)) [
        | inl e ↦
            subst HasIds {x = record p { current = c }} {y = put_chain p c} (ground (arith, e)) (
              low,
              subst (λ k. IsNamed k p.lastest_chain_idx p.others) {x = d.chain_id} {y = c.chain_id}
                  (ground (arith, e)) named,
            )
        | inr e ↦
            subst HasIds {x = record p { others = insert c.chain_id c p.others }}
              {y = put_chain p c} (ground (arith, e))
              (
                first,
                IsNamed-insert d.chain_id p.lastest_chain_idx c p.others (ground (arith, e)) low
                    named,
              )
      ]

  pub fork_chain-HasIds :
      (rw : ChainRw S) (version : ℤ) (p : ChainPool S) (c : ForkedChain) (s : SnippetChain)
      → HasIds p
      → HasIds (fork_chain rw version p c s).0
  unfolding fork_chain fork_chain_of
  fork_chain-HasIds rw version p c s (first, named) =
      let d = p.current in
      let idx = p.lastest_chain_idx in
      (
        omega (arith, first),
        IsNamed-insert d.chain_id (suc idx) (fork_chain rw version p c s).1 p.others
            (λ e. omega (arith, e, first)) (omega arith)
            (IsNamed-le d.chain_id idx (suc idx) p.others (omega arith) named),
      )

-- ===== src/Pool/Append/Ready.antt =====
-- A pool before and after the loop of `loopAppendChains` over all its chains.
use naive_vite.Base.{some, ℕ, ◌≡◌, sym, subst, refl, List, [], ◌∷◌, ok, inl, inr, All, Table, map}
use naive_vite.Base.Int.{ℤ}
use naive_vite.Pool.Chain.{Block, SnippetChain, ForkedChain}
use naive_vite.Pool.Disk.{ChainRw, ChainPool, disk_head}
use naive_vite.Pool.Modify.{chains}
use naive_vite.Pool.Append.{append_loop}
use naive_vite.Pool.Append.Round.{IsWaiting}
use naive_vite.Pool.Append.Place.{Among}
use naive_vite.Pool.Append.Good.{IsGood}
use naive_vite.Pool.Append.Named.{HasIds, chains-known}
use naive_vite.Pool.Append.Sound.{AllWaiting, IsSound, Grows}
use naive_vite.Pool.Append.Loop.{append_loop-IsSound}

module _ {S : Type 0} (rw : ChainRw S) (version : ℤ) where
  -- Each chain stands once, at its own id, and has linked blocks, or none and its head on disk; the
  -- snippets are linked; and the chain on disk has a head.
  pub record IsReady (p : ChainPool S) : Type 0 where
    pub top : (b : Block) × (disk_head rw p.disk ≡ ok (some b))
    pub ids : HasIds p
    pub good : (c : ForkedChain) → Among c (chains p) → IsGood rw version p.disk c
    pub snippets : AllWaiting p.snippet_chains

  All-values :
      (P : ForkedChain → Type 0) (t : Table ForkedChain)
      → ((c : ForkedChain) → Among c (map (λ e. e.1) t) → P c)
      → All (λ (e : ℕ × ForkedChain). P e.1) t
  All-values P [] f = tt
  All-values P ((k, c) ∷ t) f = (f c (inl refl), All-values P t (λ d m. f d (inr m)))

  values-All :
      (P : ForkedChain → Type 0) (t : Table ForkedChain) (c : ForkedChain)
      → All (λ (e : ℕ × ForkedChain). P e.1) t
      → Among c (map (λ e. e.1) t)
      → P c
  values-All P [] c all m = absurd m
  values-All P ((k, d) ∷ t) c (here, all) (inl same) = subst P (sym same) here
  values-All P ((k, d) ∷ t) c (here, all) (inr m) = values-All P t c all m

  starts : (p : ChainPool S) → IsReady p → IsSound rw version p.disk p (chains p)
  unfolding chains
  starts p ready = record {
    on = refl;
    top = ready.top;
    tried = ready.good;
    here = λ c m. (chains-known p c ready.ids m).0;
    known = λ c m. (chains-known p c ready.ids m).1;
    ids = ready.ids;
    current = ready.good p.current (inl refl);
    others = All-values (IsGood rw version p.disk) p.others (λ c m. ready.good c (inr m));
    snippets = ready.snippets;
  }

  ends :
      (state : S) (q : ChainPool S) (cs : List ForkedChain)
      → IsSound rw version state q cs
      → IsReady q
  unfolding chains
  ends state q cs sound = record {
    top = subst (λ s. (b : Block) × (disk_head rw s ≡ ok (some b))) (sym sound.on) sound.top;
    ids = sound.ids;
    good = λ c m. subst (λ s. IsGood rw version s c) (sym sound.on) (good_at c m);
    snippets = sound.snippets;
  }
    where
      good_at : (c : ForkedChain) → Among c (chains q) → IsGood rw version state c
      good_at c (inl same) = subst (IsGood rw version state) (sym same) sound.current
      good_at c (inr m) = values-All (IsGood rw version state) q.others c sound.others m

  -- Over all chains of a pool and any linked snippets, in any order, the loop of loopAppendChains does
  -- not fail: the chain on disk stays as it is, each chain stays at its id, with the same tail and no lower
  -- head, and the pool meets the same conditions as before. These are: each chain stands once, at its
  -- id, with linked blocks from its tail to its head, or none and its head on disk; the pool's snippets
  -- are linked; and the chain on disk has a head.
  pub append_loop-IsReady :
      (p : ChainPool S) (ss : List SnippetChain)
      → IsReady p
      → All IsWaiting ss
      → (q : ChainPool S) × (n : ℕ) × (append_loop rw version p (chains p) ss ≡ ok (q, n))
        × IsReady q
        × (q.disk ≡ p.disk)
        × Grows p q
  append_loop-IsReady p ss ready waiting =
      let (q, n, run, (ds, sound), grows) =
        append_loop-IsSound rw version p.disk p (chains p) ss (starts p ready) waiting in
      (q, n, run, ends p.disk q ds sound, sound.on, grows)

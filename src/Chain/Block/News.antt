-- ===== src/Chain/Block/News.antt =====
-- What comes next on one account's chain (`NextSnapshotPoint`).
use naive_vite.Base.{
  ◌≡◌, ◌⊎◌, inl, inr, refl, sym, ap, subst, ◌∙◌, none, some, List, [], ◌∷◌, ok, false, arith,
  Bool-cases,
}
use naive_vite.Base.Int.{negsuc, ℤ, pos, ◌+ℤ◌, ◌≤ℤ◌, ◌<ℤ◌, ltb_ℤ, +ℤ_parts}
use naive_vite.Types.{
  empty_str, Hash, Address, AccountHashH, AccountStateBlock, SnapshotPoint, new_account_hash_h,
}
use naive_vite.Store.{BlockStore}
use naive_vite.Chain.Account.{
  AccountChain, top, next_snapshot_point, point_is_stale, get_block_by_height,
}

-- The highest point of the account is at a snapshot height up to `height`.
abbrev pub PointsUpTo : ℤ → List SnapshotPoint → Type 0
PointsUpTo height [] = Unit {0}
PointsUpTo height (p ∷ ps) = p.snapshot_height ≤ℤ height

-- The chain's head is stored, and no point is above the height `height` of the snapshot head. A chain
-- without a head has no points.
abbrev pub CanSnapshot : BlockStore → ℤ → AccountChain → Type 0
CanSnapshot s height c =
    ((c.head ≡ none) × (c.snapshot_point ≡ []))
    ⊎ ((head : AccountStateBlock) × (c.head ≡ some head)
        × (get_block_by_height c s head.height ≡ some head)
        × PointsUpTo height c.snapshot_point)

-- The listed block is the head of the chain `c`, and above its last point.
abbrev pub IsListed : BlockStore → ℤ → AccountChain → AccountHashH → Type 0
IsListed s height c h =
    (head : AccountStateBlock) × (c.head ≡ some head)
    × (get_block_by_height c s head.height ≡ some head)
    × (h.hash ≡ head.hash)
    × (h.height ≡ head.height)
    × (point_is_stale (top c.snapshot_point) (height +ℤ pos 1) h.height ≡ false)

points-cases :
    (ps : List SnapshotPoint)
    → (ps ≡ []) ⊎ ((p : SnapshotPoint) × (rest : List SnapshotPoint) × (ps ≡ p ∷ rest))
points-cases [] = inl refl
points-cases (p ∷ rest) = inr (p, rest, refl)

module _ (s : BlockStore) (height : ℤ) (c : AccountChain) where
  stored_high :
      (head : AccountStateBlock)
      → get_block_by_height c s head.height ≡ some head
      → pos 0 ≤ℤ head.height
  unfolding get_block_by_height
  stored_high head stored = elim (Bool-cases (ltb_ℤ head.height (pos 0))) [
    | inl low ↦ absurd (ground (arith, stored, low))
    | inr high ↦ ground (arith, high)
  ]

  no_head : c.head ≡ none → c.snapshot_point ≡ [] → next_snapshot_point c ≡ ok (negsuc 0, empty_str)
  unfolding next_snapshot_point top
  no_head e f = ground (arith, e, f)

  module _ (head : AccountStateBlock) (at : c.head ≡ some head) where
    no_points : c.snapshot_point ≡ [] → next_snapshot_point c ≡ ok (head.height, head.hash)
    unfolding next_snapshot_point top
    no_points f = ground (arith, at, f)

    above_point :
        (p : SnapshotPoint) (rest : List SnapshotPoint)
        → c.snapshot_point ≡ p ∷ rest
        → p.account_height <ℤ head.height
        → next_snapshot_point c ≡ ok (head.height, head.hash)
    unfolding next_snapshot_point top
    above_point p rest f high = ground (arith, at, f, high)

    at_point :
        (p : SnapshotPoint) (rest : List SnapshotPoint)
        → c.snapshot_point ≡ p ∷ rest
        → head.height ≤ℤ p.account_height
        → next_snapshot_point c ≡ ok (negsuc 0, empty_str)
    unfolding next_snapshot_point top
    at_point p rest f low = ground (arith, at, f, low)

    fresh_first :
        c.snapshot_point ≡ []
        → point_is_stale (top c.snapshot_point) (height +ℤ pos 1) head.height ≡ false
    unfolding point_is_stale top
    fresh_first f = ground (arith, f)

    fresh_above :
        (p : SnapshotPoint) (rest : List SnapshotPoint)
        → c.snapshot_point ≡ p ∷ rest
        → p.account_height <ℤ head.height
        → p.snapshot_height ≤ℤ height
        → point_is_stale (top c.snapshot_point) (height +ℤ pos 1) head.height ≡ false
    unfolding point_is_stale top
    fresh_above p rest f high low = ground (arith, f, high, low, +ℤ_parts height (pos 1))

  abbrev pub NextListed : Address → Type 0
  NextListed k =
      (i : ℤ) × (x : Hash) × (next_snapshot_point c ≡ ok (i, x))
      × (pos 0 ≤ℤ i)
      × IsListed s height c (new_account_hash_h k x i)

  abbrev pub NothingNext : Type 0
  NothingNext = (i : ℤ) × (x : Hash) × (next_snapshot_point c ≡ ok (i, x)) × (i <ℤ pos 0)

  -- The chain has nothing new, or its head is what comes next.
  pub next_cases : (k : Address) → CanSnapshot s height c → NothingNext ⊎ NextListed k
  unfolding new_account_hash_h
  next_cases k (inl (e, f)) = inl (negsuc 0, empty_str, no_head e f, omega arith)
  next_cases k (inr (head, at, stored, up_to)) = elim (points-cases c.snapshot_point) [
    | inl f ↦ inr (
      head.height,
      head.hash,
      no_points head at f,
      stored_high head stored,
      (head, at, stored, refl, refl, fresh_first head at f),
    )
    | inr (p, rest, f) ↦ elim (Bool-cases (ltb_ℤ p.account_height head.height)) [
      | inl high ↦
          let above : p.account_height <ℤ head.height = ground (arith, high) in
          inr (
            head.height,
            head.hash,
            above_point head at p rest f above,
            stored_high head stored,
            (
              head,
              at,
              stored,
              refl,
              refl,
              fresh_above head at p rest f above (subst (PointsUpTo height) f up_to),
            ),
          )
      | inr low ↦
          inl (negsuc 0, empty_str, at_point head at p rest f (ground (arith, low)), omega arith)
    ]
  ]

-- The chain's head is above its last point, if it has one.
abbrev pub HasNews : AccountStateBlock → List SnapshotPoint → Type 0
HasNews head [] = Unit {0}
HasNews head (p ∷ ps) = p.account_height <ℤ head.height

module _ (s : BlockStore) (height : ℤ) where
  pub head_high :
      (c : AccountChain) (head : AccountStateBlock)
      → CanSnapshot s height c
      → c.head ≡ some head
      → pos 0 ≤ℤ head.height
  head_high c head (inl (e, f)) at = absurd (ground (arith, e, at))
  head_high c head (inr (h, is_head, stored, up_to)) at =
      let same : h ≡ head = ground (arith, is_head, at) in
      subst (λ (x : AccountStateBlock). pos 0 ≤ℤ x.height) same (stored_high s height c h stored)

  -- Where there is news, it is what comes next.
  pub news_next :
      (c d : AccountChain) (head : AccountStateBlock) (i : ℤ) (x : Hash)
      → c ≡ d
      → next_snapshot_point c ≡ ok (i, x)
      → d.head ≡ some head
      → HasNews head d.snapshot_point
      → (i ≡ head.height) × (x ≡ head.hash)
  news_next c d head i x same e at news =
      let next : next_snapshot_point d ≡ ok (head.height, head.hash) =
        elim (points-cases d.snapshot_point) [
          | inl f ↦ no_points s height d head at f
          | inr (p, rest, f) ↦ above_point s height d head at p rest f (subst (HasNews head) f news)
        ] in
      ground (arith, sym e ∙ ap next_snapshot_point same ∙ next)

-- ===== src/Chain/Account/Points.antt =====
-- The stack of snapshot points: its order, and what `RollbackSnapshotPoint` takes off it.
use naive_vite.Base.{subst}
use naive_vite.Base.{Result}
use naive_vite.Base.{
  ◌≡◌, ◌↔◌, refl, false, not, inl, inr, Option, Option-cases, none, some, List, [], ◌∷◌, ok, err,
  Error, All, Bool-cases, if◌then◌else◌, arith,
}
use naive_vite.Base.Int.{ℤ, ◌≤ℤ◌, ◌<ℤ◌, ◌==ℤ◌, ltb_ℤ, leb_ℤ}
use naive_vite.Types.{Hash, AccountHashH, SnapshotPoint, AccountStateBlock, equals}
use naive_vite.Store.{BlockStore}
use naive_vite.Chain.Account.{
  AccountChain, top, peek, push_point, point_is_stale, get_block_by_height, snapshot_point,
  pop_points, rollback_snapshot_point,
}

-- Later points have a greater snapshot height, and no lesser account height.
abbrev pub IsBelow : SnapshotPoint → SnapshotPoint → Type 0
IsBelow p q = (q.snapshot_height <ℤ p.snapshot_height) × (q.account_height ≤ℤ p.account_height)

abbrev pub Ordered : List SnapshotPoint → Type 0
Ordered [] = Unit {0}
Ordered (p ∷ ps) = All (IsBelow p) ps × Ordered ps

IsBelow-All :
    (p q : SnapshotPoint) (ps : List SnapshotPoint)
    → IsBelow p q
    → All (IsBelow q) ps
    → All (IsBelow p) ps
IsBelow-All p q [] b a = tt
IsBelow-All p q (r ∷ ps) b a = (omega arith, IsBelow-All p q ps b a.1)

abbrev pub new_point : ℤ → Hash → AccountHashH → SnapshotPoint
new_point height hash h = record {
  snapshot_height = height;
  snapshot_hash = hash;
  account_height = h.height;
  account_hash = h.hash;
}

push-Ordered :
    (ps : List SnapshotPoint) (height : ℤ) (hash : Hash) (h : AccountHashH)
    → point_is_stale (top ps) height h.height ≡ false
    → Ordered ps
    → Ordered (new_point height hash h ∷ ps)
unfolding point_is_stale top
push-Ordered [] height hash h fresh o = (tt, tt)
push-Ordered (q ∷ ps) height hash h fresh o =
    let below : IsBelow (new_point height hash h) q = ground arith in
    ((below, IsBelow-All (new_point height hash h) q ps below o.0), o)

-- The point that `push_point` pushes, and the block that it has checked.
abbrev Pushed :
    AccountChain → Option AccountStateBlock → ℤ → Hash → AccountHashH → AccountChain → Type 0
Pushed c o height hash h c' =
    (b : AccountStateBlock) × (o ≡ some b)
    × (h.hash ≡ b.hash)
    × (h.height ≡ b.height)
    × (c' ≡ record c { snapshot_point = new_point height hash h ∷ c.snapshot_point })

push_point-Pushed :
    (c : AccountChain) (o : Option AccountStateBlock) (height : ℤ) (hash : Hash) (h : AccountHashH)
    (c' : AccountChain)
    → push_point c o height hash h ≡ ok c'
    → Pushed c o height hash h c'
unfolding push_point
push_point-Pushed c none height hash h c' e = absurd (ground arith)
push_point-Pushed c (some b) height hash h c' e =
    (b, refl, ground arith, ground arith, ground arith)

module _ (c : AccountChain) (s : BlockStore) (height : ℤ) (hash : Hash) (h : AccountHashH) where
  -- `SnapshotPoint` pushes the point exactly if the chain has a head, the point is not stale against
  -- the top of the stack, and the account's block at the point's height is there with its hash and
  -- its height. Then nothing else of the chain changes.
  pub snapshot_point_iff :
      (c' : AccountChain)
      → (snapshot_point c s height hash h ≡ ok c') ↔ (
          (head : AccountStateBlock) × (c.head ≡ some head)
          × (point_is_stale (top c.snapshot_point) height h.height ≡ false)
          × (b : AccountStateBlock) × (get_block_by_height c s h.height ≡ some b)
          × (h.hash ≡ b.hash)
          × (h.height ≡ b.height)
          × (c' ≡ record c { snapshot_point = new_point height hash h ∷ c.snapshot_point }))
  unfolding snapshot_point
  snapshot_point_iff c' = (
    λ e. elim (Option-cases c.head) [
      | inl missing ↦ absurd (ground arith)
      | inr (head, there) ↦
          let block = get_block_by_height c s h.height in
          let pushed : push_point c block height hash h ≡ ok c' = ground arith in
          let (b, found, hash_eq, height_eq, eq) =
            push_point-Pushed c block height hash h c' pushed in
          (head, there, ground arith, b, found, hash_eq, height_eq, eq)
    ],
    λ e. ground arith,
  )

  -- A point keeps the stack in order.
  pub snapshot_point-Ordered :
      (c' : AccountChain)
      → Ordered c.snapshot_point
      → snapshot_point c s height hash h ≡ ok c'
      → Ordered c'.snapshot_point
  snapshot_point-Ordered c' o e =
      let (_, _, fresh, _, _, _, _, eq) = (snapshot_point_iff c').0 e in
      rw eq (push-Ordered c.snapshot_point height hash h fresh o)

pop_points-Ordered : (e : ℤ) (ps : List SnapshotPoint) → Ordered ps → Ordered (pop_points e ps).0
unfolding pop_points
pop_points-Ordered e [] o = tt
pop_points-Ordered e (p ∷ ps) o = elim (Bool-cases (leb_ℤ p.account_height e)) [
  | inr f ↦ rw f o
  | inl f ↦ elim (Bool-cases (p.account_height ==ℤ e)) [
    | inl g ↦ rw (f, g) o.1
    | inr g ↦ rw (f, g) (pop_points-Ordered e ps o.1)
  ]
]

-- Under a top point that is lower than `end`, every point is popped, and the stack runs out.
pop_points-All :
    (p : SnapshotPoint) (e : ℤ) (ps : List SnapshotPoint)
    → All (IsBelow p) ps
    → p.account_height <ℤ e
    → pop_points e ps ≡ ([], err Error.not_exist_snapshot_point)
unfolding pop_points
pop_points-All p e [] a h = refl
pop_points-All p e (q ∷ ps) a h = ground (arith, pop_points-All p e ps a.1)

module _ (c : AccountChain) (start end : SnapshotPoint) where
  -- A rollback of points keeps the stack in order, also where it fails.
  pub rollback_snapshot_point-Ordered :
      Ordered c.snapshot_point → Ordered (rollback_snapshot_point c start end).0.snapshot_point
  unfolding rollback_snapshot_point
  rollback_snapshot_point-Ordered o =
      let IsDone = λ (r : AccountChain × Result (Unit {0})). Ordered r.0.snapshot_point in
      let now = rollback_snapshot_point c start end in
      let (left, done) = pop_points end.account_height c.snapshot_point in
      elim (Option-cases (peek c)) [
        | inl e ↦
            subst IsDone {x = (c, err Error.not_exist_snapshot_point)} {y = now} (ground (arith, e))
              o
        | inr (p, e) ↦ elim (Bool-cases (equals p start)) [
          | inl f ↦
              subst IsDone {x = (record c { snapshot_point = left }, done)} {y = now}
                (ground (arith, e, f)) (pop_points-Ordered end.account_height c.snapshot_point o)
          | inr f ↦
              subst IsDone {x = (c, err Error.not_equals_start)} {y = now} (ground (arith, e, f)) o
        ]
      ]

  -- All that `RollbackSnapshotPoint` does on a stack in order with the point `p` on top. It fails
  -- unless `start` equals `p`. If `end` has the account height of `p`, just `p` is popped. If `end`
  -- is lower, nothing is popped and the call still succeeds; if it is higher, the call fails and
  -- has popped every point.
  pub rollback_snapshot_point_cases :
      (p : SnapshotPoint) (rest : List SnapshotPoint)
      → c.snapshot_point ≡ p ∷ rest
      → Ordered (p ∷ rest)
      → rollback_snapshot_point c start end ≡ (
          if not (equals p start)
          then (c, err Error.not_equals_start)
          else (if p.account_height ==ℤ end.account_height
              then (record c { snapshot_point = rest }, ok tt)
              else (if ltb_ℤ end.account_height p.account_height
                  then (c, ok tt)
                  else (record c { snapshot_point = [] }, err Error.not_exist_snapshot_point))))
  unfolding rollback_snapshot_point
  rollback_snapshot_point_cases p rest e o =
      ground (arith, pop_points-All p end.account_height rest o.0)

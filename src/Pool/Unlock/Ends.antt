-- ===== src/Pool/Unlock/Ends.antt =====
-- Which points of an account are kept.
use naive_vite.Base.{
  ℕ, zero, suc, ◌≡◌, refl, ap, sym, subst, ◌∙◌, Option, none, some, List, [], ◌∷◌, ◌++◌, ◌==◌,
  if◌then◌else◌, Table, lookup, insert, lookup-insert, arith, Bool-cases, Option-cases, inl, inr,
}
use naive_vite.Base.Int.{ℤ, pos, pos_part, ◌-ℤ◌}
use naive_vite.Types.{Address, AccountHashH, SnapshotPoint, SnapshotBlock}
use naive_vite.Pool.Unlock.{
  Points, point_of, keep_first, put_points, accounts, unlock_rounds, get_unlock_account_snapshot,
}

-- The account's points in a block, and in the blocks from the height `i` down.
abbrev pub listed : Address → SnapshotBlock → List AccountHashH → List SnapshotPoint
listed a block [] = []
listed a block (v ∷ vs) =
    if v.addr == a then point_of block v ∷ listed a block vs else listed a block vs

abbrev pub points_below : Address → (ℤ → Option SnapshotBlock) → ℕ → ℤ → List SnapshotPoint
points_below a get zero i = []
points_below a get (suc n) i =
    elim (get i) as (λ _. List SnapshotPoint) [ none ↦ [] | some b ↦ listed a b b.accounts ]
    ++ points_below a get n (i -ℤ pos 1)

abbrev pub first_of : Option SnapshotPoint → List SnapshotPoint → Option SnapshotPoint
first_of (some p) ps = some p
first_of none [] = none
first_of none (p ∷ ps) = some p

abbrev pub last_of : Option SnapshotPoint → List SnapshotPoint → Option SnapshotPoint
last_of old [] = old
last_of old (p ∷ ps) = last_of (some p) ps

first_of-append :
    (o : Option SnapshotPoint) (xs ys : List SnapshotPoint)
    → first_of (first_of o xs) ys ≡ first_of o (xs ++ ys)
first_of-append (some p) xs ys = refl
first_of-append none [] ys = refl
first_of-append none (x ∷ xs) ys = refl

last_of-append :
    (o : Option SnapshotPoint) (xs ys : List SnapshotPoint)
    → last_of (last_of o xs) ys ≡ last_of o (xs ++ ys)
last_of-append o [] ys = refl
last_of-append o (x ∷ xs) ys = last_of-append (some x) xs ys

-- After these points of the account `a` in their order.
abbrev pub HasEnds : Address → Points → List SnapshotPoint → Points → Type 0
HasEnds a ps points qs =
    (lookup a qs.0 ≡ first_of (lookup a ps.0) points)
    × (lookup a qs.1 ≡ last_of (lookup a ps.1) points)

first_of-nil : (o : Option SnapshotPoint) → first_of o [] ≡ o
first_of-nil none = refl
first_of-nil (some p) = refl

lookup-keep_first :
    (a addr : Address) (point : SnapshotPoint) (start : Table SnapshotPoint)
    → lookup a (keep_first addr point start)
      ≡ (if addr == a then first_of (lookup a start) (point ∷ []) else lookup a start)
unfolding keep_first
lookup-keep_first a addr point start = elim (Option-cases (lookup addr start)) [
  | inl new ↦ ground (arith, new, lookup-insert addr a point start)
  | inr (old, e) ↦ ground (arith, e)
]

module _ (a : Address) where
  HasEnds-append :
      (ps qs rs : Points) (xs ys : List SnapshotPoint)
      → HasEnds a ps xs qs
      → HasEnds a qs ys rs
      → HasEnds a ps (xs ++ ys) rs
  HasEnds-append ps qs rs xs ys (start, end) (start', end') = (
    start' ∙ ap (λ o. first_of o ys) start ∙ first_of-append (lookup a ps.0) xs ys,
    end' ∙ ap (λ o. last_of o ys) end ∙ last_of-append (lookup a ps.1) xs ys,
  )

  unchanged : (ps : Points) → HasEnds a ps [] ps
  unchanged (start, end) = (sym (first_of-nil (lookup a start)), refl)

  -- One account of a block.
  one_point : SnapshotBlock → AccountHashH → List SnapshotPoint
  one_point block v = if v.addr == a then point_of block v ∷ [] else []

  one-HasEnds :
      (block : SnapshotBlock) (v : AccountHashH) (start end : Table SnapshotPoint)
      → HasEnds a
          (start, end)
          (one_point block v)
          (keep_first v.addr (point_of block v) start, insert v.addr (point_of block v) end)
  unfolding one_point
  one-HasEnds block v start end = elim (Bool-cases (v.addr == a)) [
    | inl same ↦ (
      ground (arith, same, lookup-keep_first a v.addr (point_of block v) start),
      ground (arith, same, lookup-insert v.addr a (point_of block v) end),
    )
    | inr apart ↦ (
      ground (
        arith,
        apart,
        lookup-keep_first a v.addr (point_of block v) start,
        first_of-nil (lookup a start),
      ),
      ground (arith, apart, lookup-insert v.addr a (point_of block v) end),
    )
  ]

  listed_cons :
      (block : SnapshotBlock) (v : AccountHashH) (vs : List AccountHashH)
      → one_point block v ++ listed a block vs ≡ listed a block (v ∷ vs)
  unfolding one_point
  listed_cons block v vs = elim (Bool-cases (v.addr == a)) [
    | inl same ↦ ground (arith, same)
    | inr apart ↦ ground (arith, apart)
  ]

  put_points-HasEnds :
      (block : SnapshotBlock) (vs : List AccountHashH) (ps : Points)
      → HasEnds a ps (listed a block vs) (put_points block vs ps)
  unfolding put_points
  put_points-HasEnds block [] (start, end) = unchanged (start, end)
  put_points-HasEnds block (v ∷ vs) (start, end) =
      let next : Points =
        (keep_first v.addr (point_of block v) start, insert v.addr (point_of block v) end) in
      subst (λ xs. HasEnds a (start, end) xs (put_points block vs next)) (listed_cons block v vs)
        (HasEnds-append (start, end) next (put_points block vs next) (one_point block v)
          (listed a block vs) (one-HasEnds block v start end) (put_points-HasEnds block vs next))

  no_round :
      (get : ℤ → Option SnapshotBlock) (i : ℤ) (ps : Points) → unlock_rounds get zero i ps ≡ ps
  unfolding unlock_rounds
  no_round get i ps = refl

  missing_round :
      (get : ℤ → Option SnapshotBlock) (n : ℕ) (i : ℤ) (ps : Points)
      → get i ≡ none
      → (unlock_rounds get (suc n) i ps ≡ unlock_rounds get n (i -ℤ pos 1) ps)
        × (points_below a get (suc n) i ≡ points_below a get n (i -ℤ pos 1))
  unfolding unlock_rounds
  missing_round get n i ps e = (ground (arith, e), ground (arith, e))

  block_round :
      (get : ℤ → Option SnapshotBlock) (n : ℕ) (i : ℤ) (ps : Points) (b : SnapshotBlock)
      → get i ≡ some b
      → (unlock_rounds get (suc n) i ps
          ≡ unlock_rounds get n (i -ℤ pos 1) (put_points b b.accounts ps))
        × (points_below a get (suc n) i
            ≡ listed a b b.accounts ++ points_below a get n (i -ℤ pos 1))
  unfolding unlock_rounds accounts
  block_round get n i ps b e = (ground (arith, e), ground (arith, e))

  unlock_rounds-HasEnds :
      (get : ℤ → Option SnapshotBlock) (n : ℕ) (i : ℤ) (ps : Points)
      → HasEnds a ps (points_below a get n i) (unlock_rounds get n i ps)
  unlock_rounds-HasEnds get zero i ps =
      subst (HasEnds a ps []) (sym (no_round get i ps)) (unchanged ps)
  unlock_rounds-HasEnds get (suc n) i ps = elim (Option-cases (get i)) [
    | inl e ↦
        let (run, points) = missing_round get n i ps e in
        subst (λ xs. HasEnds a ps xs (unlock_rounds get (suc n) i ps)) (sym points)
          (subst (HasEnds a ps (points_below a get n (i -ℤ pos 1))) (sym run)
            (unlock_rounds-HasEnds get n (i -ℤ pos 1) ps))
    | inr (b, e) ↦
        let (run, points) = block_round get n i ps b e in
        let qs = put_points b b.accounts ps in
        let rest = points_below a get n (i -ℤ pos 1) in
        subst (λ xs. HasEnds a ps xs (unlock_rounds get (suc n) i ps)) (sym points)
          (subst (HasEnds a ps (listed a b b.accounts ++ rest)) (sym run) (
            HasEnds-append ps qs (unlock_rounds get n (i -ℤ pos 1) qs) (listed a b b.accounts) rest
              (put_points-HasEnds b b.accounts ps) (unlock_rounds-HasEnds get n (i -ℤ pos 1) qs)))
  ]

-- An account's points in the head on disk and in all blocks below it that are above `block`.
abbrev pub unlocked :
    Address → SnapshotBlock → (ℤ → Option SnapshotBlock) → SnapshotBlock → List SnapshotPoint
unlocked a head get block =
    listed a head head.accounts
    ++ points_below a get (pos_part (head.height -ℤ pos 1 -ℤ block.height)) (head.height -ℤ pos 1)

whole_run :
    (head : SnapshotBlock) (get : ℤ → Option SnapshotBlock) (block : SnapshotBlock)
    → get_unlock_account_snapshot head get block
      ≡ unlock_rounds get
          (pos_part (head.height -ℤ pos 1 -ℤ block.height))
          (head.height -ℤ pos 1)
          (put_points head head.accounts ([], []))
unfolding get_unlock_account_snapshot accounts
whole_run head get block = refl

nothing_yet : (a : Address) → lookup {V = SnapshotPoint} a [] ≡ none
unfolding lookup
nothing_yet a = refl

-- Of the points that an account has in the head on disk and in the blocks down to just above the fork
-- point, getUnlockAccountSnapshot gives the first one met, which is the latest, and the last one met, the
-- earliest; and none of an account that has no point there.
pub get_unlock_account_snapshot-ends :
    (a : Address) (head : SnapshotBlock) (get : ℤ → Option SnapshotBlock) (block : SnapshotBlock)
    → (lookup a (get_unlock_account_snapshot head get block).0
        ≡ first_of none (unlocked a head get block))
      × (lookup a (get_unlock_account_snapshot head get block).1
          ≡ last_of none (unlocked a head get block))
get_unlock_account_snapshot-ends a head get block =
    let n = pos_part (head.height -ℤ pos 1 -ℤ block.height) in
    let i = head.height -ℤ pos 1 in
    let qs = put_points head head.accounts ([], []) in
    let (start, end) =
      HasEnds-append a ([], []) qs (unlock_rounds get n i qs) (listed a head head.accounts)
        (points_below a get n i) (put_points-HasEnds a head head.accounts ([], []))
        (unlock_rounds-HasEnds a get n i qs) in
    let points = unlocked a head get block in
    (
      ap (λ r. lookup a r.0) (whole_run head get block)
          ∙ start
          ∙ ap (λ o. first_of o points) (nothing_yet a),
      ap (λ r. lookup a r.1) (whole_run head get block)
          ∙ end
          ∙ ap (λ o. last_of o points) (nothing_yet a),
    )

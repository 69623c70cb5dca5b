-- ===== src/Pool/Refer/ForkPoint.antt =====
-- The search for the point where two chains part.
use naive_vite.Base.{
  ℕ, zero, suc, ◌≡◌, ◌≢◌, refl, sym, subst, Option, none, some, ◌==◌, Result, ok, err, panic,
  longest_error, current_error, Option-cases, Bool-cases, inl, inr, ◌<◌, arith,
}
use naive_vite.Base.Int.{
  ℤ, leb_ℤ, ltb_ℤ, pos, pos_part, ◌+ℤ◌, ◌-ℤ◌, ◌≤ℤ◌, ◌<ℤ◌, int_laws, eq_of_parts,
}
use naive_vite.Pool.Chain.{Block, block_hash}
use naive_vite.Pool.Refer.{fork_point_rounds, get_fork_point}

module _ (long cur : ℤ → Option Block) where
  -- Both chains have a block at `h`, and not the same one.
  abbrev pub Differ : ℤ → Type 0
  Differ h =
      (b : Block) × (c : Block) × (long h ≡ some b)
      × (cur h ≡ some c)
      × (block_hash b ≢ block_hash c)

  -- The search ends at `h` with this result, and above it, up to the head, the chains differ.
  abbrev pub EndsAt : ℤ → Result (Option Block × Block) → Type 0
  EndsAt h (ok (key, fork)) =
      (key ≡ long (h +ℤ pos 1))
      × (long h ≡ some fork)
      × (c : Block) × (cur h ≡ some c)
      × (block_hash fork ≡ block_hash c)
  EndsAt h (err longest_error) = long h ≡ none
  EndsAt h (err current_error) = cur h ≡ none
  EndsAt h (err e) = ⊥
  EndsAt h panic = ⊥

  abbrev pub Found : ℤ → Option (Result (Option Block × Block)) → Type 0
  Found head none = ⊥
  Found head (some r) =
      (h : ℤ) × (h ≤ℤ head) × EndsAt h r × ((i : ℤ) → h <ℤ i → i ≤ℤ head → Differ i)

  no_long :
      (n : ℕ) (i : ℤ)
      → long i ≡ none
      → fork_point_rounds (suc n) long cur i ≡ some (err longest_error)
  unfolding fork_point_rounds
  no_long n i e = ground (arith, e)

  no_cur :
      (n : ℕ) (i : ℤ) (b : Block)
      → long i ≡ some b
      → cur i ≡ none
      → fork_point_rounds (suc n) long cur i ≡ some (err current_error)
  unfolding fork_point_rounds
  no_cur n i b e f = ground (arith, e, f)

  met :
      (n : ℕ) (i : ℤ) (b c : Block)
      → long i ≡ some b
      → cur i ≡ some c
      → block_hash b ≡ block_hash c
      → fork_point_rounds (suc n) long cur i ≡ some (ok (long (i +ℤ pos 1), b))
  unfolding fork_point_rounds
  met n i b c e f same = ground (arith, e, f, same)

  not_low :
      (i : ℤ) (b : Block) → ((h : ℤ) → h <ℤ pos 0 → long h ≡ none) → long i ≡ some b → pos 0 ≤ℤ i
  not_low i b low e = elim (Bool-cases (ltb_ℤ i (pos 0))) [
    | inl under ↦ absurd (ground (arith, low i (ground (arith, under)), e))
    | inr over ↦ ground (arith, over)
  ]

  counted : (i : ℤ) (m : ℕ) → i <ℤ pos m → pos 0 ≤ℤ i → (k : ℕ) × ((k < m) × (i <ℤ pos k +ℤ pos 1))
  counted i zero small high = absurd (omega (arith, small, high))
  counted i (suc m) small high = (m, (omega arith, omega (int_laws, small)))

  search_step :
      (n : ℕ) (i : ℤ) (b c : Block)
      → long i ≡ some b
      → cur i ≡ some c
      → block_hash b ≢ block_hash c
      → fork_point_rounds (suc n) long cur i ≡ fork_point_rounds n long cur (i -ℤ pos 1)
  unfolding fork_point_rounds
  search_step n i b c at_long at_cur differ = ground (arith, at_long, at_cur, differ)

  Found-next :
      (i : ℤ) (r : Option (Result (Option Block × Block)))
      → Differ i
      → Found (i -ℤ pos 1) r
      → Found i r
  Found-next i none d f = f
  Found-next i (some r) d (h, below, ends, differ) = (
    h,
    omega (int_laws, below),
    ends,
    λ j above up. elim (Bool-cases (leb_ℤ j (i -ℤ pos 1))) [
      | inl lower ↦ differ j above (ground (arith, lower))
      | inr top ↦
          let over : (i -ℤ pos 1) <ℤ j = ground (arith, top) in
          subst Differ (eq_of_parts i j (omega (int_laws, over, up))) d
    ],
  )

  rounds-Found :
      (n m : ℕ) (i : ℤ)
      → ((h : ℤ) → h <ℤ pos 0 → long h ≡ none)
      → i <ℤ pos m
      → m < n
      → Found i (fork_point_rounds n long cur i)
  unfolding fork_point_rounds
  rounds-Found zero m i low small enough = absurd (omega arith)
  rounds-Found (suc n) m i low small enough = elim (Option-cases (long i)) [
    | inl e ↦
        subst (Found i) (sym (no_long n i e))
          (i, omega arith, e, λ j above up. absurd (omega (arith, above, up)))
    | inr (b, e) ↦ elim (Option-cases (cur i)) [
      | inl f ↦
          subst (Found i) (sym (no_cur n i b e f))
            (i, omega arith, f, λ j above up. absurd (omega (arith, above, up)))
      | inr (c, f) ↦ elim (Bool-cases (block_hash b == block_hash c)) [
        | inl same ↦ subst (Found i) (sym (met n i b c e f (ground (arith, same)))) (
          i,
          omega arith,
          (refl, e, c, f, ground (arith, same)),
          λ j above up. absurd (omega (arith, above, up)),
        )
        | inr other ↦
            let differ : block_hash b ≢ block_hash c = ground (arith, other) in
            let (k, fits) = counted i m small (not_low i b low e) in
            subst (Found i) (sym (search_step n i b c e f differ)) (
              Found-next i (fork_point_rounds n long cur (i -ℤ pos 1)) (b, c, e, f, differ)
                (rounds-Found n k (i -ℤ pos 1) low (omega (int_laws, fits.1))
                  (omega (arith, fits.0))))
      ]
    ]
  ]

  -- The search for the fork point ends within the rounds that it has, if no chain has a block at a
  -- negative height. It fails only at a height where a block is missing on the chain that it names;
  -- otherwise the fork point is the highest block that the two chains share at or below the head of
  -- the current one, and the key point is the next block of the longer chain. At every height above
  -- its end, up to that head, the two chains have different blocks.
  pub get_fork_point-Found :
      (head : ℤ)
      → ((h : ℤ) → h <ℤ pos 0 → long h ≡ none)
      → Found head (get_fork_point long cur head)
  unfolding get_fork_point
  get_fork_point-Found head low =
      rounds-Found (suc (suc (pos_part head))) (suc (pos_part head)) head low (omega arith)
        (omega arith)

-- ===== src/Monitor/Ring/Step.antt =====
-- The values of a ring, the newest first, and one that is added.
use naive_vite.Base.{
  ℕ, zero, suc, ◌+◌, ◌-◌, ◌≡◌, ◌≢◌, ◌<◌, ◌≤◌, refl, ap, sym, ◌∙◌, some, List, [], ◌∷◌, length,
  get_elem?, set, take, ok, ltb, leb, if◌then◌else◌, arith,
}
use naive_vite.Monitor.Ring.{Ring, next_i, add}

-- The index `m` steps before `i` in a ring of `n` places, at most one round back.
abbrev pub back : ℕ → ℕ → ℕ → ℕ
back n i m = if leb m i then i - m else i + n - m

back_apart : (n i m : ℕ) → i < n → suc (suc m) ≤ n → back n i (suc m) ≢ i
back_apart n i m low fits e = ground (arith, low, fits, e)

module _ {V : Type 0} where
  pub get-set : (xs : List V) (i : ℕ) (v : V) → i < length xs → get_elem? (set xs i v) i ≡ some v
  get-set [] i v low = absurd (omega arith)
  get-set (x ∷ xs) zero v low = refl
  get-set (x ∷ xs) (suc i) v low = get-set xs i v (omega arith)

  get-set_other :
      (xs : List V) (i j : ℕ) (v : V) → j ≢ i → get_elem? (set xs i v) j ≡ get_elem? xs j
  get-set_other [] i j v apart = refl
  get-set_other (x ∷ xs) zero zero v apart = absurd (apart refl)
  get-set_other (x ∷ xs) zero (suc j) v apart = refl
  get-set_other (x ∷ xs) (suc i) zero v apart = refl
  get-set_other (x ∷ xs) (suc i) (suc j) v apart = get-set_other xs i j v (λ e. apart (ap suc e))

  pub length-set : (xs : List V) (i : ℕ) (v : V) → length (set xs i v) ≡ length xs
  length-set [] i v = refl
  length-set (x ∷ xs) zero v = refl
  length-set (x ∷ xs) (suc i) v = ap suc (length-set xs i v)

  pub get-take : (n m : ℕ) (xs : List V) → m < n → get_elem? (take n xs) m ≡ get_elem? xs m
  get-take zero m xs low = absurd (omega arith)
  get-take (suc n) m [] low = refl
  get-take (suc n) zero (x ∷ xs) low = refl
  get-take (suc n) (suc m) (x ∷ xs) low = get-take n m xs (omega arith)

  pub length-take :
      (n : ℕ) (xs : List V) → length (take n xs) ≡ (if ltb n (length xs) then n else length xs)
  length-take zero [] = ground arith
  length-take zero (x ∷ xs) = ground arith
  length-take (suc n) [] = ground arith
  length-take (suc n) (x ∷ xs) = ground (arith, length-take n xs)

  -- The ring has the values `ys`, the newest first.
  abbrev pub Holds : Ring V → List V → Type 0
  Holds r ys =
      (r.cap ≡ length ys)
      × (length ys ≤ length r.datas)
      × (r.i < length r.datas)
      × ((m : ℕ)
          → m < length ys
          → get_elem? r.datas (back (length r.datas) r.i (suc m)) ≡ get_elem? ys m)

  back_one : (r : Ring V) → r.i < length r.datas → back (length r.datas) (next_i r r.i) 1 ≡ r.i
  unfolding next_i
  back_one r low = ground (arith, low)

  back_more :
      (r : Ring V) (m : ℕ)
      → r.i < length r.datas
      → suc (suc m) ≤ length r.datas
      → back (length r.datas) (next_i r r.i) (suc (suc m)) ≡ back (length r.datas) r.i (suc m)
  unfolding next_i
  back_more r m low fits = ground (arith, low, fits)

  next_low : (r : Ring V) → r.i < length r.datas → next_i r r.i < length r.datas
  unfolding next_i
  next_low r low = ground (arith, low)

  -- The ring with one more value.
  abbrev pub added : Ring V → V → Ring V
  added r v = record {
    cap = if ltb r.cap (length r.datas) then suc r.cap else r.cap;
    datas = set r.datas r.i v;
    i = next_i r r.i;
  }

  pub add-added : (r : Ring V) (v : V) → r.i < length r.datas → add r v ≡ ok (added r v)
  unfolding add
  add-added r v low = ground (arith, low)

  added_get :
      (r : Ring V) (v : V) (ys : List V) (m : ℕ)
      → Holds r ys
      → m < suc (length ys)
      → m < length r.datas
      → get_elem? (set r.datas r.i v) (back (length r.datas) (next_i r r.i) (suc m))
        ≡ get_elem? (v ∷ ys) m
  added_get r v ys zero (count, fits, low, gets) old small =
      ap (get_elem? (set r.datas r.i v)) (back_one r low) ∙ get-set r.datas r.i v low
  added_get r v ys (suc m) (count, fits, low, gets) old small =
      ap (get_elem? (set r.datas r.i v)) (back_more r m low (omega arith))
      ∙ get-set_other r.datas r.i (back (length r.datas) r.i (suc m)) v
          (back_apart (length r.datas) r.i m low (omega arith))
      ∙ gets m (omega arith)

  pub added-Holds :
      (r : Ring V) (v : V) (ys : List V)
      → Holds r ys
      → Holds (added r v) (take (length r.datas) (v ∷ ys))
  added-Holds r v ys holds =
      let (count, fits, low, gets) = holds in
      let n = length r.datas in
      let same : length (set r.datas r.i v) ≡ n = length-set r.datas r.i v in
      let size = length-take n (v ∷ ys) in
      (
        ground (arith, count, fits, size),
        ground (arith, same, fits, size),
        omega (arith, same, next_low r low),
        λ m. λ old.
            let few : (m < suc (length ys)) × (m < n) = ground (arith, size, old) in
            ap (λ k. get_elem? (set r.datas r.i v) (back k (next_i r r.i) (suc m))) same
            ∙ added_get r v ys m holds few.0 few.1
            ∙ sym (get-take n m (v ∷ ys) few.1),
      )

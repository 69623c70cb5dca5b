-- ===== src/Monitor/Ring/Refine.antt =====
-- The ring holds the last values that were added.
use naive_vite.Base.{
  ℕ, zero, suc, ◌+◌, ◌≡◌, ◌<◌, ◌≤◌, refl, ap, sym, subst, ◌∙◌, some, List, [], ◌∷◌, length,
  get_elem?, take, drop, ok, arith,
}
use naive_vite.Monitor.Ring.{Ring, make_datas, new_ring, last_i, read_back, all, add_all}
use naive_vite.Monitor.Ring.Step.{back, Holds, added, added-Holds, add-added, length-set}

module _ {V : Type 0} where
  -- The last `n` of the values, the newest first, after those of `ys`.
  abbrev pub newest : ℕ → List V → List V → List V
  newest n [] ys = ys
  newest n (v ∷ vs) ys = newest n vs (take n (v ∷ ys))

  abbrev pub reversed : List V → List V → List V
  reversed [] result = result
  reversed (y ∷ ys) result = reversed ys (y ∷ result)

  split_drop :
      (ys : List V) (m : ℕ) (v : V) → get_elem? ys m ≡ some v → drop m ys ≡ v ∷ drop (suc m) ys
  split_drop [] m v e = absurd (ground (arith, e))
  split_drop (y ∷ ys) zero v e = ground (arith, e)
  split_drop (y ∷ ys) (suc m) v e = split_drop ys m v e

  drop_all : (ys : List V) → drop (length ys) ys ≡ []
  drop_all [] = refl
  drop_all (y ∷ ys) = drop_all ys

  has : (ys : List V) (m : ℕ) → m < length ys → (v : V) × (get_elem? ys m ≡ some v)
  has [] m low = absurd (omega arith)
  has (y ∷ ys) zero low = (y, refl)
  has (y ∷ ys) (suc m) low = has ys m (omega arith)

  last_back :
      (r : Ring V) (m : ℕ)
      → r.i < length r.datas
      → m < length r.datas
      → last_i r (back (length r.datas) r.i m) ≡ back (length r.datas) r.i (suc m)
  unfolding last_i
  last_back r m low fits = ground (arith, low, fits)

  read_step :
      (k j j' : ℕ) (r : Ring V) (v : V) (result : List V)
      → last_i r j ≡ j'
      → get_elem? r.datas j' ≡ some v
      → read_back (suc k) j r result ≡ read_back k j' r (v ∷ result)
  unfolding read_back
  read_step k j j' r v result e found =
      ground (arith, ap (get_elem? r.datas) e ∙ found, ap (λ x. read_back k x r (v ∷ result)) e)

  read_end : (j : ℕ) (r : Ring V) (result : List V) → read_back 0 j r result ≡ ok result
  unfolding read_back
  read_end j r result = refl

  read_back-reversed :
      (k m : ℕ) (r : Ring V) (ys result : List V)
      → Holds r ys
      → k + m ≡ length ys
      → read_back k (back (length r.datas) r.i m) r result ≡ ok (reversed (drop m ys) result)
  read_back-reversed zero m r ys result holds count =
      let none_left : drop m ys ≡ [] = ap (λ n. drop n ys) (omega (arith, count)) ∙ drop_all ys in
      read_end (back (length r.datas) r.i m) r result
      ∙ ap (λ zs. ok (reversed zs result)) (sym none_left)
  read_back-reversed (suc k) m r ys result holds count =
      let (size, fits, low, gets) = holds in
      let here : m < length ys = omega (arith, count) in
      let (v, at) = has ys m here in
      read_step k (back (length r.datas) r.i m) (back (length r.datas) r.i (suc m)) r v result
        (last_back r m low (omega (arith, fits, here))) (gets m here ∙ at)
      ∙ read_back-reversed k (suc m) r ys (v ∷ result) holds (omega (arith, count))
      ∙ ap (λ zs. ok (reversed zs result)) (sym (split_drop ys m v at))

  all-Holds : (r : Ring V) (ys : List V) → Holds r ys → all r ≡ ok (reversed ys [])
  unfolding all
  all-Holds r ys holds =
      let (size, fits, low, gets) = holds in
      let start : back (length r.datas) r.i 0 ≡ r.i = ground arith in
      ap (λ k. read_back k r.i r []) size
      ∙ ap (λ j. read_back (length ys) j r []) (sym start)
      ∙ read_back-reversed (length ys) 0 r ys [] holds (omega arith)

  add_step :
      (v : V) (vs : List V) (r : Ring V)
      → r.i < length r.datas
      → add_all (v ∷ vs) r ≡ add_all vs (added r v)
  unfolding add_all
  add_step v vs r low = ground (arith, add-added r v low)

  add_end : (r : Ring V) → add_all [] r ≡ ok r
  unfolding add_all
  add_end r = refl

  add_all-Holds :
      (vs ys : List V) (r : Ring V)
      → Holds r ys
      → (r' : Ring V) × (add_all vs r ≡ ok r') × Holds r' (newest (length r.datas) vs ys)
  add_all-Holds [] ys r holds = (r, add_end r, holds)
  add_all-Holds (v ∷ vs) ys r holds =
      let (r', e, after) =
        add_all-Holds vs (take (length r.datas) (v ∷ ys)) (added r v) (added-Holds r v ys holds) in
      (
        r',
        add_step v vs r holds.2 ∙ e,
        subst (λ n. Holds r' (newest n vs (take (length r.datas) (v ∷ ys))))
            (length-set r.datas r.i v) after,
      )

  length-make_datas : (n : ℕ) (nil : V) → length (make_datas n nil) ≡ n
  unfolding make_datas
  length-make_datas zero nil = refl
  length-make_datas (suc n) nil = ap suc (length-make_datas n nil)

  new_ring-Holds : (nil : V) (n : ℕ) → Holds (new_ring nil (suc n)) []
  unfolding new_ring
  new_ring-Holds nil n =
      let size = length-make_datas (suc n) nil in
      (refl, omega arith, omega (arith, size), λ m. λ low. absurd (omega (arith, low)))

  new_size : (nil : V) (n : ℕ) → length (new_ring nil (suc n)).datas ≡ suc n
  unfolding new_ring
  new_size nil n = length-make_datas (suc n) nil

  take-take : (j k : ℕ) (xs : List V) → j ≤ k → take j (take k xs) ≡ take j xs
  take-take zero k xs low = refl
  take-take (suc j) zero xs low = absurd (omega (arith, low))
  take-take (suc j) (suc k) [] low = refl
  take-take (suc j) (suc k) (x ∷ xs) low = ap (λ ys. x ∷ ys) (take-take j k xs (omega arith))

  take_cons : (k : ℕ) (v : V) (xs : List V) → take k (v ∷ take k xs) ≡ take k (v ∷ xs)
  take_cons zero v xs = refl
  take_cons (suc k) v xs = ap (λ ys. v ∷ ys) (take-take k (suc k) xs (omega arith))

  take-reversed :
      (k : ℕ) (vs xs : List V) → take k (reversed vs (take k xs)) ≡ take k (reversed vs xs)
  take-reversed k [] xs = take-take k k xs (omega arith)
  take-reversed k (v ∷ vs) xs =
      sym (take-reversed k vs (v ∷ take k xs))
      ∙ ap (λ zs. take k (reversed vs zs)) (take_cons k v xs)
      ∙ take-reversed k vs (v ∷ xs)

  newest_lem : (k : ℕ) (vs xs : List V) → take k xs ≡ xs → newest k vs xs ≡ take k (reversed vs xs)
  newest_lem k [] xs fits = sym fits
  newest_lem k (v ∷ vs) xs fits =
      newest_lem k vs (take k (v ∷ xs)) (take-take k k (v ∷ xs) (omega arith))
      ∙ take-reversed k vs (v ∷ xs)

  -- The last `k` values of the list, in their order.
  abbrev pub last_values : ℕ → List V → List V
  last_values k vs = reversed (take k (reversed vs [])) []

  -- A ring of `n + 1` places is the list of the last `n + 1` values that were added to it: no `add` or
  -- `all` panics, and `all` returns these values, the oldest first.
  pub all-add_all :
      (nil : V) (n : ℕ) (vs : List V)
      → (r : Ring V) × (add_all vs (new_ring nil (suc n)) ≡ ok r)
        × (all r ≡ ok (last_values (suc n) vs))
  all-add_all nil n vs =
      let (r, e, holds) = add_all-Holds vs [] (new_ring nil (suc n)) (new_ring-Holds nil n) in
      let same =
        ap (λ k. ok (reversed (newest k vs []) [])) (new_size nil n)
        ∙ ap (λ xs. ok (reversed xs [])) (newest_lem (suc n) vs [] refl) in
      (r, e, all-Holds r (newest (length (new_ring nil (suc n)).datas) vs []) holds ∙ same)

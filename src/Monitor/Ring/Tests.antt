-- ===== src/Monitor/Ring/Tests.antt =====
-- Four values in a ring of three.
use naive_vite.Base.{ℕ, ◌≡◌, refl, [], ◌∷◌, ok}
use naive_vite.Monitor.Ring.{Ring, new_ring, add_all, all}
use naive_vite.Monitor.Ring.Refine.{last_values, all-add_all}

last_three : last_values {V = ℕ} 3 (5 ∷ 6 ∷ 7 ∷ 8 ∷ []) ≡ 6 ∷ 7 ∷ 8 ∷ []
last_three = refl

all-add_all_example :
    (r : Ring ℕ) × (add_all (5 ∷ 6 ∷ 7 ∷ 8 ∷ []) (new_ring 0 3) ≡ ok r)
    × (all r ≡ ok (last_values {V = ℕ} 3 (5 ∷ 6 ∷ 7 ∷ 8 ∷ [])))
all-add_all_example = all-add_all 0 2 (5 ∷ 6 ∷ 7 ∷ 8 ∷ [])

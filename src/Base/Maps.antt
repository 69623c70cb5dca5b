-- ===== src/Base/Maps.antt =====
-- Go maps and `sync.Map`s. A map that the code never ranges over is a function into `Option`; one
-- that it ranges over is an association list without double keys.
use Prim.Native.Nat.{ℕ}
use mathlib.Core.Path.{◌≡◌, subst}
use mathlib.Core.Logic.{inl, inr}
use mathlib.Core.Bool.{Bool}
use mathlib.Core.List.{List, [], ◌∷◌}
use mathlib.Core.Option.{Option, none, some}
use native.Mathlib.Omega.{arith}
use naive_vite.Base.Tests.{◌==◌, if◌then◌else◌, Bool-cases}
use naive_vite.Base.Lists.{All}

abbrev pub Map : Type 0 → Type 0 → Type 0
Map K V = K → Option V

module _ {K V : Type 0} (eq : K → K → Bool) where
  -- `m[k] = v`
  abbrev pub store : Map K V → K → V → Map K V
  store m k v j = if eq j k then some v else m j

  -- `delete(m, k)`
  abbrev pub delete : Map K V → K → Map K V
  delete m k j = if eq j k then none else m j

-- An association list: the first entry of a key counts, and `insert` replaces it in its place.
abbrev pub Table : Type 0 → Type 0
Table V = List (ℕ × V)

module _ {V : Type 0} where
  unfoldable pub lookup : ℕ → Table V → Option V
  lookup key [] = none
  lookup key (e ∷ rest) = if e.0 == key then some e.1 else lookup key rest

  unfoldable pub insert : ℕ → V → Table V → Table V
  insert key value [] = (key, value) ∷ []
  insert key value (e ∷ rest) =
      let later = e ∷ insert key value rest in if e.0 == key then (key, value) ∷ rest else later

  unfoldable pub remove : ℕ → Table V → Table V
  remove key [] = []
  remove key (e ∷ rest) = let later = remove key rest in if e.0 == key then later else e ∷ later

  pub lookup-insert :
      (key other : ℕ) (value : V) (t : Table V)
      → lookup other (insert key value t) ≡ (if key == other then some value else lookup other t)
  unfolding lookup insert
  lookup-insert key other value [] = ground arith
  lookup-insert key other value (e ∷ rest) = ground (arith, lookup-insert key other value rest)

  pub lookup-remove :
      (key other : ℕ) (t : Table V)
      → lookup other (remove key t) ≡ (if key == other then none else lookup other t)
  unfolding lookup remove
  lookup-remove key other [] = ground arith
  lookup-remove key other (e ∷ rest) = ground (arith, lookup-remove key other rest)

  pub All-insert :
      (P : ℕ × V → Type 0) (k : ℕ) (v : V) (t : Table V) → P (k, v) → All P t → All P (insert k v t)
  unfolding insert
  All-insert P k v [] p all = (p, tt)
  All-insert P k v ((j, u) ∷ t) p (q, all) = elim (Bool-cases (j == k)) [
    | inl e ↦ subst (All P) {x = (k, v) ∷ t} (ground (arith, e)) (p, all)
    | inr e ↦
        subst (All P) {x = (j, u) ∷ insert k v t} (ground (arith, e)) (q, All-insert P k v t p all)
  ]

  pub All-lookup :
      (P : ℕ × V → Type 0) (t : Table V) (k : ℕ) (v : V) → All P t → lookup k t ≡ some v → P (k, v)
  unfolding lookup
  All-lookup P [] k v all f = absurd (ground (arith, f))
  All-lookup P ((j, u) ∷ t) k v (p, all) f = elim (Bool-cases (j == k)) [
    | inl h ↦ subst P {x = (j, u)} {y = (k, v)} (ground (arith, h, f)) p
    | inr h ↦ All-lookup P t k v all (ground (arith, h, f))
  ]

  pub All-remove : (P : ℕ × V → Type 0) (k : ℕ) (t : Table V) → All P t → All P (remove k t)
  unfolding remove
  All-remove P k [] all = tt
  All-remove P k ((j, u) ∷ t) (p, all) = elim (Bool-cases (j == k)) [
    | inl e ↦ subst (All P) {x = remove k t} (ground (arith, e)) (All-remove P k t all)
    | inr e ↦ subst (All P) {x = (j, u) ∷ remove k t} (ground (arith, e)) (p, All-remove P k t all)
  ]

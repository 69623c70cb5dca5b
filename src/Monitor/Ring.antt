-- ===== src/Monitor/Ring.antt =====
-- monitor/ring.go: a ring over an array of a fixed length. A read or write out of its bounds is a panic.
pub mod Step
pub mod Refine
mod Tests
use naive_vite.Base.{
  ℕ, zero, suc, ◌-◌, Option, none, some, List, [], ◌∷◌, length, get_elem?, set, Result, ok, err,
  panic, ltb, leb, ◌==◌, if◌then◌else◌,
}

-- `ring`: `cap` is the number of values in it.
pub record Ring (V : Type 0) : Type 0 where
  pub cap : ℕ
  pub datas : List V
  pub i : ℕ

module _ {V : Type 0} where
  unfoldable pub make_datas : ℕ → V → List V
  make_datas zero nil = []
  make_datas (suc n) nil = nil ∷ make_datas n nil

  -- `newRing(n)`, with Go's zero value.
  unfoldable pub new_ring : V → ℕ → Ring V
  unfolding make_datas
  new_ring nil n = record { cap = 0; datas = make_datas n nil; i = 0 }

  unfoldable pub next_i : Ring V → ℕ → ℕ
  next_i r i = if leb (length r.datas) (suc i) then 0 else suc i

  unfoldable pub last_i : Ring V → ℕ → ℕ
  last_i r i = if i == 0 then length r.datas - 1 else i - 1

  unfoldable pub add : Ring V → V → Result (Ring V)
  unfolding next_i
  add r v =
      if leb (length r.datas) r.i
      then panic
      else ok (record {
        cap = if ltb r.cap (length r.datas) then suc r.cap else r.cap;
        datas = set r.datas r.i v;
        i = next_i r r.i;
      })

  unfoldable pub reset : Ring V → Ring V
  reset r = record r { i = 0; cap = 0 }

  -- The loop of `all`, with the values that are read already: `n` are left, below the index `j`.
  unfoldable pub read_back : ℕ → ℕ → Ring V → List V → Result (List V)
  unfolding last_i
  read_back zero j r result = ok result
  read_back (suc n) j r result = elim (get_elem? r.datas (last_i r j)) [
    | none ↦ panic
    | some v ↦ read_back n (last_i r j) r (v ∷ result)
  ]

  unfoldable pub all : Ring V → Result (List V)
  unfolding read_back
  all r = read_back r.cap r.i r []

  -- The ring after these values have been added.
  unfoldable pub add_all : List V → Ring V → Result (Ring V)
  unfolding add
  add_all [] r = ok r
  add_all (v ∷ vs) r = elim (add r v) [ ok r' ↦ add_all vs r' | err e ↦ err e | panic ↦ panic ]

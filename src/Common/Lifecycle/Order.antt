-- ===== src/Common/Lifecycle/Order.antt =====
-- The one order in which a service can be taken through its life.
use naive_vite.Base.{
  ℕ, suc, ◌+◌, ◌≡◌, ◌↔◌, refl, subst, List, [], ◌∷◌, ◌==◌, if◌then◌else◌, length, ok, panic,
  Result-cases, inl, inr, arith,
}
use naive_vite.Common.Lifecycle.{
  LifecycleStatus, Op, pre_init, post_init, pre_start, post_start, pre_stop, post_stop, apply_op,
  run_ops, swap_status,
}

abbrev pub rank : Op → ℕ
rank pre_init = 0
rank post_init = 1
rank pre_start = 2
rank post_start = 3
rank pre_stop = 4
rank post_stop = 5

-- The calls `os` are in order, each once, from the one of the given rank on.
abbrev pub IsInOrder : ℕ → List Op → Type 0
IsInOrder n [] = Unit
IsInOrder n (o ∷ os) = (rank o ≡ n) × IsInOrder (suc n) os

apply_op-rank :
    (o : Op) (self : LifecycleStatus)
    → apply_op o self ≡ (if self.s == rank o then ok (record { s = suc (rank o) }) else panic)
unfolding apply_op swap_status
apply_op-rank pre_init self = refl
apply_op-rank post_init self = refl
apply_op-rank pre_start self = refl
apply_op-rank post_start self = refl
apply_op-rank pre_stop self = refl
apply_op-rank post_stop self = refl

ordered :
    (os : List Op) (self after : LifecycleStatus)
    → run_ops os self ≡ ok after
    → IsInOrder self.s os × (after.s ≡ self.s + length os)
unfolding run_ops
ordered [] self after e = (tt, ground arith)
ordered (o ∷ os) self after e = elim (Result-cases (apply_op o self)) [
  | inl (next, f) ↦
      let stepped : (rank o ≡ self.s) × (next.s ≡ suc self.s) =
        (ground (arith, apply_op-rank o self), ground (arith, apply_op-rank o self)) in
      let (rest, end) = ordered os next after (ground (arith, f)) in
      ((stepped.0, subst (λ n. IsInOrder n os) stepped.1 rest), ground (arith, stepped.1, end))
  | inr (inl (x, f)) ↦ absurd (ground arith)
  | inr (inr f) ↦ absurd (ground arith)
]

runs :
    (os : List Op) (self : LifecycleStatus)
    → IsInOrder self.s os
    → run_ops os self ≡ ok (record { s = self.s + length os })
unfolding run_ops
runs [] self h = ground arith
runs (o ∷ os) self (h, rest) =
    let next = runs os (record { s = suc self.s }) rest in
    ground (arith, apply_op-rank o self, h, next)

-- A sequence of lifecycle calls runs through without a panic exactly if it takes the statuses in
-- their order, each once, from the present one on; the status then is the last one taken.
pub run_ops_iff :
    (os : List Op) (self after : LifecycleStatus)
    → (run_ops os self ≡ ok after) ↔ (IsInOrder self.s os × (after.s ≡ self.s + length os))
run_ops_iff os self after =
    (λ e. ordered os self after e, λ (order, end). ground (arith, runs os self order, end))

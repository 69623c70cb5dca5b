-- ===== src/Common/Lifecycle.antt =====
-- common/lifecycle.go: the status of a service. An atomic compare-and-swap is one step.
pub mod Order
mod Tests
use naive_vite.Base.{ℕ, Bool, List, [], ◌∷◌, ◌==◌, if◌then◌else◌, Result, ok, err, panic}

-- `S`: 0 origin, 1 initing, 2 inited, 3 starting, 4 started, 5 stopping, 6 stopped.
pub record LifecycleStatus : Type 0 where
  pub s : ℕ

-- The status moves from `old` to `new`, or the call panics.
unfoldable pub swap_status : ℕ → ℕ → LifecycleStatus → Result LifecycleStatus
swap_status old new self = if self.s == old then ok (record { s = new }) else panic

pub data Op : Type 0 where
  pre_init post_init pre_start post_start pre_stop post_stop : Op

unfoldable pub apply_op : Op → LifecycleStatus → Result LifecycleStatus
unfolding swap_status
apply_op pre_init self = swap_status 0 1 self
apply_op post_init self = swap_status 1 2 self
apply_op pre_start self = swap_status 2 3 self
apply_op post_start self = swap_status 3 4 self
apply_op pre_stop self = swap_status 4 5 self
apply_op post_stop self = swap_status 5 6 self

unfoldable pub stopped : LifecycleStatus → Bool
stopped self = self.s == 6

-- The calls one after another; a panic ends them.
unfoldable pub run_ops : List Op → LifecycleStatus → Result LifecycleStatus
unfolding apply_op
run_ops [] self = ok self
run_ops (o ∷ os) self = elim (apply_op o self) [
  | ok next ↦ run_ops os next
  | err e ↦ err e
  | panic ↦ panic
]

-- ===== src/Common/Lifecycle/Tests.antt =====
-- A service that is initialised and about to start.
use naive_vite.Base.{◌+◌, ◌≡◌, ◌↔◌, List, [], ◌∷◌, length, ok}
use naive_vite.Common.Lifecycle.{LifecycleStatus, Op, pre_init, post_init, pre_start, run_ops}
use naive_vite.Common.Lifecycle.Order.{IsInOrder, run_ops_iff}

abbrev calls : List Op
calls = pre_init ∷ post_init ∷ pre_start ∷ []

abbrev origin : LifecycleStatus
origin = record { s = 0 }

abbrev starting : LifecycleStatus
starting = record { s = 3 }

run_ops_iff_example :
    (run_ops calls origin ≡ ok starting) ↔ (IsInOrder 0 calls × (3 ≡ 0 + length calls))
run_ops_iff_example = run_ops_iff calls origin starting

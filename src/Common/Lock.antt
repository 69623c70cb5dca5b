-- ===== src/Common/Lock.antt =====
-- common/lock.go: the two locks. An atomic compare-and-swap is one step, and a loop that waits for
-- one repeats until it succeeds; the counter of readers is unbounded.
pub mod Stuck
mod Tests
use naive_vite.Base.{ℕ, Bool, true, false, List, [], ◌∷◌, if◌then◌else◌}
use naive_vite.Base.Int.{ℤ, pos, negsuc, ◌+ℤ◌, ◌-ℤ◌, ltb_ℤ, ◌==ℤ◌}

-- `CompareAndSwapInt32`: whether it swaps, and the value afterwards.
unfoldable pub swap : ℤ → ℤ → ℤ → Bool × ℤ
swap value old new = if value ==ℤ old then (true, new) else (false, value)

pub record NonBlockLock : Type 0 where
  pub b : ℤ

unfoldable pub try_lock : NonBlockLock → Bool × NonBlockLock
unfolding swap
try_lock self = let (won, b) = swap self.b (pos 0) (pos 1) in (won, record { b = b })

unfoldable pub un_lock : NonBlockLock → Bool × NonBlockLock
unfolding swap
un_lock self = let (won, b) = swap self.b (pos 1) (pos 0) in (won, record { b = b })

pub record RwLock : Type 0 where
  pub r : ℤ
  pub w : ℤ

unfoldable pub try_rlock : RwLock → Bool × RwLock
try_rlock self =
    if ltb_ℤ self.r (pos 0) then (false, self) else (true, record self { r = self.r +ℤ pos 1 })

unfoldable pub un_rlock : RwLock → Bool × RwLock
un_rlock self =
    if ltb_ℤ self.r (pos 0) then (false, self) else (true, record self { r = self.r -ℤ pos 1 })

unfoldable pub try_wlock : RwLock → Bool × RwLock
unfolding swap
try_wlock self =
    if ltb_ℤ (pos 0) self.r
    then (false, self)
    else (let (won, r) = swap self.r (pos 0) (negsuc 0) in (won, record self { r = r }))

-- One round of the loop of `WLock`, which goes on until it is true.
unfoldable pub wlock_round : RwLock → Bool × RwLock
unfolding swap
wlock_round self = let (won, r) = swap self.r (pos 0) (negsuc 0) in (won, record self { r = r })

unfoldable pub un_wlock : RwLock → Bool × RwLock
unfolding swap
un_wlock self = let (won, w) = swap self.w (negsuc 0) (pos 0) in (won, record self { w = w })

pub data RwOp : Type 0 where
  rlock unrlock wlock_try wlock_wait unwlock : RwOp

unfoldable pub rw_op : RwOp → RwLock → Bool × RwLock
unfolding try_rlock un_rlock try_wlock wlock_round un_wlock
rw_op rlock self = try_rlock self
rw_op unrlock self = un_rlock self
rw_op wlock_try self = try_wlock self
rw_op wlock_wait self = wlock_round self
rw_op unwlock self = un_wlock self

-- The steps of all goroutines, in the order in which they happen.
unfoldable pub rw_ops : List RwOp → RwLock → RwLock
unfolding rw_op
rw_ops [] self = self
rw_ops (o ∷ os) self = rw_ops os (rw_op o self).1

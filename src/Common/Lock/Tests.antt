-- ===== src/Common/Lock/Tests.antt =====
-- A write lock that is taken, unlocked, and tried again.
use naive_vite.Base.{◌≡◌, refl, true}
use naive_vite.Base.Int.{pos}
use naive_vite.Common.Lock.{RwLock, wlock_try, rw_op, try_wlock, swap}
use naive_vite.Common.Lock.Stuck.{write_locked}

abbrev free : RwLock
free = record { r = pos 0; w = pos 0 }

taken : rw_op wlock_try free ≡ (true, write_locked)
unfolding rw_op try_wlock swap
taken = refl

-- ===== src/Common/Lock/Stuck.antt =====
-- A write lock that is taken once is never given back.
use naive_vite.Base.{◌≡◌, refl, sym, ap, subst, false, List, [], ◌∷◌}
use naive_vite.Base.Int.{pos, negsuc}
use naive_vite.Common.Lock.{
  swap, RwLock, RwOp, rlock, unrlock, wlock_try, wlock_wait, unwlock, rw_op, rw_ops, try_rlock,
  un_rlock, try_wlock, wlock_round, un_wlock,
}

abbrev pub write_locked : RwLock
write_locked = record { r = negsuc 0; w = pos 0 }

refused : (o : RwOp) → rw_op o write_locked ≡ (false, write_locked)
unfolding rw_op try_rlock un_rlock try_wlock wlock_round un_wlock swap
refused rlock = refl
refused unrlock = refl
refused wlock_try = refl
refused wlock_wait = refl
refused unwlock = refl

-- Once an `RWLock` is locked for writing, it stays locked whatever is called: every later call, the
-- one that unlocks it among them, is false and changes nothing.
pub write_lock_stays :
    (os : List RwOp) (o : RwOp)
    → (rw_ops os write_locked ≡ write_locked)
      × (rw_op o (rw_ops os write_locked) ≡ (false, write_locked))
unfolding rw_ops
write_lock_stays [] o = (refl, refused o)
write_lock_stays (p ∷ os) o =
    subst (λ s. (rw_ops os s ≡ write_locked) × (rw_op o (rw_ops os s) ≡ (false, write_locked)))
      (sym (ap (λ x. x.1) (refused p))) (write_lock_stays os o)

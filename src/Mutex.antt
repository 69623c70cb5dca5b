-- ===== src/Mutex.antt =====
-- sync.RWMutex of Go, for one goroutine while no other holds the lock or waits for it: a call that has
-- to wait waits for ever, since no one else lets go.
use naive_vite.Base.{
  ℕ, suc, ◌-◌, Bool, true, false, Option, none, some, if◌then◌else◌, ◌==◌, ◌&&◌, not,
}

pub record RwMutex : Type 0 where
  pub writing : Bool
  pub readers : ℕ

abbrev pub unlocked : RwMutex
unlocked = record { writing = false; readers = 0 }

-- `none` is a call that waits for ever.
unfoldable pub lock : RwMutex → Option RwMutex
lock m = if not m.writing && m.readers == 0 then some (record m { writing = true }) else none

unfoldable pub unlock : RwMutex → RwMutex
unlock m = record m { writing = false }

unfoldable pub r_lock : RwMutex → Option RwMutex
r_lock m = if m.writing then none else some (record m { readers = suc m.readers })

unfoldable pub r_unlock : RwMutex → RwMutex
r_unlock m = record m { readers = m.readers - 1 }

-- ===== src/Pool/Waiting.antt =====
-- pool/pool.go: the accounts that wait to be rolled back, by address, and how far.
pub mod Last
mod Tests
use naive_vite.Base.{Bool, true, Option, none, some, if◌then◌else◌, Table, lookup, insert}
use naive_vite.Base.Int.{ltb_ℤ}
use naive_vite.Types.{AccountHashH}

-- `canAdd`: the account is not in the map, or is there for a greater height.
unfoldable pub can_add : Table AccountHashH → AccountHashH → Bool
can_add hs h = elim (lookup h.addr hs) [ none ↦ true | some hash_h ↦ ltb_ℤ h.height hash_h.height ]

unfoldable pub add_wait_rollback : Table AccountHashH → AccountHashH → Table AccountHashH
add_wait_rollback hs h = elim (lookup h.addr hs) [
  | none ↦ insert h.addr h hs
  | some hash_h ↦ if ltb_ℤ hash_h.height h.height then insert h.addr h hs else hs
]

-- What `getWaitRollbackAccounts` does with `waitRollback` for one task.
unfoldable pub put_wait_rollback : Table AccountHashH → AccountHashH → Table AccountHashH
unfolding can_add add_wait_rollback
put_wait_rollback hs v =
    let wait_rollback = if can_add hs v then insert v.addr v hs else hs in
    add_wait_rollback wait_rollback v

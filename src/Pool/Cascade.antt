-- ===== src/Pool/Cascade.antt =====
-- pool/pool.go: the accounts that a rollback takes with it. A transfer that is taken back takes its
-- receipt back, and so on: `getWaitRollbackAccounts` follows the receipts round by round.
pub mod Sends
pub mod Rounds
pub mod Reached
pub mod Ends
mod Tests
use naive_vite.Base.{
  ℕ, zero, suc, Option, none, some, List, [], ◌∷◌, ◌++◌, if◌then◌else◌, Table, insert, Result, ok,
  err, panic,
}
use naive_vite.Base.Int.{ℤ, pos, ltb_ℤ}
use naive_vite.Types.{Address, AccountHashH, AccountStateBlock, new_account_hash_h}
use naive_vite.Verifier.Reader.{ChainReader}
use naive_vite.Pool.Missing.{try_rollback}
use naive_vite.Pool.Waiting.{can_add, put_wait_rollback}
use naive_vite.Pool.Disk.Reader.{no_account_block}

-- `Head` and `getBlock` of an account's `diskChain`.
unfoldable pub head_on_disk : ChainReader → Address → AccountStateBlock
head_on_disk r a = elim (r.head_account a) [ none ↦ no_account_block | some b ↦ b ]

unfoldable pub on_disk : ChainReader → Address → ℤ → Option AccountStateBlock
on_disk r a h = if ltb_ℤ h (pos 0) then none else r.get_account_by_height a h

-- The transfers that the rollback of a task takes back. An error of `TryRollback` is only logged.
unfoldable pub sends_of : ChainReader → AccountHashH → List AccountStateBlock
unfolding head_on_disk on_disk try_rollback
sends_of r v = elim (try_rollback (head_on_disk r v.addr) (on_disk r v.addr) v.height v.hash) [
  | ok sends ↦ sends
  | err _ ↦ []
  | panic ↦ []
]

-- The loop over the tasks: `waitRollback` then, and the transfers in the order of the tasks.
unfoldable pub take_tasks :
    ChainReader
    → List (Address × AccountHashH)
    → Table AccountHashH
    → Table AccountHashH × List AccountStateBlock
unfolding sends_of
take_tasks r [] wait = (wait, [])
take_tasks r ((k, v) ∷ rest) wait =
    let (wait', sends) = take_tasks r rest (put_wait_rollback wait v) in
    (wait', sends_of r v ++ sends)

unfoldable pub point_of : AccountStateBlock → AccountHashH
point_of req = new_account_hash_h req.signer req.hash req.height

unfoldable pub put_task : Table AccountHashH → AccountHashH → Table AccountHashH
put_task tasks h = if can_add tasks h then insert h.addr h tasks else tasks

-- The loop over the transfers: the tasks of the next round. A transfer without a receipt is a nil
-- pointer.
unfoldable pub next_tasks :
    ChainReader → List AccountStateBlock → Table AccountHashH → Result (Table AccountHashH)
unfolding point_of put_task
next_tasks r [] tasks = ok tasks
next_tasks r (s ∷ ss) tasks = elim (r.get_account_by_source_hash s.to s.hash) [
  | ok none ↦ panic
  | ok (some req) ↦ next_tasks r ss (put_task tasks (point_of req))
  | err e ↦ err e
  | panic ↦ panic
]

-- At most `n` rounds of `getWaitRollbackAccounts`; `none` if these do not do.
unfoldable pub wait_rounds :
    ChainReader → ℕ → Table AccountHashH → Table AccountHashH → Option (Result (Table AccountHashH))
unfolding take_tasks next_tasks
wait_rounds r zero tasks wait = none
wait_rounds r (suc n) tasks wait =
    let (wait', sends) = take_tasks r tasks wait in
    elim (next_tasks r sends []) [
      | ok [] ↦ some (ok wait')
      | ok (t ∷ ts) ↦ wait_rounds r n (t ∷ ts) wait'
      | err e ↦ some (err e)
      | panic ↦ some panic
    ]

unfoldable pub get_wait_rollback_accounts :
    ChainReader → ℕ → Table AccountHashH → Option (Result (Table AccountHashH))
unfolding wait_rounds
get_wait_rollback_accounts r fuel tasks = wait_rounds r fuel tasks []

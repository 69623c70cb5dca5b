-- ===== src/Pool/Accounts/Fork.antt =====
-- pool/pool.go and pool/account_pool.go: what a fork does to the pools of accounts (`ForkAccounts`,
-- `ForkAccountTo`, `PendingAccountTo`).
use naive_vite.Base.{
  not, ℕ, Option, none, some, List, [], ◌∷◌, ◌==◌, if◌then◌else◌, Result, ok, err, panic,
}
use naive_vite.Base.Int.{ℤ, pos, ◌-ℤ◌}
use naive_vite.Types.{
  Hash, Address, AccountHashH, AccountStateBlock, SnapshotBlock, new_account_hash_h,
}
use naive_vite.Pool.Chain.{account_block, snapshot_block, ForkedChain}
use naive_vite.Pool.Disk.Reader.{account_rw}
use naive_vite.Pool.Modify.{
  chains, find_in, which_chain, get_fork_point_by_chains, current_modify_to_chain,
}
use naive_vite.Pool.Cascade.{head_on_disk, get_wait_rollback_accounts}
use naive_vite.Pool.Accounts.{
  AccountPools, Ending, at, fetch, self_pending_ac, put_pending_ac, touch, touch_all, fork_tasks,
  roll_back_all, roll_back_each,
}

module _ (genesis : SnapshotBlock) (version : ℤ) where
  -- `FindRollbackPointForAccountHashH` of the account's pool: `none` stands for false.
  unfoldable pub find_rollback_point_for_account_hash_h :
      AccountPools
      → Address
      → ℤ
      → Hash
      → AccountPools × Option (Result (Option (AccountStateBlock × ForkedChain)))
  unfolding self_pending_ac fetch head_on_disk
  find_rollback_point_for_account_hash_h ps a height hash =
      let rw = account_rw a version in
      let p = self_pending_ac genesis version ps a in
      let current = p.current in
      let head = head_on_disk (at genesis version ps.bc) a in
      elim (which_chain rw version p height hash) [
        | none ↦ (
          fetch ps (record {
            chain = a;
            height = height;
            hash = hash;
            prev_cnt = height -ℤ head.height;
          }),
          some (ok none),
        )
        | some c ↦
            if c.chain_id == current.chain_id
            then (ps, some (ok none))
            else (elim (get_fork_point_by_chains rw version p c current) [
              | none ↦ (ps, none)
              | some (ok (_, account_block b)) ↦ (ps, some (ok (some (b, c))))
              | some (ok (_, snapshot_block _)) ↦ (ps, some panic)
              | some (err e) ↦ (ps, some (err e))
              | some panic ↦ (ps, some panic)
            ])
      ]

  unfoldable pub ask_for : AccountPools → AccountHashH → AccountPools
  unfolding fetch
  ask_for ps h =
      fetch ps (record { chain = h.addr; height = h.height; hash = h.hash; prev_cnt = pos 5 })

  -- `PendingAccountTo`
  unfoldable pub pending_account_to : AccountPools → AccountHashH → AccountPools
  unfolding touch self_pending_ac ask_for
  pending_account_to ps h =
      let ps' = touch genesis version ps h.addr in
      if find_in (chains (self_pending_ac genesis version ps h.addr)) h.hash h.height
      then ps'
      else ask_for ps' h

  -- The end of `ForkAccountTo`, which makes `chain` the current one of the account.
  unfoldable pub current_to : AccountPools → Address → ForkedChain → Ending
  unfolding self_pending_ac put_pending_ac
  current_to ps a chain =
      elim (current_modify_to_chain (account_rw a version) version
        (self_pending_ac genesis version ps a) chain) [
          | none ↦ none
          | some (ok p) ↦ some (put_pending_ac genesis version ps a p, ok tt)
          | some (err e) ↦ some (ps, err e)
          | some panic ↦ some (ps, panic)
        ]

  -- `ForkAccountTo` where it has found the fork point `block` of `chain` and the current one.
  unfoldable pub fork_to : ℕ → AccountPools → Address → AccountStateBlock → ForkedChain → Ending
  unfolding touch_all roll_back_each current_to
  fork_to fuel ps a block chain =
      let task = new_account_hash_h a block.hash block.height in
      elim (get_wait_rollback_accounts (at genesis version ps.bc) fuel ((a, task) ∷ [])) [
        | none ↦ none
        | some (ok wait) ↦
            let (ps', done) =
              roll_back_each genesis version wait (touch_all genesis version wait ps) in
            elim done [
              | ok _ ↦ current_to ps' a chain
              | err e ↦ some (ps', err e)
              | panic ↦ some (ps', panic)
            ]
        | some (err e) ↦ some (ps, err e)
        | some panic ↦ some (ps, panic)
      ]

  -- `ForkAccountTo`: an error of the search is only logged.
  unfoldable pub fork_account_to : ℕ → AccountPools → AccountHashH → Ending
  unfolding touch self_pending_ac ask_for find_rollback_point_for_account_hash_h fork_to
  fork_account_to fuel ps h =
      let ps1 = touch genesis version ps h.addr in
      let (ps2, found) = find_rollback_point_for_account_hash_h ps1 h.addr h.height h.hash in
      if not (find_in (chains (self_pending_ac genesis version ps h.addr)) h.hash h.height)
      then some (ask_for ps1 h, ok tt)
      else (elim found [
        | none ↦ none
        | some (ok (some (block, chain))) ↦ fork_to fuel ps2 h.addr block chain
        | some (ok none) ↦ some (ps2, ok tt)
        | some (err _) ↦ some (ps2, ok tt)
        | some panic ↦ some (ps2, panic)
      ])

  -- The last loop of `ForkAccounts`, which takes no notice of errors.
  unfoldable pub fork_all : ℕ → List AccountHashH → AccountPools → Ending
  unfolding fork_account_to
  fork_all fuel [] ps = some (ps, ok tt)
  fork_all fuel (v ∷ vs) ps = elim (fork_account_to fuel ps v) [
    | none ↦ none
    | some (ps', ok _) ↦ fork_all fuel vs ps'
    | some (ps', err _) ↦ fork_all fuel vs ps'
    | some (ps', panic) ↦ some (ps', panic)
  ]

  -- `ForkAccounts` from the accounts that wait.
  unfoldable pub fork_waiting :
      ℕ → AccountPools → List AccountHashH → List (Address × AccountHashH) → Ending
  unfolding touch_all roll_back_all fork_all
  fork_waiting fuel ps accounts wait =
      let (ps', done) = roll_back_all genesis version wait (touch_all genesis version wait ps) in
      elim done [
        | ok _ ↦ fork_all fuel accounts ps'
        | err e ↦ some (ps', err e)
        | panic ↦ some (ps', panic)
      ]

  unfoldable pub fork_accounts : ℕ → AccountPools → SnapshotBlock → SnapshotBlock → Ending
  unfolding fork_tasks fork_waiting
  fork_accounts fuel ps key_point fork_point =
      elim (fork_tasks genesis version ps.bc fork_point.height ps.pending_ac []) [
        | ok tasks ↦ elim (get_wait_rollback_accounts (at genesis version ps.bc) fuel tasks) [
          | none ↦ none
          | some (ok wait) ↦ fork_waiting fuel ps key_point.accounts wait
          | some (err e) ↦ some (ps, err e)
          | some panic ↦ some (ps, panic)
        ]
        | err e ↦ some (ps, err e)
        | panic ↦ some (ps, panic)
      ]

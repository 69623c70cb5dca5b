-- ===== src/Pool/Accounts.antt =====
-- pool/pool.go and pool/account_pool.go: the pools of all accounts over the one block chain, and the
-- rollback of accounts when a chain forks.
pub mod Fork
use naive_vite.Base.{
  ℕ, Option, none, some, List, [], ◌∷◌, ◌++◌, ◌==◌, if◌then◌else◌, Table, lookup, insert, Result,
  ok, err, panic,
}
use naive_vite.Base.Int.{ℤ, pos, ◌-ℤ◌, ltb_ℤ}
use naive_vite.Types.{
  Hash, Address, AccountHashH, AccountStateBlock, SnapshotBlock, FetchRequest, new_account_hash_h,
}
use naive_vite.Chain.Block
use naive_vite.Chain.Block.{BlockChain}
use naive_vite.Verifier.Reader.{ChainReader, reader}
use naive_vite.Pool.Chain.{account_block, snapshot_block, ForkedChain, init_forked}
use naive_vite.Pool.Disk.{ChainPool, rollback}
use naive_vite.Pool.Disk.Reader.{account_rw}
use naive_vite.Pool.Modify.{
  chains, find_in, which_chain, get_fork_point_by_chains, current_modify_to_chain,
}
use naive_vite.Pool.Cascade.{head_on_disk, get_wait_rollback_accounts}

-- The block chain, the account pools (each but for its blocks that are in no snippet), and what has
-- been asked for.
pub record AccountPools : Type 0 where
  pub bc : BlockChain
  pub pending_ac : Table (ChainPool BlockChain)
  pub fetched : List FetchRequest

-- The two ends of a call: the state, and what it returns. `none` if the rounds do not do.
abbrev pub Ending : Type 0
Ending = Option (AccountPools × Result (Unit {0}))

unfoldable pub fetch : AccountPools → FetchRequest → AccountPools
fetch ps r = record ps { fetched = ps.fetched ++ (r ∷ []) }

-- `init` of a new account pool, whose chain ends at `head`.
unfoldable pub new_account_pool : BlockChain → AccountStateBlock → ChainPool BlockChain
new_account_pool bc head = record {
  disk = bc;
  current = init_forked 1 (account_block head);
  others = [];
  snippet_chains = [];
  lastest_chain_idx = 1;
}

module _ (genesis : SnapshotBlock) (version : ℤ) where
  abbrev pub at : BlockChain → ChainReader
  at bc = reader genesis bc

  -- `selfPendingAc`: the account's pool, made if need be.
  unfoldable pub self_pending_ac : AccountPools → Address → ChainPool BlockChain
  unfolding new_account_pool head_on_disk
  self_pending_ac ps a = elim (lookup a ps.pending_ac) [
    | none ↦ new_account_pool ps.bc (head_on_disk (at ps.bc) a)
    | some p ↦ record p { disk = ps.bc }
  ]

  -- The account's pool after an operation on it, which may have changed the block chain.
  unfoldable pub put_pending_ac : AccountPools → Address → ChainPool BlockChain → AccountPools
  put_pending_ac ps a p = record ps { bc = p.disk; pending_ac = insert a p ps.pending_ac }

  -- `FindRollbackPointByReferSnapshot`: `none` stands for false; a block that is not found is nil.
  unfoldable pub find_rollback_point_by_refer_snapshot :
      BlockChain → Address → ℤ → Result (Option (Option AccountStateBlock))
  unfolding head_on_disk
  find_rollback_point_by_refer_snapshot bc a snapshot_height =
      let head = head_on_disk (at bc) a in
      if ltb_ℤ head.snapshot_height snapshot_height
      then ok none
      else (elim (Block.find_account_above_snapshot_height bc a snapshot_height) [
        | ok block ↦ ok (some block)
        | err e ↦ err e
        | panic ↦ panic
      ])

  -- The loop of `ForkAccounts` over the account pools: the first tasks.
  unfoldable pub fork_tasks :
      BlockChain
      → ℤ
      → List (Address × ChainPool BlockChain)
      → Table AccountHashH
      → Result (Table AccountHashH)
  unfolding find_rollback_point_by_refer_snapshot
  fork_tasks bc height [] tasks = ok tasks
  fork_tasks bc height ((k, _) ∷ rest) tasks =
      elim (find_rollback_point_by_refer_snapshot bc k height) [
        | ok none ↦ fork_tasks bc height rest tasks
        | ok (some none) ↦ panic
        | ok (some (some block)) ↦
            fork_tasks bc height rest
              (insert k (new_account_hash_h k block.hash block.height) tasks)
        | err e ↦ err e
        | panic ↦ panic
      ]

  unfoldable pub roll_back : AccountPools → Address → ℤ → AccountPools × Result (Unit {0})
  unfolding self_pending_ac put_pending_ac
  roll_back ps a height =
      let (p, done) = rollback (account_rw a version) height version (self_pending_ac ps a) in
      (put_pending_ac ps a p, done)

  -- The loop of `ForkAccounts` over the accounts that wait: it stops at an error.
  unfoldable pub roll_back_all :
      List (Address × AccountHashH) → AccountPools → AccountPools × Result (Unit {0})
  unfolding roll_back
  roll_back_all [] ps = (ps, ok tt)
  roll_back_all ((_, v) ∷ rest) ps =
      let (ps', done) = roll_back ps v.addr v.height in
      elim done [ ok _ ↦ roll_back_all rest ps' | err e ↦ (ps', err e) | panic ↦ (ps', panic) ]

  -- That of `ForkAccountTo`, which goes on after an error.
  unfoldable pub roll_back_each :
      List (Address × AccountHashH) → AccountPools → AccountPools × Result (Unit {0})
  unfolding roll_back
  roll_back_each [] ps = (ps, ok tt)
  roll_back_each ((_, v) ∷ rest) ps =
      let (ps', done) = roll_back ps v.addr v.height in
      elim done [
        | ok _ ↦ roll_back_each rest ps'
        | err _ ↦ roll_back_each rest ps'
        | panic ↦ (ps', panic)
      ]

  unfoldable pub touch : AccountPools → Address → AccountPools
  unfolding self_pending_ac put_pending_ac
  touch ps a = put_pending_ac ps a (self_pending_ac ps a)

  -- The pools that `getWaitRollbackAccounts` makes by `selfPendingAc` are those of the accounts that
  -- wait then.
  unfoldable pub touch_all : List (Address × AccountHashH) → AccountPools → AccountPools
  unfolding touch
  touch_all [] ps = ps
  touch_all ((_, v) ∷ rest) ps = touch_all rest (touch ps v.addr)

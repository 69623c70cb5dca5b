-- ===== src/Ledger/Mining.antt =====
-- A snapshot block that the ledger mines, the pool and the chain of the node itself, and their lock.
use naive_vite.Base.{
  ◌≡◌, refl, sym, ap, subst, ◌∙◌, none, some, List, Result, ok, All, All-map, arith,
}
use naive_vite.Base.Int.{ℤ, pos, ◌+ℤ◌, int_laws}
use naive_vite.Types.{Hash, Address, HashHeight, AccountHashH, AccountStateBlock, SnapshotBlock}
use naive_vite.Store
use naive_vite.Store.{BlockStore}
use naive_vite.Chain.Account
use naive_vite.Chain.Account.{AccountChain, Backend}
use naive_vite.Chain.Snapshot
use naive_vite.Chain.Block.{
  BlockChain, self_ac, next_points, next_account_snapshot, insert_snapshot_block, snapshot_points,
  get_account_by_height, head_snapshot,
}
use naive_vite.Chain.Block.Insertion.{
  IsDistinct, AllPushed, insert_snapshot_block_head, insert_snapshot_block_ok,
}
use naive_vite.Chain.Block.Next.{CanList, IsListedIn, ListsNews, next_points-IsListed}
use naive_vite.Chain.Block.Mined.{CanPoint, CanList-le, snapshot_points_run, IsListed-CanPoint}
use naive_vite.Verifier.Reader.{reader}
use naive_vite.Verifier.Task.{success}
use naive_vite.Verifier.Snapshot.{verify_referred}
use naive_vite.Verifier.Snapshot.Verdict.{IsPresent, verify_referred_success}
use naive_vite.Pool.Chain.{snapshot_block}
use naive_vite.Pool.Disk.{ChainPool, disk_head, insert_notify}
use naive_vite.Pool.Disk.Reader.{snapshot_rw}
use naive_vite.Pool.Rounds.{add_direct_snapshot_block, add_verified_snapshot_block}
use naive_vite.Syncer.{Net}
use naive_vite.Mutex.{RwMutex, unlocked, lock, r_lock, r_unlock}
use naive_vite.Ledger.{BlockPool, mined_block, mining_snapshot_block}

-- The snapshot chain ends with `last`. The account chains stand at different addresses, each with a
-- head that is stored and no point above `last`, or without head and points.
pub record CanMine (b : BlockChain) (last : SnapshotBlock) : Type 0 where
  pub top : (let sc = b.sc in sc.head ≡ some last)
  pub accounts : (let w = b.backend in CanList w.store last.height b.ac)

module _ (b : BlockChain) (last : SnapshotBlock) where
  next_is :
      (accounts : List AccountHashH)
      → CanMine b last
      → next_points b.ac ≡ ok accounts
      → next_account_snapshot b ≡ ok (record { hash = last.hash; height = last.height }, accounts)
  unfolding next_account_snapshot
  next_is accounts can e = ground (arith, can.top, e)

  present :
      (genesis : SnapshotBlock) (h : AccountHashH)
      → (let w = b.backend in IsListedIn w.store last.height b.ac h)
      → IsPresent (reader genesis b) h
  unfolding reader get_account_by_height self_ac
  present genesis h (c, at, (head, is_head, stored, same_hash, same_height, fresh)) =
      let s = b.backend in
      let self : self_ac b h.addr ≡ c = ground (arith, at) in
      (
        head,
        ap (λ x. Account.get_block_by_height x s.store h.height) self
            ∙ ap (Account.get_block_by_height c s.store) same_height
            ∙ stored,
        sym same_hash,
      )

  -- The block chain with the block as the head of the snapshot chain.
  abbrev with_head : SnapshotBlock → BlockChain
  with_head block =
      let (sc, s) = Snapshot.insert_chain b.sc b.backend.store block in
      let backend = b.backend in record b { sc = sc; backend = record backend { store = s } }

  insert_is :
      (block : SnapshotBlock)
      → insert_snapshot_block b block
        ≡ snapshot_points (with_head block) block.height block.hash block.accounts
  unfolding insert_snapshot_block
  insert_is block = refl

  still_listed :
      (block : SnapshotBlock) (h : AccountHashH)
      → (let w = b.backend in IsListedIn w.store last.height b.ac h)
      → (let w = (with_head block).backend in IsListedIn w.store last.height (with_head block).ac h)
  unfolding Snapshot.insert_chain Store.put_snapshot Store.set_snapshot_head
      Store.get_account_by_height Account.get_block_by_height
  still_listed block h listed = listed

  still_lists :
      (block : SnapshotBlock)
      → (let w = b.backend in CanList w.store last.height b.ac)
      → (let w = (with_head block).backend in CanList w.store last.height (with_head block).ac)
  unfolding Snapshot.insert_chain Store.put_snapshot Store.set_snapshot_head
      Store.get_account_by_height Account.get_block_by_height
  still_lists block can = can

  -- The block is taken by the block chain, which can be mined on again.
  inserted :
      (block : SnapshotBlock)
      → CanMine b last
      → block.height ≡ last.height +ℤ pos 1
      → IsDistinct block.accounts
      → (let w = b.backend in All (IsListedIn w.store last.height b.ac) block.accounts)
      → (b' : BlockChain) × (insert_snapshot_block b block ≡ (b', ok tt))
        × (let w = b'.backend in CanList w.store block.height b'.ac)
  inserted block can above distinct listed =
      let w = b.backend in
      let height = last.height +ℤ pos 1 in
      let with = with_head block in
      let v = with.backend in
      let points =
        All-map (IsListedIn w.store last.height b.ac) (CanPoint with height block.hash)
          block.accounts
          (λ h l. IsListed-CanPoint with last.height block.hash h (still_listed block h l))
          listed in
      let (b', run, same, again) =
        snapshot_points_run with height block.hash block.accounts distinct points (
          CanList-le v.store last.height height with.ac (omega int_laws)
            (still_lists block can.accounts)) in
      (
        b',
        insert_is block ∙ ap (λ i. snapshot_points with i block.hash block.accounts) above ∙ run,
        subst (λ (x : Backend). CanList x.store block.height b'.ac) (sym same)
            (subst (λ i. CanList v.store i b'.ac) (sym above) again),
      )

module _ (genesis : SnapshotBlock) (now version : ℤ) (p : ChainPool BlockChain) where
  -- AddDirectSnapshotBlock on a block that is verified and taken.
  added :
      (block : SnapshotBlock) (b' : BlockChain)
      → (verify_referred (reader genesis p.disk) now version block).result ≡ success
      → insert_snapshot_block p.disk block ≡ (b', ok tt)
      → head_snapshot b' ≡ some block
      → add_verified_snapshot_block genesis now version p block
        ≡ (insert_notify snapshot_rw (record p { disk = b' }) (snapshot_block block), ok tt)
  unfolding add_verified_snapshot_block disk_head
  added block b' verified taken head = ground (arith, verified, taken, head)

  under_lock :
      (block : SnapshotBlock) (q : ChainPool BlockChain)
      → add_verified_snapshot_block genesis now version p block ≡ (q, ok tt)
      → add_direct_snapshot_block genesis now version unlocked p block ≡ some (unlocked, q, ok tt)
  unfolding add_direct_snapshot_block r_lock r_unlock
  under_lock block q e = ground (arith, e)

  head_is :
      (b' : BlockChain) (block : SnapshotBlock)
      → head_snapshot b' ≡ some block
      → (let sc = b'.sc in sc.head ≡ some block)
  unfolding head_snapshot
  head_is b' block e = e

  insert_notify_disk :
      (b' : BlockChain) (block : SnapshotBlock)
      → (let q = insert_notify snapshot_rw (record p { disk = b' }) (snapshot_block block) in
          q.disk ≡ b')
  unfolding insert_notify
  insert_notify_disk b' block = ground arith

  module _ (calculate : SnapshotBlock → Hash) (net : Net) (address : Address) (timestamp : ℤ)
      (adds : ChainPool BlockChain
        → Address
        → AccountStateBlock
        → ChainPool BlockChain × Result (Unit {0})) where
    -- The pool that the ledger mines on.
    abbrev pub mining_pool : BlockPool (ChainPool BlockChain)
    mining_pool = record {
      add_direct_account_block = adds;
      add_direct_snapshot_block = add_direct_snapshot_block genesis now version;
    }

    -- Once the write lock is had, the read lock is never.
    waits :
        (h : HashHeight) (accounts : List AccountHashH) (m : RwMutex)
        → next_account_snapshot p.disk ≡ ok (h, accounts)
        → mining_snapshot_block mining_pool net calculate
            (next_account_snapshot p.disk)
            address
            timestamp
            m
            p
          ≡ none
    unfolding mining_snapshot_block add_direct_snapshot_block lock r_lock
    waits h accounts m next = ground (arith, next)

    -- On a chain that can be mined on, MiningSnapshotBlock never returns, whatever the state of the lock: it waits
    -- for the read lock of the mutex that it has locked itself. Nothing else is in its way. With the lock
    -- free, AddDirectSnapshotBlock takes the block that it makes: the block follows the snapshot head, is
    -- the next head, lists each account whose head is above its last point, and sets the points of those
    -- that it lists; and the chain can be mined on again. A chain can be mined on if its account chains
    -- stand at different addresses, each with a head that is stored and no point above the snapshot head,
    -- or without head and points.
    pub mining_snapshot_block_stuck :
        (last : SnapshotBlock)
        → CanMine p.disk last
        → ((m : RwMutex)
            → mining_snapshot_block mining_pool net calculate
                (next_account_snapshot p.disk)
                address
                timestamp
                m
                p
              ≡ none)
          × (h : HashHeight) × (accounts : List AccountHashH) × (next_account_snapshot p.disk
              ≡ ok (h, accounts))
          × (let block = mined_block calculate h accounts address timestamp in
              (q : ChainPool BlockChain) × (add_direct_snapshot_block genesis now version unlocked p
                  block
                ≡ some (unlocked, q, ok tt))
              × (block.height ≡ last.height +ℤ pos 1)
              × (block.pre_hash ≡ last.hash)
              × (head_snapshot q.disk ≡ some block)
              × AllPushed p.disk q.disk block.height block.hash block.accounts
              × CanMine q.disk block
              × ListsNews (let b = p.disk in b.ac) block.accounts)
    unfolding mined_block
    mining_snapshot_block_stuck last can =
        let b = p.disk in
        let w = b.backend in
        let (accounts, next, listed, distinct, all) =
          next_points-IsListed w.store last.height b.ac can.accounts in
        let h : HashHeight = record { hash = last.hash; height = last.height } in
        let block = mined_block calculate h accounts address timestamp in
        let is_next = next_is b last accounts can next in
        let verified = (verify_referred_success (reader genesis b) now version block).1 (
          All-map (IsListedIn w.store last.height b.ac) (IsPresent (reader genesis b)) accounts
            (λ h l. present b last genesis h l) listed) in
        let (b', taken, again) = inserted b last block can refl distinct listed in
        let head =
          ap (λ (r : BlockChain × Result (Unit {0})). head_snapshot r.0) (sym taken)
          ∙ insert_snapshot_block_head b block in
        let q = insert_notify snapshot_rw (record p { disk = b' }) (snapshot_block block) in
        let same : q.disk ≡ b' = insert_notify_disk b' block in
        (
          λ m. waits h accounts m is_next,
          h,
          accounts,
          is_next,
          (
            q,
            under_lock block q (added block b' verified taken head),
            refl,
            refl,
            ap head_snapshot same ∙ head,
            subst (λ d. AllPushed b d block.height block.hash accounts) (sym same)
                (insert_snapshot_block_ok b b' block distinct taken),
            subst (λ d. CanMine d block) (sym same)
                (record { top = head_is b' block head; accounts = again }),
            all,
          ),
        )

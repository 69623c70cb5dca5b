-- ===== src/Ledger/Receipt.antt =====
-- A block that the ledger makes, on the pool and the chain of the node itself: the pool takes it if it is
-- verified. The listener that is called with it is taken to return.
use naive_vite.Base.{◌≡◌, ap, ◌∙◌, some, ok, arith, lookup-insert}
use naive_vite.Base.Int.{==ℤ_iff, ℤ}
use naive_vite.Types.{Hash, Address, AccountStateBlock, SnapshotBlock}
use naive_vite.Chain.Account
use naive_vite.Chain.Account.{AccountChain, Backend}
use naive_vite.Chain.Block.{BlockChain, self_ac, put_ac, insert_account_block, head_account}
use naive_vite.Verifier.Reader.{reader}
use naive_vite.Verifier.Task.{VerifyResult, success}
use naive_vite.Verifier.Account.{AccountBlockVerifyStat, verify_referred, verify_result}
use naive_vite.Pool.Chain.{Block, account_block}
use naive_vite.Pool.Disk.{ChainPool, disk_head, insert_notify, add_direct_block}
use naive_vite.Pool.Disk.Reader.{account_rw}
use naive_vite.Pool.Accounts.{AccountPools, self_pending_ac, put_pending_ac, new_account_pool}
use naive_vite.Pool.Rounds.{seen, add_direct_account_block}
use naive_vite.Syncer.{Net}
use naive_vite.Ledger.{LockedAdd, BlockPool, get_account_balance}

pub head-insert_account_block :
    (b : BlockChain) (a : Address) (block : AccountStateBlock)
    → head_account (insert_account_block b a block) a ≡ some block
unfolding head_account insert_account_block self_ac put_ac Account.insert_chain
head-insert_account_block b a block =
    let c = (Account.insert_chain (self_ac b a) b.backend block).0 in
    ground (arith, lookup-insert a a c b.ac)

module _ (genesis : SnapshotBlock) (time version : ℤ) (ps : AccountPools) (a : Address) where
  pub on_disk : (let p = self_pending_ac genesis version ps a in p.disk ≡ ps.bc)
  unfolding self_pending_ac new_account_pool
  on_disk = ground arith

  taken :
      (p : ChainPool BlockChain) (block : AccountStateBlock) (v : VerifyResult)
      → v ≡ success
      → add_direct_block (account_rw a version) (λ _ _. v) version p (account_block block) ≡ (
        insert_notify
            (account_rw a version)
            (record p { disk = insert_account_block p.disk a block })
            (account_block block),
        ok tt,
      )
  unfolding add_direct_block disk_head account_rw
  taken p block v passed =
      ground (arith, passed, head-insert_account_block p.disk a block, ==ℤ_iff version version)

  notified :
      (p : ChainPool BlockChain) (b : Block)
      → (let q = insert_notify (account_rw a version) p b in q.disk ≡ p.disk)
  unfolding insert_notify
  notified p b = ground arith

module _ (genesis : SnapshotBlock) (time version : ℤ) (ps : AccountPools) (a : Address) where
  -- The pools after a block of the account that is verified with success.
  pub added :
      (block : AccountStateBlock) (stat : AccountBlockVerifyStat)
      → verify_referred (reader genesis ps.bc) time version block ≡ ok stat
      → verify_result stat ≡ success
      → (ps' : AccountPools) × (add_direct_account_block genesis time version ps a block
          ≡ (ps', ok tt))
        × (ps'.bc ≡ insert_account_block (seen ps a).bc a block)
  unfolding add_direct_account_block put_pending_ac
  added block stat verified passed =
      let p = self_pending_ac genesis version (seen ps a) a in
      let q = record p { disk = insert_account_block p.disk a block } in
      let next = insert_notify (account_rw a version) q (account_block block) in
      (
        put_pending_ac genesis version (seen ps a) a next,
        ground
            (arith, verified, taken genesis time version ps a p block (verify_result stat) passed),
        notified genesis time version ps a q (account_block block)
            ∙ ap (λ d. insert_account_block d a block) (on_disk genesis time version (seen ps a) a),
      )

module _ (genesis : SnapshotBlock) (time version : ℤ) (calculate : AccountStateBlock → Hash)
    (net : Net) (now : ℤ) (from to : Address) (adds : LockedAdd AccountPools) where
  -- The pools that the ledger puts its blocks on.
  abbrev pub own_pools : BlockPool AccountPools
  own_pools = record {
    add_direct_account_block = add_direct_account_block genesis time version;
    add_direct_snapshot_block = adds;
  }

  pub balance_at :
      (bc : BlockChain) (block : AccountStateBlock)
      → head_account bc to ≡ some block
      → get_account_balance (reader genesis bc) to ≡ block.amount
  unfolding get_account_balance reader
  balance_at bc block at = ground (arith, at)

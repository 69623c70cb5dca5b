-- ===== src/Pool/Disk/Reader.antt =====
-- pool/chain.go: an account's chain and the snapshot chain as the chain on disk of a pool.
use naive_vite.Base.{none, some, if◌then◌else◌, Option, Result, ok, err, panic, fork_version}
use naive_vite.Base.Int.{ℤ, pos, negsuc, ◌==ℤ◌}
use naive_vite.Types.{Address, AccountStateBlock, SnapshotBlock, send, empty_str}
use naive_vite.Chain.Block
use naive_vite.Chain.Block.{BlockChain}
use naive_vite.Pool.Chain.{Block, account_block, snapshot_block}
use naive_vite.Pool.Disk.{ChainRw}

-- What stands for the head of a chain without blocks.
abbrev pub no_account_block : AccountStateBlock
no_account_block = record {
  height = negsuc 0;
  hash = empty_str;
  pre_hash = empty_str;
  signer = empty_str;
  timestamp = pos 0;
  amount = pos 0;
  modified_amount = pos 0;
  snapshot_height = pos 0;
  snapshot_hash = empty_str;
  block_type = send;
  from = empty_str;
  to = empty_str;
  source_hash = empty_str;
  source_height = negsuc 0;
}

abbrev as_account : Option AccountStateBlock → Option Block
as_account none = none
as_account (some b) = some (account_block b)

abbrev as_snapshot : Option SnapshotBlock → Option Block
as_snapshot none = none
as_snapshot (some b) = some (snapshot_block b)

abbrev as_snapshot_read : Result (Option SnapshotBlock) → Result (Option Block)
as_snapshot_read (ok o) = ok (as_snapshot o)
as_snapshot_read (err e) = err e
as_snapshot_read panic = panic

-- `accountCh`: a block of the other kind fails the type assertion.
unfoldable pub account_insert :
    Address → ℤ → BlockChain → Block → ℤ → BlockChain × Result (Unit {0})
account_insert address version bc (account_block b) fork =
    if fork ==ℤ version
    then (Block.insert_account_block bc address b, ok tt)
    else (bc, err fork_version)
account_insert address version bc (snapshot_block b) fork =
    if fork ==ℤ version then (bc, panic) else (bc, err fork_version)

unfoldable pub account_remove_head : Address → BlockChain → Block → BlockChain × Result (Unit {0})
account_remove_head address bc (account_block b) = elim (Block.remove_account_head bc address b) [
  | ok bc' ↦ (bc', ok tt)
  | err e ↦ (bc, err e)
  | panic ↦ (bc, panic)
]
account_remove_head address bc (snapshot_block b) = (bc, panic)

unfoldable pub account_rw : Address → ℤ → ChainRw BlockChain
unfolding account_insert account_remove_head
account_rw address version = record {
  insert_chain = account_insert address version;
  remove_chain = account_remove_head address;
  head = λ bc. as_account (Block.head_account bc address);
  get_block = λ bc at.
      if at ==ℤ negsuc 0
      then ok (some (account_block no_account_block))
      else ok (as_account (Block.get_account_by_height bc address at));
}

-- `snapshotCh`
unfoldable pub snapshot_insert : BlockChain → Block → ℤ → BlockChain × Result (Unit {0})
snapshot_insert bc (snapshot_block b) fork = Block.insert_snapshot_block bc b
snapshot_insert bc (account_block b) fork = (bc, panic)

unfoldable pub snapshot_remove_head : BlockChain → Block → BlockChain × Result (Unit {0})
snapshot_remove_head bc (snapshot_block b) = (Block.remove_snapshot_head bc b, ok tt)
snapshot_remove_head bc (account_block b) = (bc, panic)

unfoldable pub snapshot_rw : ChainRw BlockChain
unfolding snapshot_insert snapshot_remove_head
snapshot_rw = record {
  insert_chain = snapshot_insert;
  remove_chain = snapshot_remove_head;
  head = λ bc. as_snapshot (Block.head_snapshot bc);
  get_block = λ bc at. as_snapshot_read (Block.get_snapshot_by_height bc at);
}

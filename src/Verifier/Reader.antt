-- ===== src/Verifier/Reader.antt =====
-- common/face/chain.go: the reads of a chain that the verifiers use, and the block chain as their
-- implementation.
use naive_vite.Base.{Option, Result}
use naive_vite.Base.Int.{ℤ}
use naive_vite.Types.{Hash, Address, HashHeight, AccountStateBlock, SnapshotBlock}
use naive_vite.Chain.Block
use naive_vite.Chain.Block.{BlockChain}

pub record ChainReader : Type 0 where
  pub genesis_snapshot : SnapshotBlock
  pub head_snapshot : Option SnapshotBlock
  pub get_snapshot_by_hash_h : HashHeight → Option SnapshotBlock
  pub head_account : Address → Option AccountStateBlock
  pub get_account_by_hash_h : Address → HashHeight → Option AccountStateBlock
  pub get_account_by_hash : Address → Hash → Option AccountStateBlock
  pub get_account_by_height : Address → ℤ → Option AccountStateBlock
  pub get_account_by_source_hash : Address → Hash → Result (Option AccountStateBlock)

unfoldable pub reader : SnapshotBlock → BlockChain → ChainReader
reader genesis b = record {
  genesis_snapshot = genesis;
  head_snapshot = Block.head_snapshot b;
  get_snapshot_by_hash_h = Block.get_snapshot_by_hash_h b;
  head_account = Block.head_account b;
  get_account_by_hash_h = Block.get_account_by_hash_h b;
  get_account_by_hash = Block.get_account_by_hash b;
  get_account_by_height = Block.get_account_by_height b;
  get_account_by_source_hash = Block.get_account_by_source_hash b;
}

-- ===== src/Samples.antt =====
-- Sample blocks that the tests share.
use naive_vite.Base.{none, []}
use naive_vite.Base.Int.{pos, negsuc}
use naive_vite.Types.{AccountStateBlock, SnapshotBlock, genesis, send}
use naive_vite.Store.{BlockStore}

abbrev pub no_blocks : BlockStore
no_blocks = record {
  snapshot_by_height = λ _. none;
  snapshot_by_hash = λ _. none;
  account_by_height = λ _. none;
  account_by_hash = λ _. none;
  received_by_source = λ _. none;
  snapshot_head = none;
  account_head = λ _. none;
}

-- Account 7: its genesis block at hash 100, and a transfer of 30 to account 8 at hash 101.
abbrev pub first : AccountStateBlock
first = record {
  height = pos 0;
  hash = 100;
  pre_hash = 0;
  signer = 7;
  timestamp = pos 0;
  amount = pos 200;
  modified_amount = pos 0;
  snapshot_height = pos 0;
  snapshot_hash = 0;
  block_type = genesis;
  from = 7;
  to = 7;
  source_hash = 0;
  source_height = negsuc 0;
}

abbrev pub second : AccountStateBlock
second = record first {
  height = pos 1;
  hash = 101;
  pre_hash = 100;
  amount = pos 170;
  modified_amount = negsuc 29;
  snapshot_height = pos 2;
  block_type = send;
  to = 8;
}

abbrev pub genesis_block : SnapshotBlock
genesis_block = record {
  height = pos 0;
  hash = 900;
  pre_hash = 0;
  signer = 1;
  timestamp = pos 0;
  accounts = [];
}

abbrev pub next_block : SnapshotBlock
next_block = record genesis_block { height = pos 1; hash = 901; pre_hash = 900 }

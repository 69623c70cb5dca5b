-- ===== src/Store.antt =====
-- store/block_store.go: the block store in memory. A store of `sync.Map`s is a record of maps.
-- `genKey` joins an address and a height to one key, from which both can be read back: here the
-- key is the pair.
use naive_vite.Base.{Bool, Option, none, some, ◌&&◌, ◌==◌, Map, store, delete}
use naive_vite.Base.Int.{ℤ, ◌==ℤ◌}
use naive_vite.Types.{Hash, Address, HashHeight, AccountStateBlock, SnapshotBlock}

abbrev pub Key : Type 0
Key = Address × ℤ

abbrev pub eq_key : Key → Key → Bool
eq_key a b = a.0 == b.0 && a.1 ==ℤ b.1

unfoldable pub gen_key : Address → ℤ → Key
gen_key address height = (address, height)

-- The heads share one Go map, under `snapshotHeadKey` and under each address; no address is
-- spelled "s_head_key", so that the snapshot head has a field of its own.
pub record BlockStore : Type 0 where
  pub snapshot_by_height : Map ℤ SnapshotBlock
  pub snapshot_by_hash : Map Hash SnapshotBlock
  pub account_by_height : Map Key AccountStateBlock
  pub account_by_hash : Map Hash AccountStateBlock
  pub received_by_source : Map Hash AccountStateBlock
  pub snapshot_head : Option HashHeight
  pub account_head : Map Address HashHeight

unfoldable pub get_snapshot_head : BlockStore → Option HashHeight
get_snapshot_head s = s.snapshot_head

unfoldable pub get_account_head : BlockStore → Address → Option HashHeight
get_account_head s address = s.account_head address

unfoldable pub set_snapshot_head : BlockStore → Option HashHeight → BlockStore
set_snapshot_head s h = record s { snapshot_head = h }

unfoldable pub set_account_head : BlockStore → Address → Option HashHeight → BlockStore
set_account_head s address none = record s { account_head = delete ◌==◌ s.account_head address }
set_account_head s address (some h) = record s {
  account_head = store ◌==◌ s.account_head address h;
}

unfoldable pub delete_snapshot : BlockStore → HashHeight → BlockStore
delete_snapshot s h = record s {
  snapshot_by_height = delete ◌==ℤ◌ s.snapshot_by_height h.height;
  snapshot_by_hash = delete ◌==◌ s.snapshot_by_hash h.hash;
}

unfoldable pub delete_account : BlockStore → Address → HashHeight → BlockStore
unfolding gen_key
delete_account s address h = record s {
  account_by_hash = delete ◌==◌ s.account_by_hash h.hash;
  account_by_height = delete eq_key s.account_by_height (gen_key address h.height);
}

unfoldable pub put_snapshot : BlockStore → SnapshotBlock → BlockStore
put_snapshot s block = record s {
  snapshot_by_hash = store ◌==◌ s.snapshot_by_hash block.hash block;
  snapshot_by_height = store ◌==ℤ◌ s.snapshot_by_height block.height block;
}

unfoldable pub put_account : BlockStore → Address → AccountStateBlock → BlockStore
unfolding gen_key
put_account s address block = record s {
  account_by_hash = store ◌==◌ s.account_by_hash block.hash block;
  account_by_height = store eq_key s.account_by_height (gen_key address block.height) block;
}

unfoldable pub get_snapshot_by_hash : BlockStore → Hash → Option SnapshotBlock
get_snapshot_by_hash s hash = s.snapshot_by_hash hash

unfoldable pub get_snapshot_by_height : BlockStore → ℤ → Option SnapshotBlock
get_snapshot_by_height s height = s.snapshot_by_height height

unfoldable pub get_account_by_hash : BlockStore → Hash → Option AccountStateBlock
get_account_by_hash s hash = s.account_by_hash hash

unfoldable pub get_account_by_source_hash : BlockStore → Hash → Option AccountStateBlock
get_account_by_source_hash s hash = s.received_by_source hash

unfoldable pub put_source_hash : BlockStore → Hash → AccountStateBlock → BlockStore
put_source_hash s hash block = record s {
  received_by_source = store ◌==◌ s.received_by_source hash block;
}

unfoldable pub delete_source_hash : BlockStore → Hash → BlockStore
delete_source_hash s hash = record s { received_by_source = delete ◌==◌ s.received_by_source hash }

unfoldable pub get_account_by_height : BlockStore → Address → ℤ → Option AccountStateBlock
unfolding gen_key
get_account_by_height s address height = s.account_by_height (gen_key address height)

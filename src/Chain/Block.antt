-- ===== src/Chain/Block.antt =====
-- chain/chain.go: the block chain of a node. It makes an account's chain from the store at the
-- first call that names the account. The map of chains is ranged over: it is a list.
pub mod Points
pub mod Insertion
pub mod News
pub mod Next
pub mod Mined
mod Tests
use naive_vite.Base.{
  Option, none, some, List, [], ◌∷◌, if◌then◌else◌, Result, ok, err, panic, lookup, insert,
}
use naive_vite.Base.Int.{ℤ, pos, ltb_ℤ}
use naive_vite.Types.{
  Hash, Address, HashHeight, AccountHashH, new_account_hash_h, SnapshotPoint, AccountStateBlock,
  SnapshotBlock,
}
use naive_vite.Store
use naive_vite.Store.{BlockStore}
use naive_vite.Chain.Account
use naive_vite.Chain.Account.{AccountChain, Backend}
use naive_vite.Chain.Snapshot
use naive_vite.Chain.Snapshot.{SnapshotChain}

pub record BlockChain : Type 0 where
  pub ac : List (Address × AccountChain)
  pub sc : SnapshotChain
  pub backend : Backend

-- `NewChain`, over the genesis snapshot block and the store that `NewMemoryStore` makes.
unfoldable pub new_chain : SnapshotBlock → BlockStore → Result BlockChain
new_chain genesis s = elim (Snapshot.new_snapshot_chain genesis s) [
  | ok (sc, s') ↦ ok (record { ac = []; sc = sc; backend = record { store = s'; events = [] } })
  | err e ↦ err e
  | panic ↦ panic
]

-- The account's chain, made if need be.
unfoldable pub self_ac : BlockChain → Address → AccountChain
self_ac b addr = elim (lookup addr b.ac) [
  | some c ↦ c
  | none ↦ Account.new_account_chain addr b.backend.store
]

-- `selfAc` puts the chain into the map: an operation on `selfAc(addr)` leaves it changed there.
unfoldable pub put_ac : BlockChain → Address → AccountChain → BlockChain
put_ac b addr c = record b { ac = insert addr c b.ac }

unfoldable pub insert_account_block : BlockChain → Address → AccountStateBlock → BlockChain
insert_account_block b address block =
    let (c, w) = Account.insert_chain (self_ac b address) b.backend block in
    record (put_ac b address c) { backend = w }

unfoldable pub remove_account_head : BlockChain → Address → AccountStateBlock → Result BlockChain
remove_account_head b address block =
    elim (Account.remove_chain (self_ac b address) b.backend block) [
      | ok (c, w) ↦ ok (record (put_ac b address c) { backend = w })
      | err e ↦ err e
      | panic ↦ panic
    ]

unfoldable pub rollback_snapshot_point :
    BlockChain → Address → SnapshotPoint → SnapshotPoint → BlockChain × Result (Unit {0})
rollback_snapshot_point b address start end =
    let (c, done) = Account.rollback_snapshot_point (self_ac b address) start end in
    (put_ac b address c, done)

-- The loop over the accounts of an inserted snapshot block: the block chain that it leaves, also
-- where it stops with an error, and how it ends.
unfoldable pub snapshot_points :
    BlockChain → ℤ → Hash → List AccountHashH → BlockChain × Result (Unit {0})
snapshot_points b height hash [] = (b, ok tt)
snapshot_points b height hash (account ∷ rest) =
    elim (Account.snapshot_point (self_ac b account.addr) b.backend.store height hash account) [
      | ok c ↦ snapshot_points (put_ac b account.addr c) height hash rest
      | err e ↦ (b, err e)
      | panic ↦ (b, panic)
    ]

unfoldable pub insert_snapshot_block : BlockChain → SnapshotBlock → BlockChain × Result (Unit {0})
insert_snapshot_block b block =
    let (sc, s) = Snapshot.insert_chain b.sc b.backend.store block in
    let backend = b.backend in
    snapshot_points (record b { sc = sc; backend = record backend { store = s } }) block.height
      block.hash block.accounts

unfoldable pub remove_snapshot_head : BlockChain → SnapshotBlock → BlockChain
remove_snapshot_head b block =
    let (sc, s) = Snapshot.remove_chain b.sc b.backend.store block in
    let backend = b.backend in record b { sc = sc; backend = record backend { store = s } }

-- The loop of `NextAccountSnapshot` over the account chains.
unfoldable pub next_points : List (Address × AccountChain) → Result (List AccountHashH)
next_points [] = ok []
next_points ((k, c) ∷ rest) =
    let accounts = next_points rest in
    elim (Account.next_snapshot_point c) [
      | ok (i, s) ↦ if ltb_ℤ i (pos 0) then accounts else (elim accounts [
        | ok l ↦ ok (new_account_hash_h k s i ∷ l)
        | err e ↦ err e
        | panic ↦ panic
      ])
      | err e ↦ err e
      | panic ↦ panic
    ]

unfoldable pub next_account_snapshot : BlockChain → Result (HashHeight × List AccountHashH)
unfolding next_points
next_account_snapshot b = elim b.sc.head [
  | none ↦ panic
  | some head ↦ elim (next_points b.ac) [
    | ok accounts ↦ ok (record { hash = head.hash; height = head.height }, accounts)
    | err e ↦ err e
    | panic ↦ panic
  ]
]

-- The reads. A read also puts a missing account chain into the map (`put_ac b a (self_ac b a)`), which
-- only `NextAccountSnapshot` can tell, as it ranges over the map. The model does so where an operation
-- on the account follows anyway, and where a property looks at the map; elsewhere reads leave it.
unfoldable pub head_snapshot : BlockChain → Option SnapshotBlock
head_snapshot b = b.sc.head

unfoldable pub head_account : BlockChain → Address → Option AccountStateBlock
head_account b address = (self_ac b address).head

unfoldable pub get_snapshot_by_hash_h : BlockChain → HashHeight → Option SnapshotBlock
get_snapshot_by_hash_h b h = Snapshot.get_block_by_hash_h b.backend.store h

unfoldable pub get_snapshot_by_height : BlockChain → ℤ → Result (Option SnapshotBlock)
get_snapshot_by_height b height = Snapshot.get_block_height b.backend.store height

unfoldable pub get_account_by_hash_h : BlockChain → Address → HashHeight → Option AccountStateBlock
get_account_by_hash_h b address h =
    Account.get_block_by_hash_h (self_ac b address) b.backend.store h

unfoldable pub get_account_by_hash : BlockChain → Address → Hash → Option AccountStateBlock
get_account_by_hash b address hash = Store.get_account_by_hash b.backend.store hash

unfoldable pub get_account_by_height : BlockChain → Address → ℤ → Option AccountStateBlock
get_account_by_height b address height =
    Account.get_block_by_height (self_ac b address) b.backend.store height

-- The block that the store lists for the source decides only what is logged: the result is the
-- one found on the account's chain.
unfoldable pub get_account_by_source_hash :
    BlockChain → Address → Hash → Result (Option AccountStateBlock)
get_account_by_source_hash b address source =
    Account.get_by_source_block (self_ac b address) b.backend.store source

unfoldable pub find_account_above_snapshot_height :
    BlockChain → Address → ℤ → Result (Option AccountStateBlock)
find_account_above_snapshot_height b address snapshot_height =
    Account.find_account_above_snapshot_height (self_ac b address) b.backend.store snapshot_height

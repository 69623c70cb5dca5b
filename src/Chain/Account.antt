-- ===== src/Chain/Account.antt =====
-- chain/account_chain.go: the chain of one account, with the stack of its snapshot points.
-- The store and the listener are shared: an operation takes and returns a `Backend` beside the
-- chain. The calls on the listener are listed in the order in which they are made.
pub mod Insert
pub mod Points
pub mod Removal
pub mod Search
mod Tests
use naive_vite.Base.{
  ℕ, zero, suc, Bool, false, Option, none, some, List, [], ◌∷◌, ◌++◌, ◌&&◌, ◌||◌, ◌==◌,
  if◌then◌else◌, Result, ok, err, panic, Error,
}
use naive_vite.Base.Int.{ℤ, pos, negsuc, leb_ℤ, ltb_ℤ, ◌==ℤ◌}
use naive_vite.Types.{
  Hash, Address, HashHeight, AccountHashH, SnapshotPoint, equals, AccountStateBlock, is_received,
  ChainEvent, account_insert, account_remove, empty_str,
}
use naive_vite.Store
use naive_vite.Store.{BlockStore}

-- What the chains of one node share.
pub record Backend : Type 0 where
  pub store : BlockStore
  pub events : List ChainEvent

-- The head of the list is the top of the stack.
pub record AccountChain : Type 0 where
  pub address : Address
  pub head : Option AccountStateBlock
  pub snapshot_point : List SnapshotPoint

unfoldable pub new_account_chain : Address → BlockStore → AccountChain
new_account_chain address s = record {
  address = address;
  head = elim (Store.get_account_head s address) [
    | none ↦ none
    | some h ↦ Store.get_account_by_height s address h.height
  ];
  snapshot_point = [];
}

unfoldable pub get_block_by_height : AccountChain → BlockStore → ℤ → Option AccountStateBlock
get_block_by_height c s height =
    if ltb_ℤ height (pos 0) then none else Store.get_account_by_height s c.address height

-- `block != nil && block.Hash() == hash`, and then the block.
unfoldable pub checked : Hash → Option AccountStateBlock → Option AccountStateBlock
checked hash none = none
checked hash (some b) = if b.hash == hash then some b else none

unfoldable pub get_block_by_hash_h :
    AccountChain → BlockStore → HashHeight → Option AccountStateBlock
unfolding checked
get_block_by_hash_h c s h =
    if ltb_ℤ h.height (pos 0)
    then none
    else checked h.hash (Store.get_account_by_height s c.address h.height)

unfoldable pub notify : Backend → ChainEvent → Backend
notify w e = record w { events = w.events ++ (e ∷ []) }

-- The listener is taken to return. That of the ledger panics for a receipt whose request it does not
-- know, as `block_insert` of Ledger/ReqPool.antt models.
unfoldable pub insert_chain : AccountChain → Backend → AccountStateBlock → AccountChain × Backend
unfolding notify
insert_chain c w block = (
  record c { head = some block },
  let s = Store.put_account w.store c.address block in
      let w' = notify (record w { store = s }) (account_insert c.address block) in
      let s' =
        Store.set_account_head w'.store c.address
          (some (record { hash = block.hash; height = block.height })) in
      record w' {
        store =
            if is_received block.block_type
            then Store.put_source_hash s' block.source_hash block
            else s';
      },
)

unfoldable pub top : List SnapshotPoint → Option SnapshotPoint
top [] = none
top (p ∷ ps) = some p

unfoldable pub peek : AccountChain → Option SnapshotPoint
unfolding top
peek c = top c.snapshot_point

unfoldable pub has_snapshot_point : AccountChain → ℤ → Hash → Bool
unfolding peek
has_snapshot_point c account_height account_hash = elim (peek c) [
  | none ↦ false
  | some point ↦ leb_ℤ account_height point.account_height
]

-- The head of the chain after the removal of `block`: `GetAccountByHash(block.Hash())`.
unfoldable pub head_after_remove : BlockStore → AccountStateBlock → Option AccountStateBlock
head_after_remove s block = Store.get_account_by_hash s block.hash

unfoldable pub remove_chain :
    AccountChain → Backend → AccountStateBlock → Result (AccountChain × Backend)
unfolding has_snapshot_point head_after_remove notify
remove_chain c w block =
    if has_snapshot_point c block.height block.hash
    then err Error.has_snapshot
    else (let head = head_after_remove w.store block in
        let s =
          Store.delete_account w.store c.address
            (record { hash = block.hash; height = block.height }) in
        let w' = notify (record w { store = s }) (account_remove c.address block) in
        let s' = Store.set_account_head w'.store c.address (elim head [
          | none ↦ none
          | some b ↦ some (record { hash = b.hash; height = b.height })
        ]) in
        ok (
          record c { head = head },
          record w' {
            store =
                if is_received block.block_type
                then Store.delete_source_hash s' block.source_hash
                else s';
          },
        ))

-- The loop of `findAccountAboveSnapshotHeight`: `n` heights are left, from `n - 1` down to 0. A
-- height with no block is a nil pointer.
unfoldable pub find_above : AccountChain → BlockStore → ℤ → ℕ → Result (Option AccountStateBlock)
find_above c s snapshot_height zero = ok none
find_above c s snapshot_height (suc i) =
    let rest = find_above c s snapshot_height i in
    elim (Store.get_account_by_height s c.address (pos i)) [
      | none ↦ panic
      | some block ↦ if leb_ℤ block.snapshot_height snapshot_height then ok (some block) else rest
    ]

-- The rounds of a loop from `height` down to 0.
abbrev pub rounds : ℤ → ℕ
rounds (pos n) = suc n
rounds (negsuc n) = 0

unfoldable pub find_account_above_snapshot_height :
    AccountChain → BlockStore → ℤ → Result (Option AccountStateBlock)
unfolding find_above
find_account_above_snapshot_height c s snapshot_height = elim c.head [
  | none ↦ ok none
  | some head ↦ find_above c s snapshot_height (rounds head.height)
]

-- The loop of `getBySourceBlock`: `n` heights are left, from `n` down to 1.
unfoldable pub find_source :
    AccountChain → BlockStore → Hash → ℕ → Result (Option AccountStateBlock)
find_source c s source_hash zero = ok none
find_source c s source_hash (suc i) =
    let rest = find_source c s source_hash i in
    elim (Store.get_account_by_height s c.address (pos (suc i))) [
      | none ↦ panic
      | some v ↦
          if is_received v.block_type && v.source_hash == source_hash then ok (some v) else rest
    ]

abbrev pub to_ℕ : ℤ → ℕ
to_ℕ (pos n) = n
to_ℕ (negsuc n) = 0

unfoldable pub get_by_source_block :
    AccountChain → BlockStore → Hash → Result (Option AccountStateBlock)
unfolding find_source
get_by_source_block c s source_hash = elim c.head [
  | none ↦ ok none
  | some head ↦ find_source c s source_hash (to_ℕ head.height)
]

-- The height and the hash of the block to snapshot next; the height is -1 where there is none.
unfoldable pub next_snapshot_point : AccountChain → Result (ℤ × Hash)
unfolding peek
next_snapshot_point c = elim (peek c) [
  | none ↦ elim c.head [ none ↦ ok (negsuc 0, empty_str) | some head ↦ ok (head.height, head.hash) ]
  | some last_point ↦ elim c.head [
    | none ↦ panic
    | some head ↦
        if ltb_ℤ last_point.account_height head.height
        then ok (head.height, head.hash)
        else ok (negsuc 0, empty_str)
  ]
]

-- The check against the last point.
unfoldable pub point_is_stale : Option SnapshotPoint → ℤ → ℤ → Bool
point_is_stale none snapshot_height height = false
point_is_stale (some p) snapshot_height height =
    leb_ℤ snapshot_height p.snapshot_height || ltb_ℤ height p.account_height

-- The check against the block at the point's height, and the push.
unfoldable pub push_point :
    AccountChain → Option AccountStateBlock → ℤ → Hash → AccountHashH → Result AccountChain
push_point c none snapshot_height snapshot_hash h = panic
push_point c (some point) snapshot_height snapshot_hash h =
    if h.hash == point.hash && h.height ==ℤ point.height
    then ok (record c {
      snapshot_point =
          (record {
            snapshot_height = snapshot_height;
            snapshot_hash = snapshot_hash;
            account_height = h.height;
            account_hash = h.hash;
          })
          ∷ c.snapshot_point;
    })
    else err Error.state_error

unfoldable pub snapshot_point :
    AccountChain → BlockStore → ℤ → Hash → AccountHashH → Result AccountChain
unfolding peek point_is_stale push_point
snapshot_point c s snapshot_height snapshot_hash h = elim c.head [
  | none ↦ err Error.not_exist_account
  | some _ ↦
      if point_is_stale (peek c) snapshot_height h.height
      then err Error.point_check_fail
      else push_point c (get_block_by_height c s h.height) snapshot_height snapshot_hash h
]

-- The loop of `RollbackSnapshotPoint`, over the stack: what it leaves of it, and how it ends.
unfoldable pub pop_points : ℤ → List SnapshotPoint → List SnapshotPoint × Result (Unit {0})
pop_points end_height [] = ([], err Error.not_exist_snapshot_point)
pop_points end_height (point ∷ rest) =
    let popped = pop_points end_height rest in
    if leb_ℤ point.account_height end_height
    then (if point.account_height ==ℤ end_height then (rest, ok tt) else popped)
    else (point ∷ rest, ok tt)

-- The points are popped in place: an error leaves the chain without those that it has popped.
unfoldable pub rollback_snapshot_point :
    AccountChain → SnapshotPoint → SnapshotPoint → AccountChain × Result (Unit {0})
unfolding peek pop_points equals
rollback_snapshot_point c start end = elim (peek c) [
  | none ↦ (c, err Error.not_exist_snapshot_point)
  | some point ↦
      if equals point start
      then (let (points, done) = pop_points end.account_height c.snapshot_point in
          (record c { snapshot_point = points }, done))
      else (c, err Error.not_equals_start)
]

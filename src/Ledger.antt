-- ===== src/Ledger.antt =====
-- ledger/ledger.go: the operations of a node's wallet and miner: a block is made from the heads of the
-- chains, put on the pool, and sent to the peers if the pool takes it. Hashes (tools/hashcal.go, by
-- SHA-256) are an argument; the logging is left out. `rwMutex` is the pool's own one, which only
-- MiningSnapshotBlock locks here.
pub mod ReqPool
pub mod Response
pub mod Mining
pub mod Receipt
pub mod Spending
pub mod Transfer
mod Tests
use naive_vite.Base.{
  ℕ, zero, suc, List, [], ◌∷◌, ◌++◌, Option, none, some, Result, ok, err, panic, ◌==◌, not,
  if◌then◌else◌, not_exist_block, get_by_hash_error,
}
use naive_vite.Base.Int.{ℤ, pos, negsuc, pos_part, ltb_ℤ, ◌+ℤ◌, ◌-ℤ◌}
use naive_vite.Types.{
  Hash, Address, HashHeight, AccountHashH, AccountStateBlock, SnapshotBlock, send, received,
  new_account_block_from, empty_str,
}
use naive_vite.Mutex.{RwMutex, lock, unlock}
use naive_vite.Verifier.Reader.{ChainReader}
use naive_vite.Syncer.{Net, Sent, broadcast_account_blocks, broadcast_snapshot_blocks}

-- A call under the read lock: what it leaves, or `none` if it waits for the lock for ever.
abbrev pub LockedAdd : Type 0 → Type 0
LockedAdd S = RwMutex → S → SnapshotBlock → Option (RwMutex × S × Result (Unit {0}))

-- What the ledger uses of `pool.BlockPool`, over its states `S`.
pub record BlockPool (S : Type 0) : Type 0 where
  pub add_direct_account_block : S → Address → AccountStateBlock → S × Result (Unit {0})
  pub add_direct_snapshot_block : LockedAdd S

unfoldable pub get_account_balance : ChainReader → Address → ℤ
get_account_balance r address = elim (r.head_account address) [
  | none ↦ pos 0
  | some head ↦ head.amount
]

-- The block of `RequestAccountBlock`; without a snapshot head, nil is dereferenced.
unfoldable pub request_block :
    (AccountStateBlock → Hash) → ChainReader → ℤ → Address → Address → ℤ → Result AccountStateBlock
unfolding new_account_block_from
request_block calculate r now from to amount = elim r.head_snapshot [
  | none ↦ panic
  | some head ↦
      let b =
        new_account_block_from (r.head_account from) from now amount head send from to empty_str
          (negsuc 0) in
      ok (record b { hash = calculate b })
]

-- The block of `ResponseAccountBlock`, on the previous block's height, hash and amount.
unfoldable pub receipt_on :
    ℤ
    → Hash
    → ℤ
    → ℤ
    → Address
    → Address
    → Hash
    → AccountStateBlock
    → SnapshotBlock
    → AccountStateBlock
receipt_on prev_height prev_hash prev_amount now from to req_hash req head =
    let modified = pos 0 -ℤ req.modified_amount in
    record {
      height = prev_height +ℤ pos 1;
      hash = empty_str;
      pre_hash = prev_hash;
      signer = to;
      timestamp = now;
      amount = prev_amount +ℤ modified;
      modified_amount = modified;
      snapshot_height = head.height;
      snapshot_hash = head.hash;
      block_type = received;
      from = from;
      to = to;
      source_hash = req_hash;
      source_height = req.height;
    }

unfoldable pub response_block :
    (AccountStateBlock → Hash)
    → ChainReader
    → ℤ
    → Address
    → Address
    → Hash
    → Result AccountStateBlock
unfolding receipt_on
response_block calculate r now from to req_hash = elim (r.get_account_by_hash from req_hash) [
  | none ↦ err not_exist_block
  | some b ↦ if not (b.hash == req_hash) then err get_by_hash_error else elim r.head_snapshot [
    | none ↦ panic
    | some head ↦
        let block = elim (r.head_account to) as (λ _. AccountStateBlock) [
          | none ↦ receipt_on (negsuc 0) empty_str (pos 0) now from to req_hash b head
          | some prev ↦ receipt_on prev.height prev.hash prev.amount now from to req_hash b head
        ] in
        ok (record block { hash = calculate block })
  ]
]

-- The block of `MiningSnapshotBlock`, on the head `h`.
unfoldable pub mined_block :
    (SnapshotBlock → Hash) → HashHeight → List AccountHashH → Address → ℤ → SnapshotBlock
mined_block calculate h accounts address timestamp =
    let made : SnapshotBlock = record {
      height = h.height +ℤ pos 1;
      hash = empty_str;
      pre_hash = h.hash;
      signer = address;
      timestamp = timestamp;
      accounts = accounts;
    } in
    record made { hash = calculate made }

module _ {S : Type 0} (pool : BlockPool S) (net : Net) where
  -- A block of an account is put on its pool, and sent if there was no error.
  unfoldable pub submit : Address → Result AccountStateBlock → S → S × Sent × Result (Unit {0})
  unfolding broadcast_account_blocks
  submit address made s = elim made [
    | ok block ↦
        let (s', done) = pool.add_direct_account_block s address block in
        (
          s',
          elim done [ ok _ ↦ (broadcast_account_blocks net address (block ∷ [])).1 | _ ↦ [] ],
          done,
        )
    | err e ↦ (s, [], err e)
    | panic ↦ (s, [], panic)
  ]

  unfoldable pub request_account_block :
      (AccountStateBlock → Hash)
      → ChainReader
      → ℤ
      → Address
      → Address
      → ℤ
      → S
      → S × Sent × Result (Unit {0})
  unfolding submit request_block
  request_account_block calculate r now from to amount s =
      submit from (request_block calculate r now from to amount) s

  unfoldable pub response_account_block :
      (AccountStateBlock → Hash)
      → ChainReader
      → ℤ
      → Address
      → Address
      → Hash
      → S
      → S × Sent × Result (Unit {0})
  unfolding submit response_block
  response_account_block calculate r now from to req_hash s =
      submit to (response_block calculate r now from to req_hash) s

  -- `MiningSnapshotBlock`, with what `NextAccountSnapshot` returns, under the write lock; `none` if it
  -- waits for ever.
  unfoldable pub mining_snapshot_block :
      (SnapshotBlock → Hash)
      → Result (HashHeight × List AccountHashH)
      → Address
      → ℤ
      → RwMutex
      → S
      → Option (RwMutex × S × Sent × Result (Unit {0}))
  unfolding lock unlock mined_block broadcast_snapshot_blocks
  mining_snapshot_block calculate next address timestamp rw_mutex s = elim (lock rw_mutex) [
    | none ↦ none
    | some m ↦ elim next [
      | err e ↦ some (unlock m, s, [], err e)
      | panic ↦ some (unlock m, s, [], panic)
      | ok (h, accounts) ↦
          let block = mined_block calculate h accounts address timestamp in
          elim (pool.add_direct_snapshot_block m s block) [
            | none ↦ none
            | some (m', s', done) ↦ some (
              unlock m',
              s',
              elim done [ ok _ ↦ (broadcast_snapshot_blocks net (block ∷ [])).1 | _ ↦ [] ],
              done,
            )
          ]
    ]
  ]

-- The blocks that `get` reads at the heights from `i` on, `n` of them.
unfoldable pub heights_from {ℓ} : {B : Type ℓ} → (ℤ → Option B) → ℕ → ℤ → List (Option B)
heights_from get zero i = []
heights_from get (suc n) i = get i ∷ heights_from get n (i +ℤ pos 1)

unfoldable pub list_account_block : ChainReader → Address → List (Option AccountStateBlock)
unfolding heights_from
list_account_block r address = elim (r.head_account address) [
  | none ↦ []
  | some head ↦
      heights_from (r.get_account_by_height address) (pos_part head.height) (pos 0)
      ++ (if ltb_ℤ head.height (pos 0) then [] else some head ∷ [])
]

-- `get` is `GetSnapshotByHeight`.
unfoldable pub list_snapshot_block :
    ChainReader → (ℤ → Option SnapshotBlock) → List (Option SnapshotBlock)
unfolding heights_from
list_snapshot_block r get = elim r.head_snapshot [
  | none ↦ []
  | some head ↦
      heights_from get (pos_part head.height) (pos 0)
      ++ (if ltb_ℤ head.height (pos 0) then [] else some head ∷ [])
]

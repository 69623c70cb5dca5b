-- ===== src/Ledger/ReqPool.antt =====
-- ledger/req_pool.go: the transfers that a node knows of, by receiver and hash, which the chain's
-- listener keeps up to date.
pub mod Lifecycle
use naive_vite.Base.{
  ℕ, List, [], ◌∷◌, map, Option, none, some, ◌==◌, if◌then◌else◌, Table, lookup, insert, Result, ok,
  err, panic,
}
use naive_vite.Base.Int.{ℤ}
use naive_vite.Types.{
  Hash, Address, AccountHashH, AccountStateBlock, BlockType, genesis, send, received, unknown,
  new_account_hash_h, ChainEvent, account_insert, account_remove,
}

pub data ReqState : Type 0 where
  dirty confirmed unconfirmed : ReqState

pub record Req : Type 0 where
  pub req_hash : Hash
  pub acc : Option AccountHashH
  pub state : ReqState
  pub amount : ℤ
  pub from : Address

-- The requests of each account (`reqAccountPool`).
abbrev pub ReqPool : Type 0
ReqPool = Table (Table Req)

unfoldable pub get_req : ReqPool → Address → Hash → Option Req
get_req p address source_hash = elim (lookup address p) [
  | none ↦ none
  | some reqs ↦ lookup source_hash reqs
]

-- A request of the account is put in place of the one with its hash.
unfoldable pub put_req : Address → Req → ReqPool → ReqPool
put_req address req p = elim (lookup address p) [
  | none ↦ insert address (insert req.req_hash req []) p
  | some reqs ↦ insert address (insert req.req_hash req reqs) p
]

-- A change of the request object; without one, nil is dereferenced.
unfoldable pub change_req : Address → Hash → (Req → Req) → ReqPool → Result ReqPool
unfolding get_req put_req
change_req address hash f p = elim (get_req p address hash) [
  | none ↦ panic
  | some req ↦ ok (put_req address (f req) p)
]

unfoldable pub block_insert : AccountStateBlock → ReqPool → Result ReqPool
unfolding change_req put_req
block_insert b p = elim b.block_type [
  | send ↦ ok (
      put_req b.to
        (record {
          req_hash = b.hash;
          acc = none;
          state = unconfirmed;
          amount = b.modified_amount;
          from = b.from;
        })
        p)
  | received ↦
      change_req b.to b.source_hash
        (λ req. record req {
          state = confirmed;
          acc = some (new_account_hash_h b.to b.hash b.height);
        })
        p
  | genesis ↦ ok p
  | unknown _ ↦ ok p
]

unfoldable pub block_rollback : AccountStateBlock → ReqPool → Result ReqPool
unfolding change_req
block_rollback b p = elim b.block_type [
  | send ↦ change_req b.to b.hash (λ req. record req { state = dirty }) p
  | received ↦ change_req b.to b.source_hash (λ req. record req { state = unconfirmed }) p
  | genesis ↦ ok p
  | unknown _ ↦ ok p
]

-- The callbacks of the chain's listener; those for snapshot blocks do nothing.
unfoldable pub on_event : ChainEvent → ReqPool → Result ReqPool
unfolding block_insert block_rollback
on_event (account_insert address b) p = block_insert b p
on_event (account_remove address b) p = block_rollback b p

unfoldable pub open_reqs : Table Req → List Req
open_reqs [] = []
open_reqs ((k, req) ∷ rest) = elim req.state [
  | confirmed ↦ open_reqs rest
  | _ ↦ req ∷ open_reqs rest
]

-- `getReqs`, with which `ListRequest` answers.
unfoldable pub get_reqs : ReqPool → Address → List Req
unfolding open_reqs
get_reqs p address = elim (lookup address p) [ none ↦ [] | some reqs ↦ open_reqs reqs ]

unfoldable pub confirmed_by : ReqPool → Address → Hash → Option AccountHashH
unfolding get_req
confirmed_by p address source_hash = elim (get_req p address source_hash) [
  | none ↦ none
  | some req ↦ elim req.state [ confirmed ↦ req.acc | _ ↦ none ]
]

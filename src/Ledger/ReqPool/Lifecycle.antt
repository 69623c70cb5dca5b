-- ===== src/Ledger/ReqPool/Lifecycle.antt =====
-- What becomes of a transfer in the pool of requests.
use naive_vite.Base.{
  ◌≡◌, refl, ap, ◌∙◌, none, some, ◌==◌, ◌&&◌, if◌then◌else◌, lookup, insert, lookup-insert, ok,
  arith, Option-cases, inl, inr, [], false,
}
use naive_vite.Types.{Hash, Address, AccountStateBlock, send, received, new_account_hash_h}
use naive_vite.Ledger.ReqPool.{
  Req, ReqPool, unconfirmed, confirmed, get_req, put_req, change_req, block_insert, block_rollback,
  confirmed_by,
}

lookup_nothing : (hash : Hash) → lookup {V = Req} hash [] ≡ none
unfolding lookup
lookup_nothing hash = refl

get_req-put_req :
    (address other : Address) (hash : Hash) (req : Req) (p : ReqPool)
    → get_req (put_req address req p) other hash
      ≡ (if (address == other) && (req.req_hash == hash) then some req else get_req p other hash)
unfolding get_req put_req
get_req-put_req address other hash req p = elim (Option-cases (lookup address p)) [
  | inl new ↦ ground (
    arith,
    new,
    lookup-insert address other (insert req.req_hash req []) p,
    lookup-insert req.req_hash hash req [],
    lookup_nothing hash,
  )
  | inr (reqs, old) ↦ ground (
    arith,
    old,
    lookup-insert address other (insert req.req_hash req reqs) p,
    lookup-insert req.req_hash hash req reqs,
  )
]

-- The request of a transfer that has been received in the block `t`, and before and after that.
abbrev pub opened : AccountStateBlock → Req
opened s = record {
  req_hash = s.hash;
  acc = none;
  state = unconfirmed;
  amount = s.modified_amount;
  from = s.from;
}

abbrev pub closed : AccountStateBlock → AccountStateBlock → Req
closed s t =
    let req = opened s in
    record req { state = confirmed; acc = some (new_account_hash_h t.to t.hash t.height) }

abbrev pub reopened : AccountStateBlock → AccountStateBlock → Req
reopened s t = let req = closed s t in record req { state = unconfirmed }

-- The request of `s` is `req`, and all others are those of `p`.
abbrev pub HasReq : ReqPool → AccountStateBlock → Req → ReqPool → Type 0
HasReq p s req q =
    (get_req q s.to s.hash ≡ some req)
    × ((other : Address) (hash : Hash)
        → ((s.to == other) && (s.hash == hash)) ≡ false
        → get_req q other hash ≡ get_req p other hash)

put-HasReq :
    (p q : ReqPool) (s : AccountStateBlock) (req req' : Req)
    → req'.req_hash ≡ s.hash
    → HasReq p s req q
    → HasReq p s req' (put_req s.to req' q)
put-HasReq p q s req req' same (here, others) = (
  get_req-put_req s.to s.to s.hash req' q ∙ ground (arith, same),
  λ other. λ hash. λ apart.
      get_req-put_req s.to other hash req' q
      ∙ ground (arith, same, apart)
      ∙ others other hash apart,
)

put_new :
    (p : ReqPool) (s : AccountStateBlock) (req : Req)
    → req.req_hash ≡ s.hash
    → HasReq p s req (put_req s.to req p)
put_new p s req same = (
  get_req-put_req s.to s.to s.hash req p ∙ ground (arith, same),
  λ other. λ hash. λ apart. get_req-put_req s.to other hash req p ∙ ground (arith, same, apart),
)

sent :
    (s : AccountStateBlock) (p : ReqPool)
    → s.block_type ≡ send
    → block_insert s p ≡ ok (put_req s.to (opened s) p)
unfolding block_insert
sent s p kind = ground (arith, kind)

changed :
    (address : Address) (hash : Hash) (f : Req → Req) (p : ReqPool) (req : Req)
    → get_req p address hash ≡ some req
    → change_req address hash f p ≡ ok (put_req address (f req) p)
unfolding change_req
changed address hash f p req e = ground (arith, e)

module _ (s t : AccountStateBlock) (kind : t.block_type ≡ received) (to_is : t.to ≡ s.to)
    (source_is : t.source_hash ≡ s.hash) where
  close : Req → Req
  close req = record req { state = confirmed; acc = some (new_account_hash_h t.to t.hash t.height) }

  named :
      (p : ReqPool) (f : Req → Req) → change_req t.to t.source_hash f p ≡ change_req s.to s.hash f p
  named p f =
      ap (λ a. change_req a t.source_hash f p) to_is ∙ ap (λ h. change_req s.to h f p) source_is

  is_received : (p : ReqPool) → block_insert t p ≡ change_req t.to t.source_hash close p
  unfolding block_insert close
  is_received p = ground (arith, kind)

  is_rolled_back :
      (p : ReqPool)
      → block_rollback t p
        ≡ change_req t.to t.source_hash (λ req. record req { state = unconfirmed }) p
  unfolding block_rollback
  is_rolled_back p = ground (arith, kind)

  receives :
      (p : ReqPool)
      → get_req p s.to s.hash ≡ some (opened s)
      → block_insert t p ≡ ok (put_req s.to (closed s t) p)
  unfolding close
  receives p e = is_received p ∙ named p close ∙ changed s.to s.hash close p (opened s) e

  rolls_back :
      (p : ReqPool)
      → get_req p s.to s.hash ≡ some (closed s t)
      → block_rollback t p ≡ ok (put_req s.to (reopened s t) p)
  rolls_back p e =
      is_rolled_back p
      ∙ named p (λ req. record req { state = unconfirmed })
      ∙ changed s.to s.hash (λ req. record req { state = unconfirmed }) p (closed s t) e

confirmation :
    (p : ReqPool) (s t : AccountStateBlock)
    → get_req p s.to s.hash ≡ some (closed s t)
    → confirmed_by p s.to s.hash ≡ some (new_account_hash_h t.to t.hash t.height)
unfolding confirmed_by
confirmation p s t e = ground (arith, e)

-- The listener, told of a transfer `s` and then of a receipt `t` of it, never dereferences nil: the
-- transfer is a request of the receiver that waits, then one that is confirmed by the receipt, and if the
-- receipt is rolled back one that waits again. All other requests stay as they were.
pub block_insert-HasReq :
    (p : ReqPool) (s t : AccountStateBlock)
    → s.block_type ≡ send
    → t.block_type ≡ received
    → t.to ≡ s.to
    → t.source_hash ≡ s.hash
    → (p1 : ReqPool) × (p2 : ReqPool) × (p3 : ReqPool) × (block_insert s p ≡ ok p1)
      × HasReq p s (opened s) p1
      × (block_insert t p1 ≡ ok p2)
      × HasReq p s (closed s t) p2
      × (confirmed_by p2 s.to s.hash ≡ some (new_account_hash_h t.to t.hash t.height))
      × (block_rollback t p2 ≡ ok p3)
      × HasReq p s (reopened s t) p3
block_insert-HasReq p s t kind kind' to_is source_is =
    let p1 = put_req s.to (opened s) p in
    let p2 = put_req s.to (closed s t) p1 in
    let first : HasReq p s (opened s) p1 = put_new p s (opened s) refl in
    let second : HasReq p s (closed s t) p2 =
      put-HasReq p p1 s (opened s) (closed s t) refl first in
    (
      p1,
      p2,
      put_req s.to (reopened s t) p2,
      sent s p kind,
      first,
      receives s t kind' to_is source_is p1 first.0,
      second,
      confirmation p2 s t second.0,
      rolls_back s t kind' to_is source_is p2 second.0,
      put-HasReq p p2 s (closed s t) (reopened s t) refl second,
    )

-- ===== src/Pool/Missing.antt =====
-- pool/bc_pool.go, pool/account_pool.go and pool/fetcher.go: what a pool asks for below its snippets, and
-- the transfers that a rollback of an account takes back.
mod Tests
use naive_vite.Base.{
  ℕ, zero, suc, Option, none, some, List, [], ◌∷◌, ◌==◌, not, if◌then◌else◌, Result, ok, err, panic,
  rollback_cmd,
}
use naive_vite.Base.Int.{ℤ, pos, negsuc, pos_part, ◌+ℤ◌, ◌-ℤ◌, ltb_ℤ, leb_ℤ}
use naive_vite.Types.{Hash, Address, FetchRequest, AccountStateBlock, is_send}
use naive_vite.Pool.Chain.{SnippetChain}

-- `fetcher.fetch`, of the pool of the given account.
unfoldable pub request_of : Address → SnippetChain → ℤ → FetchRequest
request_of address s prev_cnt = record {
  chain = address;
  height = s.tail_height;
  hash = s.tail_hash;
  prev_cnt = prev_cnt;
}

-- How many blocks are asked for below a snippet, after one whose head is at `prev`: `head` is the head of
-- the current chain.
unfoldable pub distance : ℤ → ℤ → SnippetChain → ℤ
distance head prev s =
    let from_head = s.tail_height -ℤ head in
    let first = if ltb_ℤ (pos 0) prev then s.tail_height -ℤ prev else from_head in
    let second = if leb_ℤ first (pos 0) then from_head else first in
    if leb_ℤ second (pos 0) then pos 20 else second

-- The loop of `loopFetchForSnippets` over the snippets in the order of their tails. A distance is always
-- above 0, so each snippet counts.
unfoldable pub fetch_loop : Address → ℤ → ℤ → List SnippetChain → List FetchRequest
unfolding request_of distance
fetch_loop address head prev [] = []
fetch_loop address head prev (s ∷ ss) =
    request_of address s (distance head prev s) ∷ fetch_loop address head s.head_height ss

unfoldable pub fetch_for_snippets : Address → ℤ → List SnippetChain → List FetchRequest
unfolding fetch_loop
fetch_for_snippets address head ss = fetch_loop address head (negsuc 0) ss

-- The loop of `TryRollback` at the height `i`, for the `n` heights that are left.
unfoldable pub sends_above : (ℤ → Option AccountStateBlock) → ℕ → ℤ → List AccountStateBlock
sends_above get zero i = []
sends_above get (suc n) i =
    let rest = sends_above get n (i -ℤ pos 1) in
    elim (get i) [ none ↦ rest | some b ↦ if is_send b.block_type then b ∷ rest else rest ]

-- `TryRollback`: the transfers above the height; `get` reads the chain on disk, whose head is `head`.
unfoldable pub try_rollback :
    AccountStateBlock → (ℤ → Option AccountStateBlock) → ℤ → Hash → Result (List AccountStateBlock)
unfolding sends_above
try_rollback head get height hash = elim (get height) [
  | none ↦ err rollback_cmd
  | some b ↦
      if not (b.hash == hash)
      then err rollback_cmd
      else ok (sends_above get (pos_part (head.height -ℤ height)) head.height)
]

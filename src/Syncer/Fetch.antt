-- ===== src/Syncer/Fetch.antt =====
-- syncer/fetcher.go: the fetcher, which asks the best peer for what the pool needs, and for a hash
-- not more often than its policy allows.
pub mod Batch
mod Tests
use naive_vite.Base.{ℕ, Bool, true, false, List, [], ◌∷◌, ◌==◌, if◌then◌else◌, Result}
use naive_vite.Base.Int.{ℤ, pos, leb_ℤ}
use naive_vite.Types.{Hash, Address, HashHeight, FetchRequest, empty_str}
use naive_vite.Syncer.{
  Peer, Net, Sent, request_snapshot_block_by_peer, send_request_account_hash,
  send_request_snapshot_hash, send_request_account_blocks, send_request_snapshot_blocks,
}
use naive_vite.Syncer.Retry.{DefaultRetryPolicy, retry, policy_done}

-- The hashes of a batch that may be asked for. The source reads the clock at each hash; here it is read
-- once for a batch.
unfoldable pub allowed :
    ℕ → List HashHeight → DefaultRetryPolicy → List HashHeight × DefaultRetryPolicy
unfolding retry
allowed now [] p = ([], p)
allowed now (task ∷ tasks) p =
    let (asks, p1) = retry now task.hash p in
    let (target, p2) = allowed now tasks p1 in (if asks then task ∷ target else target, p2)

-- `join` is `hash.Hash + strconv.Itoa(hash.Height)`; errors of the sender are dropped.
module _ (net : Net) (join : Hash → ℤ → Hash) (now : ℕ) where
  unfoldable pub when :
      Bool × DefaultRetryPolicy → Result (Unit {0}) × Sent → Sent × DefaultRetryPolicy
  when (asks, p) out = (if asks then out.1 else [], p)

  unfoldable pub fetch_snapshot_block_from_peer :
      HashHeight → Peer → DefaultRetryPolicy → Sent × DefaultRetryPolicy
  unfolding retry when request_snapshot_block_by_peer
  fetch_snapshot_block_from_peer h peer p =
      when (retry now h.hash p) (request_snapshot_block_by_peer net h peer)

  unfoldable pub fetch_account :
      Address → HashHeight → ℤ → DefaultRetryPolicy → Sent × DefaultRetryPolicy
  unfolding retry when send_request_account_hash
  fetch_account address h prev_cnt p =
      if leb_ℤ prev_cnt (pos 0)
      then ([], p)
      else when (retry now (join h.hash h.height) p)
          (send_request_account_hash net address h prev_cnt)

  unfoldable pub fetch_snapshot : HashHeight → ℤ → DefaultRetryPolicy → Sent × DefaultRetryPolicy
  unfolding retry when send_request_snapshot_hash
  fetch_snapshot h prev_cnt p =
      if leb_ℤ prev_cnt (pos 0)
      then ([], p)
      else when (retry now (join h.hash h.height) p) (send_request_snapshot_hash net h prev_cnt)

  unfoldable pub fetch : FetchRequest → DefaultRetryPolicy → Sent × DefaultRetryPolicy
  unfolding fetch_account fetch_snapshot
  fetch r p =
      let h : HashHeight = record { hash = r.hash; height = r.height } in
      if r.chain == empty_str
      then fetch_snapshot h r.prev_cnt p
      else fetch_account r.chain h r.prev_cnt p

  unfoldable pub fetch_snapshot_block_by_hash :
      List HashHeight → DefaultRetryPolicy → Sent × DefaultRetryPolicy
  unfolding allowed send_request_snapshot_blocks
  fetch_snapshot_block_by_hash tasks p =
      let (target, p') = allowed now tasks p in
      (elim target [ [] ↦ [] | t ∷ ts ↦ (send_request_snapshot_blocks net (t ∷ ts)).1 ], p')

  unfoldable pub fetch_account_block_by_hash :
      Address → List HashHeight → DefaultRetryPolicy → Sent × DefaultRetryPolicy
  unfolding allowed send_request_account_blocks
  fetch_account_block_by_hash address tasks p =
      let (target, p') = allowed now tasks p in
      (elim target [ [] ↦ [] | t ∷ ts ↦ (send_request_account_blocks net address (t ∷ ts)).1 ], p')

  -- `done(block, height)` does not use the height.
  unfoldable pub fetch_done : Hash → ℤ → DefaultRetryPolicy → DefaultRetryPolicy
  unfolding policy_done
  fetch_done block height p = policy_done now block p

-- ===== src/Syncer.antt =====
-- syncer/: what a node asks its peers for, and what it answers. Here are the messages of
-- syncer/types.go, and syncer/sender.go, which writes them. A peer is its id. A message stands for its
-- JSON text, which for these types cannot fail; logging is left out.
pub mod Retry
pub mod Fetch
pub mod Answer
pub mod Receive
pub mod State
use naive_vite.Base.{ℕ, List, [], ◌∷◌, Result, ok, err, panic}
use naive_vite.Base.Int.{ℤ}
use naive_vite.Types.{Hash, Address, HashHeight, AccountStateBlock, SnapshotBlock}

abbrev pub Peer : Type 0
Peer = ℕ

-- The messages, with the type under which each is sent.
pub data Message : Type 0 where
  state_msg : ℤ → Hash → Message
  request_account_hash : Address → HashHeight → ℤ → Message
  request_snapshot_hash : HashHeight → ℤ → Message
  request_account_blocks : Address → List HashHeight → Message
  request_snapshot_blocks : List HashHeight → Message
  account_hashes : Address → List HashHeight → Message
  snapshot_hashes : List HashHeight → Message
  account_blocks : Address → List AccountStateBlock → Message
  snapshot_blocks : List SnapshotBlock → Message

-- What the sender uses of `p2p.P2P`: the peers, the best one, and how a write to a peer ends.
pub record Net : Type 0 where
  pub all_peer : Result (List Peer)
  pub best_peer : Result Peer
  pub write : Peer → Message → Result (Unit {0})

-- The messages that are written, in order.
abbrev pub Sent : Type 0
Sent = List (Peer × Message)

module _ (net : Net) where
  -- The loop over the peers; `last` is the error of the last write that failed.
  unfoldable pub write_all : Message → List Peer → Result (Unit {0}) → Result (Unit {0}) × Sent
  write_all m [] last = (last, [])
  write_all m (p ∷ ps) last = elim (net.write p m) [
    | ok _ ↦ let (result, sent) = write_all m ps last in (result, (p, m) ∷ sent)
    | err e ↦ let (result, sent) = write_all m ps (err e) in (result, (p, m) ∷ sent)
    | panic ↦ (panic, (p, m) ∷ [])
  ]

  unfoldable pub broadcast : Message → Result (Unit {0}) × Sent
  unfolding write_all
  broadcast m = elim net.all_peer [
    | ok ps ↦ write_all m ps (ok tt)
    | err e ↦ (err e, [])
    | panic ↦ (panic, [])
  ]

  unfoldable pub broadcast_state : ℤ → Hash → Result (Unit {0}) × Sent
  unfolding broadcast
  broadcast_state height hash = broadcast (state_msg height hash)

  unfoldable pub broadcast_account_blocks :
      Address → List AccountStateBlock → Result (Unit {0}) × Sent
  unfolding broadcast
  broadcast_account_blocks address blocks = broadcast (account_blocks address blocks)

  unfoldable pub broadcast_snapshot_blocks : List SnapshotBlock → Result (Unit {0}) × Sent
  unfolding broadcast
  broadcast_snapshot_blocks blocks = broadcast (snapshot_blocks blocks)

  -- A message to one peer.
  unfoldable pub send_to : Peer → Message → Result (Unit {0}) × Sent
  send_to p m = (net.write p m, (p, m) ∷ [])

  unfoldable pub send_account_blocks :
      Address → List AccountStateBlock → Peer → Result (Unit {0}) × Sent
  unfolding send_to
  send_account_blocks address blocks p = send_to p (account_blocks address blocks)

  unfoldable pub send_snapshot_blocks : List SnapshotBlock → Peer → Result (Unit {0}) × Sent
  unfolding send_to
  send_snapshot_blocks blocks p = send_to p (snapshot_blocks blocks)

  unfoldable pub send_account_hashes : Address → List HashHeight → Peer → Result (Unit {0}) × Sent
  unfolding send_to
  send_account_hashes address hashes p = send_to p (account_hashes address hashes)

  unfoldable pub send_snapshot_hashes : List HashHeight → Peer → Result (Unit {0}) × Sent
  unfolding send_to
  send_snapshot_hashes hashes p = send_to p (snapshot_hashes hashes)

  unfoldable pub request_snapshot_block_by_peer : HashHeight → Peer → Result (Unit {0}) × Sent
  unfolding send_to
  request_snapshot_block_by_peer h p = send_to p (request_snapshot_blocks (h ∷ []))

  -- A message to the best peer.
  unfoldable pub send_best : Message → Result (Unit {0}) × Sent
  unfolding send_to
  send_best m = elim net.best_peer [
    | ok p ↦ send_to p m
    | err e ↦ (err e, [])
    | panic ↦ (panic, [])
  ]

  unfoldable pub send_request_account_hash : Address → HashHeight → ℤ → Result (Unit {0}) × Sent
  unfolding send_best
  send_request_account_hash address h prev_cnt = send_best (request_account_hash address h prev_cnt)

  unfoldable pub send_request_snapshot_hash : HashHeight → ℤ → Result (Unit {0}) × Sent
  unfolding send_best
  send_request_snapshot_hash h prev_cnt = send_best (request_snapshot_hash h prev_cnt)

  unfoldable pub send_request_account_blocks : Address → List HashHeight → Result (Unit {0}) × Sent
  unfolding send_best
  send_request_account_blocks address hashes = send_best (request_account_blocks address hashes)

  unfoldable pub send_request_snapshot_blocks : List HashHeight → Result (Unit {0}) × Sent
  unfolding send_best
  send_request_snapshot_blocks hashes = send_best (request_snapshot_blocks hashes)

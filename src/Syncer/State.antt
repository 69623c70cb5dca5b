-- ===== src/Syncer/State.antt =====
-- syncer/state.go: the handshake, the peers' states, and the first sync after the start.
pub mod Step
pub mod FirstSync
mod Tests
use naive_vite.Base.{
  ℕ, Bool, true, false, Option, none, some, List, [], ◌∷◌, Map, store, ◌==◌, not, if◌then◌else◌,
  Result, ok, err, panic, genesis_diff, hash_empty,
}
use naive_vite.Base.Int.{ℤ, negsuc, pos, ltb_ℤ, leb_ℤ}
use naive_vite.Types.{Hash, HashHeight, SnapshotBlock, empty_str}
use naive_vite.Verifier.Reader.{ChainReader}
use naive_vite.Syncer.{Peer, Net, Sent}
use naive_vite.Syncer.Retry.{DefaultRetryPolicy}
use naive_vite.Syncer.Fetch.{fetch_snapshot_block_from_peer}

-- A `handState` with the `peerState` in it.
pub record HandState : Type 0 where
  pub genesis_hash : Hash
  pub height : ℤ
  pub hash : Hash

-- `getHandState`; without a head it dereferences nil.
unfoldable pub get_hand_state : ChainReader → Result HandState
get_hand_state r = elim r.head_snapshot [
  | none ↦ panic
  | some head ↦
      ok (record { genesis_hash = r.genesis_snapshot.hash; height = head.height; hash = head.hash })
]

-- `Handshake` with a peer that sends this state.
unfoldable pub handshake : ChainReader → HandState → Result (Unit {0})
unfolding get_hand_state
handshake r msg = elim (get_hand_state r) [
  | ok hs ↦
      if not (hs.genesis_hash == msg.genesis_hash)
      then err genesis_diff
      else (if msg.hash == empty_str then err hash_empty else ok tt)
  | err e ↦ err e
  | panic ↦ panic
]

-- What the peers have sent of their states, each peer's `GetState()`, and the peers that are connected
-- (`peers`, in the order in which `Range` happens to meet them).
pub record Peers : Type 0 where
  pub states : Map Peer HandState
  pub connected : List Peer

unfoldable pub without : Peer → List Peer → List Peer
without p [] = []
without p (q ∷ qs) = let rest = without p qs in if q == p then rest else q ∷ rest

unfoldable pub peer_closed : Peer → Peers → Peers
unfolding without
peer_closed p s = record s { connected = without p s.connected }

unfoldable pub peer_connected : Peer → Peers → Peers
unfolding without
peer_connected p s = record s { connected = p ∷ without p s.connected }

-- `update(msg, peer)` with the message's height and hash: what is sent, and the fetcher's policy.
unfoldable pub update :
    Net
    → (Hash → ℤ → Hash)
    → ℕ
    → ChainReader
    → ℤ
    → Hash
    → Peer
    → Peers
    → DefaultRetryPolicy
    → Result (Sent × Peers × DefaultRetryPolicy)
unfolding fetch_snapshot_block_from_peer
update net join now r height hash peer s p =
    let s' : Peers = elim (s.states peer) [
      | none ↦ s
      | some state ↦ record s {
        states = store ◌==◌ s.states peer (record state { height = height; hash = hash });
      }
    ] in
    elim r.head_snapshot [
      | none ↦ panic
      | some head ↦
          let (sent, p') =
            fetch_snapshot_block_from_peer net join now (record { hash = hash; height = height })
              peer p in
          if ltb_ℤ head.height height then ok (sent, s', p') else ok ([], s', p)
    ]

-- `bestPeer`, for the peers from here on with `h` the best height: `Range` stops at the first that is
-- better. A peer without a state is a failed type assertion.
unfoldable pub best_from : Peers → List Peer → ℤ → Result (Option (Peer × HandState))
best_from s [] h = ok none
best_from s (p ∷ ps) h =
    let rest = best_from s ps h in
    elim (s.states p) [
      | none ↦ panic
      | some state ↦ if ltb_ℤ h state.height then ok (some (p, state)) else rest
    ]

unfoldable pub best_peer : Peers → Result (Option (Peer × HandState))
unfolding best_from
best_peer s = best_from s s.connected (negsuc 0)

-- Where `syncFirst` stands: in its first loop, in its second one, returned, or in a panic.
pub data Phase : Type 0 where
  looking syncing returned crashed : Phase

-- `firstTa`, and where `syncFirst` stands. `is_closed` says whether the channel `closed` is closed.
pub record SyncTask : Type 0 where
  pub phase : Phase
  pub height : ℤ
  pub hash : Hash
  pub peer : Peer
  pub is_closed : Bool
  pub is_done : Bool

unfoldable pub new_task : SyncTask
new_task = record {
  phase = looking;
  height = pos 0;
  hash = empty_str;
  peer = 0;
  is_closed = false;
  is_done = false;
}

-- `firstSyncDone`, after which `syncFirst` is in the given phase. To close a closed channel is a panic.
unfoldable pub first_sync_done : Phase → SyncTask → SyncTask
first_sync_done next t =
    if t.is_closed
    then record t { phase = crashed }
    else record t { phase = next; is_closed = true; is_done = true }

-- What a `select` of `syncFirst` takes: the node is stopped, the task's channel is closed, the timeout,
-- or a tick, at which the head on disk and the peers are read.
pub data Event : Type 0 where
  stopped task_closed timeout : Event
  tick : Option SnapshotBlock → Peers → Event

-- After the first loop, with the best peer and its state.
unfoldable pub begin_sync : Option SnapshotBlock → Peer × HandState → SyncTask → SyncTask
unfolding first_sync_done
begin_sync head (p, state) t =
    let t' = record t { height = state.height; hash = state.hash; peer = p } in
    elim head [
      | none ↦ record t' { phase = crashed }
      | some b ↦
          if leb_ℤ state.height b.height
          then first_sync_done returned t'
          else record t' { phase = syncing }
    ]

unfoldable pub sync_step : Event → SyncTask → SyncTask
unfolding first_sync_done begin_sync best_peer
sync_step e t = elim t.phase [
  | looking ↦ elim e [
    | stopped ↦ record t { phase = returned }
    | task_closed ↦ if t.is_closed then record t { phase = returned } else t
    | timeout ↦ first_sync_done looking t
    | tick head s ↦ elim (best_peer s) [
      | ok none ↦ t
      | ok (some best) ↦ begin_sync head best t
      | err _ ↦ t
      | panic ↦ record t { phase = crashed }
    ]
  ]
  | syncing ↦ elim e [
    | stopped ↦ record t { phase = returned }
    | task_closed ↦ if t.is_closed then record t { phase = returned } else t
    | timeout ↦ t
    | tick head s ↦ elim head [
      | none ↦ record t { phase = crashed }
      | some b ↦ if ltb_ℤ t.height b.height then first_sync_done returned t else t
    ]
  ]
  | returned ↦ t
  | crashed ↦ t
]

-- `syncFirst` through these events in their order. A closed channel stays ready, but a `select` with
-- several channels that are ready takes any of them.
unfoldable pub sync_run : List Event → SyncTask → SyncTask
unfolding sync_step
sync_run [] t = t
sync_run (e ∷ es) t = sync_run es (sync_step e t)

-- ===== src/Syncer/State/Tests.antt =====
-- A first sync with one peer.
use naive_vite.Base.{◌≡◌, refl, none, some, [], ◌∷◌, store, ◌==◌, ok}
use naive_vite.Base.Int.{pos}
use naive_vite.Types.{SnapshotBlock}
use naive_vite.Syncer.State.{HandState, Peers, tick, best_peer, best_from, new_task, sync_run}
use naive_vite.Syncer.State.FirstSync.{IsSound, sync_run-IsSound}

abbrev low_block : SnapshotBlock
low_block = record {
  height = pos 3;
  hash = 10;
  pre_hash = 9;
  signer = 0;
  timestamp = pos 0;
  accounts = [];
}

abbrev high_block : SnapshotBlock
high_block = record low_block { height = pos 6; hash = 13; pre_hash = 12 }

abbrev its_state : HandState
its_state = record { genesis_hash = 1; height = pos 5; hash = 12 }

abbrev one_peer : Peers
one_peer = record { states = store ◌==◌ (λ _. none) 2 its_state; connected = 2 ∷ [] }

best_is : best_peer one_peer ≡ ok (some (2, its_state))
unfolding best_peer best_from
best_is = refl

sync_run-IsSound_example :
    IsSound
      (tick (some low_block) one_peer ∷ tick (some high_block) one_peer ∷ [])
      (sync_run (tick (some low_block) one_peer ∷ tick (some high_block) one_peer ∷ []) new_task)
sync_run-IsSound_example =
    sync_run-IsSound (tick (some low_block) one_peer ∷ tick (some high_block) one_peer ∷ []) (
      ((low_block, refl), ((its_state, refl), tt)),
      (((high_block, refl), ((its_state, refl), tt)), tt),
    )

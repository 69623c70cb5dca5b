-- ===== src/Chain/Account/Tests.antt =====
-- Small chains of one account, the witnesses, and tests.
use naive_vite.Base.{
  panic, zero, suc, ◌≡◌, refl, some, none, [], ◌∷◌, ok, err, Error, arith, Option, ◌↔◌,
}
use naive_vite.Base.Int.{pos}
use naive_vite.Types.{AccountStateBlock, SnapshotPoint, AccountHashH}
use naive_vite.Samples.{no_blocks, first, second}
use naive_vite.Store
use naive_vite.Store.{BlockStore}
use naive_vite.Chain.Account.{
  AccountChain, Backend, insert_chain, new_account_chain, get_block_by_height, remove_chain,
  rollback_snapshot_point, snapshot_point, find_account_above_snapshot_height,
}
use naive_vite.Chain.Account.Points.{Ordered, new_point, snapshot_point-Ordered}
use naive_vite.Chain.Account.Removal.{
  IsSnapshotted, remove_chain_refused_iff, remove_chain_keeps_head, rollback_unlocks_nothing,
}
use naive_vite.Chain.Account.Search.{IsDense, IsHighest, find_account_above-IsHighest}

abbrev start_chain : AccountChain
start_chain = record { address = 7; head = none; snapshot_point = [] }

abbrev start_backend : Backend
start_backend = record { store = no_blocks; events = [] }

run : AccountChain × Backend
unfolding insert_chain
run = let (c, w) = insert_chain start_chain start_backend first in insert_chain c w second

abbrev low_point : SnapshotPoint
low_point = new_point (pos 3) 500 (record { hash = 100; height = pos 0; addr = 7 })

abbrev high_point : SnapshotPoint
high_point = new_point (pos 4) 501 (record { hash = 101; height = pos 1; addr = 7 })

program : Unit {0}
unfolding run Store.put_account Store.put_source_hash Store.set_account_head
    Store.get_account_by_height Store.get_account_by_hash Store.get_account_head
    Store.delete_account snapshot_point rollback_snapshot_point remove_chain get_block_by_height
    find_account_above_snapshot_height new_account_chain
program = tt

pointed-Ordered : Ordered (high_point ∷ low_point ∷ [])
pointed-Ordered = omega arith

abbrev low_chain : AccountChain
low_chain = record start_chain { head = some second; snapshot_point = low_point ∷ [] }

abbrev high_entry : AccountHashH
high_entry = record { hash = 101; height = pos 1; addr = 7 }

snapshot_point_high :
    snapshot_point low_chain run.1.store (pos 4) 501 high_entry
    ≡ ok (record low_chain { snapshot_point = high_point ∷ low_point ∷ [] })
unfolding program
snapshot_point_high = refl

pushed-Ordered : Ordered (high_point ∷ low_point ∷ [])
pushed-Ordered =
    snapshot_point-Ordered low_chain run.1.store (pos 4) 501 high_entry
      (record low_chain { snapshot_point = high_point ∷ low_point ∷ [] }) (omega arith)
      snapshot_point_high

abbrev both_points : AccountChain
both_points = record low_chain { snapshot_point = high_point ∷ low_point ∷ [] }

remove_chain_refused_iff_example :
    (remove_chain both_points run.1 first ≡ err Error.has_snapshot)
    ↔ IsSnapshotted (high_point ∷ low_point ∷ []) (pos 0)
remove_chain_refused_iff_example = remove_chain_refused_iff both_points run.1 first pointed-Ordered

removed : AccountChain × Backend
unfolding program
removed = elim (remove_chain low_chain run.1 second) [
  | ok r ↦ r
  | err e ↦ (low_chain, start_backend)
  | panic ↦ (low_chain, start_backend)
]

remove_chain_keeps_head_example :
    (removed.0.head ≡ some second)
    × (Store.get_account_head removed.1.store 7 ≡ some (record { hash = 101; height = pos 1 }))
    × (Store.get_account_by_hash removed.1.store 101 ≡ none)
    × (Store.get_account_by_height removed.1.store 7 (pos 1) ≡ none)
unfolding program removed
remove_chain_keeps_head_example =
    remove_chain_keeps_head low_chain run.1 second removed.0 removed.1 second refl refl

rollback_unlocks_nothing_example :
    (rollback_snapshot_point both_points high_point low_point ≡ (both_points, ok tt))
    × (remove_chain both_points run.1 second ≡ err Error.has_snapshot)
rollback_unlocks_nothing_example =
    rollback_unlocks_nothing both_points run.1 second high_point low_point (low_point ∷ []) refl
      pointed-Ordered (omega arith) (omega arith)

dense : IsDense both_points run.1.store 2
unfolding program
dense zero h = (first, refl)
dense (suc zero) h = (second, refl)
dense (suc (suc n)) h = absurd (omega arith)

find_account_above-IsHighest_example :
    (r : Option AccountStateBlock) × (find_account_above_snapshot_height both_points run.1.store
        (pos 1)
      ≡ ok r)
    × IsHighest both_points run.1.store (pos 1) 2 r
find_account_above-IsHighest_example =
    find_account_above-IsHighest both_points run.1.store (pos 1) second refl dense

find_above_run :
    find_account_above_snapshot_height both_points run.1.store (pos 1) ≡ ok (some first)
unfolding program
find_above_run = refl

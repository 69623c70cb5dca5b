-- ===== src/Pool/Unlock/Tests.antt =====
-- Account 7 has points in the blocks 3 and 2, above the fork point 1.
use naive_vite.Base.{◌≡◌, refl, Option, none, some, [], ◌∷◌, lookup, insert, if◌then◌else◌}
use naive_vite.Base.Int.{ℤ, pos, ◌==ℤ◌, ◌-ℤ◌}
use naive_vite.Types.{SnapshotBlock}
use naive_vite.Pool.Unlock.{
  get_unlock_account_snapshot, unlock_rounds, accounts, put_points, keep_first, point_of,
}
use naive_vite.Pool.Unlock.Ends.{unlocked, first_of, last_of, get_unlock_account_snapshot-ends}

abbrev low : SnapshotBlock
low = record {
  height = pos 2;
  hash = 502;
  pre_hash = 501;
  signer = 0;
  timestamp = pos 0;
  accounts = record { hash = 104; height = pos 4; addr = 7 } ∷ [];
}

abbrev top : SnapshotBlock
top = record low {
  height = pos 3;
  hash = 503;
  pre_hash = 502;
  accounts =
      record { hash = 105; height = pos 5; addr = 7 }
      ∷ record { hash = 201; height = pos 1; addr = 8 }
      ∷ [];
}

abbrev fork : SnapshotBlock
fork = record low { height = pos 1; hash = 501; pre_hash = 500; accounts = [] }

abbrev get : ℤ → Option SnapshotBlock
get h = if h ==ℤ pos 2 then some low else none

earliest :
    lookup 7 (get_unlock_account_snapshot top get fork).1
    ≡ some (record {
      snapshot_height = pos 2;
      snapshot_hash = 502;
      account_height = pos 4;
      account_hash = 104;
    })
unfolding get_unlock_account_snapshot unlock_rounds accounts put_points keep_first point_of lookup
    insert ◌-ℤ◌
earliest = refl

get_unlock_account_snapshot-ends_example :
    (lookup 7 (get_unlock_account_snapshot top get fork).0
      ≡ first_of none (unlocked 7 top get fork))
    × (lookup 7 (get_unlock_account_snapshot top get fork).1
        ≡ last_of none (unlocked 7 top get fork))
get_unlock_account_snapshot-ends_example = get_unlock_account_snapshot-ends 7 top get fork

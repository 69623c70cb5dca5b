-- ===== src/Pool/Waiting/Tests.antt =====
-- Account 7 is to go back to the height 3, and is named again with the height 5.
use naive_vite.Base.{◌≡◌, [], ◌∷◌, Table, lookup, insert, refl}
use naive_vite.Base.Int.{pos}
use naive_vite.Types.{AccountHashH}
use naive_vite.Pool.Waiting.{put_wait_rollback, can_add, add_wait_rollback}

abbrev low : AccountHashH
low = record { hash = 103; height = pos 3; addr = 7 }

abbrev high : AccountHashH
high = record { hash = 105; height = pos 5; addr = 7 }

abbrev waiting : Table AccountHashH
waiting = (7, low) ∷ []

goes_up : put_wait_rollback waiting high ≡ (7, high) ∷ []
unfolding put_wait_rollback can_add add_wait_rollback lookup insert
goes_up = refl

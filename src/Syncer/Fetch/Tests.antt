-- ===== src/Syncer/Fetch/Tests.antt =====
-- A batch that has a hash twice.
use naive_vite.Base.{none, List, [], ◌∷◌}
use naive_vite.Base.Int.{pos}
use naive_vite.Types.{HashHeight}
use naive_vite.Syncer.Fetch.{allowed}
use naive_vite.Syncer.Fetch.Batch.{IsDistinct, allowed-IsDistinct}

abbrev twice : List HashHeight
twice =
    record { hash = 7; height = pos 1 }
    ∷ record { hash = 8; height = pos 2 }
    ∷ record { hash = 7; height = pos 1 }
    ∷ []

allowed-IsDistinct_example : IsDistinct (allowed 5 twice (λ _. none)).0
allowed-IsDistinct_example = allowed-IsDistinct 5 twice (λ _. none)

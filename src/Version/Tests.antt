-- ===== src/Version/Tests.antt =====
-- Two goroutines that race for the counter.
use naive_vite.Base.{ℕ, ◌+◌, ◌%◌, ◌≡◌, ◌<◌, refl, [], ◌∷◌, arith}
use naive_vite.Base.Int.{negsuc}
use naive_vite.Version.{val, next, inc, compare_and_swap, reads, swaps, Run, step, run}
use naive_vite.Version.Count.{run-Counts, run-step_returned}

abbrev two_readers : Run
two_readers = record { version = 4294967295; places = reads ∷ reads ∷ []; returned = 0 }

-- Both read -1; the second swap fails, and that goroutine goes round again.
raced :
    run two_readers (0 ∷ 1 ∷ 0 ∷ 1 ∷ 1 ∷ 1 ∷ [])
    ≡ record { version = 1; places = reads ∷ reads ∷ []; returned = 2 }
unfolding run step compare_and_swap next
raced = refl

wraps : val (inc (record { version = 2147483647 })) ≡ negsuc 2147483647
unfolding val inc next
wraps = refl

run-Counts_example :
    (n : ℕ) × ((run two_readers (0 ∷ 1 ∷ 0 ∷ 1 ∷ 1 ∷ 1 ∷ [])).returned ≡ 0 + n)
    × ((run two_readers (0 ∷ 1 ∷ 0 ∷ 1 ∷ 1 ∷ 1 ∷ [])).version ≡ (4294967295 + n) % 4294967296)
run-Counts_example = run-Counts two_readers (0 ∷ 1 ∷ 0 ∷ 1 ∷ 1 ∷ 1 ∷ []) (omega arith)

abbrev one_read : Run
one_read = record two_readers { places = swaps 4294967295 ∷ reads ∷ [] }

run-step_returned_example : 0 < (step (run one_read (1 ∷ 1 ∷ [])) 0).returned
run-step_returned_example =
    run-step_returned one_read (1 ∷ 1 ∷ []) 0 (omega arith) refl
      ((λ e. absurd (omega (arith, e))), ((λ e. absurd (omega (arith, e))), tt))

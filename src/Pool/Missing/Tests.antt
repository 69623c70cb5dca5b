-- ===== src/Pool/Missing/Tests.antt =====
-- A snippet above the current chain, and one that overlaps it.
use naive_vite.Base.{◌≡◌, refl, Option, none, some, [], ◌∷◌, ok, if◌then◌else◌}
use naive_vite.Base.Int.{ℤ, pos, ◌==ℤ◌, ◌-ℤ◌}
use naive_vite.Samples.{first, second}
use naive_vite.Types.{AccountStateBlock}
use naive_vite.Pool.Chain.{SnippetChain}
use naive_vite.Pool.Missing.{distance, try_rollback, sends_above}

abbrev snippet : SnippetChain
snippet = record {
  height_blocks = λ _. none;
  head_height = pos 9;
  tail_height = pos 6;
  chain_id = 1;
  tail_hash = 106;
  head_hash = 109;
}

-- Asked from the head 4, from a snippet up to 5, and from a head above the snippet.
from_head : distance (pos 4) (pos 0) snippet ≡ pos 2
unfolding distance ◌-ℤ◌
from_head = refl

from_snippet : distance (pos 4) (pos 5) snippet ≡ pos 1
unfolding distance ◌-ℤ◌
from_snippet = refl

from_above : distance (pos 8) (pos 7) snippet ≡ pos 20
unfolding distance ◌-ℤ◌
from_above = refl

abbrev get : ℤ → Option AccountStateBlock
get h = if h ==ℤ pos 0 then some first else (if h ==ℤ pos 1 then some second else none)

taken_back : try_rollback second get (pos 0) 100 ≡ ok (second ∷ [])
unfolding try_rollback sends_above ◌-ℤ◌
taken_back = refl

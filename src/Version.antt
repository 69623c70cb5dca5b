-- ===== src/Version.antt =====
-- version/version.go: the fork version, a 32-bit counter that goroutines count up by compare and swap.
pub mod Count
mod Tests
use naive_vite.Base.{
  ℕ, zero, suc, ◌+◌, ◌-◌, ◌%◌, ◌^◌, Option, none, some, List, [], ◌∷◌, ◌==◌, if◌then◌else◌, Bool,
  true, false, ltb, get_elem?, set,
}
use naive_vite.Base.Int.{ℤ, pos, negsuc}

-- `Version`: the bits of the `int32`.
pub record Version : Type 0 where
  pub version : ℕ

-- `Val`: the signed value of the bits.
unfoldable pub val : Version → ℤ
val v = if ltb v.version 2147483648 then pos v.version else negsuc (4294967295 - v.version)

-- `i + 1` in 32 bits.
unfoldable pub next : ℕ → ℕ
next i = (i + 1) % 2 ^ 32

-- `atomic.CompareAndSwapInt32`: whether it has swapped, and the bits then.
unfoldable pub compare_and_swap : ℕ → ℕ → ℕ → Bool × ℕ
compare_and_swap bits old new = if bits == old then (true, new) else (false, bits)

-- `Inc` where nothing else runs: its first round swaps.
unfoldable pub inc : Version → Version
unfolding next
inc v = record { version = next v.version }

-- A goroutine that calls `Inc` again and again: it is about to read `self.version`, or has read `i`.
pub data Place : Type 0 where
  reads : Place
  swaps : ℕ → Place

-- The counter, the goroutines, and how many calls of `Inc` have returned.
pub record Run : Type 0 where
  pub version : ℕ
  pub places : List Place
  pub returned : ℕ

-- A step of the goroutine `k`: the read, or the swap, which ends the call or leads to the next round.
unfoldable pub step : Run → ℕ → Run
unfolding next compare_and_swap
step s k = elim (get_elem? s.places k) [
  | none ↦ s
  | some reads ↦ record s { places = set s.places k (swaps s.version) }
  | some (swaps i) ↦
      let (swapped, bits) = compare_and_swap s.version i (next i) in
      record {
        version = bits;
        places = set s.places k reads;
        returned = if swapped then suc s.returned else s.returned;
      }
]

-- The steps of the goroutines in the given order.
unfoldable pub run : Run → List ℕ → Run
unfolding step
run s [] = s
run s (k ∷ ks) = run (step s k) ks

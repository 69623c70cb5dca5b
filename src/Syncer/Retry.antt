-- ===== src/Syncer/Retry.antt =====
-- syncer/fetcher.go: the policies that say whether a hash is asked for once more. A time is a number
-- of nanoseconds; the time of a call is its argument.
pub mod Throttle
mod Tests
use naive_vite.Base.{
  ℕ, zero, suc, ◌+◌, ◌*◌, Bool, true, false, Option, none, some, Map, store, ltb, ◌==◌, ◌&&◌,
  if◌then◌else◌,
}
use naive_vite.Types.{Hash}

-- Go's zero time comes before every time of a call.
pub record RetryStatus : Type 0 where
  pub cnt : ℕ
  pub done : Bool
  pub ftime : ℕ
  pub dtime : ℕ

abbrev pub second : ℕ
second = 1_000_000_000

unfoldable pub reset : ℕ → RetryStatus → RetryStatus
reset now s = record s { cnt = 1; done = false; ftime = now }

unfoldable pub finish : ℕ → RetryStatus → RetryStatus
finish now s = record s { done = true; cnt = 0; dtime = now }

unfoldable pub inc : RetryStatus → RetryStatus
inc s = record s { cnt = suc s.cnt }

unfoldable pub new_retry_status : ℕ → RetryStatus
new_retry_status now = record { cnt = 1; done = false; ftime = now; dtime = 0 }

-- `fetchedHashs`
abbrev pub DefaultRetryPolicy : Type 0
DefaultRetryPolicy = Map Hash RetryStatus

-- `done(hash)` of the default policy.
unfoldable pub policy_done : ℕ → Hash → DefaultRetryPolicy → DefaultRetryPolicy
unfolding finish new_retry_status
policy_done now hash p = elim (p hash) [
  | some status ↦ store ◌==◌ p hash (finish now status)
  | none ↦ store ◌==◌ p hash (finish now (new_retry_status now))
]

-- Whether a status that has been counted up allows another request.
unfoldable pub may_retry : ℕ → RetryStatus → Bool
may_retry now s =
    if s.done
    then ltb 5 s.cnt && ltb (s.dtime + 3 * second) now
    else ltb 10 s.cnt && ltb (s.ftime + 2 * second) now

unfoldable pub retry : ℕ → Hash → DefaultRetryPolicy → Bool × DefaultRetryPolicy
unfolding inc may_retry reset new_retry_status
retry now hash p = elim (p hash) [
  | none ↦ (true, store ◌==◌ p hash (new_retry_status now))
  | some status ↦
      let counted = inc status in
      if may_retry now counted
      then (true, store ◌==◌ p hash (reset now counted))
      else (false, store ◌==◌ p hash counted)
]

-- The policy of addresses. Its `done` does nothing.
abbrev pub AddressRetryPolicy : Type 0
AddressRetryPolicy = Map Hash RetryStatus

-- No call sets `dtime` here: it stays the zero time, and a second later is always over.
unfoldable pub address_retry : ℕ → Hash → AddressRetryPolicy → Bool × AddressRetryPolicy
unfolding inc reset new_retry_status
address_retry now key p = elim (p key) [
  | none ↦ (true, store ◌==◌ p key (new_retry_status now))
  | some status ↦
      let counted = inc status in
      if ltb (counted.dtime + second) now
      then (true, store ◌==◌ p key counted)
      else (if ltb 3 counted.cnt
          then (true, store ◌==◌ p key (reset now counted))
          else (false, store ◌==◌ p key counted))
]

-- ===== src/Syncer/Retry/Tests.antt =====
-- A hash that is asked for at the time 5, and again too soon.
use naive_vite.Base.{
  ℕ, ◌≡◌, refl, true, false, none, store, ◌==◌, ltb, length, [], ◌∷◌, ◌+◌, ◌*◌, ◌&&◌,
}
use naive_vite.Syncer.Retry.{
  DefaultRetryPolicy, retry, inc, may_retry, reset, new_retry_status, second,
}
use naive_vite.Syncer.Retry.Throttle.{retry-Refusals}

abbrev asked : DefaultRetryPolicy
asked = store ◌==◌ (λ _. none) 7 (record { cnt = 1; done = false; ftime = 5; dtime = 0 })

abbrev refused_once : DefaultRetryPolicy
refused_once = store ◌==◌ asked 7 (record { cnt = 2; done = false; ftime = 5; dtime = 0 })

first_granted : retry 5 7 (λ _. none) ≡ (true, asked)
unfolding retry new_retry_status
first_granted = refl

then_refused : retry 6 7 asked ≡ (false, refused_once)
unfolding retry inc may_retry reset
then_refused = refl

retry-Refusals_example :
    (retry 9 7 refused_once).0 ≡ (ltb 8 (length {A = ℕ} (6 ∷ [])) && ltb (5 + 2 * second) 9)
retry-Refusals_example =
    retry-Refusals 7 5 9 (6 ∷ []) (λ _. none) asked refused_once first_granted
      (refused_once, then_refused, refl)

-- ===== src/Syncer/Retry/Throttle.antt =====
-- How often a hash is asked for.
use naive_vite.Base.{
  ℕ, suc, ◌+◌, ◌*◌, ◌≡◌, ap, sym, subst, ◌∙◌, true, false, none, some, List, [], ◌∷◌, length, store,
  ltb, ◌==◌, ◌&&◌, if◌then◌else◌, arith, Option-cases, Bool-cases, inl, inr,
}
use naive_vite.Types.{Hash}
use naive_vite.Syncer.Retry.{
  RetryStatus, second, reset, inc, new_retry_status, DefaultRetryPolicy, may_retry, retry,
}

-- The calls of `retry` at these times for a hash, all refused, lead from the policy `p` to `q`.
abbrev pub Refusals : Hash → List ℕ → DefaultRetryPolicy → DefaultRetryPolicy → Type 0
Refusals hash [] p q = p ≡ q
Refusals hash (t ∷ ts) p q =
    (p' : DefaultRetryPolicy) × (retry t hash p ≡ (false, p')) × Refusals hash ts p' q

-- The hash has been asked for at the time `t`, is not done, and has `n` calls since.
abbrev pub Counted : Hash → ℕ → ℕ → DefaultRetryPolicy → Type 0
Counted hash t n p =
    (d : ℕ) × (p hash ≡ some (record { cnt = n; done = false; ftime = t; dtime = d }))

module _ (hash : Hash) where
  pub counted_step :
      (now : ℕ) (p : DefaultRetryPolicy) (s : RetryStatus)
      → p hash ≡ some s
      → retry now hash p ≡ (
          if may_retry now (inc s)
          then (true, store ◌==◌ p hash (reset now (inc s)))
          else (false, store ◌==◌ p hash (inc s)))
  unfolding retry
  counted_step now p s e = ground (arith, e)

  pub first_step :
      (now : ℕ) (p : DefaultRetryPolicy)
      → p hash ≡ none
      → retry now hash p ≡ (true, store ◌==◌ p hash (new_retry_status now))
  unfolding retry
  first_step now p e = ground (arith, e)

  here : (p : DefaultRetryPolicy) (s : RetryStatus) → store ◌==◌ p hash s hash ≡ some s
  here p s = ground arith

  pub granted-Counted :
      (t : ℕ) (p q : DefaultRetryPolicy) → retry t hash p ≡ (true, q) → Counted hash t 1 q
  unfolding reset inc new_retry_status
  granted-Counted t p q e = elim (Option-cases (p hash)) [
    | inl new ↦
        let made : q ≡ store ◌==◌ p hash (new_retry_status t) =
          ap (λ r. r.1) (sym e ∙ first_step t p new) in
        (0, ap (λ m. m hash) made ∙ here p (new_retry_status t))
    | inr (s, old) ↦ elim (Bool-cases (may_retry t (inc s))) [
      | inl may ↦
          let made : q ≡ store ◌==◌ p hash (reset t (inc s)) =
            ground (arith, sym e ∙ counted_step t p s old, may) in
          (s.dtime, ap (λ m. m hash) made ∙ here p (reset t (inc s)))
      | inr not_yet ↦ absurd (ground (arith, sym e ∙ counted_step t p s old, not_yet))
    ]
  ]

  pub refused-Counted :
      (t n now : ℕ) (p q : DefaultRetryPolicy)
      → Counted hash t n p
      → retry now hash p ≡ (false, q)
      → Counted hash t (suc n) q
  unfolding inc
  refused-Counted t n now p q (d, old) e =
      let s : RetryStatus = record { cnt = n; done = false; ftime = t; dtime = d } in
      elim (Bool-cases (may_retry now (inc s))) [
        | inl may ↦ absurd (ground (arith, sym e ∙ counted_step now p s old, may))
        | inr not_yet ↦
            let made : q ≡ store ◌==◌ p hash (inc s) =
              ground (arith, sym e ∙ counted_step now p s old, not_yet) in
            (d, ap (λ m. m hash) made ∙ here p (inc s))
      ]

  Refusals-Counted :
      (t n : ℕ) (ts : List ℕ) (p q : DefaultRetryPolicy)
      → Counted hash t n p
      → Refusals hash ts p q
      → Counted hash t (n + length ts) q
  Refusals-Counted t n [] p q counted same =
      subst (λ k. Counted hash t k q) (omega arith) (subst (Counted hash t n) same counted)
  Refusals-Counted t n (now ∷ ts) p q counted (p', e, rest) =
      subst (λ k. Counted hash t k q) (omega arith)
        (Refusals-Counted t (suc n) ts p' q (refused-Counted t n now p p' counted e) rest)

  pub next_call :
      (t n now : ℕ) (p : DefaultRetryPolicy)
      → Counted hash t n p
      → (retry now hash p).0 ≡ (ltb 9 n && ltb (t + 2 * second) now)
  unfolding may_retry inc
  next_call t n now p (d, old) =
      let s : RetryStatus = record { cnt = n; done = false; ftime = t; dtime = d } in
      elim (Bool-cases (may_retry now (inc s))) [
        | inl may ↦ ap (λ r. r.0) (counted_step now p s old) ∙ ground (arith, may)
        | inr not_yet ↦ ap (λ r. r.0) (counted_step now p s old) ∙ ground (arith, not_yet)
      ]

-- After a hash has been asked for at the time `t`, and refused at each of the times `ts` since, the
-- next call is granted exactly if there were at least 9 refusals and more than 2 seconds have passed:
-- a hash that is not done is asked for no more often, and never given up.
pub retry-Refusals :
    (hash : Hash) (t now : ℕ) (ts : List ℕ) (p q r : DefaultRetryPolicy)
    → retry t hash p ≡ (true, q)
    → Refusals hash ts q r
    → (retry now hash r).0 ≡ (ltb 8 (length ts) && ltb (t + 2 * second) now)
retry-Refusals hash t now ts p q r granted refused =
    let counted = Refusals-Counted hash t 1 ts q r (granted-Counted hash t p q granted) refused in
    next_call hash t (1 + length ts) now r counted ∙ ground arith

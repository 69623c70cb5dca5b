-- ===== src/Syncer/Fetch/Batch.antt =====
-- The hashes of one batch that are asked for.
use naive_vite.Base.{
  ℕ, suc, ◌≡◌, ◌≢◌, ap, sym, subst, ◌∙◌, true, false, List, [], ◌∷◌, All, ◌==◌, arith, Option-cases,
  Bool-cases, inl, inr,
}
use naive_vite.Types.{Hash, HashHeight}
use naive_vite.Syncer.Retry.{inc, DefaultRetryPolicy, may_retry, retry}
use naive_vite.Syncer.Retry.Throttle.{
  Counted, counted_step, first_step, granted-Counted, refused-Counted, next_call,
}
use naive_vite.Syncer.Fetch.{allowed}

-- No two entries have the same hash.
abbrev pub IsDistinct : List HashHeight → Type 0
IsDistinct [] = Unit
IsDistinct (h ∷ hs) = All (λ other. other.hash ≢ h.hash) hs × IsDistinct hs

kept :
    (now : ℕ) (hash other : Hash) (p : DefaultRetryPolicy)
    → (other == hash) ≡ false
    → (retry now hash p).1 other ≡ p other
kept now hash other p apart = elim (Option-cases (p hash)) [
  | inl new ↦ ap (λ r. r.1 other) (first_step hash now p new) ∙ ground (arith, apart)
  | inr (s, old) ↦ elim (Bool-cases (may_retry now (inc s))) [
    | inl may ↦ ap (λ r. r.1 other) (counted_step hash now p s old) ∙ ground (arith, may, apart)
    | inr not_yet ↦
        ap (λ r. r.1 other) (counted_step hash now p s old) ∙ ground (arith, not_yet, apart)
  ]
]

other-Counted :
    (now n : ℕ) (hash other : Hash) (p : DefaultRetryPolicy)
    → (other == hash) ≡ false
    → Counted other now n p
    → Counted other now n (retry now hash p).1
other-Counted now n hash other p apart (d, e) = (d, kept now hash other p apart ∙ e)

-- A hash that has been asked for at this time is refused.
same-Counted :
    (now n : ℕ) (hash : Hash) (p : DefaultRetryPolicy)
    → Counted hash now n p
    → ((retry now hash p).0 ≡ false) × Counted hash now (suc n) (retry now hash p).1
same-Counted now n hash p counted =
    let refused : (retry now hash p).0 ≡ false =
      next_call hash now n now p counted ∙ ground arith in
    (
      refused,
      refused-Counted hash now n now p (retry now hash p).1 counted
          (ap (λ b. (b, (retry now hash p).1)) refused),
    )

asks :
    (now : ℕ) (task : HashHeight) (tasks : List HashHeight) (p : DefaultRetryPolicy)
    → (retry now task.hash p).0 ≡ true
    → (allowed now (task ∷ tasks) p).0 ≡ task ∷ (allowed now tasks (retry now task.hash p).1).0
unfolding allowed
asks now task tasks p e = ground (arith, e)

passes :
    (now : ℕ) (task : HashHeight) (tasks : List HashHeight) (p : DefaultRetryPolicy)
    → (retry now task.hash p).0 ≡ false
    → (allowed now (task ∷ tasks) p).0 ≡ (allowed now tasks (retry now task.hash p).1).0
unfolding allowed
passes now task tasks p e = ground (arith, e)

asked_before :
    (now n : ℕ) (hash : Hash) (tasks : List HashHeight) (p : DefaultRetryPolicy)
    → Counted hash now n p
    → All (λ other. other.hash ≢ hash) (allowed now tasks p).0
unfolding allowed
asked_before now n hash [] p counted = tt
asked_before now n hash (task ∷ tasks) p counted =
    let q = (retry now task.hash p).1 in
    elim (Bool-cases (hash == task.hash)) [
      | inl same ↦
          let e : hash ≡ task.hash = ground (arith, same) in
          let (refused, counted') = same-Counted now n hash p counted in
          let stop : (retry now task.hash p).0 ≡ false =
            ap (λ x. (retry now x p).0) (sym e) ∙ refused in
          let rest =
            asked_before now (suc n) hash tasks q
              (subst (λ x. Counted hash now (suc n) (retry now x p).1) e counted') in
          subst (All (λ other. other.hash ≢ hash)) (sym (passes now task tasks p stop)) rest
      | inr apart ↦
          let rest =
            asked_before now n hash tasks q (other-Counted now n task.hash hash p apart counted) in
          elim (Bool-cases (retry now task.hash p).0) [
            | inl asked ↦
                subst (All (λ other. other.hash ≢ hash)) (sym (asks now task tasks p asked))
                  (ground (arith, apart), rest)
            | inr refused ↦
                subst (All (λ other. other.hash ≢ hash)) (sym (passes now task tasks p refused))
                  rest
          ]
    ]

-- In one batch a hash is asked for at most once, however often it stands in the batch and whatever has
-- been asked for before.
pub allowed-IsDistinct :
    (now : ℕ) (tasks : List HashHeight) (p : DefaultRetryPolicy)
    → IsDistinct (allowed now tasks p).0
unfolding allowed
allowed-IsDistinct now [] p = tt
allowed-IsDistinct now (task ∷ tasks) p =
    let q = (retry now task.hash p).1 in
    let rest = allowed-IsDistinct now tasks q in
    elim (Bool-cases (retry now task.hash p).0) [
      | inl asked ↦
          let granted : retry now task.hash p ≡ (true, q) = ap (λ b. (b, q)) asked in
          subst IsDistinct (sym (asks now task tasks p asked))
            (asked_before now 1 task.hash tasks q (granted-Counted task.hash now p q granted), rest)
      | inr refused ↦ subst IsDistinct (sym (passes now task tasks p refused)) rest
    ]

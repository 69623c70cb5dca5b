-- ===== src/Pool/Waiting/Last.antt =====
-- Which of several entries for an account counts.
use naive_vite.Base.{
  ℕ, ◌≡◌, refl, ap, ◌∙◌, false, none, some, ◌==◌, if◌then◌else◌, Table, lookup, insert,
  lookup-insert, Option-cases, Bool-cases, inl, inr, ◌⊎◌, arith,
}
use naive_vite.Base.Int.{ltb_ℤ}
use naive_vite.Types.{AccountHashH}
use naive_vite.Pool.Waiting.{can_add, add_wait_rollback, put_wait_rollback}

add_after-insert :
    (hs : Table AccountHashH) (v : AccountHashH)
    → add_wait_rollback (insert v.addr v hs) v ≡ insert v.addr v hs
unfolding add_wait_rollback
add_after-insert hs v =
    let found : lookup v.addr (insert v.addr v hs) ≡ some v =
      lookup-insert v.addr v.addr v hs ∙ ground arith in
    ground (arith, found)

kept_or_added :
    (hs : Table AccountHashH) (v h : AccountHashH)
    → lookup v.addr hs ≡ some h
    → ltb_ℤ v.height h.height ≡ false
    → (put_wait_rollback hs v ≡ insert v.addr v hs)
      ⊎ ((e : AccountHashH) × (lookup v.addr hs ≡ some e)
          × (e.height ≡ v.height)
          × (put_wait_rollback hs v ≡ hs))
unfolding put_wait_rollback can_add add_wait_rollback
kept_or_added hs v h e high = elim (Bool-cases (ltb_ℤ h.height v.height)) [
  | inl lower ↦ inl (ground (arith, e, high, lower))
  | inr same ↦
      let eq : h.height ≡ v.height = ground (arith, high, same) in
      inr (h, e, eq, ground (arith, e, high, same))
]

pub put_wait_rollback_cases :
    (hs : Table AccountHashH) (v : AccountHashH)
    → (put_wait_rollback hs v ≡ insert v.addr v hs)
      ⊎ ((e : AccountHashH) × (lookup v.addr hs ≡ some e)
          × (e.height ≡ v.height)
          × (put_wait_rollback hs v ≡ hs))
unfolding put_wait_rollback can_add
put_wait_rollback_cases hs v = elim (Option-cases (lookup v.addr hs)) [
  | inl e ↦ inl (ground (arith, e, add_after-insert hs v))
  | inr (h, e) ↦ elim (Bool-cases (ltb_ℤ v.height h.height)) [
    | inl lower ↦ inl (ground (arith, e, lower, add_after-insert hs v))
    | inr high ↦ kept_or_added hs v h e high
  ]
]

-- Whatever waits for the account before, a lower height or a higher one, the height that waits
-- after a task has been taken is that of the task; the other accounts wait as before.
pub put_wait_rollback_last :
    (hs : Table AccountHashH) (v : AccountHashH) (other : ℕ)
    → ((e : AccountHashH) × (lookup v.addr (put_wait_rollback hs v) ≡ some e)
        × (e.height ≡ v.height))
      × ((if v.addr == other then none else lookup other (put_wait_rollback hs v))
          ≡ (if v.addr == other then none else lookup other hs))
put_wait_rollback_last hs v other = elim (put_wait_rollback_cases hs v) [
  | inl e ↦
      let at : lookup v.addr (insert v.addr v hs) ≡ some v =
        lookup-insert v.addr v.addr v hs ∙ ground arith in
      ((v, ap (lookup v.addr) e ∙ at, refl), ground (arith, e, lookup-insert v.addr other v hs))
  | inr (h, found, same, e) ↦ ((h, ap (lookup v.addr) e ∙ found, same), ground (arith, e))
]

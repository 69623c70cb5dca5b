-- ===== src/Pool/Cascade/Ends.antt =====
-- Why the rounds of the rollback end.
use naive_vite.Base.{
  All-from, ℕ, zero, suc, ◌+◌, ◌≤◌, ◌<◌, ◌≡◌, refl, ap, subst, ◌∙◌, true, some, List, [], ◌∷◌, All,
  All-In, In, inl, inr, ok, arith,
}
use naive_vite.Base.Int.{ℤ, ◌<ℤ◌}
use naive_vite.Types.{Address, AccountHashH, AccountStateBlock, is_send, new_account_hash_h}
use naive_vite.Verifier.Reader.{ChainReader}
use naive_vite.Pool.Cascade.{
  on_disk, point_of, put_task, next_tasks, wait_rounds, get_wait_rollback_accounts,
}
use naive_vite.Pool.Cascade.Sends.{sends_of_sound}
use naive_vite.Pool.Cascade.Rounds.{Tasks, receipt, take_tasks_sound, next_tasks-All}
use naive_vite.Pool.Cascade.Reached.{List-cases, taken}

module _ (r : ChainReader) where
  next_tasks-total :
      (ss : List AccountStateBlock) (ts : Tasks)
      → ((s : AccountStateBlock) → In s ss → (x : AccountStateBlock) × (receipt r s ≡ ok (some x)))
      → (ts' : Tasks) × (next_tasks r ss ts ≡ ok ts')
  unfolding next_tasks
  next_tasks-total [] ts found = (ts, refl)
  next_tasks-total (s ∷ ss) ts found =
      let (x, f) = found s (inl refl) in
      let (ts', e) = next_tasks-total ss (put_task ts (point_of x)) (λ t i. found t (inr i)) in
      (ts', ground (arith, f, e))

  last_round :
      (n : ℕ) (tasks wait : Tasks)
      → next_tasks r (taken r tasks wait).1 [] ≡ ok []
      → wait_rounds r (suc n) tasks wait ≡ some (ok (taken r tasks wait).0)
  unfolding wait_rounds
  last_round n tasks wait f = ground (arith, f)

  further_round :
      (n : ℕ) (tasks wait ts : Tasks) (t : Address × AccountHashH)
      → next_tasks r (taken r tasks wait).1 [] ≡ ok (t ∷ ts)
      → wait_rounds r (suc n) tasks wait ≡ wait_rounds r n (t ∷ ts) (taken r tasks wait).0
  unfolding wait_rounds
  further_round n tasks wait ts t f = ground (arith, f)

  -- Every transfer on disk has a receipt, which came later: `time` tells the order in which the blocks
  -- came, and grows along each chain.
  abbrev pub IsAnswered : (Address → ℤ → ℕ) → Type 0
  IsAnswered time =
      (a : Address) (i : ℤ) (s : AccountStateBlock)
      → on_disk r a i ≡ some s
      → is_send s.block_type ≡ true
      → (x : AccountStateBlock) × (receipt r s ≡ ok (some x)) × (time a i < time x.signer x.height)

  abbrev pub IsGrowing : (Address → ℤ → ℕ) → Type 0
  IsGrowing time = (a : Address) (i j : ℤ) → i <ℤ j → time a i ≤ time a j

  abbrev IsSince : (Address → ℤ → ℕ) → ℕ → Address × AccountHashH → Type 0
  IsSince time m e = (let v = e.1 in m ≤ time v.addr v.height)

  -- The receipt of a transfer that is taken back is later than the task.
  later_receipt :
      (time : Address → ℤ → ℕ) (m : ℕ) (tasks wait : Tasks)
      → IsAnswered time
      → IsGrowing time
      → All (IsSince time m) tasks
      → (s : AccountStateBlock) → In s (taken r tasks wait).1
      → (x : AccountStateBlock) × (receipt r s ≡ ok (some x)) × (suc m ≤ time x.signer x.height)
  later_receipt time m tasks wait answered grows since s i =
      let (e, there, sent) = take_tasks_sound r tasks wait s i in
      let v = e.1 in
      let (h, above, at, kind) = sends_of_sound r v s sent in
      let (x, f, later) = answered v.addr h s at kind in
      let early : m ≤ time v.addr v.height = All-In (IsSince time m) tasks e since there in
      (x, f, omega (arith, early, grows v.addr v.height h above, later))

  later_task :
      (time : Address → ℤ → ℕ) (m : ℕ) (tasks wait : Tasks)
      → IsAnswered time
      → IsGrowing time
      → All (IsSince time m) tasks
      → (s x : AccountStateBlock) → In s (taken r tasks wait).1
      → receipt r s ≡ ok (some x)
      → IsSince time (suc m) ((point_of x).addr, point_of x)
  unfolding point_of new_account_hash_h
  later_task time m tasks wait answered grows since s x i f =
      let (y, g, later) = later_receipt time m tasks wait answered grows since s i in
      let same : y ≡ x = ground (arith, f, g) in
      subst (λ z. suc m ≤ time z.signer z.height) same later

  next_round :
      (time : Address → ℤ → ℕ) (m : ℕ) (tasks wait : Tasks)
      → IsAnswered time
      → IsGrowing time
      → All (IsSince time m) tasks
      → (ts : Tasks) × (next_tasks r (taken r tasks wait).1 [] ≡ ok ts)
        × All (IsSince time (suc m)) ts
  next_round time m tasks wait answered grows since =
      let (ts, f) = next_tasks-total (taken r tasks wait).1 [] (λ s i.
        let (x, g, later) = later_receipt time m tasks wait answered grows since s i in (x, g)) in
      (
        ts,
        f,
        next_tasks-All r (IsSince time (suc m)) (taken r tasks wait).1 [] ts
            (later_task time m tasks wait answered grows since) tt f,
      )

  wait_rounds-ends :
      (time : Address → ℤ → ℕ) (last n m : ℕ) (tasks wait : Tasks)
      → IsAnswered time
      → IsGrowing time
      → ((a : Address) (i : ℤ) → time a i ≤ last)
      → All (IsSince time m) tasks
      → last ≤ n + m
      → (result : Tasks) × (wait_rounds r (suc n) tasks wait ≡ some (ok result))
  wait_rounds-ends time last zero m tasks wait answered grows bound since enough =
      let (ts, f, since') = next_round time m tasks wait answered grows since in
      elim (List-cases ts) [
        | inl g ↦ ((taken r tasks wait).0, last_round zero tasks wait (f ∙ ap ok g))
        | inr ((a, v), ts', g) ↦
            let (late, rest) = subst (All (IsSince time (suc m))) g since' in
            absurd (omega (arith, late, bound v.addr v.height, enough))
      ]
  wait_rounds-ends time last (suc n) m tasks wait answered grows bound since enough =
      let (ts, f, since') = next_round time m tasks wait answered grows since in
      elim (List-cases ts) [
        | inl g ↦ ((taken r tasks wait).0, last_round (suc n) tasks wait (f ∙ ap ok g))
        | inr (t, ts', g) ↦
            let (result, e) =
              wait_rounds-ends time last n (suc m) (t ∷ ts') (taken r tasks wait).0 answered grows
                bound (subst (All (IsSince time (suc m))) g since') (omega (arith, enough)) in
            (result, further_round (suc n) tasks wait ts' t (f ∙ ap ok g) ∙ e)
      ]

  -- If every transfer on disk has a receipt that came later, in an order of at most `last` steps that
  -- grows along each chain, then getWaitRollbackAccounts gives a map, within `last` + 1 rounds.
  pub get_wait_rollback_accounts-ends :
      (time : Address → ℤ → ℕ) (last : ℕ) (start : Tasks)
      → IsAnswered time
      → IsGrowing time
      → ((a : Address) (i : ℤ) → time a i ≤ last)
      → (wait : Tasks) × (get_wait_rollback_accounts r (suc last) start ≡ some (ok wait))
  unfolding get_wait_rollback_accounts
  get_wait_rollback_accounts-ends time last start answered grows bound =
      wait_rounds-ends time last last 0 start [] answered grows bound
        (All-from (IsSince time 0) start (λ e i. omega arith)) (omega arith)

-- ===== src/Pool/Cascade/Reached.antt =====
-- Which accounts wait to be rolled back, and why the rounds end.
use naive_vite.Base.{
  ℕ, zero, suc, ◌≡◌, ◌≢◌, refl, sym, ap, subst, ◌∙◌, ◌↔◌, some, List, [], ◌∷◌, All, All-In,
  All-from, All-map, All-lookup, In, inl, inr, ◌⊎◌, Result-cases, lookup, ok, arith,
}
use naive_vite.Types.{Address, AccountHashH, AccountStateBlock, new_account_hash_h}
use naive_vite.Verifier.Reader.{ChainReader}
use naive_vite.Pool.Cascade.{
  on_disk, sends_of, take_tasks, point_of, next_tasks, wait_rounds, get_wait_rollback_accounts,
}
use naive_vite.Pool.Cascade.Sends.{IsOnDisk, sends_of-lower}
use naive_vite.Pool.Cascade.Rounds.{
  Tasks, Covers, Waits, receipt, take_tasks-All, take_tasks-Waits_old, take_tasks-Waits_new,
  take_tasks-sends, take_tasks_sound, next_tasks-All, next_tasks-Covers_new,
}

pub List-cases :
    (l : Tasks) → (l ≡ []) ⊎ ((t : Address × AccountHashH) × (ts : Tasks) × (l ≡ t ∷ ts))
List-cases [] = inl refl
List-cases (t ∷ ts) = inr (t, ts, refl)

nothing_found : (a : Address) (e : AccountHashH) → lookup {V = AccountHashH} a [] ≢ some e
unfolding lookup
nothing_found a e f = absurd (ground (arith, f))

module _ (r : ChainReader) where
  -- From `p` to `q` over `n` transfers: each is taken back with the point before, and its receipt is
  -- the next point.
  abbrev pub Walk : ℕ → AccountHashH → AccountHashH → Type 0
  Walk zero p q = p ≡ q
  Walk (suc n) p q =
      (s : AccountStateBlock) × (x : AccountStateBlock) × In s (sends_of r p)
      × (receipt r s ≡ ok (some x))
      × Walk n (point_of x) q

  Walk-further :
      (n : ℕ) (p q : AccountHashH) (s x : AccountStateBlock)
      → Walk n p q
      → In s (sends_of r q)
      → receipt r s ≡ ok (some x)
      → Walk (suc n) p (point_of x)
  Walk-further zero p q s x e m f = (s, x, subst (λ v. In s (sends_of r v)) (sym e) m, f, refl)
  Walk-further (suc n) p q s x (t, y, l, g, w) m f =
      (t, y, l, g, Walk-further n (point_of y) q s x w m f)

  abbrev pub taken : Tasks → Tasks → Tasks × List AccountStateBlock
  taken tasks wait = take_tasks r tasks wait

  -- A round that gives a result is the last one, or leaves tasks.
  wait_rounds_cases :
      (n : ℕ) (tasks wait result : Tasks)
      → wait_rounds r (suc n) tasks wait ≡ some (ok result)
      → ((next_tasks r (taken tasks wait).1 [] ≡ ok []) × ((taken tasks wait).0 ≡ result))
        ⊎ ((ts : Tasks) × (next_tasks r (taken tasks wait).1 [] ≡ ok ts)
            × (wait_rounds r n ts (taken tasks wait).0 ≡ some (ok result)))
  unfolding wait_rounds
  wait_rounds_cases n tasks wait result e =
      elim (Result-cases (next_tasks r (taken tasks wait).1 [])) [
        | inl (l, f) ↦ elim (List-cases l) [
          | inl g ↦ inl (f ∙ ap ok g, ground (arith, e, f, g))
          | inr (t, ts, g) ↦ inr (t ∷ ts, f ∙ ap ok g, ground (arith, e, f, g))
        ]
        | inr (inl (x, f)) ↦ absurd (ground (arith, e, f))
        | inr (inr f) ↦ absurd (ground (arith, e, f))
      ]

  wait_rounds-Waits :
      (n : ℕ) (tasks wait result : Tasks) (a : Address)
      → wait_rounds r n tasks wait ≡ some (ok result)
      → Waits wait a
      → Waits result a
  unfolding wait_rounds
  wait_rounds-Waits zero tasks wait result a e w = absurd (ground (arith, e))
  wait_rounds-Waits (suc n) tasks wait result a e w =
      let there : Waits (taken tasks wait).0 a = take_tasks-Waits_old r tasks wait a w in
      elim (wait_rounds_cases n tasks wait result e) [
        | inl (f, g) ↦ subst (λ t. Waits t a) g there
        | inr (ts, f, g) ↦ wait_rounds-Waits n ts (taken tasks wait).0 result a g there
      ]

  -- A receipt that is found is the block of its signer's chain at its height.
  abbrev pub AreStored : Type 0
  AreStored =
      (s x : AccountStateBlock) → receipt r s ≡ ok (some x) → on_disk r x.signer x.height ≡ some x

  -- A task stands at its account, and its block is on disk.
  abbrev pub IsTask : Address × AccountHashH → Type 0
  IsTask e = (e.0 ≡ e.1.addr) × IsOnDisk r e.1

  receipt-IsTask :
      AreStored
      → (s x : AccountStateBlock) → receipt r s ≡ ok (some x)
      → IsTask ((point_of x).addr, point_of x)
  unfolding point_of new_account_hash_h
  receipt-IsTask stored s x f = (refl, (x, stored s x f, refl))

  wait_rounds_complete :
      (n : ℕ) (tasks wait result : Tasks)
      → AreStored
      → All IsTask tasks
      → wait_rounds r n tasks wait ≡ some (ok result)
      → (k : ℕ) (p q : AccountHashH) → Covers tasks p
      → Walk k p q
      → Waits result q.addr
  unfolding wait_rounds
  wait_rounds_complete zero tasks wait result stored all e k p q c w = absurd (ground (arith, e))
  wait_rounds_complete (suc n) tasks wait result stored all e zero p q (d, at, low) w =
      let (key, there) = All-lookup IsTask tasks p.addr d all at in
      let waits : Waits (taken tasks wait).0 q.addr =
        subst (Waits (taken tasks wait).0) (sym key ∙ ap (λ v. v.addr) w)
          (take_tasks-Waits_new r tasks wait p.addr d at) in
      elim (wait_rounds_cases n tasks wait result e) [
        | inl (f, g) ↦ subst (λ t. Waits t q.addr) g waits
        | inr (ts, f, g) ↦ wait_rounds-Waits n ts (taken tasks wait).0 result q.addr g waits
      ]
  wait_rounds_complete (suc n) tasks wait result stored all e (suc k) p q (d, at, low)
        (s, x, m, f, w) =
      let (key, there) = All-lookup IsTask tasks p.addr d all at in
      let sent : In s (taken tasks wait).1 =
        take_tasks-sends r tasks wait p.addr d s at
          (sends_of-lower r p d s (sym key) low there m) in
      elim (wait_rounds_cases n tasks wait result e) [
        | inl (g, h) ↦
            let (c, at', low') = next_tasks-Covers_new r (taken tasks wait).1 [] [] s x sent f g in
            absurd (nothing_found (point_of x).addr c at')
        | inr (ts, g, h) ↦
            wait_rounds_complete n ts (taken tasks wait).0 result stored
              (next_tasks-All r IsTask (taken tasks wait).1 [] ts
                (λ t y i j. receipt-IsTask stored t y j) tt g)
              h k (point_of x) q (next_tasks-Covers_new r (taken tasks wait).1 [] ts s x sent f g) w
      ]

  -- An entry that is reached from one of the first tasks.
  abbrev pub IsReached : Tasks → Address × AccountHashH → Type 0
  IsReached start e =
      (k : ℕ) × (t : Address × AccountHashH) × In t start × Walk k t.1 e.1 × (e.0 ≡ e.1.addr)

  receipt-IsReached :
      (start tasks wait : Tasks)
      → All (λ e. (e.0 ≡ e.1.addr) × IsReached start e) tasks
      → (s x : AccountStateBlock) → In s (taken tasks wait).1
      → receipt r s ≡ ok (some x)
      → IsReached start ((point_of x).addr, point_of x)
  receipt-IsReached start tasks wait all s x i f =
      let (e, there, m) = take_tasks_sound r tasks wait s i in
      let (key, (k, t, first, w, same)) =
        All-In (λ e. (e.0 ≡ e.1.addr) × IsReached start e) tasks e all there in
      (suc k, t, first, Walk-further k t.1 e.1 s x w m f, refl)

  wait_rounds_sound :
      (n : ℕ) (start tasks wait result : Tasks)
      → All (λ e. (e.0 ≡ e.1.addr) × IsReached start e) tasks
      → All (IsReached start) wait
      → wait_rounds r n tasks wait ≡ some (ok result)
      → All (IsReached start) result
  unfolding wait_rounds
  wait_rounds_sound zero start tasks wait result all waits e = absurd (ground (arith, e))
  wait_rounds_sound (suc n) start tasks wait result all waits e =
      let now : All (IsReached start) (taken tasks wait).0 =
        take_tasks-All r (IsReached start) tasks wait all waits in
      elim (wait_rounds_cases n tasks wait result e) [
        | inl (f, g) ↦ subst (All (IsReached start)) g now
        | inr (ts, f, g) ↦
            wait_rounds_sound n start ts (taken tasks wait).0 result
              (next_tasks-All r (λ e. (e.0 ≡ e.1.addr) × IsReached start e) (taken tasks wait).1 []
                ts (λ s x i h. (refl, receipt-IsReached start tasks wait all s x i h)) tt f)
              now g
      ]

  -- The tasks are a map's, each for its account's chain, and for a block on it.
  abbrev pub AreTasks : Tasks → Type 0
  AreTasks start = All (λ e. (lookup e.0 start ≡ some e.1) × IsTask e) start

  first_task :
      (start : Tasks) (e : Address × AccountHashH)
      → AreTasks start
      → In e start
      → (e.0 ≡ e.1.addr) × IsReached start e
  first_task start e tasks i =
      let (at, (key, there)) =
        All-In (λ e. (lookup e.0 start ≡ some e.1) × IsTask e) start e tasks i in
      (key, (0, e, i, refl, key))

  -- Where getWaitRollbackAccounts gives a map, an account is in it exactly if some point of the account
  -- is reached from a first task over transfers that are taken back, each from its sender's point to
  -- its receipt. This holds for tasks that are on disk, if a receipt that is found by its source is the
  -- block of its signer's chain at its height.
  pub get_wait_rollback_accounts_iff :
      (start wait : Tasks) (fuel : ℕ) (a : Address)
      → AreStored
      → AreTasks start
      → get_wait_rollback_accounts r fuel start ≡ some (ok wait)
      → Waits wait a ↔ (
          (k : ℕ) × (t : Address × AccountHashH) × (q : AccountHashH) × In t start
          × Walk k t.1 q
          × (q.addr ≡ a))
  unfolding get_wait_rollback_accounts
  get_wait_rollback_accounts_iff start wait fuel a stored tasks e = (
    λ (d, at).
        let (k, t, first, w, key) =
          All-lookup (IsReached start) wait a d
            (wait_rounds_sound fuel start start [] wait
              (All-from (λ e. (e.0 ≡ e.1.addr) × IsReached start e) start
                (λ e i. first_task start e tasks i))
              tt e)
            at in
        (k, t, d, first, w, sym key),
    λ (k, t, q, first, w, same).
        let (at, (key, there)) =
          All-In (λ e. (lookup e.0 start ≡ some e.1) × IsTask e) start t tasks first in
        subst (Waits wait) same (
          wait_rounds_complete fuel start [] wait stored (All-map _ IsTask start (λ e p. p.1) tasks)
            e k t.1 q (t.1, ap (λ b. lookup b start) (sym key) ∙ at, omega arith) w),
  )

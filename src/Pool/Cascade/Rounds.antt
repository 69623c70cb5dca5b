-- ===== src/Pool/Cascade/Rounds.antt =====
-- What a round does to the tasks and to the accounts that wait.
use naive_vite.Base.{
  ◌≡◌, refl, sym, ap, subst, ◌∙◌, ◌==◌, Option, some, List, [], ◌∷◌, All, All-insert, In, In-left,
  In-right, In-append, inl, inr, Option-cases, Bool-cases, Result-cases, Table, lookup, insert,
  lookup-insert, Result, ok, arith,
}
use naive_vite.Base.Int.{ltb_ℤ, ◌≤ℤ◌}
use naive_vite.Types.{Address, AccountHashH, AccountStateBlock}
use naive_vite.Verifier.Reader.{ChainReader}
use naive_vite.Pool.Waiting.{can_add, put_wait_rollback}
use naive_vite.Pool.Waiting.Last.{put_wait_rollback_cases}
use naive_vite.Pool.Cascade.{sends_of, take_tasks, point_of, put_task, next_tasks}

abbrev pub Tasks : Type 0
Tasks = Table AccountHashH

-- An entry for the account of `p` at its height or below.
abbrev pub Covers : Tasks → AccountHashH → Type 0
Covers ts p = (e : AccountHashH) × (lookup p.addr ts ≡ some e) × (e.height ≤ℤ p.height)

abbrev pub Waits : Tasks → Address → Type 0
Waits wait a = (e : AccountHashH) × (lookup a wait ≡ some e)

abbrev Entry : Type 0
Entry = Address × AccountHashH

put_task-All :
    (P : Entry → Type 0) (ts : Tasks) (h : AccountHashH)
    → P (h.addr, h)
    → All P ts
    → All P (put_task ts h)
unfolding put_task
put_task-All P ts h p all = elim (Bool-cases (can_add ts h)) [
  | inl e ↦
      subst (All P) {x = insert h.addr h ts} (ground (arith, e)) (All-insert P h.addr h ts p all)
  | inr e ↦ subst (All P) {x = ts} (ground (arith, e)) all
]

-- The task itself is covered then, and so is what was covered before.
put_task-Covers_new : (ts : Tasks) (h : AccountHashH) → Covers (put_task ts h) h
unfolding put_task can_add
put_task-Covers_new ts h = elim (Option-cases (lookup h.addr ts)) [
  | inl e ↦ (h, ground (arith, e, lookup-insert h.addr h.addr h ts), omega arith)
  | inr (d, e) ↦ elim (Bool-cases (ltb_ℤ h.height d.height)) [
    | inl l ↦ (h, ground (arith, e, l, lookup-insert h.addr h.addr h ts), omega arith)
    | inr l ↦ (d, ground (arith, e, l), ground (arith, l))
  ]
]

put_task-Covers_old : (ts : Tasks) (h p : AccountHashH) → Covers ts p → Covers (put_task ts h) p
unfolding put_task can_add
put_task-Covers_old ts h p (e, f, le) = elim (Bool-cases (h.addr == p.addr)) [
  | inr other ↦ (e, ground (arith, f, other, lookup-insert h.addr p.addr h ts), le)
  | inl same ↦
      let eq : h.addr ≡ p.addr = ground (arith, same) in
      let found : lookup h.addr ts ≡ some e = ap (λ a. lookup a ts) eq ∙ f in
      elim (Bool-cases (ltb_ℤ h.height e.height)) [
        | inl l ↦ (
          h,
          ground (arith, found, l, same, lookup-insert h.addr p.addr h ts),
          ground (arith, l, le),
        )
        | inr l ↦ (e, ground (arith, found, l, f), le)
      ]
]

put_wait_rollback-All :
    (P : Entry → Type 0) (wait : Tasks) (v : AccountHashH)
    → P (v.addr, v)
    → All P wait
    → All P (put_wait_rollback wait v)
put_wait_rollback-All P wait v p all = elim (put_wait_rollback_cases wait v) [
  | inl e ↦ subst (All P) (sym e) (All-insert P v.addr v wait p all)
  | inr (h, f, same, e) ↦ subst (All P) (sym e) all
]

put_wait_rollback-Waits_old :
    (wait : Tasks) (v : AccountHashH) (a : Address)
    → Waits wait a
    → Waits (put_wait_rollback wait v) a
put_wait_rollback-Waits_old wait v a (e, f) = elim (put_wait_rollback_cases wait v) [
  | inr (h, g, same, stay) ↦ (e, ap (lookup a) stay ∙ f)
  | inl put ↦ elim (Bool-cases (v.addr == a)) [
    | inl eq ↦ (v, ap (lookup a) put ∙ lookup-insert v.addr a v wait ∙ ground (arith, eq))
    | inr eq ↦ (e, ap (lookup a) put ∙ lookup-insert v.addr a v wait ∙ ground (arith, eq, f))
  ]
]

put_wait_rollback-Waits_new :
    (wait : Tasks) (v : AccountHashH) → Waits (put_wait_rollback wait v) v.addr
put_wait_rollback-Waits_new wait v = elim (put_wait_rollback_cases wait v) [
  | inl put ↦ (v, ap (lookup v.addr) put ∙ lookup-insert v.addr v.addr v wait ∙ ground arith)
  | inr (h, f, same, stay) ↦ (h, ap (lookup v.addr) stay ∙ f)
]

module _ (r : ChainReader) where
  pub take_tasks-All :
      (P : Entry → Type 0) (ts wait : Tasks)
      → All (λ e. (e.0 ≡ e.1.addr) × P e) ts
      → All P wait
      → All P (take_tasks r ts wait).0
  unfolding take_tasks
  take_tasks-All P [] wait ps qs = qs
  take_tasks-All P ((k, v) ∷ ts) wait ((key, p), ps) qs =
      take_tasks-All P ts (put_wait_rollback wait v) ps
        (put_wait_rollback-All P wait v (subst (λ a. P (a, v)) key p) qs)

  pub take_tasks-Waits_old :
      (ts wait : Tasks) (a : Address) → Waits wait a → Waits (take_tasks r ts wait).0 a
  unfolding take_tasks
  take_tasks-Waits_old [] wait a w = w
  take_tasks-Waits_old ((k, v) ∷ ts) wait a w =
      take_tasks-Waits_old ts (put_wait_rollback wait v) a (put_wait_rollback-Waits_old wait v a w)

  pub take_tasks-Waits_new :
      (ts wait : Tasks) (a : Address) (e : AccountHashH)
      → lookup a ts ≡ some e
      → Waits (take_tasks r ts wait).0 e.addr
  unfolding take_tasks lookup
  take_tasks-Waits_new [] wait a e f = absurd (ground (arith, f))
  take_tasks-Waits_new ((k, v) ∷ ts) wait a e f = elim (Bool-cases (k == a)) [
    | inl h ↦ take_tasks-Waits_old ts (put_wait_rollback wait v) e.addr (
        subst (λ x. Waits (put_wait_rollback wait v) x.addr) {x = v} {y = e} (ground (arith, h, f))
          (put_wait_rollback-Waits_new wait v))
    | inr h ↦ take_tasks-Waits_new ts (put_wait_rollback wait v) a e (ground (arith, h, f))
  ]

  pub take_tasks-sends :
      (ts wait : Tasks) (a : Address) (e : AccountHashH) (s : AccountStateBlock)
      → lookup a ts ≡ some e
      → In s (sends_of r e)
      → In s (take_tasks r ts wait).1
  unfolding take_tasks lookup
  take_tasks-sends [] wait a e s f m = absurd (ground (arith, f))
  take_tasks-sends ((k, v) ∷ ts) wait a e s f m = elim (Bool-cases (k == a)) [
    | inl h ↦
        In-left s (sends_of r v) (take_tasks r ts (put_wait_rollback wait v)).1
          (subst (λ x. In s (sends_of r x)) {x = e} {y = v} (ground (arith, h, f)) m)
    | inr h ↦
        In-right s (sends_of r v) (take_tasks r ts (put_wait_rollback wait v)).1
          (take_tasks-sends ts (put_wait_rollback wait v) a e s (ground (arith, h, f)) m)
  ]

  -- Each transfer is one of some task.
  pub take_tasks_sound :
      (ts wait : Tasks) (s : AccountStateBlock)
      → In s (take_tasks r ts wait).1
      → (e : Entry) × In e ts × In s (sends_of r e.1)
  unfolding take_tasks
  take_tasks_sound [] wait s m = absurd m
  take_tasks_sound ((k, v) ∷ ts) wait s m =
      elim (In-append s (sends_of r v) (take_tasks r ts (put_wait_rollback wait v)).1 m) [
        | inl l ↦ ((k, v), inl refl, l)
        | inr l ↦
            let (e, i, d) = take_tasks_sound ts (put_wait_rollback wait v) s l in (e, inr i, d)
      ]

  abbrev pub receipt : AccountStateBlock → Result (Option AccountStateBlock)
  receipt s = r.get_account_by_source_hash s.to s.hash

  next_tasks_cases :
      (s : AccountStateBlock) (ss : List AccountStateBlock) (ts ts' : Tasks)
      → next_tasks r (s ∷ ss) ts ≡ ok ts'
      → (x : AccountStateBlock) × (receipt s ≡ ok (some x))
        × (next_tasks r ss (put_task ts (point_of x)) ≡ ok ts')
  unfolding next_tasks
  next_tasks_cases s ss ts ts' e = elim (Result-cases (receipt s)) [
    | inl (o, f) ↦ elim (Option-cases o) [
      | inl g ↦ absurd (ground (arith, e, f, g))
      | inr (x, g) ↦ (x, f ∙ ap ok g, ground (arith, e, f, g))
    ]
    | inr (inl (x, f)) ↦ absurd (ground (arith, e, f))
    | inr (inr f) ↦ absurd (ground (arith, e, f))
  ]

  pub next_tasks-All :
      (P : Entry → Type 0) (ss : List AccountStateBlock) (ts ts' : Tasks)
      → ((s x : AccountStateBlock)
          → In s ss
          → receipt s ≡ ok (some x)
          → P ((point_of x).addr, point_of x))
      → All P ts
      → next_tasks r ss ts ≡ ok ts'
      → All P ts'
  unfolding next_tasks
  next_tasks-All P [] ts ts' new all e = subst (All P) {x = ts} (ground (arith, e)) all
  next_tasks-All P (s ∷ ss) ts ts' new all e =
      let (x, f, rest) = next_tasks_cases s ss ts ts' e in
      next_tasks-All P ss (put_task ts (point_of x)) ts' (λ t y i g. new t y (inr i) g)
        (put_task-All P ts (point_of x) (new s x (inl refl) f) all) rest

  pub next_tasks-Covers_old :
      (ss : List AccountStateBlock) (ts ts' : Tasks) (p : AccountHashH)
      → Covers ts p
      → next_tasks r ss ts ≡ ok ts'
      → Covers ts' p
  unfolding next_tasks
  next_tasks-Covers_old [] ts ts' p c e = subst (λ t. Covers t p) {x = ts} (ground (arith, e)) c
  next_tasks-Covers_old (s ∷ ss) ts ts' p c e =
      let (x, f, rest) = next_tasks_cases s ss ts ts' e in
      next_tasks-Covers_old ss (put_task ts (point_of x)) ts' p
        (put_task-Covers_old ts (point_of x) p c) rest

  -- The receipt of each transfer is covered.
  pub next_tasks-Covers_new :
      (ss : List AccountStateBlock) (ts ts' : Tasks) (s x : AccountStateBlock)
      → In s ss
      → receipt s ≡ ok (some x)
      → next_tasks r ss ts ≡ ok ts'
      → Covers ts' (point_of x)
  next_tasks-Covers_new [] ts ts' s x m f e = absurd m
  next_tasks-Covers_new (t ∷ ss) ts ts' s x m f e =
      let (y, g, rest) = next_tasks_cases t ss ts ts' e in
      elim m [
        | inr later ↦ next_tasks-Covers_new ss (put_task ts (point_of y)) ts' s x later f rest
        | inl same ↦
            let eq : y ≡ x = ground (arith, g, f, ap receipt same) in
            next_tasks-Covers_old ss (put_task ts (point_of y)) ts' (point_of x)
              (subst (λ z. Covers (put_task ts (point_of y)) (point_of z)) eq
                (put_task-Covers_new ts (point_of y)))
              rest
      ]

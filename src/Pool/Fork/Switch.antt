-- ===== src/Pool/Fork/Switch.antt =====
-- What a fork of the snapshot chain leaves.
use naive_vite.Base.{
  ℕ, zero, suc, ◌≡◌, ◌≢◌, refl, sym, ap, subst, ◌∙◌, ◌⊎◌, inl, inr, Option, none, some, Result, ok,
  err, panic, Error, Option-cases, Result-cases, arith,
}
use naive_vite.Base.Int.{ℤ, pos, pos_part, ◌-ℤ◌}
use naive_vite.Types.{SnapshotBlock}
use naive_vite.Version.{val, inc}
use naive_vite.Chain.Block.{BlockChain}
use naive_vite.Pool.Chain.{ForkedChain, disk, add_tail}
use naive_vite.Pool.Disk.{ChainRw, ChainPool, disk_block, rollback, rollback_rounds}
use naive_vite.Pool.Disk.Reader.{snapshot_rw}
use naive_vite.Pool.Modify.{current_modify_to_chain}
use naive_vite.Pool.Modify.Success.{IsCurrently, current_modify_to_chain_ok}
use naive_vite.Pool.Fork.{SnapshotPool, snapshot_chains, put_snapshot_chains, snapshot_switch}

module _ {S : Type 0} (rw : ChainRw S) (version : ℤ) where
  abbrev current_id : ChainPool S → ℕ
  current_id p = (let c = p.current in c.chain_id)

  -- A rollback leaves the same chain the current one.
  rollback_rounds-id :
      (n : ℕ) (i : ℤ) (p : ChainPool S)
      → current_id (rollback_rounds rw n version i p).0 ≡ current_id p
  unfolding rollback_rounds add_tail
  rollback_rounds-id zero i p = refl
  rollback_rounds-id (suc n) i p = elim (Result-cases (disk_block rw version p.disk i)) [
    | inr (inl (x, e)) ↦ ground (arith, e)
    | inr (inr e) ↦ ground (arith, e)
    | inl (o, e) ↦ elim (Option-cases o) [
      | inl g ↦ ground (arith, e, g)
      | inr (w, g) ↦
          let (s, done) = rw.remove_chain p.disk w.block in
          ground (
            arith,
            e,
            g,
            rollback_rounds-id n (i -ℤ pos 1)
                (record p { disk = s; current = add_tail p.current w }),
          )
    ]
  ]

  rollback-id : (to : ℤ) (p : ChainPool S) → current_id (rollback rw to version p).0 ≡ current_id p
  unfolding rollback
  rollback-id to p =
      let c = p.current in
      let n = pos_part (c.tail_height -ℤ to) in ground (arith, rollback_rounds-id n c.tail_height p)

-- A fork is done: the fork version has gone up, and `longest` is the current chain, on disk's head.
abbrev IsSwitched : SnapshotPool → ForkedChain → SnapshotPool → Type 0
IsSwitched st longest st' =
    let p = st'.pending_sc in
    let new = p.current in
    (st'.version ≡ inc st.version) × (new.chain_id ≡ longest.chain_id) × (new.refer_chain ≡ disk)

-- It is given up: the fork version is that of before, and so is the id of the current chain, which may
-- have been rolled back.
abbrev IsKept : SnapshotPool → SnapshotPool → Type 0
IsKept st st' =
    let p = st.pending_sc in
    let p' = st'.pending_sc in
    let old = p.current in
    let new = p'.current in (st'.version ≡ st.version) × (new.chain_id ≡ old.chain_id)

-- The two ways in which a fork to `longest` may come out; if it is done, `P` has been done before.
abbrev pub IsForked :
    Type 0 → SnapshotPool → ForkedChain → SnapshotPool → Result (Unit {0}) → Type 0
IsForked P st longest st' r =
    ((r ≡ ok tt) × P × IsSwitched st longest st') ⊎ ((r ≢ ok tt) × IsKept st st')

pub map-IsForked :
    {P Q : Type 0} (st st' : SnapshotPool) (longest : ForkedChain) (r : Result (Unit {0}))
    → (P → Q)
    → IsForked P st longest st' r
    → IsForked Q st longest st' r
map-IsForked st st' longest r f (inl (e, p, s)) = inl (e, f p, s)
map-IsForked st st' longest r f (inr k) = inr k

pub failed_ok : (o : Result (Unit {0})) → ((x : Error) × (o ≡ err x)) ⊎ (o ≡ panic) → o ≢ ok tt
failed_ok o (inl (x, e)) f = absurd (ground (arith, e, f))
failed_ok o (inr e) f = absurd (ground (arith, e, f))

module _ (genesis : SnapshotBlock) where
  abbrev rolled : SnapshotPool → SnapshotBlock → ChainPool BlockChain × Result (Unit {0})
  rolled st fork_point =
      rollback snapshot_rw fork_point.height (val st.version) (snapshot_chains genesis st)

  switch_stopped :
      (st st' : SnapshotPool) (fork_point : SnapshotBlock) (longest : ForkedChain)
      (r : Result (Unit {0}))
      → (rolled st fork_point).1 ≢ ok tt
      → snapshot_switch genesis st fork_point longest ≡ some (st', r)
      → (st' ≡ put_snapshot_chains genesis st (rolled st fork_point).0) × (r ≢ ok tt)
  unfolding snapshot_switch
  switch_stopped st st' fork_point longest r bad e = elim (Result-cases (rolled st fork_point).1) [
    | inl (u, f) ↦ absurd (bad f)
    | inr (inl (x, f)) ↦ (ground (arith, e, f), λ g. absurd (ground (arith, e, f, g)))
    | inr (inr f) ↦ (ground (arith, e, f), λ g. absurd (ground (arith, e, f, g)))
  ]

  rolled-IsKept :
      (st : SnapshotPool) (fork_point : SnapshotBlock)
      → IsKept st (put_snapshot_chains genesis st (rolled st fork_point).0)
  unfolding put_snapshot_chains snapshot_chains
  rolled-IsKept st fork_point = (
    refl,
    rollback-id snapshot_rw (val st.version) fork_point.height (snapshot_chains genesis st),
  )

  switch_refused :
      (st st' : SnapshotPool) (fork_point : SnapshotBlock) (longest : ForkedChain)
      (r o : Result (Unit {0}))
      → (rolled st fork_point).1 ≡ ok tt
      → ((x : Error) × (o ≡ err x)) ⊎ (o ≡ panic)
      → r ≡ o
      → st' ≡ put_snapshot_chains genesis st (rolled st fork_point).0
      → (r ≢ ok tt) × IsKept st st'
  switch_refused st st' fork_point longest r o f (inl (x, e)) g h = (
    λ k. absurd (ground (arith, e, g, k)),
    subst (IsKept st) (sym h) (rolled-IsKept st fork_point),
  )
  switch_refused st st' fork_point longest r o f (inr e) g h = (
    λ k. absurd (ground (arith, e, g, k)),
    subst (IsKept st) (sym h) (rolled-IsKept st fork_point),
  )

  abbrev modified :
      SnapshotPool → SnapshotBlock → ForkedChain → Option (Result (ChainPool BlockChain))
  modified st fork_point longest =
      current_modify_to_chain snapshot_rw (val st.version) (rolled st fork_point).0 longest

  switch_done :
      (st st' : SnapshotPool) (fork_point : SnapshotBlock) (longest : ForkedChain)
      (r : Result (Unit {0})) (q : ChainPool BlockChain)
      → (rolled st fork_point).1 ≡ ok tt
      → modified st fork_point longest ≡ some (ok q)
      → snapshot_switch genesis st fork_point longest ≡ some (st', r)
      → (r ≡ ok tt) × (st'.version ≡ inc st.version) × (st'.pending_sc ≡ q)
  unfolding snapshot_switch put_snapshot_chains
  switch_done st st' fork_point longest r q f g e =
      (ground (arith, e, f, g), ground (arith, e, f, g), ground (arith, e, f, g))

  switch_failed :
      (st st' : SnapshotPool) (fork_point : SnapshotBlock) (longest : ForkedChain)
      (r : Result (Unit {0})) (x : Error)
      → (rolled st fork_point).1 ≡ ok tt
      → modified st fork_point longest ≡ some (err x)
      → snapshot_switch genesis st fork_point longest ≡ some (st', r)
      → (r ≡ err x) × (st' ≡ put_snapshot_chains genesis st (rolled st fork_point).0)
  unfolding snapshot_switch
  switch_failed st st' fork_point longest r x f g e =
      (ground (arith, e, f, g), ground (arith, e, f, g))

  switch_panics :
      (st st' : SnapshotPool) (fork_point : SnapshotBlock) (longest : ForkedChain)
      (r : Result (Unit {0}))
      → (rolled st fork_point).1 ≡ ok tt
      → modified st fork_point longest ≡ some panic
      → snapshot_switch genesis st fork_point longest ≡ some (st', r)
      → (r ≡ panic) × (st' ≡ put_snapshot_chains genesis st (rolled st fork_point).0)
  unfolding snapshot_switch
  switch_panics st st' fork_point longest r f g e =
      (ground (arith, e, f, g), ground (arith, e, f, g))

  switch_endless :
      (st st' : SnapshotPool) (fork_point : SnapshotBlock) (longest : ForkedChain)
      (r : Result (Unit {0}))
      → (rolled st fork_point).1 ≡ ok tt
      → modified st fork_point longest ≡ none
      → snapshot_switch genesis st fork_point longest ≢ some (st', r)
  unfolding snapshot_switch
  switch_endless st st' fork_point longest r f g e = absurd (ground (arith, e, f, g))

  -- The chains have been rolled back to the fork point, and from there changed to `longest`.
  abbrev pub FromForkPoint : SnapshotPool → SnapshotBlock → ForkedChain → SnapshotPool → Type 0
  FromForkPoint st fork_point longest st' =
      ((rolled st fork_point).1 ≡ ok tt)
      × (modified st fork_point longest ≡ some (ok st'.pending_sc))

  pub snapshot_switch-IsForked :
      (st st' : SnapshotPool) (fork_point : SnapshotBlock) (longest : ForkedChain)
      (r : Result (Unit {0}))
      → snapshot_switch genesis st fork_point longest ≡ some (st', r)
      → IsForked (FromForkPoint st fork_point longest st') st longest st' r
  snapshot_switch-IsForked st st' fork_point longest r e =
      elim (Result-cases (rolled st fork_point).1) [
        | inr bad ↦
            let (same, wrong) =
              switch_stopped st st' fork_point longest r (failed_ok (rolled st fork_point).1 bad)
                e in
            inr (wrong, subst (IsKept st) (sym same) (rolled-IsKept st fork_point))
        | inl (u, f) ↦ elim (Option-cases (modified st fork_point longest)) [
          | inl g ↦ absurd (switch_endless st st' fork_point longest r f g e)
          | inr (o, g) ↦ elim (Result-cases o) [
            | inr (inl (x, h)) ↦
                let (k, same) = switch_failed st st' fork_point longest r x f (g ∙ ap some h) e in
                inr (switch_refused st st' fork_point longest r (err x) f (inl (x, refl)) k same)
            | inr (inr h) ↦
                let (k, same) = switch_panics st st' fork_point longest r f (g ∙ ap some h) e in
                inr (switch_refused st st' fork_point longest r panic f (inr refl) k same)
            | inl (q, h) ↦
                let (k, v, same) = switch_done st st' fork_point longest r q f (g ∙ ap some h) e in
                let now =
                  current_modify_to_chain_ok snapshot_rw (val st.version) (rolled st fork_point).0 q
                    longest (g ∙ ap some h) in
                let (i, d) =
                  subst (IsCurrently snapshot_rw (val st.version) longest) (sym same) now in
                inl (k, (f, g ∙ ap some (h ∙ ap ok (sym same))), (v, i, d))
          ]
        ]
      ]

-- ===== src/Syncer/State/Step.antt =====
-- What each event makes of the first sync.
use naive_vite.Base.{
  ◌≡◌, refl, ap, sym, subst, ◌∙◌, true, false, Option, none, some, List, [], ◌∷◌, All, Result, ok,
  arith, Bool-cases, inl, inr, ◌⊎◌,
}
use naive_vite.Base.Int.{ℤ, negsuc, ◌≤ℤ◌, ◌<ℤ◌, leb_ℤ, ltb_ℤ}
use naive_vite.Types.{SnapshotBlock}
use naive_vite.Syncer.{Peer}
use naive_vite.Syncer.State.{
  HandState, Peers, best_from, best_peer, looking, syncing, returned, SyncTask, first_sync_done,
  Event, stopped, task_closed, timeout, tick, begin_sync, sync_step, sync_run,
}

-- Not the timeout; and a tick reads a head, and a state of each connected peer.
abbrev pub IsQuiet : Event → Type 0
IsQuiet stopped = Unit
IsQuiet task_closed = Unit
IsQuiet timeout = ⊥
IsQuiet (tick head s) =
    ((b : SnapshotBlock) × (head ≡ some b))
    × All (λ p. (state : HandState) × (s.states p ≡ some state)) s.connected

-- A tick at which the head on disk has reached the height `h`.
abbrev pub Reaches : ℤ → Event → Type 0
Reaches h (tick (some b) s) = h ≤ℤ b.height
Reaches h e = ⊥

best_from_cases :
    (s : Peers) (ps : List Peer) (h : ℤ)
    → All (λ p. (state : HandState) × (s.states p ≡ some state)) ps
    → (best_from s ps h ≡ ok none)
      ⊎ ((p : Peer) × (state : HandState) × (best_from s ps h ≡ ok (some (p, state))))
unfolding best_from
best_from_cases s [] h known = inl refl
best_from_cases s (p ∷ ps) h ((state, e), known) = elim (Bool-cases (ltb_ℤ h state.height)) [
  | inl better ↦ inr (p, state, ground (arith, e, better))
  | inr low ↦ elim (best_from_cases s ps h known) [
    | inl rest ↦ inl (ground (arith, e, low, rest))
    | inr (q, best, rest) ↦ inr (q, best, ground (arith, e, low, rest))
  ]
]

best_is :
    (s : Peers) (r : Result (Option (Peer × HandState)))
    → best_from s s.connected (negsuc 0) ≡ r
    → best_peer s ≡ r
unfolding best_peer
best_is s r e = e

-- Until the sync returns, the task's channel is unclosed.
abbrev pub IsUnclosed : SyncTask → Type 0
IsUnclosed t = (t.is_closed ≡ false) × (t.is_done ≡ false)

abbrev pub Fine : SyncTask → Type 0
Fine t =
    ((t.phase ≡ looking) × IsUnclosed t)
    ⊎ ((t.phase ≡ syncing) × IsUnclosed t)
    ⊎ (t.phase ≡ returned)

-- What an event makes of an unclosed task.
abbrev pub Next : Event → SyncTask → Type 0
Next e t = Fine t × (t.is_done ≡ true → (t.phase ≡ returned) × Reaches t.height e)

finished :
    (b : SnapshotBlock) (s : Peers) (t : SyncTask)
    → t.is_closed ≡ false
    → t.height ≤ℤ b.height
    → Next (tick (some b) s) (first_sync_done returned t)
unfolding first_sync_done
finished b s t is_open low =
    let done : first_sync_done returned t
        ≡ record t { phase = returned; is_closed = true; is_done = true } =
      ground (arith, is_open) in
    subst (Next (tick (some b) s)) (sym done) (inr (inr refl), λ _. (refl, low))

still_open : (e : Event) (t : SyncTask) → Fine t → t.is_done ≡ false → Next e t
still_open e t fine is_open = (fine, λ done. absurd (ground (arith, done, is_open)))

module _ (b : SnapshotBlock) (s : Peers) (t : SyncTask) where
  begin-Next :
      (p : Peer) (state : HandState)
      → IsUnclosed t
      → Next (tick (some b) s) (begin_sync (some b) (p, state) t)
  unfolding begin_sync
  begin-Next p state (is_open, undone) =
      let t' = record t { height = state.height; hash = state.hash; peer = p } in
      elim (Bool-cases (leb_ℤ state.height b.height)) [
        | inl low ↦
            subst (Next (tick (some b) s)) {x = first_sync_done returned t'}
              {y = begin_sync (some b) (p, state) t} (ground (arith, low))
              (finished b s t' is_open (ground (arith, low)))
        | inr high ↦
            subst (Next (tick (some b) s)) {x = record t' { phase = syncing }}
              {y = begin_sync (some b) (p, state) t} (ground (arith, high))
              (still_open (tick (some b) s) (record t' { phase = syncing })
                (inr (inl (refl, (is_open, undone)))) undone)
      ]

  looking_alone : t.phase ≡ looking → best_peer s ≡ ok none → sync_step (tick (some b) s) t ≡ t
  unfolding sync_step
  looking_alone at e = ground (arith, at, e)

  looking_best :
      (p : Peer) (state : HandState)
      → t.phase ≡ looking
      → best_peer s ≡ ok (some (p, state))
      → sync_step (tick (some b) s) t ≡ begin_sync (some b) (p, state) t
  unfolding sync_step
  looking_best p state at e = ground (arith, at, e)

  syncing_done :
      t.phase ≡ syncing
      → t.height <ℤ b.height
      → sync_step (tick (some b) s) t ≡ first_sync_done returned t
  unfolding sync_step
  syncing_done at high = ground (arith, at, high)

  syncing_waits :
      t.phase ≡ syncing → ltb_ℤ t.height b.height ≡ false → sync_step (tick (some b) s) t ≡ t
  unfolding sync_step
  syncing_waits at low = ground (arith, at, low)

  looking_tick :
      t.phase ≡ looking
      → IsUnclosed t
      → All (λ p. (state : HandState) × (s.states p ≡ some state)) s.connected
      → Next (tick (some b) s) (sync_step (tick (some b) s) t)
  looking_tick at unclosed known = elim (best_from_cases s s.connected (negsuc 0) known) [
    | inl e ↦
        subst (Next (tick (some b) s)) (sym (looking_alone at (best_is s (ok none) e)))
          (still_open (tick (some b) s) t (inl (at, unclosed)) unclosed.1)
    | inr (p, state, e) ↦
        subst (Next (tick (some b) s))
          (sym (looking_best p state at (best_is s (ok (some (p, state))) e)))
          (begin-Next p state unclosed)
  ]

  syncing_tick :
      t.phase ≡ syncing → IsUnclosed t → Next (tick (some b) s) (sync_step (tick (some b) s) t)
  syncing_tick at unclosed = elim (Bool-cases (ltb_ℤ t.height b.height)) [
    | inl high ↦
        subst (Next (tick (some b) s)) (sym (syncing_done at (ground (arith, high))))
          (finished b s t unclosed.0 (ground (arith, high)))
    | inr low ↦
        subst (Next (tick (some b) s)) (sym (syncing_waits at low))
          (still_open (tick (some b) s) t (inr (inl (at, unclosed))) unclosed.1)
  ]

abbrev pub IsActive : SyncTask → Type 0
IsActive t = (t.phase ≡ looking) ⊎ (t.phase ≡ syncing)

stop_step : (t : SyncTask) → IsActive t → sync_step stopped t ≡ record t { phase = returned }
unfolding sync_step
stop_step t (inl at) = ground (arith, at)
stop_step t (inr at) = ground (arith, at)

closed_step : (t : SyncTask) → IsActive t → t.is_closed ≡ false → sync_step task_closed t ≡ t
unfolding sync_step
closed_step t (inl at) is_open = ground (arith, at, is_open)
closed_step t (inr at) is_open = ground (arith, at, is_open)

returned_step : (e : Event) (t : SyncTask) → t.phase ≡ returned → sync_step e t ≡ t
unfolding sync_step
returned_step e t at = ground (arith, at)

pub returned_run : (es : List Event) (t : SyncTask) → t.phase ≡ returned → sync_run es t ≡ t
unfolding sync_run
returned_run [] t at = refl
returned_run (e ∷ es) t at = ap (sync_run es) (returned_step e t at) ∙ returned_run es t at

pub active_step :
    (e : Event) (t : SyncTask) → IsQuiet e → IsActive t → IsUnclosed t → Next e (sync_step e t)
active_step stopped t quiet active unclosed =
    subst (Next stopped) (sym (stop_step t active))
      (still_open stopped (record t { phase = returned }) (inr (inr refl)) unclosed.1)
active_step task_closed t quiet active unclosed =
    subst (Next task_closed) (sym (closed_step t active unclosed.0))
      (still_open task_closed t (fine active) unclosed.1)
  where
    fine : IsActive t → Fine t
    fine (inl at) = inl (at, unclosed)
    fine (inr at) = inr (inl (at, unclosed))
active_step timeout t quiet active unclosed = absurd quiet
active_step (tick head s) t ((b, e), known) (inl at) unclosed =
    subst (λ h. Next (tick h s) (sync_step (tick h s) t)) (sym e)
      (looking_tick b s t at unclosed known)
active_step (tick head s) t ((b, e), known) (inr at) unclosed =
    subst (λ h. Next (tick h s) (sync_step (tick h s) t)) (sym e) (syncing_tick b s t at unclosed)

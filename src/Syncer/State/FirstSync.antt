-- ===== src/Syncer/State/FirstSync.antt =====
-- How the first sync ends.
use naive_vite.Base.{
  ◌≡◌, ◌≢◌, refl, sym, subst, ◌∙◌, true, false, some, List, [], ◌∷◌, All, Any, ok, arith,
  Bool-cases, inl, inr,
}
use naive_vite.Base.Int.{◌≤ℤ◌}
use naive_vite.Types.{SnapshotBlock}
use naive_vite.Syncer.{Peer}
use naive_vite.Syncer.State.{
  HandState, Peers, best_peer, returned, crashed, SyncTask, new_task, first_sync_done, Event,
  timeout, tick, begin_sync, sync_step, sync_run,
}
use naive_vite.Syncer.State.Step.{IsQuiet, Reaches, Fine, Next, active_step, returned_run}

-- The sync has not panicked, and where it is done, some tick has found the head at the height that it
-- was to reach.
abbrev pub IsSound : List Event → SyncTask → Type 0
IsSound es t = (t.phase ≢ crashed) × (t.is_done ≡ true → Any (Reaches t.height) es)

undone_run : (es : List Event) (t : SyncTask) → t.phase ≢ crashed → t.is_done ≡ false → IsSound es t
undone_run es t sound undone = (sound, λ done. absurd (ground (arith, done, undone)))

returned_not_crashed : (t : SyncTask) → t.phase ≡ returned → t.phase ≢ crashed
returned_not_crashed t at e = ground (arith, at, e)

not_crashed : (t : SyncTask) → Fine t → t.phase ≢ crashed
not_crashed t (inl (at, _)) e = ground (arith, at, e)
not_crashed t (inr (inl (at, _))) e = ground (arith, at, e)
not_crashed t (inr (inr at)) e = ground (arith, at, e)

run_end : (t : SyncTask) → sync_run [] t ≡ t
unfolding sync_run
run_end t = refl

run_step :
    (e : Event) (es : List Event) (t : SyncTask) → sync_run (e ∷ es) t ≡ sync_run es (sync_step e t)
unfolding sync_run
run_step e es t = refl

-- A step of the run, with what the rest of the run comes to.
advance :
    (e : Event) (es : List Event) (t : SyncTask)
    → Next e (sync_step e t)
    → (Fine (sync_step e t)
        → (sync_step e t).is_done ≡ false
        → IsSound es (sync_run es (sync_step e t)))
    → IsSound (e ∷ es) (sync_run (e ∷ es) t)
advance e es t (fine, when_done) rest =
    let t' = sync_step e t in
    elim (Bool-cases t'.is_done) [
      | inl done ↦
          let (at, reaches) = when_done done in
          subst (IsSound (e ∷ es)) (sym (run_step e es t ∙ returned_run es t' at))
            (returned_not_crashed t' at, λ _. inl reaches)
      | inr undone ↦
          let (sound, later) = rest fine undone in
          subst (IsSound (e ∷ es)) (sym (run_step e es t)) (sound, λ done. inr (later done))
    ]

run-IsSound :
    (es : List Event) (t : SyncTask)
    → All IsQuiet es
    → Fine t
    → t.is_done ≡ false
    → IsSound es (sync_run es t)
run-IsSound [] t quiet fine undone =
    subst (IsSound []) (sym (run_end t)) (undone_run [] t (not_crashed t fine) undone)
run-IsSound (e ∷ es) t (q, quiet) (inl (at, unclosed)) undone =
    advance e es t (active_step e t q (inl at) unclosed)
      (λ fine'. λ undone'. run-IsSound es (sync_step e t) quiet fine' undone')
run-IsSound (e ∷ es) t (q, quiet) (inr (inl (at, unclosed))) undone =
    advance e es t (active_step e t q (inr at) unclosed)
      (λ fine'. λ undone'. run-IsSound es (sync_step e t) quiet fine' undone')
run-IsSound (e ∷ es) t quiet (inr (inr at)) undone =
    subst (IsSound (e ∷ es)) (sym (returned_run (e ∷ es) t at))
      (undone_run (e ∷ es) t (returned_not_crashed t at) undone)

-- While the timeout does not fire, and each tick reads a head and the connected peers' states, the first
-- sync never panics, and it is marked as done only after a tick that found the head on disk at or above
-- the height that the sync was to reach.
pub sync_run-IsSound : (es : List Event) → All IsQuiet es → IsSound es (sync_run es new_task)
unfolding new_task
sync_run-IsSound es quiet = run-IsSound es new_task quiet (inl (refl, (refl, refl))) refl

-- After the timeout has fired, a tick at which the best peer is not above the head on disk, taken before
-- the closed channel is seen, closes the task's channel again: a panic.
pub timeout_crashes :
    (b : SnapshotBlock) (s : Peers) (p : Peer) (state : HandState)
    → best_peer s ≡ ok (some (p, state))
    → state.height ≤ℤ b.height
    → (sync_run (timeout ∷ tick (some b) s ∷ []) new_task).phase ≡ crashed
unfolding sync_run sync_step new_task first_sync_done begin_sync
timeout_crashes b s p state e low = ground (arith, e, low)

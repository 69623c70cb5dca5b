-- ===== src/Verifier/Task.antt =====
-- verifier/verifier.go: results, and the tasks that say what a pending block waits for. The clock
-- and the fork version are arguments. A pending task remembers that it was done.
use naive_vite.Base.{
  ◌≡◌, ◌⊎◌, inl, inr, refl, ℕ, Bool, true, false, Option, none, some, List, [], ◌∷◌, ◌++◌, ◌||◌,
  ◌*◌, not, if◌then◌else◌,
}
use naive_vite.Base.Int.{ℤ, pos, ◌+ℤ◌, leb_ℤ, ltb_ℤ, ◌==ℤ◌}
use naive_vite.Types.{Address, Hash, FetchRequest, AccountStateBlock, SnapshotBlock, empty_str}
use naive_vite.Verifier.Reader.{ChainReader}

pub data VerifyResult : Type 0 where
  pending fail success : VerifyResult

pub VerifyResult-cases : (v : VerifyResult) → (v ≡ pending) ⊎ ((v ≡ fail) ⊎ (v ≡ success))
VerifyResult-cases pending = inl refl
VerifyResult-cases fail = inr (inl refl)
VerifyResult-cases success = inr (inr refl)

abbrev pub is_fail : VerifyResult → Bool
is_fail fail = true
is_fail _ = false

abbrev pub is_success : VerifyResult → Bool
is_success success = true
is_success _ = false

unfoldable pub is_done : VerifyResult → Bool
is_done fail = true
is_done success = true
is_done pending = false

-- A second, in nanoseconds.
abbrev pub second : ℕ
second = 1_000_000_000

-- `accountPendingTask` and `snapshotPendingTask`.
pub data PendingTask : Type 0 where
  account_pending snapshot_pending : Bool → FetchRequest → PendingTask

unfoldable pub request : PendingTask → FetchRequest
request (account_pending result r) = r
request (snapshot_pending result r) = r

abbrev pub account_reached : Option AccountStateBlock → ℤ → Bool
account_reached none height = false
account_reached (some b) height = leb_ℤ height b.height

abbrev pub snapshot_reached : Option SnapshotBlock → ℤ → Bool
snapshot_reached none height = false
snapshot_reached (some b) height = leb_ℤ height b.height

-- Whether the task is done, and the task as it is afterwards.
unfoldable pub pending_done : ChainReader → PendingTask → Bool × PendingTask
pending_done r (account_pending result q) =
    let reached = result || account_reached (r.head_account q.chain) q.height in
    (reached, account_pending reached q)
pending_done r (snapshot_pending result q) =
    let reached = result || snapshot_reached r.head_snapshot q.height in
    (reached, snapshot_pending reached q)

pub record VerifyTask : Type 0 where
  pub tasks : List PendingTask
  pub version : ℤ
  pub failed : Bool
  pub t : ℤ

-- A `Task`: `successTask`, `failTask` and `verifyTask`.
pub data Task : Type 0 where
  success_task : Task
  fail_task : ℤ → Task
  verify_task : VerifyTask → Task

unfoldable pub pending_snapshot : VerifyTask → Hash → ℤ → VerifyTask
pending_snapshot v hash height = record v {
  tasks =
      v.tasks
      ++ (snapshot_pending false
            (record { chain = empty_str; height = height; hash = hash; prev_cnt = pos 1 })
          ∷ []);
}

unfoldable pub pending_account : VerifyTask → Address → ℤ → Hash → ℤ → VerifyTask
pending_account v addr height hash prev_cnt = record v {
  tasks =
      v.tasks
      ++ (account_pending false
            (record { chain = addr; height = height; hash = hash; prev_cnt = prev_cnt })
          ∷ []);
}

unfoldable pub requests_of : List PendingTask → List FetchRequest
unfolding request
requests_of [] = []
requests_of (p ∷ ps) = request p ∷ requests_of ps

unfoldable pub requests : Task → List FetchRequest
unfolding requests_of
requests success_task = []
requests (fail_task t) = []
requests (verify_task v) = requests_of v.tasks

-- The loop over the pending tasks stops at the first that is not done.
unfoldable pub all_done : ChainReader → List PendingTask → Bool × List PendingTask
unfolding pending_done
all_done r [] = (true, [])
all_done r (p ∷ ps) =
    let (d, p') = pending_done r p in
    let (ds, ps') = all_done r ps in if d then (ds, p' ∷ ps') else (false, p' ∷ ps)

unfoldable pub verify_done : ChainReader → ℤ → ℤ → VerifyTask → Bool × VerifyTask
unfolding all_done
verify_done r now version v =
    if not (version ==ℤ v.version)
    then (true, v)
    else (if ltb_ℤ (v.t +ℤ pos (5 * second)) now
        then (true, v)
        else (if v.failed
            then (false, v)
            else (let (d, ps) = all_done r v.tasks in (d, record v { tasks = ps }))))

-- `Done()` at the time `now` and the fork version `version`.
unfoldable pub task_done : ChainReader → ℤ → ℤ → Task → Bool × Task
unfolding verify_done
task_done r now version success_task = (true, success_task)
task_done r now version (fail_task t) = (ltb_ℤ (t +ℤ pos (3 * second)) now, fail_task t)
task_done r now version (verify_task v) =
    let (d, v') = verify_done r now version v in (d, verify_task v')

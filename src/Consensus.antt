-- ===== src/Consensus.antt =====
-- consensus/hdpos.go: which member may produce a snapshot block at which time. The elected members
-- are the argument `members` (`voteResults`); a time is a number of nanoseconds, at or after the
-- genesis time where the model computes an index; products of indices and intervals do not wrap.
pub mod Plan
pub mod Update
mod Tests
use naive_vite.Base.{
  ℕ, suc, ◌+◌, ◌-◌, ◌*◌, ◌/◌, Bool, true, false, Option, none, some, List, [], ◌∷◌, ◌==◌,
  if◌then◌else◌, Table, lookup, insert, ltb, Result, ok, err, panic,
}
use naive_vite.Types.{Address}

-- A second, in nanoseconds.
abbrev pub second : ℕ
second = 1_000_000_000

pub record MembersInfo : Type 0 where
  pub genesis_time : ℕ
  pub member_cnt : ℕ
  pub interval : ℕ

pub record MemberPlan : Type 0 where
  pub s_time : ℕ
  pub member : Address

pub record ElectionResult : Type 0 where
  pub plans : List MemberPlan
  pub s_time : ℕ
  pub e_time : ℕ
  pub index : ℕ

abbrev pub plan_interval : MembersInfo → ℕ
plan_interval info = info.interval * info.member_cnt

-- The loop of `genPlan` from the time `s` on: the plans, and the time at its end.
unfoldable pub gen_plans : ℕ → ℕ → List Address → List MemberPlan × ℕ
gen_plans interval s [] = ([], s)
gen_plans interval s (m ∷ ms) =
    let (plans, end) = gen_plans interval (s + interval * second) ms in
    (record { s_time = s; member = m } ∷ plans, end)

unfoldable pub gen_plan : MembersInfo → ℕ → List Address → ElectionResult
unfolding gen_plans
gen_plan info index members =
    let s = info.genesis_time + plan_interval info * index * second in
    let (plans, end) = gen_plans info.interval s members in
    record { plans = plans; s_time = s; e_time = end; index = index }

-- `time2Index`, for times at or after the genesis time; before it the index of the source is negative.
-- Go's division by zero is a panic.
unfoldable pub time_2_index : MembersInfo → ℕ → Result ℕ
time_2_index info t =
    if plan_interval info == 0
    then panic
    else ok ((t - info.genesis_time) / second / plan_interval info)

pub record Teller : Type 0 where
  pub info : MembersInfo
  pub election_his : Table ElectionResult

-- `electionIndex`: the remembered result, or a new one, which is remembered.
unfoldable pub election_index : List Address → Teller → ℕ → ElectionResult × Teller
unfolding gen_plan
election_index members t index = elim (lookup index t.election_his) [
  | some r ↦ (r, t)
  | none ↦
      let r = gen_plan t.info index members in
      (r, record t { election_his = insert index r t.election_his })
]

unfoldable pub election_time : List Address → Teller → ℕ → Result (ElectionResult × Teller)
unfolding election_index time_2_index
election_time members t time = elim (time_2_index t.info time) [
  | ok index ↦ ok (election_index members t index)
  | err e ↦ err e
  | panic ↦ panic
]

-- `removePrevious`: how many results end before `rtime`, which are forgotten.
unfoldable pub remove_previous : ℕ → Table ElectionResult → ℕ × Table ElectionResult
remove_previous rtime [] = (0, [])
remove_previous rtime ((k, v) ∷ rest) =
    let (i, kept) = remove_previous rtime rest in
    if ltb v.e_time rtime then (suc i, kept) else (i, (k, v) ∷ kept)

-- The loop of `verifyProducer`: the first plan of the signer decides, to the second.
unfoldable pub verify_plans : List MemberPlan → Address → ℕ → Bool
verify_plans [] signer time = false
verify_plans (p ∷ ps) signer time =
    let rest = verify_plans ps signer time in
    if p.member == signer then p.s_time / second == time / second else rest

unfoldable pub verify_producer : List Address → Teller → Address → ℕ → Result (Bool × Teller)
unfolding verify_plans election_time
verify_producer members t signer time = elim (election_time members t (time / second * second)) [
  | ok (r, t') ↦ ok (verify_plans r.plans signer time, t')
  | err e ↦ err e
  | panic ↦ panic
]

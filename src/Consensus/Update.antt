-- ===== src/Consensus/Update.antt =====
-- consensus/hdpos.go: the loop of `update`, which tells the subscribed miner when its slot starts.
-- One round is one step: the clock, the subscription and the miner are its inputs.
pub mod Slots
pub mod Memory
pub mod Notices
pub mod Runs
pub mod OnTime
mod Tests
use naive_vite.Base.{
  ℕ, ◌-◌, ◌*◌, Bool, true, false, Option, none, some, List, [], ◌∷◌, ◌==◌, if◌then◌else◌, ltb,
  Result, ok, err, panic,
}
use naive_vite.Base.Int.{ℤ, pos, negsuc, leb_ℤ, ◌==ℤ◌}
use naive_vite.Types.{Address}
use naive_vite.Consensus.{
  second, MemberPlan, ElectionResult, Teller, election_time, remove_previous,
}

-- The variables of the loop, with the teller. The index is -1 before the first election.
pub record Loop : Type 0 where
  pub last_index : ℤ
  pub last_remove_time : ℕ
  pub teller : Teller

-- What a round meets: the time when it begins, the subscribed member, whether the miner takes the notice
-- before the election ends, and the time when the round ends.
pub record Round : Type 0 where
  pub begins : ℕ
  pub mem : Option Address
  pub taken : Bool
  pub ends : ℕ

-- The loop that looks for the member's plan.
unfoldable pub find_plan : List MemberPlan → Address → Option MemberPlan
find_plan [] m = none
find_plan (p ∷ ps) m = if p.member == m then some p else find_plan ps m

abbrev pub hour : ℕ
hour = 3600 * second

-- The end of a round: results that are older than an hour are forgotten once an hour.
unfoldable pub clear : ℕ → Loop → Loop
unfolding remove_previous
clear now l =
    let remove_time = now - hour in
    let t = l.teller in
    if ltb l.last_remove_time remove_time
    then record l {
      last_remove_time = remove_time;
      teller = record t { election_his = (remove_previous remove_time t.election_his).1 };
    }
    else l

-- A round in the election `r` that is a new one: the notice that the miner gets, and the loop's variables.
unfoldable pub notify : ElectionResult → Round → Address → Loop → Loop × Option ℕ
unfolding find_plan clear
notify r round m l =
    let done = clear round.ends (record l { last_index = pos r.index }) in
    elim (find_plan r.plans m) [
      | none ↦ (done, none)
      | some current ↦
          if l.last_index ==ℤ negsuc 0
          then (done, none)
          else (if round.taken then (done, some current.s_time) else (l, none))
    ]

unfoldable pub update_round : List Address → Round → Loop → Result (Loop × Option ℕ)
unfolding election_time notify
update_round members round l = elim (election_time members l.teller round.begins) [
  | ok (r, t) ↦
      let l' = record l { teller = t } in
      if leb_ℤ (pos r.index) l.last_index
      then ok (l', none)
      else (elim round.mem [ none ↦ ok (l', none) | some m ↦ ok (notify r round m l') ])
  | err e ↦ err e
  | panic ↦ panic
]

abbrev pub add_notice : Option ℕ → List ℕ → List ℕ
add_notice none times = times
add_notice (some t) times = t ∷ times

-- The notices of the rounds one after another.
unfoldable pub update : List Address → List Round → Loop → Result (List ℕ)
unfolding update_round
update members [] l = ok []
update members (round ∷ rounds) l = elim (update_round members round l) [
  | ok (l', notice) ↦ elim (update members rounds l') [
    | ok times ↦ ok (add_notice notice times)
    | err e ↦ err e
    | panic ↦ panic
  ]
  | err e ↦ err e
  | panic ↦ panic
]

-- ===== src/Consensus/Update/Tests.antt =====
-- Two rounds of a committee of two members with slots of three seconds, from the second 100 on.
use naive_vite.Base.{map}
use naive_vite.Base.{◌++◌}
use naive_vite.Base.{◌*◌, ◌≡◌, refl, inr, some, List, [], ◌∷◌, ok, true, lookup, insert, arith}
use naive_vite.Base.Int.{pos}
use naive_vite.Types.{Address}
use naive_vite.Consensus.{
  second, MembersInfo, Teller, gen_plans, gen_plan, time_2_index, election_index, election_time,
}
use naive_vite.Consensus.Update.{Loop, Round, find_plan, clear, notify, update_round, update}
use naive_vite.Consensus.Update.Runs.{AreNotices, IsCommittee, end_of, update-AreNotices}
use naive_vite.Consensus.Update.Slots.{slot_time}
use naive_vite.Consensus.Update.OnTime.{BeginIn, new_elections, update-slots}

abbrev committee : MembersInfo
committee = record { genesis_time = 100 * second; member_cnt = 2; interval = 3 }

abbrev members : List Address
members = 7 ∷ 8 ∷ []

abbrev fresh : Teller
fresh = record { info = committee; election_his = [] }

abbrev begun : Loop
begun = record { last_index = pos 0; last_remove_time = 0; teller = fresh }

abbrev rounds : List Round
rounds =
    record { begins = 106 * second; mem = some 8; taken = true; ends = 112 * second }
    ∷ record { begins = 112 * second; mem = some 8; taken = true; ends = 118 * second }
    ∷ []

two_notices : update members rounds begun ≡ ok (109 * second ∷ 115 * second ∷ [])
unfolding update update_round election_time election_index time_2_index gen_plan gen_plans notify
    find_plan clear lookup insert
two_notices = refl

fresh-IsCommittee : IsCommittee members fresh 100 8
unfolding lookup
fresh-IsCommittee = ((λ i r e. absurd (ground (arith, e))), refl, refl, omega arith)

update-AreNotices_example :
    AreNotices members fresh 8 (end_of committee (pos 0)) (109 * second ∷ 115 * second ∷ [])
update-AreNotices_example =
    update-AreNotices members fresh 100 8 rounds begun (109 * second ∷ 115 * second ∷ [])
      fresh-IsCommittee tt refl (inr refl, (inr refl, tt)) two_notices

-- The first election is met twice.
abbrev again : List Round
again = record { begins = 107 * second; mem = some 8; taken = true; ends = 111 * second } ∷ []

again-BeginIn : BeginIn members committee 8 1 (again ++ rounds) (1 ∷ 1 ∷ 2 ∷ [])
unfolding time_2_index
again-BeginIn = (refl, refl, refl, (refl, refl, refl, (refl, refl, refl, refl)))

update-slots_example :
    update members (again ++ rounds) begun
    ≡ ok (map (λ i. slot_time committee i 1) (new_elections 0 (1 ∷ 1 ∷ 2 ∷ [])))
update-slots_example =
    update-slots members committee 8 1 (again ++ rounds) (1 ∷ 1 ∷ 2 ∷ []) 0 begun
      (λ e. absurd (omega (arith, e)), refl) tt refl refl again-BeginIn

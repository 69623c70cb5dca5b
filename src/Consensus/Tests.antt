-- ===== src/Consensus/Tests.antt =====
-- A committee of two members with slots of three seconds, from the second 100 on.
use naive_vite.Base.{ℕ, ◌*◌, ◌/◌, ◌≡◌, refl, true, [], ◌∷◌, ok, lookup, insert, List, arith}
use naive_vite.Types.{Address}
use naive_vite.Consensus.{
  second, MembersInfo, Teller, gen_plan, gen_plans, time_2_index, verify_producer, verify_plans,
  election_time, election_index,
}
use naive_vite.Consensus.Plan.{IsTrue, InElection, HasSlot, verify_producer_slot}

abbrev committee : MembersInfo
committee = record { genesis_time = 100 * second; member_cnt = 2; interval = 3 }

abbrev members : List Address
members = 7 ∷ 8 ∷ []

abbrev fresh : Teller
fresh = record { info = committee; election_his = [] }

fresh-IsTrue : IsTrue members fresh
unfolding lookup
fresh-IsTrue i r e = absurd (ground arith)

program : Unit {0}
unfolding lookup insert gen_plans gen_plan time_2_index election_index election_time verify_plans
    verify_producer
program = tt

after : Teller
unfolding program
after = (election_index members fresh 0).1

accepted : verify_producer members fresh 8 (103 * second) ≡ ok (true, after)
unfolding program after
accepted = refl

verify_producer_slot_example :
    (i : ℕ) × InElection committee i (103 * second / second * second)
    × HasSlot committee i members 8 (103 * second)
    × IsTrue members after
verify_producer_slot_example =
    verify_producer_slot members fresh after 8 (103 * second) (omega arith) fresh-IsTrue accepted

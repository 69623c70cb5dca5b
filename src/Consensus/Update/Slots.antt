-- ===== src/Consensus/Update/Slots.antt =====
-- The slot that a member is told of is one in which the committee accepts its block.
use native.Mathlib.Nat.{div-eq_of_lt-le, mul-div_cancel, mul-le-mul_right}
use naive_vite.Base.{
  ℕ, zero, suc, ◌+◌, ◌-◌, ◌*◌, ◌/◌, ◌≤◌, ◌<◌, ◌≡◌, sym, ap, subst, ◌∙◌, inl, inr, true, some, List,
  [], ◌∷◌, ◌==◌, length, get_elem?, ok, if◌then◌else◌, Bool-cases, arith,
}
use naive_vite.Types.{Address}
use naive_vite.Consensus.{
  second, MembersInfo, MemberPlan, plan_interval, gen_plans, gen_plan, time_2_index, Teller,
  election_index, election_time, verify_plans, verify_producer,
}
use naive_vite.Consensus.Plan.{IsTrue, election_index-IsTrue, gen_plans_origin}
use naive_vite.Consensus.Update.{find_plan}

-- The seconds from the genesis time to the slot at the place `k` of the election `i`.
abbrev pub slot : MembersInfo → ℕ → ℕ → ℕ
slot info i k = plan_interval info * i + k * info.interval

-- A slot lies in its election.
pub slot_bound :
    (info : MembersInfo) (i k : ℕ)
    → k < info.member_cnt
    → 0 < info.interval
    → slot info i k < plan_interval info * suc i
slot_bound info i k small some_interval =
    let more : suc k * info.interval ≤ info.member_cnt * info.interval =
      mul-le-mul_right info.interval small in
    omega (arith, more, some_interval)

slot_index :
    (info : MembersInfo) (i k : ℕ)
    → k < info.member_cnt
    → 0 < info.interval
    → slot info i k / plan_interval info ≡ i
slot_index info i k small some_interval =
    div-eq_of_lt-le (plan_interval info) (omega arith)
      (omega (arith, slot_bound info i k small some_interval))

-- A genesis time that is a number of whole seconds.
abbrev pub IsWhole : MembersInfo → ℕ → Type 0
IsWhole info g = info.genesis_time ≡ g * second

abbrev pub slot_time : MembersInfo → ℕ → ℕ → ℕ
slot_time info i k = info.genesis_time + slot info i k * second

slot_second :
    (info : MembersInfo) (g i k : ℕ)
    → IsWhole info g
    → slot_time info i k / second * second ≡ slot_time info i k
slot_second info g i k whole =
    let sum : slot_time info i k ≡ (g + slot info i k) * second = omega (arith, whole) in
    let cut : (g + slot info i k) * second / second ≡ g + slot info i k =
      mul-div_cancel (g + slot info i k) (omega arith) in
    ap (λ t. t / second * second) sum ∙ ap (λ x. x * second) cut ∙ sym sum

slot_time_index :
    (info : MembersInfo) (i k : ℕ)
    → k < info.member_cnt
    → 0 < info.interval
    → time_2_index info (slot_time info i k) ≡ ok i
unfolding time_2_index
slot_time_index info i k small some_interval =
    let some_plan : 0 < plan_interval info =
      omega (arith, slot_bound info 0 k small some_interval) in
    let sub : slot_time info i k - info.genesis_time ≡ slot info i k * second = omega arith in
    let seconds : (slot_time info i k - info.genesis_time) / second ≡ slot info i k =
      ap (λ x. x / second) sub ∙ mul-div_cancel (slot info i k) (omega arith) in
    let index : (slot_time info i k - info.genesis_time) / second / plan_interval info ≡ i =
      ap (λ x. x / plan_interval info) seconds ∙ slot_index info i k small some_interval in
    ground (arith, some_plan, index)

find_plan-verify_plans :
    (ps : List MemberPlan) (m : Address) (p : MemberPlan)
    → find_plan ps m ≡ some p
    → verify_plans ps m p.s_time ≡ true
unfolding find_plan verify_plans
find_plan-verify_plans [] m p e = absurd (ground (arith, e))
find_plan-verify_plans (q ∷ ps) m p e = elim (Bool-cases (q.member == m)) [
  | inl h ↦
      let same : q ≡ p = ground (arith, e, h) in
      subst
        (λ x.
          (if q.member == m
            then q.s_time / second == x.s_time / second
            else verify_plans ps m x.s_time)
          ≡ true)
        same (ground (arith, h))
  | inr h ↦
      let rest = find_plan-verify_plans ps m p (ground (arith, e, h)) in ground (arith, h, rest)
]

-- A member that is found has its plan at some place.
find_plan-get :
    (ps : List MemberPlan) (m : Address) (p : MemberPlan)
    → find_plan ps m ≡ some p
    → (k : ℕ) × (get_elem? ps k ≡ some p)
unfolding find_plan
find_plan-get [] m p e = absurd (ground (arith, e))
find_plan-get (q ∷ ps) m p e = elim (Bool-cases (q.member == m)) [
  | inl h ↦ (0, ground (arith, e, h))
  | inr h ↦ let (k, at) = find_plan-get ps m p (ground (arith, e, h)) in (suc k, at)
]

get_elem?-length :
    (ms : List Address) (k : ℕ) (m : Address) → get_elem? ms k ≡ some m → k < length ms
get_elem?-length [] k m e = absurd (ground (arith, e))
get_elem?-length (x ∷ ms) zero m e = omega arith
get_elem?-length (x ∷ ms) (suc k) m e = omega (arith, get_elem?-length ms k m e)

-- The plan that is found in the election `i` is a slot of that election.
pub find_plan-slot :
    (info : MembersInfo) (i : ℕ) (members : List Address) (m : Address) (p : MemberPlan)
    → length members ≡ info.member_cnt
    → find_plan (gen_plan info i members).plans m ≡ some p
    → (k : ℕ) × (k < info.member_cnt) × (p.s_time ≡ slot_time info i k)
unfolding gen_plan
find_plan-slot info i members m p full e =
    let start = info.genesis_time + plan_interval info * i * second in
    let (k, at) = find_plan-get (gen_plans info.interval start members).0 m p e in
    let (member, starts) = gen_plans_origin info.interval start members k p at in
    (k, omega (arith, full, get_elem?-length members k p.member member), starts ∙ omega arith)

-- Where any node whose teller remembers only true results verifies a block of the member `m` at the time
-- of its slot, it accepts it.
pub find_plan-verify_producer :
    (members : List Address) (t : Teller) (g i : ℕ) (m : Address) (p : MemberPlan)
    → IsTrue members t
    → IsWhole t.info g
    → length members ≡ (let info = t.info in info.member_cnt)
    → 0 < (let info = t.info in info.interval)
    → find_plan (gen_plan t.info i members).plans m ≡ some p
    → (t' : Teller) × (verify_producer members t m p.s_time ≡ ok (true, t'))
unfolding verify_producer election_time
find_plan-verify_producer members t g i m p true_his whole full some_interval e =
    let (k, small, at) = find_plan-slot t.info i members m p full e in
    let index : time_2_index t.info (p.s_time / second * second) ≡ ok i =
      ap (λ x. time_2_index t.info (x / second * second)) at
      ∙ ap (time_2_index t.info) (slot_second t.info g i k whole)
      ∙ slot_time_index t.info i k small some_interval in
    let (answer, kept, same) = election_index-IsTrue members t i true_his in
    let verified = find_plan-verify_plans (gen_plan t.info i members).plans m p e in
    ((election_index members t i).1, ground (arith, index, answer, verified))

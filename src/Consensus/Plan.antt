-- ===== src/Consensus/Plan.antt =====
-- What a plan holds, and which blocks the committee accepts.
use native.Mathlib.Nat.{mul-div-le, lt-mul-div-succ}
use naive_vite.Base.{
  ◌≤◌, ◌<◌, ◌-◌, ℕ, zero, suc, ◌+◌, ◌*◌, ◌/◌, ◌≡◌, refl, sym, ap, subst, ◌∙◌, true, none, some,
  List, [], ◌∷◌, ◌==◌, lookup, insert, lookup-insert, length, get_elem?, Option-cases, Result-cases,
  ok, Bool-cases, inl, inr, arith,
}
use naive_vite.Types.{Address}
use naive_vite.Consensus.{
  second, MembersInfo, MemberPlan, ElectionResult, plan_interval, gen_plans, gen_plan, time_2_index,
  Teller, election_index, election_time, verify_plans, verify_producer,
}

-- The plan at the place `k` is that of the member at the place `k`, `k` intervals after `s`.
gen_plans-get :
    (interval s : ℕ) (members : List Address) (k : ℕ) (m : Address)
    → get_elem? members k ≡ some m
    → get_elem? (gen_plans interval s members).0 k
      ≡ some (record { s_time = s + k * (interval * second); member = m })
unfolding gen_plans
gen_plans-get interval s [] zero m e = absurd (ground arith)
gen_plans-get interval s [] (suc k) m e = absurd (ground arith)
gen_plans-get interval s (x ∷ ms) zero m e = ground (arith, e)
gen_plans-get interval s (x ∷ ms) (suc k) m e =
    gen_plans-get interval (s + interval * second) ms k m e
    ∙ ap (λ t. some (record { s_time = t; member = m })) (omega arith)

gen_plans_end :
    (interval s : ℕ) (members : List Address)
    → (gen_plans interval s members).1 ≡ s + length members * (interval * second)
unfolding gen_plans
gen_plans_end interval s [] = omega arith
gen_plans_end interval s (x ∷ ms) = gen_plans_end interval (s + interval * second) ms ∙ omega arith

full_turn : (g n c i : ℕ) → g + n * c * i * second + c * (n * second) ≡ g + n * c * suc i * second
full_turn g n c i = omega arith

-- In the election of the index `i` the member at the place `k` has the plan at that place, `k`
-- intervals after the election's start; and if the committee is full, the next election starts
-- where this one ends.
pub gen_plan-get :
    (info : MembersInfo) (i : ℕ) (members : List Address) (k : ℕ) (m : Address)
    → length members ≡ info.member_cnt
    → get_elem? members k ≡ some m
    → (get_elem? (gen_plan info i members).plans k
        ≡ some (record {
          s_time = (gen_plan info i members).s_time + k * (info.interval * second);
          member = m;
        }))
      × ((gen_plan info i members).e_time ≡ (gen_plan info (suc i) members).s_time)
unfolding gen_plan
gen_plan-get info i members k m full e =
    let start = info.genesis_time + plan_interval info * i * second in
    (
      gen_plans-get info.interval start members k m e,
      gen_plans_end info.interval start members
          ∙ ap (λ c. start + c * (info.interval * second)) full
          ∙ full_turn info.genesis_time info.interval info.member_cnt i,
    )

verify_plans_sound :
    (ps : List MemberPlan) (signer : Address) (time : ℕ)
    → verify_plans ps signer time ≡ true
    → (k : ℕ) × (p : MemberPlan) × (get_elem? ps k ≡ some p)
      × (p.member ≡ signer)
      × (p.s_time / second ≡ time / second)
unfolding verify_plans
verify_plans_sound [] signer time e = absurd (ground arith)
verify_plans_sound (p ∷ ps) signer time e = elim (Bool-cases (p.member == signer)) [
  | inl same ↦ (0, p, refl, ground arith, ground arith)
  | inr other ↦
      let (k, q, at, is, when) = verify_plans_sound ps signer time (ground arith) in
      (suc k, q, at, is, when)
]

-- The results that the teller remembers are those of their indices.
abbrev pub IsTrue : List Address → Teller → Type 0
IsTrue members t =
    (i : ℕ) (r : ElectionResult) → lookup i t.election_his ≡ some r → r ≡ gen_plan t.info i members

-- An answer for the index `i`, with the teller that it leaves.
abbrev pub IsAnswer : List Address → Teller → ℕ → ElectionResult × Teller → Type 0
IsAnswer members t i (r, t') =
    (r ≡ gen_plan t.info i members) × IsTrue members t' × (t'.info ≡ t.info)

abbrev pub with_result : List Address → Teller → ℕ → Teller
with_result members t i = record t {
  election_his = insert i (gen_plan t.info i members) t.election_his;
}

pub known_index :
    (members : List Address) (t : Teller) (i : ℕ) (r : ElectionResult)
    → lookup i t.election_his ≡ some r
    → election_index members t i ≡ (r, t)
unfolding election_index
known_index members t i r e = ground (arith, e)

pub new_index :
    (members : List Address) (t : Teller) (i : ℕ)
    → lookup i t.election_his ≡ none
    → election_index members t i ≡ (gen_plan t.info i members, with_result members t i)
unfolding election_index
new_index members t i e = ground (arith, e)

remembered :
    (members : List Address) (t : Teller) (i : ℕ)
    → IsTrue members t
    → IsTrue members (with_result members t i)
remembered members t i true_his j r e =
    let found = lookup-insert i j (gen_plan t.info i members) t.election_his in
    elim (Bool-cases (i == j)) [
      | inl same ↦ ground (arith, found, e, same)
      | inr other ↦ true_his j r (ground (arith, found, e, other))
    ]

-- Whether or not the election is remembered, it is the one that is made anew, and what is
-- remembered afterwards is true again.
pub election_index-IsTrue :
    (members : List Address) (t : Teller) (i : ℕ)
    → IsTrue members t
    → IsAnswer members t i (election_index members t i)
election_index-IsTrue members t i true_his = elim (Option-cases (lookup i t.election_his)) [
  | inr (r, e) ↦
      subst (IsAnswer members t i) (sym (known_index members t i r e))
        (true_his i r e, true_his, refl)
  | inl e ↦
      subst (IsAnswer members t i) (sym (new_index members t i e))
        (refl, remembered members t i true_his, refl)
]

pub gen_plans_origin :
    (interval s : ℕ) (members : List Address) (k : ℕ) (p : MemberPlan)
    → get_elem? (gen_plans interval s members).0 k ≡ some p
    → (get_elem? members k ≡ some p.member) × (p.s_time ≡ s + k * (interval * second))
unfolding gen_plans
gen_plans_origin interval s [] zero p e = absurd (ground arith)
gen_plans_origin interval s [] (suc k) p e = absurd (ground arith)
gen_plans_origin interval s (x ∷ ms) zero p e = (ground (arith, e), ground (arith, e))
gen_plans_origin interval s (x ∷ ms) (suc k) p e =
    let (at, when) = gen_plans_origin interval (s + interval * second) ms k p e in
    (at, when ∙ omega arith)

-- The member `signer` has a slot of the election `i` that starts in the second of `time`.
abbrev pub HasSlot : MembersInfo → ℕ → List Address → Address → ℕ → Type 0
HasSlot info i members signer time =
    (k : ℕ) × (get_elem? members k ≡ some signer)
    × (((gen_plan info i members).s_time + k * (info.interval * second)) / second ≡ time / second)

verified_slot :
    (info : MembersInfo) (i : ℕ) (members : List Address) (signer : Address) (time : ℕ)
    → verify_plans (gen_plan info i members).plans signer time ≡ true
    → HasSlot info i members signer time
unfolding gen_plan
verified_slot info i members signer time e =
    let start = info.genesis_time + plan_interval info * i * second in
    let (k, p, at, same, when) =
      verify_plans_sound (gen_plans info.interval start members).0 signer time e in
    let (member, starts) = gen_plans_origin info.interval start members k p at in
    (k, member ∙ ap some same, ap (λ t. t / second) (sym starts) ∙ when)

-- The time is in the span of the election `i`.
abbrev pub InElection : MembersInfo → ℕ → ℕ → Type 0
InElection info i time =
    let start = info.genesis_time + plan_interval info * i * second in
    (start ≤ time) × (time < start + plan_interval info * second)

index-InElection :
    (info : MembersInfo) (i time : ℕ)
    → info.genesis_time ≤ time
    → time_2_index info time ≡ ok i
    → InElection info i time
unfolding time_2_index
index-InElection info i time begun e =
    let seconds = (time - info.genesis_time) / second in
    let some_plan : 0 < plan_interval info = ground (arith, e) in
    let index : seconds / plan_interval info ≡ i = ground (arith, e) in
    let low : plan_interval info * i ≤ seconds =
      subst (λ x. plan_interval info * x ≤ seconds) index
        (mul-div-le seconds (plan_interval info)) in
    let high : seconds < plan_interval info * (i + 1) =
      subst (λ x. seconds < plan_interval info * (x + 1)) index
        (lt-mul-div-succ seconds some_plan) in
    (omega (arith, low, begun), omega (arith, high, begun))

-- At a time whose second begins at or after the genesis time, a teller that remembers only true
-- results accepts a producer only in the second in which a slot of that producer starts, in the
-- election whose span has that second in it; the teller still remembers only true results.
pub verify_producer_slot :
    (members : List Address) (t t' : Teller) (signer : Address) (time : ℕ)
    → (let info = t.info in info.genesis_time ≤ time / second * second)
    → IsTrue members t
    → verify_producer members t signer time ≡ ok (true, t')
    → (i : ℕ) × InElection t.info i (time / second * second)
      × HasSlot t.info i members signer time
      × IsTrue members t'
unfolding verify_producer election_time
verify_producer_slot members t t' signer time begun true_his e =
    elim (Result-cases (time_2_index t.info (time / second * second))) [
      | inr (inl (x, f)) ↦ absurd (ground arith)
      | inr (inr f) ↦ absurd (ground arith)
      | inl (i, f) ↦
          let (answer, kept, info) = election_index-IsTrue members t i true_his in
          let verified : verify_plans (gen_plan t.info i members).plans signer time ≡ true =
            ground (arith, f, e, answer) in
          let left : (election_index members t i).1 ≡ t' = ground (arith, f, e) in
          (
            i,
            index-InElection t.info i (time / second * second) begun f,
            verified_slot t.info i members signer time verified,
            subst (IsTrue members) left kept,
          )
    ]

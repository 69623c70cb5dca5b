-- ===== src/Consensus/Update/OnTime.antt =====
-- A loop whose miner takes each notice tells it of its slot in every election that it meets.
use naive_vite.Base.{leb}
use naive_vite.Base.{none}
use naive_vite.Base.{
  ℕ, zero, suc, ◌+◌, ◌*◌, ◌≡◌, ◌≢◌, refl, sym, ap, ◌∙◌, inl, inr, true, false, some, List, [], ◌∷◌,
  map, ok, if◌then◌else◌, Bool-cases, arith,
}
use naive_vite.Base.Int.{pos, leb_ℤ}
use naive_vite.Types.{Address}
use naive_vite.Consensus.{
  second, MembersInfo, MemberPlan, ElectionResult, plan_interval, gen_plans, gen_plan, time_2_index,
  election_index, Teller, election_time,
}
use naive_vite.Consensus.Update.{Loop, Round, find_plan, clear, notify, update_round, update}
use naive_vite.Consensus.Update.Memory.{AreTrue, election_index-Answers, clear-IsCleared}
use naive_vite.Consensus.Update.Notices.{round_with}
use naive_vite.Consensus.Update.Slots.{slot_time}

-- The member stands at the place `k` of the committee, and at none before it.
abbrev pub IsFirst : List Address → Address → ℕ → Type 0
IsFirst [] m k = ⊥
IsFirst (x ∷ ms) m zero = x ≡ m
IsFirst (x ∷ ms) m (suc k) = (x ≢ m) × IsFirst ms m k

find_plan-IsFirst :
    (interval s : ℕ) (members : List Address) (m : Address) (k : ℕ)
    → IsFirst members m k
    → (p : MemberPlan) × (find_plan (gen_plans interval s members).0 m ≡ some p)
      × (p.s_time ≡ s + k * (interval * second))
unfolding find_plan gen_plans
find_plan-IsFirst interval s [] m k first = absurd first
find_plan-IsFirst interval s (x ∷ ms) m zero first =
    (record { s_time = s; member = x }, ground (arith, first), omega arith)
find_plan-IsFirst interval s (x ∷ ms) m (suc k) (other, first) =
    let (p, e, starts) = find_plan-IsFirst interval (s + interval * second) ms m k first in
    (p, ground (arith, e, other), starts ∙ omega arith)

notify_told :
    (r : ElectionResult) (round : Round) (m : Address) (l : Loop) (p : MemberPlan) (a : ℕ)
    → find_plan r.plans m ≡ some p
    → l.last_index ≡ pos a
    → round.taken ≡ true
    → notify r round m l ≡ (clear round.ends (record l { last_index = pos r.index }), some p.s_time)
unfolding notify
notify_told r round m l p a e f g = ground (arith, e, f, g)

step_told :
    (members : List Address) (round : Round) (rounds : List Round) (l l' : Loop) (s : ℕ)
    (times : List ℕ)
    → update_round members round l ≡ ok (l', some s)
    → update members rounds l' ≡ ok times
    → update members (round ∷ rounds) l ≡ ok (s ∷ times)
unfolding update
step_told members round rounds l l' s times e f = ground (arith, e, f)

step_silent :
    (members : List Address) (round : Round) (rounds : List Round) (l l' : Loop) (times : List ℕ)
    → update_round members round l ≡ ok (l', none)
    → update members rounds l' ≡ ok times
    → update members (round ∷ rounds) l ≡ ok times
unfolding update
step_silent members round rounds l l' times e f = ground (arith, e, f)

round_again :
    (members : List Address) (round : Round) (l : Loop) (i : ℕ) (r : ElectionResult) (t : Teller)
    → time_2_index (let t0 = l.teller in t0.info) round.begins ≡ ok i
    → election_index members l.teller i ≡ (r, t)
    → leb_ℤ (pos r.index) l.last_index ≡ true
    → update_round members round l ≡ ok (record l { teller = t }, none)
unfolding update_round election_time
round_again members round l i r t e f g = ground (arith, e, f, g)

-- Those of the elections that are above `a` and all before them.
abbrev pub new_elections : ℕ → List ℕ → List ℕ
new_elections a [] = []
new_elections a (i ∷ is) = if leb i a then new_elections a is else i ∷ new_elections i is

new_again : (a i : ℕ) (is : List ℕ) → leb i a ≡ true → new_elections a (i ∷ is) ≡ new_elections a is
new_again a i is e = ground (arith, e)

new_next :
    (a i : ℕ) (is : List ℕ) → leb i a ≡ false → new_elections a (i ∷ is) ≡ i ∷ new_elections i is
new_next a i is e = ground (arith, e)

module _ (members : List Address) (info : MembersInfo) (m : Address) (k : ℕ) where
  -- The rounds begin in these elections, and the subscribed member takes each notice that it gets.
  abbrev pub BeginIn : List Round → List ℕ → Type 0
  BeginIn [] is = is ≡ []
  BeginIn (r ∷ rs) [] = ⊥
  BeginIn (r ∷ rs) (i ∷ is) =
      (time_2_index info r.begins ≡ ok i) × (r.mem ≡ some m) × (r.taken ≡ true) × BeginIn rs is

  -- The member at the place `k` of the committee, which takes its notices, gets just one for each
  -- election that is later than the loop's last one and than all before it, in whatever elections the
  -- rounds begin, at the start of its slot: `k` intervals after the start of the election.
  pub update-slots :
      (rounds : List Round) (is : List ℕ) (a : ℕ) (l : Loop)
      → IsFirst members m k
      → AreTrue members l.teller
      → (let t = l.teller in t.info ≡ info)
      → l.last_index ≡ pos a
      → BeginIn rounds is
      → update members rounds l ≡ ok (map (λ i. slot_time info i k) (new_elections a is))
  unfolding update gen_plan
  update-slots [] [] a l first all same last begins = refl
  update-slots [] (i ∷ is) a l first all same last begins = absurd (ground (arith, begins))
  update-slots (round ∷ rounds) [] a l first all same last begins = absurd begins
  update-slots (round ∷ rounds) (i ∷ is) a l first all same last (begins, mem, taken, later) =
      let t0 = l.teller in
      let (r, t) = election_index members t0 i in
      let (made, all', kept) = election_index-Answers members t0 i all in
      let start = info.genesis_time + plan_interval info * i * second in
      let made' : r ≡ gen_plan info i members = made ∙ ap (λ x. gen_plan x i members) same in
      let number : r.index ≡ i = ap (λ x. x.index) made' in
      let times = λ (js : List ℕ). map (λ j. slot_time info j k) js in
      let begins' : time_2_index t0.info round.begins ≡ ok i =
        ap (λ x. time_2_index x round.begins) same ∙ begins in
      elim (Bool-cases (leb i a)) [
        | inl old ↦
            let again : leb_ℤ (pos r.index) l.last_index ≡ true =
              ground (arith, number, last, old) in
            let rest =
              update-slots rounds is a (record l { teller = t }) first all' (kept ∙ same) last
                later in
            step_silent members round rounds l (record l { teller = t })
              (times (new_elections a is)) (round_again members round l i r t begins' refl again)
              rest
            ∙ ap (λ js. ok (times js)) (sym (new_again a i is old))
        | inr next ↦
            let (p, found, starts) = find_plan-IsFirst info.interval start members m k first in
            let plan : find_plan r.plans m ≡ some p = ap (λ x. find_plan x.plans m) made' ∙ found in
            let new : leb_ℤ (pos r.index) l.last_index ≡ false =
              ground (arith, number, last, next) in
            let now = record l { last_index = pos r.index; teller = t } in
            let told : update_round members round l ≡ ok (clear round.ends now, some p.s_time) =
              round_with members round l i r t m begins' refl new mem
              ∙ ap ok (notify_told r round m (record l { teller = t }) p a plan last taken) in
            let (last', info', all'') = clear-IsCleared members round.ends now all' in
            let rest =
              update-slots rounds is i (clear round.ends now) first all'' (info' ∙ kept ∙ same)
                (last' ∙ ap pos number) later in
            step_told members round rounds l (clear round.ends now) p.s_time
              (times (new_elections i is)) told rest
            ∙ ap (λ s. ok (s ∷ times (new_elections i is))) (starts ∙ omega arith)
            ∙ ap (λ js. ok (times js)) (sym (new_next a i is next))
      ]

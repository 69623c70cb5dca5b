-- ===== src/Consensus/Update/Notices.antt =====
-- Which notices the miner gets.
use naive_vite.Base.{
  ℕ, ◌≡◌, refl, sym, ap, subst, ◌∙◌, ◌⊎◌, inl, inr, true, false, Option, none, some, List, Result,
  ok, Bool-cases, Option-cases, Result-cases, arith,
}
use naive_vite.Base.Int.{pos, negsuc, ◌<ℤ◌, leb_ℤ, ◌==ℤ◌}
use naive_vite.Types.{Address}
use naive_vite.Consensus.{
  MembersInfo, MemberPlan, ElectionResult, gen_plan, time_2_index, Teller, election_index,
  election_time,
}
use naive_vite.Consensus.Update.{Loop, Round, find_plan, clear, notify, update_round}
use naive_vite.Consensus.Update.Memory.{AreTrue, IsCleared, election_index-Answers, clear-IsCleared}

-- The member's plan in the election `i` is what the notice says.
abbrev pub Tells : List Address → MembersInfo → ℕ → Address → ℕ → Type 0
Tells members info i m s =
    (p : MemberPlan) × (find_plan (gen_plan info i members).plans m ≡ some p) × (p.s_time ≡ s)

-- The two ways to end a round in a new election: it is done, with a notice or without one, or the
-- notice was not taken, and the round goes for nothing.
abbrev Done : ElectionResult → Round → Address → Loop → Loop × Option ℕ → Type 0
Done r round m l (l', notice) =
    (l' ≡ clear round.ends (record l { last_index = pos r.index }))
    × ((notice ≡ none)
        ⊎ ((p : MemberPlan) × (find_plan r.plans m ≡ some p) × (notice ≡ some p.s_time)))

notify_cases :
    (r : ElectionResult) (round : Round) (m : Address) (l : Loop)
    → Done r round m l (notify r round m l) ⊎ (notify r round m l ≡ (l, none))
unfolding notify
notify_cases r round m l =
    let done = clear round.ends (record l { last_index = pos r.index }) in
    elim (Option-cases (find_plan r.plans m)) [
      | inl e ↦
          inl (subst (Done r round m l) {x = (done, none)} (ground (arith, e)) (refl, inl refl))
      | inr (p, e) ↦ elim (Bool-cases (l.last_index ==ℤ negsuc 0)) [
        | inl f ↦
            inl
              (subst (Done r round m l) {x = (done, none)} (ground (arith, e, f)) (refl, inl refl))
        | inr f ↦ elim (Bool-cases round.taken) [
          | inl g ↦ inl (
              subst (Done r round m l) {x = (done, some p.s_time)} (ground (arith, e, f, g))
                (refl, inr (p, e, refl)))
          | inr g ↦ inr (ground (arith, e, f, g))
        ]
      ]
    ]

-- What a round leaves: nothing new, or a later election, with a notice for it or without one.
abbrev pub IsRound : List Address → Round → Loop → Loop × Option ℕ → Type 0
IsRound members round l (l', notice) =
    let t = l.teller in
    let t' = l'.teller in
    (t'.info ≡ t.info)
    × AreTrue members t'
    × (((notice ≡ none) × (l'.last_index ≡ l.last_index))
        ⊎ ((i : ℕ) × (l'.last_index ≡ pos i)
            × (l.last_index <ℤ pos i)
            × ((notice ≡ none)
                ⊎ ((m : Address) × (s : ℕ) × (notice ≡ some s)
                    × (round.mem ≡ some m)
                    × Tells members t.info i m s))))

-- A round that is done in the election `i`, from a loop `l` whose teller has answered.
Done-IsRound :
    (members : List Address) (round : Round) (l : Loop) (t : Teller) (i : ℕ) (m : Address)
    (o : Loop × Option ℕ)
    → AreTrue members t
    → t.info ≡ (let t0 = l.teller in t0.info)
    → l.last_index <ℤ pos i
    → round.mem ≡ some m
    → Done (gen_plan t.info i members) round m (record l { teller = t }) o
    → IsRound members round l o
unfolding gen_plan
Done-IsRound members round l t i m (l', notice) all info later mem (same, told) =
    let now = record l { last_index = pos i; teller = t } in
    let (last, kept, true_his) = clear-IsCleared members round.ends now all in
    let back : IsCleared members now l' =
      subst (IsCleared members now) (sym same) (last, kept, true_his) in
    let (last', kept', true') = back in
    (
      kept' ∙ info,
      true',
      inr (
        i,
        last',
        later,
        elim told [
          | inl e ↦ inl e
          | inr (p, e, f) ↦ inr (
            m,
            p.s_time,
            f,
            mem,
            (p, ap (λ x. find_plan (gen_plan x i members).plans m) (sym info) ∙ e, refl),
          )
        ],
      ),
    )

round_late :
    (members : List Address) (round : Round) (l : Loop) (i : ℕ) (r : ElectionResult) (t : Teller)
    → time_2_index (let t0 = l.teller in t0.info) round.begins ≡ ok i
    → election_index members l.teller i ≡ (r, t)
    → leb_ℤ (pos r.index) l.last_index ≡ true
    → update_round members round l ≡ ok (record l { teller = t }, none)
unfolding update_round election_time
round_late members round l i r t e f g = ground (arith, e, f, g)

round_without :
    (members : List Address) (round : Round) (l : Loop) (i : ℕ) (r : ElectionResult) (t : Teller)
    → time_2_index (let t0 = l.teller in t0.info) round.begins ≡ ok i
    → election_index members l.teller i ≡ (r, t)
    → leb_ℤ (pos r.index) l.last_index ≡ false
    → round.mem ≡ none
    → update_round members round l ≡ ok (record l { teller = t }, none)
unfolding update_round election_time
round_without members round l i r t e f g h = ground (arith, e, f, g, h)

pub round_with :
    (members : List Address) (round : Round) (l : Loop) (i : ℕ) (r : ElectionResult) (t : Teller)
    (m : Address)
    → time_2_index (let t0 = l.teller in t0.info) round.begins ≡ ok i
    → election_index members l.teller i ≡ (r, t)
    → leb_ℤ (pos r.index) l.last_index ≡ false
    → round.mem ≡ some m
    → update_round members round l ≡ ok (notify r round m (record l { teller = t }))
unfolding update_round election_time
round_with members round l i r t m e f g h = ground (arith, e, f, g, h)

-- A round in which nothing happens.
still-IsRound :
    (members : List Address) (round : Round) (l : Loop) (t : Teller)
    → AreTrue members t
    → t.info ≡ (let t0 = l.teller in t0.info)
    → IsRound members round l (record l { teller = t }, none)
still-IsRound members round l t all info = (info, all, inl (refl, refl))

step_ok : {a : Result (Loop × Option ℕ)} {x y : Loop × Option ℕ} → a ≡ ok x → a ≡ ok y → x ≡ y
step_ok e f = ground (arith, e, f)

told-IsRound :
    (members : List Address) (round : Round) (l : Loop) (t : Teller) (i : ℕ) (m : Address)
    (r : ElectionResult)
    → AreTrue members t
    → t.info ≡ (let t0 = l.teller in t0.info)
    → l.last_index <ℤ pos i
    → round.mem ≡ some m
    → r ≡ gen_plan t.info i members
    → IsRound members round l (notify r round m (record l { teller = t }))
told-IsRound members round l t i m r all info later mem made =
    let l' = record l { teller = t } in
    elim (notify_cases r round m l') [
      | inl done ↦
          Done-IsRound members round l t i m (notify r round m l') all info later mem
            (subst (λ x. Done x round m l' (notify r round m l')) made done)
      | inr e ↦ subst (IsRound members round l) (sym e) (still-IsRound members round l t all info)
    ]

pub update_round-IsRound :
    (members : List Address) (round : Round) (l : Loop) (o : Loop × Option ℕ)
    → AreTrue members l.teller
    → update_round members round l ≡ ok o
    → IsRound members round l o
unfolding update_round election_time gen_plan
update_round-IsRound members round l o all e =
    let t0 = l.teller in
    elim (Result-cases (time_2_index t0.info round.begins)) [
      | inr (inl (x, f)) ↦ absurd (ground (arith, e, f))
      | inr (inr f) ↦ absurd (ground (arith, e, f))
      | inl (i, f) ↦
          let (r, t) = election_index members t0 i in
          let (made, all', info) = election_index-Answers members t0 i all in
          let index : r.index ≡ i = ap (λ x. x.index) made in
          elim (Bool-cases (leb_ℤ (pos r.index) l.last_index)) [
            | inl g ↦
                subst (IsRound members round l)
                  (step_ok (round_late members round l i r t f refl g) e)
                  (still-IsRound members round l t all' info)
            | inr g ↦ elim (Option-cases round.mem) [
              | inl h ↦
                  subst (IsRound members round l)
                    (step_ok (round_without members round l i r t f refl g h) e)
                    (still-IsRound members round l t all' info)
              | inr (m, h) ↦
                  let later : l.last_index <ℤ pos i = ground (arith, g, index) in
                  let made' : r ≡ gen_plan t.info i members =
                    made ∙ ap (λ x. gen_plan x i members) (sym info) in
                  subst (IsRound members round l)
                    (step_ok (round_with members round l i r t m f refl g h) e)
                    (told-IsRound members round l t i m r all' info later h made')
            ]
          ]
    ]

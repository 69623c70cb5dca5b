-- ===== src/Consensus/Update/Runs.antt =====
-- The notices of a whole run of the loop.
use native.Mathlib.Nat.{mul-le-mul_left}
use naive_vite.Base.{
  ℕ, suc, ◌+◌, ◌*◌, ◌≤◌, ◌<◌, ◌≡◌, sym, subst, ◌∙◌, ◌⊎◌, inl, inr, true, Option, none, some, List,
  [], ◌∷◌, All, length, Result-cases, ok, arith,
}
use naive_vite.Base.Int.{ℤ, pos, negsuc, ◌<ℤ◌}
use naive_vite.Types.{Address}
use naive_vite.Consensus.{second, MembersInfo, plan_interval, Teller, verify_producer}
use naive_vite.Consensus.Plan.{IsTrue}
use naive_vite.Consensus.Update.{Loop, Round, update_round, add_notice, update}
use naive_vite.Consensus.Update.Slots.{
  IsWhole, slot, slot_time, slot_bound, find_plan-slot, find_plan-verify_producer,
}
use naive_vite.Consensus.Update.Memory.{AreTrue}
use naive_vite.Consensus.Update.Notices.{Tells, update_round-IsRound}

-- The end of the election of the given index; 0 before the first one.
abbrev pub end_of : MembersInfo → ℤ → ℕ
end_of info (pos i) = info.genesis_time + plan_interval info * suc i * second
end_of info (negsuc _) = 0

-- The times are at least `low` and strictly increase, and a committee with the teller `t` accepts a block
-- of the member `m` at each of them.
abbrev pub AreNotices : List Address → Teller → Address → ℕ → List ℕ → Type 0
AreNotices members t m low [] = Unit
AreNotices members t m low (s ∷ ss) =
    (low ≤ s)
    × ((t' : Teller) × (verify_producer members t m s ≡ ok (true, t')))
    × AreNotices members t m (suc s) ss

earlier-AreNotices :
    (members : List Address) (t : Teller) (m : Address) (low high : ℕ) (times : List ℕ)
    → low ≤ high
    → AreNotices members t m high times
    → AreNotices members t m low times
earlier-AreNotices members t m low high [] le all = tt
earlier-AreNotices members t m low high (s ∷ ss) le (above, accepted, rest) =
    (omega (arith, le, above), accepted, rest)

earlier_start :
    (info : MembersInfo) (i j : ℕ)
    → i < j
    → info.genesis_time + plan_interval info * suc i * second
      ≤ info.genesis_time + plan_interval info * j * second
earlier_start info i j lt =
    let more : plan_interval info * suc i ≤ plan_interval info * j =
      mul-le-mul_left (plan_interval info) lt in
    omega (arith, more)

-- A slot of a later election is not before the end of this one.
slot_after :
    (info : MembersInfo) (last : ℤ) (j k : ℕ)
    → last <ℤ pos j
    → end_of info last ≤ slot_time info j k
slot_after info (pos i) j k lt = omega (arith, earlier_start info i j (omega (arith, lt)))
slot_after info (negsuc n) j k lt = omega arith

end_grows :
    (info : MembersInfo) (last : ℤ) (j : ℕ) → last <ℤ pos j → end_of info last ≤ end_of info (pos j)
end_grows info (pos i) j lt =
    let more : plan_interval info * j ≤ plan_interval info * suc j =
      mul-le-mul_left (plan_interval info) (omega arith) in
    omega (arith, earlier_start info i j (omega (arith, lt)), more)
end_grows info (negsuc n) j lt = omega arith

slot_before :
    (info : MembersInfo) (i k : ℕ)
    → k < info.member_cnt
    → 0 < info.interval
    → slot_time info i k < end_of info (pos i)
slot_before info i k small some_interval =
    let less : suc (slot info i k) ≤ plan_interval info * suc i =
      slot_bound info i k small some_interval in
    omega (arith, less)

update_cases :
    (members : List Address) (round : Round) (rounds : List Round) (l : Loop) (times : List ℕ)
    → update members (round ∷ rounds) l ≡ ok times
    → (l' : Loop) × (notice : Option ℕ) × (rest : List ℕ) × (update_round members round l
        ≡ ok (l', notice))
      × (update members rounds l' ≡ ok rest)
      × (times ≡ add_notice notice rest)
unfolding update
update_cases members round rounds l times e = elim (Result-cases (update_round members round l)) [
  | inr (inl (x, f)) ↦ absurd (ground (arith, e, f))
  | inr (inr f) ↦ absurd (ground (arith, e, f))
  | inl ((l', notice), f) ↦ elim (Result-cases (update members rounds l')) [
    | inr (inl (x, g)) ↦ absurd (ground (arith, e, f, g))
    | inr (inr g) ↦ absurd (ground (arith, e, f, g))
    | inl (rest, g) ↦ (l', notice, rest, f, g, ground (arith, e, f, g))
  ]
]

module _ (members : List Address) (t : Teller) (g : ℕ) (m : Address) where
  -- The teller `t` remembers only true results, of a full committee with slots of some seconds from a whole
  -- second on.
  abbrev pub IsCommittee : Type 0
  IsCommittee =
      let info = t.info in
      IsTrue members t × IsWhole info g × (length members ≡ info.member_cnt) × (0 < info.interval)

  told-AreNotices :
      (i s : ℕ) (last : ℤ) (rest : List ℕ)
      → IsCommittee
      → last <ℤ pos i
      → Tells members t.info i m s
      → AreNotices members t m (end_of t.info (pos i)) rest
      → AreNotices members t m (end_of t.info last) (s ∷ rest)
  told-AreNotices i s last rest (true_his, whole, full, some_interval) later (p, found, at) all =
      let (k, small, when) = find_plan-slot t.info i members m p full found in
      let (t', accepted) =
        find_plan-verify_producer members t g i m p true_his whole full some_interval found in
      let same : slot_time t.info i k ≡ s = sym when ∙ at in
      (
        subst (λ x. end_of t.info last ≤ x) same (slot_after t.info last i k later),
        (t', subst (λ x. verify_producer members t m x ≡ ok (true, t')) at accepted),
        earlier-AreNotices members t m (suc s) (end_of t.info (pos i)) rest
            (subst (λ x. suc x ≤ end_of t.info (pos i)) same
              (slot_before t.info i k small some_interval))
            all,
      )

  -- What a round adds to the notices of the rounds after it.
  next-AreNotices :
      (round : Round) (l l' : Loop) (notice : Option ℕ) (rest : List ℕ)
      → IsCommittee
      → (let u = l.teller in u.info ≡ t.info)
      → (round.mem ≡ none) ⊎ (round.mem ≡ some m)
      → ((notice ≡ none) × (l'.last_index ≡ l.last_index))
        ⊎ ((i : ℕ) × (l'.last_index ≡ pos i)
            × (l.last_index <ℤ pos i)
            × ((notice ≡ none)
                ⊎ ((m' : Address) × (s : ℕ) × (notice ≡ some s)
                    × (round.mem ≡ some m')
                    × Tells members (let u = l.teller in u.info) i m' s)))
      → AreNotices members t m (end_of t.info l'.last_index) rest
      → AreNotices members t m (end_of t.info l.last_index) (add_notice notice rest)
  next-AreNotices round l l' notice rest good info mem (inl (e, f)) later =
      subst (λ n. AreNotices members t m (end_of t.info l.last_index) (add_notice n rest)) (sym e)
        (subst (λ x. AreNotices members t m (end_of t.info x) rest) f later)
  next-AreNotices round l l' notice rest good info mem (inr (i, f, lt, inl e)) later =
      subst (λ n. AreNotices members t m (end_of t.info l.last_index) (add_notice n rest)) (sym e)
        (earlier-AreNotices members t m (end_of t.info l.last_index) (end_of t.info (pos i)) rest
          (end_grows t.info l.last_index i lt)
          (subst (λ x. AreNotices members t m (end_of t.info x) rest) f later))
  next-AreNotices round l l' notice rest good info (inl unset)
        (inr (i, f, lt, inr (m', s, e, set, tells))) later =
      absurd (ground (arith, unset, set))
  next-AreNotices round l l' notice rest good info (inr mem)
        (inr (i, f, lt, inr (m', s, e, set, tells))) later =
      let same : m' ≡ m = ground (arith, mem, set) in
      let told : Tells members t.info i m s =
        subst (λ x. Tells members x i m s) info
          (subst (λ x. Tells members (let u = l.teller in u.info) i x s) same tells) in
      subst (λ n. AreNotices members t m (end_of t.info l.last_index) (add_notice n rest)) (sym e)
        (told-AreNotices i s l.last_index rest good lt told
          (subst (λ x. AreNotices members t m (end_of t.info x) rest) f later))

  -- Whatever the rounds meet, if only the member `m` subscribes: the notices that it gets are at strictly
  -- increasing times after the last election, so none is sent twice, and at each of them every committee
  -- that remembers only true results accepts a block of `m`. This holds for a full committee whose slots
  -- last some seconds, from a genesis time of whole seconds on.
  pub update-AreNotices :
      (rounds : List Round) (l : Loop) (times : List ℕ)
      → IsCommittee
      → AreTrue members l.teller
      → (let u = l.teller in u.info ≡ t.info)
      → All (λ r. (r.mem ≡ none) ⊎ (r.mem ≡ some m)) rounds
      → update members rounds l ≡ ok times
      → AreNotices members t m (end_of t.info l.last_index) times
  unfolding update
  update-AreNotices [] l times good all info mems e =
      subst (AreNotices members t m (end_of t.info l.last_index)) {x = []} (ground (arith, e)) tt
  update-AreNotices (round ∷ rounds) l times good all info (mem, mems) e =
      let (l', notice, rest, f, h, same) = update_cases members round rounds l times e in
      let (info', all', what) = update_round-IsRound members round l (l', notice) all f in
      let later = update-AreNotices rounds l' rest good all' (info' ∙ info) mems h in
      subst (AreNotices members t m (end_of t.info l.last_index)) (sym same)
        (next-AreNotices round l l' notice rest good info mem what later)

-- ===== src/Consensus/Update/Memory.antt =====
-- What the teller remembers through a round.
use naive_vite.Base.{
  ℕ, ◌-◌, ◌≡◌, refl, sym, subst, inl, inr, List, [], ◌∷◌, All, All-insert, All-lookup, Table, ltb,
  Bool-cases, Option-cases, lookup, arith,
}
use naive_vite.Types.{Address}
use naive_vite.Consensus.{ElectionResult, gen_plan, Teller, election_index, remove_previous}
use naive_vite.Consensus.Plan.{IsTrue, known_index, new_index}
use naive_vite.Consensus.Update.{Loop, hour, clear}

-- Each entry of the memory is the election of its index.
abbrev pub AreTrue : List Address → Teller → Type 0
AreTrue members t = All (λ e. e.1 ≡ gen_plan t.info e.0 members) t.election_his

AreTrue-IsTrue : (members : List Address) (t : Teller) → AreTrue members t → IsTrue members t
AreTrue-IsTrue members t all i r e =
    All-lookup (λ e. e.1 ≡ gen_plan t.info e.0 members) t.election_his i r all e

-- The answer of the teller, and the teller that it leaves.
abbrev pub Answers : List Address → Teller → ℕ → ElectionResult × Teller → Type 0
Answers members t i (r, t') =
    (r ≡ gen_plan t.info i members) × AreTrue members t' × (t'.info ≡ t.info)

pub election_index-Answers :
    (members : List Address) (t : Teller) (i : ℕ)
    → AreTrue members t
    → Answers members t i (election_index members t i)
election_index-Answers members t i all = elim (Option-cases (lookup i t.election_his)) [
  | inr (r, e) ↦
      subst (Answers members t i) (sym (known_index members t i r e))
        (AreTrue-IsTrue members t all i r e, all, refl)
  | inl e ↦ subst (Answers members t i) (sym (new_index members t i e)) (
    refl,
    All-insert (λ e. e.1 ≡ gen_plan t.info e.0 members) i (gen_plan t.info i members) t.election_his
        refl all,
    refl,
  )
]

remove_previous-All :
    (P : ℕ × ElectionResult → Type 0) (rtime : ℕ) (his : Table ElectionResult)
    → All P his
    → All P (remove_previous rtime his).1
unfolding remove_previous
remove_previous-All P rtime [] all = tt
remove_previous-All P rtime ((k, v) ∷ rest) (p, all) =
    let kept = remove_previous-All P rtime rest all in
    elim (Bool-cases (ltb v.e_time rtime)) [
      | inl e ↦ subst (All P) {x = (remove_previous rtime rest).1} (ground (arith, e)) kept
      | inr e ↦
          subst (All P) {x = (k, v) ∷ (remove_previous rtime rest).1} (ground (arith, e)) (p, kept)
    ]

-- What the end of a round leaves.
abbrev pub IsCleared : List Address → Loop → Loop → Type 0
IsCleared members l l' =
    let t = l.teller in
    let t' = l'.teller in (l'.last_index ≡ l.last_index) × (t'.info ≡ t.info) × AreTrue members t'

pub clear-IsCleared :
    (members : List Address) (now : ℕ) (l : Loop)
    → AreTrue members l.teller
    → IsCleared members l (clear now l)
unfolding clear
clear-IsCleared members now l all =
    let t = l.teller in
    let remove_time = now - hour in
    let left = record t { election_his = (remove_previous remove_time t.election_his).1 } in
    let forgets = record l { last_remove_time = remove_time; teller = left } in
    elim (Bool-cases (ltb l.last_remove_time remove_time)) [
      | inr e ↦
          subst (IsCleared members l) {x = l} {y = clear now l} (ground (arith, e))
            (refl, refl, all)
      | inl e ↦ subst (IsCleared members l) {x = forgets} {y = clear now l} (ground (arith, e)) (
        refl,
        refl,
        remove_previous-All (λ e. e.1 ≡ gen_plan t.info e.0 members) remove_time t.election_his all,
      )
    ]

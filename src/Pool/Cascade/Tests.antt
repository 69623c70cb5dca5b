-- ===== src/Pool/Cascade/Tests.antt =====
-- Account 7 sends to account 8, which sends back: what a rollback of 7 takes with it.
use naive_vite.Base.{
  ℕ, ◌≡◌, ◌↔◌, ◌≤◌, refl, sym, ap, subst, inl, inr, In, ◌==◌, Option, none, some, [], ◌∷◌, ok,
  lookup, insert, if◌then◌else◌, Bool-cases, arith, Table,
}
use naive_vite.Base.Int.{ℤ, pos, ◌==ℤ◌, ◌-ℤ◌, leb_ℤ}
use naive_vite.Types.{Address, AccountHashH, AccountStateBlock, send, received, new_account_hash_h}
use naive_vite.Samples.{first, second, genesis_block, next_block}
use naive_vite.Verifier.Reader.{ChainReader}
use naive_vite.Pool.Missing.{try_rollback, sends_above}
use naive_vite.Pool.Waiting.{can_add, add_wait_rollback, put_wait_rollback}
use naive_vite.Pool.Cascade.{
  head_on_disk, on_disk, sends_of, take_tasks, point_of, put_task, next_tasks, wait_rounds,
  get_wait_rollback_accounts,
}
use naive_vite.Pool.Cascade.Rounds.{Waits}
use naive_vite.Pool.Cascade.Reached.{Walk, AreStored, AreTasks, get_wait_rollback_accounts_iff}
use naive_vite.Pool.Cascade.Ends.{IsAnswered, IsGrowing, get_wait_rollback_accounts-ends}

abbrev receipt : AccountStateBlock
receipt = record second {
  height = pos 1;
  hash = 801;
  signer = 8;
  block_type = received;
  source_hash = 101;
}

abbrev reply : AccountStateBlock
reply = record receipt { height = pos 2; hash = 802; block_type = send; to = 7 }

abbrev reply_receipt : AccountStateBlock
reply_receipt = record second {
  height = pos 2;
  hash = 102;
  block_type = received;
  source_hash = 802;
  to = 7;
}

abbrev at : Address → ℤ → Option AccountStateBlock
at a h =
    if a == 7
    then (if h ==ℤ pos 0
        then some first
        else (if h ==ℤ pos 1
            then some second
            else (if h ==ℤ pos 2 then some reply_receipt else none)))
    else (if a == 8
        then (if h ==ℤ pos 1 then some receipt else (if h ==ℤ pos 2 then some reply else none))
        else none)

abbrev chains : ChainReader
chains = record {
  genesis_snapshot = genesis_block;
  head_snapshot = some next_block;
  get_snapshot_by_hash_h = λ _. some next_block;
  head_account = λ a. if a == 7 then some reply_receipt else some reply;
  get_account_by_hash_h = λ _ _. none;
  get_account_by_hash = λ _ _. none;
  get_account_by_height = at;
  get_account_by_source_hash = λ _ h.
      ok (if h == 101 then some receipt else (if h == 802 then some reply_receipt else none));
}

abbrev low : AccountHashH
low = record { hash = 100; height = pos 0; addr = 7 }

abbrev high : AccountHashH
high = record { hash = 102; height = pos 2; addr = 7 }

abbrev other : AccountHashH
other = record { hash = 801; height = pos 1; addr = 8 }

program : Unit {0}
unfolding get_wait_rollback_accounts wait_rounds next_tasks put_task point_of take_tasks sends_of
    on_disk head_on_disk try_rollback sends_above can_add add_wait_rollback put_wait_rollback lookup
    insert new_account_hash_h ◌-ℤ◌
program = tt

-- The rollback of account 7 to the height 0 comes back to it at the height 2, which then replaces 0.
comes_back :
    get_wait_rollback_accounts chains 4 ((7, low) ∷ []) ≡ some (ok ((7, high) ∷ (8, other) ∷ []))
unfolding program
comes_back = refl

chains-AreStored : AreStored chains
unfolding on_disk
chains-AreStored s x e = elim (Bool-cases (s.hash == 101)) [
  | inl h ↦
      let same : receipt ≡ x = ground (arith, e, h) in
      subst (λ y. on_disk chains y.signer y.height ≡ some y) same refl
  | inr h ↦ elim (Bool-cases (s.hash == 802)) [
    | inl g ↦
        let same : reply_receipt ≡ x = ground (arith, e, h, g) in
        subst (λ y. on_disk chains y.signer y.height ≡ some y) same refl
    | inr g ↦ absurd (ground (arith, e, h, g))
  ]
]

tasks-AreTasks : AreTasks chains ((7, low) ∷ [])
unfolding on_disk lookup
tasks-AreTasks = ((refl, (refl, (first, refl, refl))), tt)

get_wait_rollback_accounts_iff_example : Waits ((7, high) ∷ (8, other) ∷ []) 8 ↔ (
    (k : ℕ) × (t : Address × AccountHashH) × (q : AccountHashH) × In t ((7, low) ∷ [])
    × Walk chains k t.1 q
    × (q.addr ≡ 8))
get_wait_rollback_accounts_iff_example =
    get_wait_rollback_accounts_iff chains ((7, low) ∷ []) ((7, high) ∷ (8, other) ∷ []) 4 8
      chains-AreStored tasks-AreTasks comes_back

abbrev time : Address → ℤ → ℕ
time a h =
    if a == 7
    then (if leb_ℤ h (pos 0) then 0 else (if h ==ℤ pos 1 then 1 else 4))
    else (if leb_ℤ h (pos 1) then 2 else 3)

time-IsGrowing : IsGrowing chains time
time-IsGrowing a i j l = ground (arith, l)

time_bound : (a : Address) (i : ℤ) → time a i ≤ 4
time_bound a i = ground arith

chains-IsAnswered : IsAnswered chains time
unfolding on_disk
chains-IsAnswered a i s at kind = elim (Bool-cases (a == 7)) [
  | inl seven ↦ elim (Bool-cases (i ==ℤ pos 1)) [
    | inl one ↦
        let same : second ≡ s = ground (arith, at, seven, one) in
        (
          receipt,
          ap (λ t. chains.get_account_by_source_hash t.to t.hash) (sym same),
          ground (arith, seven, one),
        )
    | inr one ↦ absurd (ground (arith, at, seven, one, kind))
  ]
  | inr seven ↦ elim (Bool-cases (i ==ℤ pos 2)) [
    | inl two ↦
        let same : reply ≡ s = ground (arith, at, seven, two) in
        (
          reply_receipt,
          ap (λ t. chains.get_account_by_source_hash t.to t.hash) (sym same),
          ground (arith, at, seven, two),
        )
    | inr two ↦ absurd (ground (arith, at, seven, two, kind))
  ]
]

get_wait_rollback_accounts-ends_example :
    (wait : Table AccountHashH) × (get_wait_rollback_accounts chains 5 ((7, low) ∷ [])
      ≡ some (ok wait))
get_wait_rollback_accounts-ends_example =
    get_wait_rollback_accounts-ends chains time 4 ((7, low) ∷ []) chains-IsAnswered time-IsGrowing
      time_bound

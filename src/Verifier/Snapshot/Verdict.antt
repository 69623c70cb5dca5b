-- ===== src/Verifier/Snapshot/Verdict.antt =====
-- What the verdict on a snapshot block means for the accounts that it lists.
use mathlib.Core.List.{append-nil, append_assoc}
use naive_vite.Base.{
  ap, ◌∙◌, ℕ, ◌+◌, ◌≡◌, ◌≢◌, ◌↔◌, refl, none, some, List, [], ◌∷◌, ◌++◌, ◌==◌, length, All, Any,
  insert, false, sym, inl, inr, Option-cases, Bool-cases, arith, ◌<◌,
}
use naive_vite.Base.Int.{ℤ, pos}
use naive_vite.Types.{Address, Hash, AccountHashH, SnapshotBlock, AccountStateBlock, FetchRequest}
use naive_vite.Verifier.Reader.{ChainReader}
use naive_vite.Verifier.Task.{
  PendingTask, account_pending, pending, fail, success, requests, verify_task, request, requests_of,
  VerifyTask, pending_account,
}
use naive_vite.Verifier.Snapshot.{Progress, verify_accounts, verify_referred}

requests_of-append :
    (ps qs : List PendingTask) → requests_of (ps ++ qs) ≡ requests_of ps ++ requests_of qs
unfolding requests_of
requests_of-append [] qs = refl
requests_of-append (p ∷ ps) qs = ap (λ xs. request p ∷ xs) (requests_of-append ps qs)

requests-pending_account :
    (t : VerifyTask) (addr : Address) (height : ℤ) (hash : Hash)
    → requests (verify_task (pending_account t addr height hash (pos 1)))
      ≡ requests (verify_task t)
        ++ (record { chain = addr; height = height; hash = hash; prev_cnt = pos 1 } ∷ [])
unfolding requests pending_account requests_of request
requests-pending_account t addr height hash = requests_of-append t.tasks (
    account_pending false (record { chain = addr; height = height; hash = hash; prev_cnt = pos 1 })
    ∷ [])

module _ (r : ChainReader) where
  -- The account's block is on its chain, with the hash that is listed.
  abbrev pub IsPresent : AccountHashH → Type 0
  IsPresent v =
      (b : AccountStateBlock) × (r.get_account_by_height v.addr v.height ≡ some b)
      × (b.hash ≡ v.hash)

  -- Another block is on the account's chain in place of the one that is listed.
  abbrev pub IsForked : AccountHashH → Type 0
  IsForked v =
      (b : AccountStateBlock) × (r.get_account_by_height v.addr v.height ≡ some b)
      × (b.hash ≢ v.hash)

  bounded :
      (total : ℕ) (vs : List AccountHashH) (p : Progress)
      → p.i + length vs < total
      → (verify_accounts r total vs p).result ≢ success
  unfolding verify_accounts
  bounded total [] p h = ground arith
  bounded total (v ∷ vs) p h = elim (Option-cases (r.get_account_by_height v.addr v.height)) [
    | inl e ↦
        rw (e, verify_accounts)
          (bounded total vs
            (record p {
              results = insert v.addr pending p.results;
              task = pending_account p.task v.addr v.height v.hash (pos 1);
            })
            (ground arith))
    | inr (b, e) ↦
        rw (e, verify_accounts)
          (let rest =
              bounded total vs (record p { i = p.i + 1; results = insert v.addr success p.results })
                (ground arith) in
            ground (arith, rest))
  ]

  abbrev after_missing : AccountHashH → Progress → Progress
  after_missing v p = record p {
    results = insert v.addr pending p.results;
    task = pending_account p.task v.addr v.height v.hash (pos 1);
  }

  abbrev after_present : AccountHashH → Progress → Progress
  after_present v p = record p { i = p.i + 1; results = insert v.addr success p.results }

  success-IsPresent :
      (total : ℕ) (vs : List AccountHashH) (p : Progress)
      → p.i + length vs ≡ total
      → (verify_accounts r total vs p).result ≡ success
      → All IsPresent vs
  unfolding verify_accounts
  success-IsPresent total [] p h f = tt
  success-IsPresent total (v ∷ vs) p h f =
      elim (Option-cases (r.get_account_by_height v.addr v.height)) [
        | inl e ↦ absurd (bounded total vs (after_missing v p) (ground arith) (ground arith))
        | inr (b, e) ↦ (
          (b, e, ground arith),
          success-IsPresent total vs (after_present v p) (ground arith) (ground arith),
        )
      ]

  if_present :
      (total : ℕ) (vs : List AccountHashH) (p : Progress)
      → p.i + length vs ≡ total
      → All IsPresent vs
      → (verify_accounts r total vs p).result ≡ success
  unfolding verify_accounts
  if_present total [] p h f = ground arith
  if_present total (v ∷ vs) p h ((b, e, same), f) =
      let rest = if_present total vs (after_present v p) (ground arith) f in
      ground (arith, e, rest, same)

  abbrev start : ℤ → ℤ → Progress
  start now version = record {
    i = 0;
    results = [];
    task = record { tasks = []; version = version; failed = false; t = now };
  }

  -- A snapshot block is verified with success exactly if each account that it lists has the listed
  -- block on its chain, by height and hash.
  pub verify_referred_success :
      (now version : ℤ) (block : SnapshotBlock)
      → ((verify_referred r now version block).result ≡ success) ↔ All IsPresent block.accounts
  unfolding verify_referred
  verify_referred_success now version block =
      let p = start now version in
      (
        success-IsPresent (length block.accounts) block.accounts p (omega arith),
        if_present (length block.accounts) block.accounts p (omega arith),
      )

  failed_forks :
      (total : ℕ) (vs : List AccountHashH) (p : Progress)
      → (verify_accounts r total vs p).result ≡ fail
      → Any IsForked vs
  unfolding verify_accounts
  failed_forks total [] p f = absurd (ground arith)
  failed_forks total (v ∷ vs) p f = elim (Option-cases (r.get_account_by_height v.addr v.height)) [
    | inl e ↦ inr (failed_forks total vs (after_missing v p) (ground arith))
    | inr (b, e) ↦ elim (Bool-cases (b.hash == v.hash)) [
      | inl same ↦ inr (failed_forks total vs (after_present v p) (ground arith))
      | inr differs ↦ inl (b, e, ground arith)
    ]
  ]

  forks_fail :
      (total : ℕ) (vs : List AccountHashH) (p : Progress)
      → Any IsForked vs
      → (verify_accounts r total vs p).result ≡ fail
  unfolding verify_accounts
  forks_fail total [] p fork = absurd fork
  forks_fail total (v ∷ vs) p (inl (b, e, differs)) = ground (arith, e, differs)
  forks_fail total (v ∷ vs) p (inr later) =
      elim (Option-cases (r.get_account_by_height v.addr v.height)) [
        | inl e ↦
            let rest = forks_fail total vs (after_missing v p) later in ground (arith, e, rest)
        | inr (b, e) ↦
            let rest = forks_fail total vs (after_present v p) later in ground (arith, e, rest)
      ]

  -- A snapshot block is refused exactly if, for an account that it lists, the account's chain has
  -- another block at the listed height, even where blocks of other accounts are missing.
  pub verify_referred_fail :
      (now version : ℤ) (block : SnapshotBlock)
      → ((verify_referred r now version block).result ≡ fail) ↔ Any IsForked block.accounts
  unfolding verify_referred
  verify_referred_fail now version block =
      let p = start now version in
      (
        failed_forks (length block.accounts) block.accounts p,
        forks_fail (length block.accounts) block.accounts p,
      )

  -- The requests for the listed blocks that the chains do not have, in the order of the list.
  abbrev pub wanted : AccountHashH → List FetchRequest
  wanted v = elim (r.get_account_by_height v.addr v.height) [
    | none ↦ record { chain = v.addr; height = v.height; hash = v.hash; prev_cnt = pos 1 } ∷ []
    | some b ↦ []
  ]

  abbrev pub missing : List AccountHashH → List FetchRequest
  missing [] = []
  missing (v ∷ vs) = wanted v ++ missing vs

  missing-none :
      (v : AccountHashH) (vs : List AccountHashH)
      → r.get_account_by_height v.addr v.height ≡ none
      → missing (v ∷ vs)
        ≡ (record { chain = v.addr; height = v.height; hash = v.hash; prev_cnt = pos 1 } ∷ [])
          ++ missing vs
  missing-none v vs e = ground (arith, e)

  missing-some :
      (v : AccountHashH) (vs : List AccountHashH) (b : AccountStateBlock)
      → r.get_account_by_height v.addr v.height ≡ some b
      → missing (v ∷ vs) ≡ missing vs
  missing-some v vs b e = ground (arith, e)

  pending_asks :
      (total : ℕ) (vs : List AccountHashH) (p : Progress)
      → (verify_accounts r total vs p).result ≡ pending
      → (t : VerifyTask) × ((verify_accounts r total vs p).task ≡ some t)
        × (requests (verify_task t) ≡ requests (verify_task p.task) ++ missing vs)
  unfolding verify_accounts
  pending_asks total [] p f =
      (p.task, ground arith, sym (append-nil (requests (verify_task p.task))))
  pending_asks total (v ∷ vs) p f = elim (Option-cases (r.get_account_by_height v.addr v.height)) [
    | inl e ↦
        let (t, at, asked) = pending_asks total vs (after_missing v p) (ground arith) in
        (
          t,
          ground arith,
          asked
              ∙ rw (missing-none v vs e, requests-pending_account)
                  (append_assoc (requests (verify_task p.task))
                    (record { chain = v.addr; height = v.height; hash = v.hash; prev_cnt = pos 1 }
                      ∷ [])
                    (missing vs)),
        )
    | inr (b, e) ↦
        let (t, at, asked) = pending_asks total vs (after_present v p) (ground arith) in
        (t, ground arith, rw (missing-some v vs b e) asked)
  ]

  -- A snapshot block that is neither accepted nor refused asks for exactly the listed blocks that
  -- the chains do not have, each once and in the order of the list.
  pub verify_referred-requests :
      (now version : ℤ) (block : SnapshotBlock)
      → (verify_referred r now version block).result ≡ pending
      → (t : VerifyTask) × ((verify_referred r now version block).task ≡ some t)
        × (requests (verify_task t) ≡ missing block.accounts)
  unfolding verify_referred requests requests_of
  verify_referred-requests now version block f =
      pending_asks (length block.accounts) block.accounts (start now version) f

-- ===== src/Pool/Rounds/Fetched.antt =====
-- What a task makes the pools ask for.
use naive_vite.Base.{none, false, true, Bool}
use naive_vite.Base.{
  ◌≡◌, refl, sym, ap, ◌∙◌, inl, inr, ◌==◌, some, List, [], ◌∷◌, ◌++◌, if◌then◌else◌, lookup, insert,
  lookup-insert, Option-cases, Bool-cases, arith,
}
use naive_vite.Base.Int.{ℤ}
use naive_vite.Types.{Address, FetchRequest, SnapshotBlock, empty_str}
use naive_vite.Chain.Block.{BlockChain}
use naive_vite.Pool.Chain.{init_forked}
use naive_vite.Pool.Disk.{ChainPool}
use naive_vite.Pool.Accounts.{
  AccountPools, fetch, touch, self_pending_ac, put_pending_ac, new_account_pool,
}
use naive_vite.Pool.Rounds.{exist_in_current, exists, fetch_one, fetch_for_task}

append-nil {ℓ} : {A : Type ℓ} (xs : List A) → xs ++ [] ≡ xs
append-nil [] = refl
append-nil (x ∷ xs) = ap (λ l. x ∷ l) (append-nil xs)

append_assoc {ℓ} : {A : Type ℓ} (xs ys zs : List A) → (xs ++ ys) ++ zs ≡ xs ++ (ys ++ zs)
append_assoc [] ys zs = refl
append_assoc (x ∷ xs) ys zs = ap (λ l. x ∷ l) (append_assoc xs ys zs)

module _ (genesis : SnapshotBlock) (version : ℤ) (pending_sc : ChainPool BlockChain) where
  -- Whether any block waits in the pool's current chain at the height.
  abbrev waits_in : ChainPool BlockChain → ℤ → Bool
  waits_in p height =
      let c = p.current in elim (c.height_blocks height) [ none ↦ false | some _ ↦ true ]

  -- The same of the pool that a request is for: that of the snapshot chain, or that of the account, where
  -- nothing waits if the account has none.
  abbrev pub waits : AccountPools → FetchRequest → Bool
  waits ps r =
      if r.chain == empty_str
      then waits_in pending_sc r.height
      else (elim (lookup r.chain ps.pending_ac) [ none ↦ false | some p ↦ waits_in p r.height ])

  -- The requests at whose height no block waits.
  abbrev pub unanswered : AccountPools → List FetchRequest → List FetchRequest
  unanswered ps [] = []
  unanswered ps (r ∷ rs) = if waits ps r then unanswered ps rs else r ∷ unanswered ps rs

  exists-waits :
      (ps : AccountPools) (r : FetchRequest) → exists genesis version pending_sc ps r ≡ waits ps r
  unfolding exists exist_in_current self_pending_ac new_account_pool init_forked
  exists-waits ps r = ground arith

  abbrev missing : AccountPools → List FetchRequest → List FetchRequest
  missing ps [] = []
  missing ps (r ∷ rs) =
      if exists genesis version pending_sc ps r then missing ps rs else r ∷ missing ps rs

  missing-unanswered :
      (ps : AccountPools) (rs : List FetchRequest) → missing ps rs ≡ unanswered ps rs
  missing-unanswered ps [] = refl
  missing-unanswered ps (r ∷ rs) =
      ap (λ b. if b then missing ps rs else r ∷ missing ps rs) (exists-waits ps r)
      ∙ ap (λ l. if waits ps r then l else r ∷ l) (missing-unanswered ps rs)

  abbrev pool_of : AccountPools → Address → ChainPool BlockChain
  pool_of ps a = self_pending_ac genesis version ps a

  same_disk : (ps : AccountPools) (a : Address) → (pool_of ps a).disk ≡ ps.bc
  unfolding self_pending_ac new_account_pool
  same_disk ps a = elim (Option-cases (lookup a ps.pending_ac)) [
    | inl e ↦ ground (arith, e)
    | inr (p, e) ↦ ground (arith, e)
  ]

  -- The pools after the account's pool has been put among them.
  abbrev with_pool : AccountPools → Address → AccountPools
  with_pool ps a = record ps { pending_ac = insert a (pool_of ps a) ps.pending_ac }

  touched : (ps : AccountPools) (a : Address) → touch genesis version ps a ≡ with_pool ps a
  unfolding touch put_pending_ac
  touched ps a =
      ap (λ bc. record ps { bc = bc; pending_ac = insert a (pool_of ps a) ps.pending_ac })
        (same_disk ps a)

  looked_up :
      (ps : AccountPools) (a : Address) (p : ChainPool BlockChain)
      → lookup a ps.pending_ac ≡ some p
      → pool_of ps a ≡ record p { disk = ps.bc }
  unfolding self_pending_ac
  looked_up ps a p e = ground (arith, e)

  untouched :
      (ps : AccountPools) (a b : Address)
      → lookup b (insert a (pool_of ps a) ps.pending_ac) ≡ lookup b ps.pending_ac
      → pool_of (with_pool ps a) b ≡ pool_of ps b
  unfolding self_pending_ac
  untouched ps a b e = ground (arith, e)

  pool_made :
      (ps : AccountPools) (a b : Address) → pool_of (touch genesis version ps a) b ≡ pool_of ps b
  pool_made ps a b = ap (λ q. pool_of q b) (touched ps a) ∙ elim (Bool-cases (a == b)) [
    | inr other ↦
        untouched ps a b (lookup-insert a b (pool_of ps a) ps.pending_ac ∙ ground (arith, other))
    | inl same ↦
        let eq : a ≡ b = ground (arith, same) in
        looked_up (with_pool ps a) b (pool_of ps a)
          (lookup-insert a b (pool_of ps a) ps.pending_ac ∙ ground (arith, same))
        ∙ ap (λ bc. record (pool_of ps a) { disk = bc }) (sym (same_disk ps a))
        ∙ ap (pool_of ps) eq
  ]

  -- What is asked for, and the pools that are made, hide no block.
  exists_fetched :
      (ps : AccountPools) (r q : FetchRequest)
      → exists genesis version pending_sc (fetch ps r) q ≡ exists genesis version pending_sc ps q
  unfolding exists fetch self_pending_ac
  exists_fetched ps r q = refl

  exists_touched :
      (ps : AccountPools) (a : Address) (q : FetchRequest)
      → exists genesis version pending_sc (touch genesis version ps a) q
        ≡ exists genesis version pending_sc ps q
  unfolding exists
  exists_touched ps a q =
      ap (λ p. if q.chain == empty_str then exist_in_current pending_sc q else exist_in_current p q)
        (pool_made ps a q.chain)

  exists_one :
      (ps : AccountPools) (r q : FetchRequest)
      → exists genesis version pending_sc (fetch_one genesis version pending_sc ps r) q
        ≡ exists genesis version pending_sc ps q
  unfolding fetch_one
  exists_one ps r q = elim (Bool-cases (r.chain == empty_str)) [
    | inl e ↦ elim (Bool-cases (exists genesis version pending_sc ps r)) [
      | inl f ↦ ground (arith, e, f)
      | inr f ↦ ground (arith, e, f, exists_fetched ps r q)
    ]
    | inr e ↦
        let made = touch genesis version ps r.chain in
        elim (Bool-cases (exists genesis version pending_sc ps r)) [
          | inl f ↦ ground (arith, e, f, exists_touched ps r.chain q)
          | inr f ↦ ground (arith, e, f, exists_touched ps r.chain q, exists_fetched made r q)
        ]
  ]

  fetched_one :
      (ps : AccountPools) (r : FetchRequest)
      → (fetch_one genesis version pending_sc ps r).fetched
        ≡ (if exists genesis version pending_sc ps r then ps.fetched else ps.fetched ++ (r ∷ []))
  unfolding fetch_one fetch touch put_pending_ac
  fetched_one ps r = ground arith

  missing_one :
      (ps : AccountPools) (r : FetchRequest) (rs : List FetchRequest)
      → missing (fetch_one genesis version pending_sc ps r) rs ≡ missing ps rs
  missing_one ps r [] = refl
  missing_one ps r (q ∷ rs) =
      ap
        (λ b.
          if b
          then missing (fetch_one genesis version pending_sc ps r) rs
          else q ∷ missing (fetch_one genesis version pending_sc ps r) rs)
        (exists_one ps r q)
      ∙ ap (λ l. if exists genesis version pending_sc ps q then l else q ∷ l) (missing_one ps r rs)

  fetch_all :
      (rs : List FetchRequest) (ps : AccountPools)
      → (fetch_for_task genesis version pending_sc rs ps).fetched ≡ ps.fetched ++ missing ps rs
  unfolding fetch_for_task
  fetch_all [] ps = sym (append-nil ps.fetched)
  fetch_all (r ∷ rs) ps =
      let now = fetch_one genesis version pending_sc ps r in
      fetch_all rs now
      ∙ ap (λ l. now.fetched ++ l) (missing_one ps r rs)
      ∙ ap (λ l. l ++ missing ps rs) (fetched_one ps r)
      ∙ elim (Bool-cases (exists genesis version pending_sc ps r)) [
        | inl e ↦ ground (arith, e)
        | inr e ↦
            ap (λ b. (if b then ps.fetched else ps.fetched ++ (r ∷ [])) ++ missing ps rs) e
            ∙ append_assoc ps.fetched (r ∷ []) (missing ps rs)
            ∙ ap (λ b. ps.fetched ++ (if b then missing ps rs else r ∷ missing ps rs)) (sym e)
      ]

  -- fetchForTask asks for just those requests of a task at whose height no block waits, whatever the
  -- waiting block's hash is, in the order of the task. What waits is in the current chain of the
  -- snapshot chain's pool or of the account's; for an account without a pool nothing waits.
  pub fetch_for_task-unanswered :
      (rs : List FetchRequest) (ps : AccountPools)
      → (fetch_for_task genesis version pending_sc rs ps).fetched ≡ ps.fetched ++ unanswered ps rs
  fetch_for_task-unanswered rs ps =
      fetch_all rs ps ∙ ap (λ l. ps.fetched ++ l) (missing-unanswered ps rs)

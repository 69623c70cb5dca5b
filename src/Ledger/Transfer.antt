-- ===== src/Ledger/Transfer.antt =====
-- A transfer that the ledger makes, on the pool and the chain of the node itself.
use naive_vite.Chain.Block.{put_ac}
use naive_vite.Base.{
  insert, ◌≡◌, ◌≢◌, refl, sym, ap, subst, ◌∙◌, some, [], ◌∷◌, Result, ok, err, panic, inl, inr, ◌⊎◌,
  arith, Error, Result-cases,
}
use naive_vite.Base.Int.{ℤ, ◌+ℤ◌}
use naive_vite.Types.{Hash, Address, AccountStateBlock, SnapshotBlock, new_account_block_from}
use naive_vite.Chain.Block.{BlockChain, self_ac, head_account}
use naive_vite.Verifier.Reader.{ChainReader, reader}
use naive_vite.Verifier.Task.{VerifyResult-cases, VerifyResult, success, fail, pending}
use naive_vite.Verifier.Account.{AccountBlockVerifyStat, verify_referred, verify_result}
use naive_vite.Pool.Chain.{account_block}
use naive_vite.Pool.Disk.{ChainPool, add_direct_block}
use naive_vite.Pool.Disk.Reader.{account_rw}
use naive_vite.Pool.Accounts.{AccountPools, self_pending_ac, put_pending_ac, touch}
use naive_vite.Pool.Rounds.{seen, add_direct_account_block}
use naive_vite.Syncer.{Net, Sent, broadcast_account_blocks}
use naive_vite.Ledger.{LockedAdd, get_account_balance, request_block, submit, request_account_block}
use naive_vite.Ledger.Receipt.{on_disk, added, head-insert_account_block, balance_at, own_pools}
use naive_vite.Ledger.Spending.{transfer, CanSpend, spends_verified, verified_spends}

module _ (genesis : SnapshotBlock) (time version : ℤ) (ps : AccountPools) (a : Address) where
  put_same :
      (p : ChainPool BlockChain)
      → p.disk ≡ ps.bc
      → (let q = put_pending_ac genesis version ps a p in q.bc ≡ ps.bc)
  unfolding put_pending_ac
  put_same p same = same

  touched : (let q = touch genesis version ps a in q.bc ≡ ps.bc)
  unfolding touch
  touched = put_same (self_pending_ac genesis version ps a) (on_disk genesis time version ps a)

  not_taken :
      (p : ChainPool BlockChain) (block : AccountStateBlock) (v : VerifyResult)
      → v ≢ success
      → (e : Error) × (add_direct_block
            (account_rw a version)
            (λ _ _. v)
            version
            p
            (account_block block)
          ≡ (p, err e))
  unfolding add_direct_block
  not_taken p block pending bad = (Error.pending_something, refl)
  not_taken p block fail bad = (Error.verify_fail, refl)
  not_taken p block success bad = absurd (bad refl)

module _ (genesis : SnapshotBlock) (time version : ℤ) (ps : AccountPools) (a : Address) where
  -- A block that is not verified with success is refused, and the block chain stays, but for the account's
  -- chain, which is in the map of chains from then on.
  abbrev Refused : AccountPools × Result (Unit {0}) → Type 0
  Refused r = (let q = r.0 in q.bc ≡ (seen ps a).bc) × (r.1 ≢ ok tt)

  refused :
      (block : AccountStateBlock)
      → ((stat : AccountBlockVerifyStat)
          → verify_referred (reader genesis ps.bc) time version block ≡ ok stat
          → verify_result stat ≢ success)
      → Refused (add_direct_account_block genesis time version ps a block)
  unfolding add_direct_account_block
  refused block bad =
      elim (Result-cases (verify_referred (reader genesis ps.bc) time version block)) [
        | inl (stat, e) ↦
            let p = self_pending_ac genesis version (seen ps a) a in
            let (x, out) =
              not_taken genesis time version ps a p block (verify_result stat) (bad stat e) in
            subst Refused {x = (put_pending_ac genesis version (seen ps a) a p, err x)}
              {y = add_direct_account_block genesis time version ps a block}
              (ground (arith, e, out))
              (
                put_same genesis time version (seen ps a) a p
                    (on_disk genesis time version (seen ps a) a),
                λ f. cc f,
              )
        | inr (inl (x, e)) ↦
            subst Refused {x = (touch genesis version (seen ps a) a, err x)}
              {y = add_direct_account_block genesis time version ps a block} (ground (arith, e))
              (touched genesis time version (seen ps a) a, λ f. cc f)
        | inr (inr e) ↦
            subst Refused {x = (touch genesis version (seen ps a) a, panic)}
              {y = add_direct_account_block genesis time version ps a block} (ground (arith, e))
              (touched genesis time version (seen ps a) a, λ f. cc f)
      ]

seen_is :
    (ps : AccountPools) (a : Address)
    → (seen ps a).bc ≡ (let bc = ps.bc in record bc { ac = insert a (self_ac bc a) bc.ac })
unfolding seen put_ac
seen_is ps a = refl

-- Whether a verification has passed.
is_verified :
    (r : Result AccountBlockVerifyStat)
    → ((stat : AccountBlockVerifyStat) × (r ≡ ok stat) × (verify_result stat ≡ success))
      ⊎ ((stat : AccountBlockVerifyStat) → r ≡ ok stat → verify_result stat ≢ success)
is_verified (ok stat) = elim (VerifyResult-cases (verify_result stat)) [
  | inl e ↦ inr (λ x f g. ground (arith, e, f, g))
  | inr (inl e) ↦ inr (λ x f g. ground (arith, e, f, g))
  | inr (inr e) ↦ inl (stat, refl, e)
]
is_verified (err x) = inr (λ stat f g. ground (arith, f))
is_verified panic = inr (λ stat f g. ground (arith, f))

module _ (genesis : SnapshotBlock) (time version : ℤ) (calculate : AccountStateBlock → Hash)
    (net : Net) (now : ℤ) (from to : Address) (amount : ℤ) (adds : LockedAdd AccountPools) where
  -- The ledger's call.
  abbrev pub requested : AccountPools → AccountPools × Sent × Result (Unit {0})
  requested ps =
      request_account_block (own_pools genesis time version calculate net now from to adds) net
        calculate (reader genesis ps.bc) now from to amount ps

  block_is :
      (r : ChainReader) (head : SnapshotBlock)
      → r.head_snapshot ≡ some head
      → request_block calculate r now from to amount
        ≡ ok (transfer calculate now from to amount head (r.head_account from))
  unfolding request_block
  block_is r head at = ground (arith, at)

  submitted :
      (ps : AccountPools) (block : AccountStateBlock) (r : AccountPools × Result (Unit {0}))
      → request_block calculate (reader genesis ps.bc) now from to amount ≡ ok block
      → add_direct_account_block genesis time version ps from block ≡ r
      → ((requested ps).0 ≡ r.0) × ((requested ps).2 ≡ r.1)
  unfolding request_account_block submit
  submitted ps block r made run = (ground (arith, made, run), ground (arith, made, run))

  sends :
      (ps ps' : AccountPools) (block : AccountStateBlock)
      → request_block calculate (reader genesis ps.bc) now from to amount ≡ ok block
      → add_direct_account_block genesis time version ps from block ≡ (ps', ok tt)
      → (requested ps).1 ≡ (broadcast_account_blocks net from (block ∷ [])).1
  unfolding request_account_block submit
  sends ps ps' block made run = ground (arith, made, run)

  sends_nothing :
      (ps : AccountPools) (block : AccountStateBlock)
      → request_block calculate (reader genesis ps.bc) now from to amount ≡ ok block
      → (add_direct_account_block genesis time version ps from block).1 ≢ ok tt
      → (requested ps).1 ≡ []
  unfolding request_account_block submit
  sends_nothing ps block made bad =
      elim (Result-cases (add_direct_account_block genesis time version ps from block).1) [
        | inl (_, e) ↦ absurd (bad e)
        | inr (inl (x, e)) ↦ ground (arith, made, e)
        | inr (inr e) ↦ ground (arith, made, e)
      ]

  new_balance :
      (r : ChainReader) (head : SnapshotBlock) (last : AccountStateBlock)
      → r.head_account from ≡ some last
      → (let b = transfer calculate now from to amount head (r.head_account from) in
          b.amount ≡ get_account_balance r from +ℤ amount)
  unfolding get_account_balance new_account_block_from
  new_balance r head last at = ground (arith, at)

  -- The transfer is the account's head, and is sent to the peers; the balance changes by its amount.
  abbrev pub Sends : AccountPools → SnapshotBlock → Type 0
  Sends ps head =
      let r = requested ps in
      let bc = (let q = r.0 in q.bc) in
      CanSpend calculate now from to amount head (reader genesis ps.bc)
      × (r.2 ≡ ok tt)
      × (block : AccountStateBlock) × (head_account bc from ≡ some block)
      × (r.1 ≡ (broadcast_account_blocks net from (block ∷ [])).1)
      × (get_account_balance (reader genesis bc) from
          ≡ get_account_balance (reader genesis ps.bc) from +ℤ amount)

  abbrev pub Refuses : AccountPools → SnapshotBlock → Type 0
  Refuses ps head =
      let r = requested ps in
      (¬ CanSpend calculate now from to amount head (reader genesis ps.bc))
      × (r.2 ≢ ok tt)
      × (let q = r.0 in
          let bc = ps.bc in q.bc ≡ record bc { ac = insert from (self_ac bc from) bc.ac })
      × (r.1 ≡ [])

  -- Where the snapshot head is stored, RequestAccountBlock succeeds exactly if the account has a head no
  -- later than the snapshot head, the amount is not above zero, and with it the balance stays above zero.
  -- Then the transfer is the account's head and is sent to the peers, and the balance changes by its
  -- amount. Otherwise the call does not succeed, nothing is sent, and the block chain stays as it is, but
  -- that the sender's chain is put into the map of chains if it was not there.
  pub request_account_block_cases :
      (ps : AccountPools) (head : SnapshotBlock)
      → (let r = reader genesis ps.bc in r.head_snapshot ≡ some head)
      → (let r = reader genesis ps.bc in
          r.get_snapshot_by_hash_h (record { hash = head.hash; height = head.height }) ≡ some head)
      → Sends ps head ⊎ Refuses ps head
  request_account_block_cases ps head top known =
      let r = reader genesis ps.bc in
      let block = transfer calculate now from to amount head (r.head_account from) in
      let made = block_is r head top in
      elim (is_verified (verify_referred r time version block)) [
        | inl (stat, e, passed) ↦
            let can =
              verified_spends calculate now from to amount head r time version known
                (stat, e, passed) in
            let (ps', run, bc) = added genesis time version ps from block stat e passed in
            let (left, done) = submitted ps block (ps', ok tt) made run in
            let same = ap (λ (q : AccountPools). q.bc) left ∙ bc in
            let at =
              ap (λ x. head_account x from) same
              ∙ head-insert_account_block (seen ps from).bc from block in
            inl (
              can,
              done,
              block,
              at,
              sends ps ps' block made run,
              balance_at genesis time version calculate net now to from adds
                    (let q = (requested ps).0 in q.bc) block at
                  ∙ new_balance r head can.0 can.1,
            )
        | inr bad ↦
            let out = add_direct_account_block genesis time version ps from block in
            let (same, failed) = refused genesis time version ps from block bad in
            let (left, done) = submitted ps block out made refl in
            inr (
              λ can.
                  let (stat, e, passed) =
                    spends_verified calculate now from to amount head r time version known can in
                  bad stat e passed,
              λ f. failed (sym done ∙ f),
              ap (λ (q : AccountPools). q.bc) left ∙ same ∙ seen_is ps from,
              sends_nothing ps block made failed,
            )
      ]

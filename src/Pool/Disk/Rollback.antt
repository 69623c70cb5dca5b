-- ===== src/Pool/Disk/Rollback.antt =====
-- The rollback of an account's pool, over the removal from the account's chain.
use naive_vite.Base.{
  ◌+◌, ◌≡◌, ◌≢◌, refl, sym, ap, subst, inl, inr, some, none, true, false, lookup-insert, ok, err,
  Error, Result-cases, Bool-cases, arith,
}
use naive_vite.Base.Int.{ℤ, pos, negsuc, pos_part, neg_part, ◌+ℤ◌, ◌-ℤ◌, ltb_ℤ, ◌==ℤ◌, int_laws}
use naive_vite.Types.{Address, AccountStateBlock}
use naive_vite.Chain.Account
use naive_vite.Chain.Account.{AccountChain, Backend}
use naive_vite.Chain.Account.Removal.{remove_chain_keeps_head}
use naive_vite.Chain.Block.{
  BlockChain, self_ac, put_ac, remove_account_head, head_account, get_account_by_hash,
  get_account_by_height,
}
use naive_vite.Pool.Chain.{account_block, add_tail, PoolBlock}
use naive_vite.Pool.Disk.{
  ChainPool, disk_block, disk_head, rollback, rollback_rounds, check_rollback,
}
use naive_vite.Pool.Disk.Reader.{account_rw, account_remove_head}

one_apart : (a b : ℤ) → a ≡ b +ℤ pos 1 → pos_part (a -ℤ b) ≡ 1
unfolding ◌-ℤ◌
one_apart a b e =
    let apart : pos_part a + neg_part b ≡ pos_part b + neg_part a + 1 =
      omega (int_laws, ap pos_part e, ap neg_part e) in
    ground (arith, apart)

put_head :
    (bc : BlockChain) (a : Address) (c : AccountChain) (b : AccountStateBlock) (w : Backend)
    → c.head ≡ some b
    → head_account (record (put_ac bc a c) { backend = w }) a ≡ some b
unfolding head_account self_ac put_ac
put_head bc a c b w head = ground (arith, lookup-insert a a c bc.ac, head)

removed_head :
    (bc bc' : BlockChain) (a : Address) (b : AccountStateBlock)
    → get_account_by_hash bc a b.hash ≡ some b
    → remove_account_head bc a b ≡ ok bc'
    → head_account bc' a ≡ some b
unfolding remove_account_head get_account_by_hash head_account self_ac put_ac
removed_head bc bc' a b stored e =
    elim (Result-cases (Account.remove_chain (self_ac bc a) bc.backend b)) [
      | inl (cw, f) ↦
          let head = (remove_chain_keeps_head (self_ac bc a) bc.backend b cw.0 cw.1 b stored f).0 in
          let same : record (put_ac bc a cw.0) { backend = cw.1 } ≡ bc' = ground (arith, f) in
          subst (λ x. head_account x a ≡ some b) same (put_head bc a cw.0 b cw.1 head)
      | inr (inl (x, f)) ↦ absurd (ground arith)
      | inr (inr f) ↦ absurd (ground arith)
    ]

module _ (a : Address) (version : ℤ) where
  -- After the removal of one block the chain on disk is still at it, and the pool's chain below it.
  behind :
      (p : ChainPool BlockChain) (b : AccountStateBlock) (w : PoolBlock)
      → w.block ≡ account_block b
      → head_account p.disk a ≡ some b
      → check_rollback (account_rw a version) (record p { current = add_tail p.current w })
        ≡ err Error.rollback_fail
  unfolding check_rollback disk_head account_rw add_tail
  behind p b w same head =
      let lower : pos_part (b.height -ℤ pos 1) + neg_part b.height
          ≢ pos_part b.height + neg_part (b.height -ℤ pos 1) =
        omega int_laws in
      subst
        (λ x.
          check_rollback (account_rw a version)
            (record p { current = add_tail p.current (record w { block = x }) })
          ≡ err Error.rollback_fail)
        (sym same) (ground (arith, head, lower))

  read_block :
      (bc : BlockChain) (at : ℤ) (b : AccountStateBlock)
      → ltb_ℤ at (pos 0) ≡ false
      → get_account_by_height bc a at ≡ some b
      → disk_block (account_rw a version) version bc at
        ≡ ok (some (record { block = account_block b; fork_version = version }))
  unfolding disk_block account_rw
  read_block bc at b high found =
      let real : (at ==ℤ negsuc 0) ≡ false = ground arith in ground (arith, real, high, found)

  negative :
      (bc : BlockChain) (at : ℤ)
      → ltb_ℤ at (pos 0) ≡ true
      → disk_block (account_rw a version) version bc at ≡ ok none
  unfolding disk_block
  negative bc at low = ground (arith, low)

  -- One round of the rollback ends in no error only if the block is removed.
  one_round :
      (p : ChainPool BlockChain) (at : ℤ) (b : AccountStateBlock)
      → get_account_by_height p.disk a at ≡ some b
      → get_account_by_hash p.disk a b.hash ≡ some b
      → (p' : ChainPool BlockChain)
      → rollback_rounds (account_rw a version) 1 version at p ≡ (p', ok tt)
      → check_rollback (account_rw a version) p' ≡ err Error.rollback_fail
  unfolding rollback_rounds account_rw account_remove_head
  one_round p at b found stored p' e = elim (Bool-cases (ltb_ℤ at (pos 0))) [
    | inl low ↦ absurd (ground (arith, negative p.disk at low, e))
    | inr high ↦ elim (Result-cases (remove_account_head p.disk a b)) [
      | inl (bc', f) ↦
          let w : PoolBlock = record { block = account_block b; fork_version = version } in
          let left = record p { disk = bc' } in
          let same : record left { current = add_tail p.current w } ≡ p' =
            ground (arith, read_block p.disk at b high found, f, e) in
          subst (λ x. check_rollback (account_rw a version) x ≡ err Error.rollback_fail) same
            (behind left b w refl (removed_head p.disk bc' a b stored f))
      | inr (inl (x, f)) ↦ absurd (ground (arith, read_block p.disk at b high found, f, e))
      | inr (inr f) ↦ absurd (ground (arith, read_block p.disk at b high found, f, e))
    ]
  ]

  -- A rollback of one block of an account's pool never succeeds, where the block stands on the
  -- chain at its height and is found by its hash: what removes it leaves it the head of the chain,
  -- and the check that ends the rollback fails.
  pub rollback_account_fails :
      (p : ChainPool BlockChain) (to : ℤ) (b : AccountStateBlock)
      → p.current.tail_height ≡ to +ℤ pos 1
      → get_account_by_height p.disk a p.current.tail_height ≡ some b
      → get_account_by_hash p.disk a b.hash ≡ some b
      → (rollback (account_rw a version) to version p).1 ≢ ok tt
  unfolding rollback
  rollback_account_fails p to b at found stored e =
      let one : pos_part (p.current.tail_height -ℤ to) ≡ 1 =
        one_apart p.current.tail_height to at in
      elim (Result-cases
        (rollback_rounds (account_rw a version) 1 version p.current.tail_height p).1) [
          | inl (_, f) ↦
              let p' =
                (rollback_rounds (account_rw a version) 1 version p.current.tail_height p).0 in
              let checked =
                one_round p p.current.tail_height b found stored p' (ground (arith, f)) in
              absurd (ground (arith, one, f, checked, e))
          | inr (inl (x, f)) ↦ absurd (ground (arith, one, f, e))
          | inr (inr f) ↦ absurd (ground (arith, one, f, e))
        ]

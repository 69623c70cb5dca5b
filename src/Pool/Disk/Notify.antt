-- ===== src/Pool/Disk/Notify.antt =====
-- The current chain after a block has gone straight to disk.
use naive_vite.Base.{
  ◌≡◌, Bool, refl, sym, ap, subst, ◌∙◌, ◌⊎◌, inl, inr, some, ◌==◌, ◌&&◌, lookup, ok, Result-cases,
  Option-cases, Bool-cases, lookup-insert, arith,
}
use naive_vite.Base.Int.{ℤ, ◌==ℤ◌}
use naive_vite.Verifier.Task.{VerifyResult, VerifyResult-cases, success}
use naive_vite.Pool.Chain.{
  Block, block_height, block_hash, block_pre_hash, ForkedChain, init_forked,
}
use naive_vite.Pool.Chain.Insertion.{IsChain}
use naive_vite.Pool.Disk.{
  ChainRw, ChainPool, current_modify, insert_notify, add_direct_block, disk_head,
}

-- The chain is empty, at the block `b`.
abbrev pub IsAt : ForkedChain → Block → Type 0
IsAt c b = IsChain 0 c × (c.tail_height ≡ block_height b) × (c.tail_hash ≡ block_hash b)

-- The old current chain was empty, or it is among the others.
abbrev pub IsKept : {S : Type 0} → ChainPool S → ChainPool S → Type 0
IsKept p p' =
    (p.current.head_height ≡ p.current.tail_height)
    ⊎ (lookup p.current.chain_id p'.others ≡ some p.current)

module _ {S : Type 0} (rw : ChainRw S) where
  -- Whether the block follows the empty current chain.
  abbrev extends_empty : ForkedChain → Block → Bool
  extends_empty c head =
      c.head_height ==ℤ c.tail_height
      && (c.tail_hash == block_pre_hash head && c.head_hash == block_pre_hash head)

  abbrev moved_to : ForkedChain → Block → ForkedChain
  moved_to c head = record c {
    head_hash = block_hash head;
    tail_hash = block_hash head;
    tail_height = block_height head;
    head_height = block_height head;
  }

  insert_notify_cases :
      (p : ChainPool S) (head : Block)
      → ((insert_notify rw p head ≡ record p { current = moved_to p.current head })
          × (p.current.head_height ≡ p.current.tail_height))
        ⊎ (insert_notify rw p head ≡ current_modify rw p head)
  unfolding insert_notify
  insert_notify_cases p head = elim (Bool-cases (extends_empty p.current head)) [
    | inl e ↦ inl (ground (arith, e), ground (arith, e))
    | inr e ↦ inr (ground (arith, e))
  ]

  Settled : ChainPool S → Block → ChainPool S → Type 0
  Settled p head p' = IsAt p'.current head × IsKept p p' × (p'.disk ≡ p.disk)

  current_modify-Settled :
      (p : ChainPool S) (head : Block) → Settled p head (current_modify rw p head)
  unfolding Settled current_modify init_forked
  current_modify-Settled p head = (
    ((refl, refl), refl, refl),
    inr (lookup-insert p.current.chain_id p.current.chain_id p.current p.others ∙ ground arith),
    refl,
  )

  insert_notify-Settled :
      (p : ChainPool S) (head : Block) → Settled p head (insert_notify rw p head)
  unfolding Settled
  insert_notify-Settled p head = elim (insert_notify_cases p head) [
    | inl (e, empty) ↦ subst (Settled p head) (sym e) (((refl, refl), refl, refl), inl empty, refl)
    | inr e ↦ subst (Settled p head) (sym e) (current_modify-Settled p head)
  ]

  abbrev Added : (S → Block → VerifyResult) → ℤ → ChainPool S → Block → ChainPool S → Type 0
  Added verify version p block p' =
      (verify p.disk block ≡ success)
      × (rw.insert_chain p.disk block version ≡ (p'.disk, ok tt))
      × (head : Block) × (disk_head rw p'.disk ≡ ok (some head))
      × IsAt p'.current head
      × IsKept p p'

  added :
      (verify : S → Block → VerifyResult) (version : ℤ) (p p' : ChainPool S) (block head : Block)
      (s : S)
      → verify p.disk block ≡ success
      → rw.insert_chain p.disk block version ≡ (s, ok tt)
      → disk_head rw s ≡ ok (some head)
      → add_direct_block rw verify version p block ≡ (p', ok tt)
      → Added verify version p block p'
  unfolding add_direct_block Settled
  added verify version p p' block head s v i h e =
      let same : insert_notify rw (record p { disk = s }) head ≡ p' = ground (arith, e, v, i, h) in
      let (at, kept, disk) =
        subst (Settled (record p { disk = s }) head) same
          (insert_notify-Settled (record p { disk = s }) head) in
      (v, i ∙ ap (λ d. (d, ok tt)) (sym disk), head, ap (disk_head rw) disk ∙ h, at, kept)

  -- `AddDirectBlock` returns no error only if the block is verified with success and put on the
  -- chain on disk. The current chain then is empty and stands at the head of the chain on disk, and
  -- no waiting block is lost: the old current chain was empty, or is kept among the others.
  pub add_direct_block_ok :
      (verify : S → Block → VerifyResult) (version : ℤ) (p p' : ChainPool S) (block : Block)
      → add_direct_block rw verify version p block ≡ (p', ok tt)
      → Added verify version p block p'
  unfolding add_direct_block
  add_direct_block_ok verify version p p' block e =
      elim (VerifyResult-cases (verify p.disk block)) [
        | inl v ↦ absurd (ground arith)
        | inr (inl v) ↦ absurd (ground arith)
        | inr (inr v) ↦ elim (Result-cases (rw.insert_chain p.disk block version).1) [
          | inr (inl (x, f)) ↦ absurd (ground arith)
          | inr (inr f) ↦ absurd (ground arith)
          | inl (_, f) ↦
              let s = (rw.insert_chain p.disk block version).0 in
              elim (Result-cases (disk_head rw s)) [
                | inr (inl (x, g)) ↦ absurd (ground arith)
                | inr (inr g) ↦ absurd (ground arith)
                | inl (o, g) ↦ elim (Option-cases o) [
                  | inl n ↦ absurd (ground arith)
                  | inr (head, n) ↦
                      added verify version p p' block head s v (ground arith) (g ∙ ap ok n) e
                ]
              ]
        ]
      ]

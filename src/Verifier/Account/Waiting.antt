-- ===== src/Verifier/Account/Waiting.antt =====
-- What follows from a verdict on an account block: where its money comes from, and what a block that
-- is neither accepted nor refused waits for.
use naive_vite.Base.{
  ap, ◌≡◌, ◌≢◌, ◌⊎◌, refl, inl, inr, some, true, false, ok, [], arith, Bool-cases, Option-cases,
}
use naive_vite.Base.Int.{ℤ, pos, pos_part, neg_part, ◌+ℤ◌, ◌≤ℤ◌, ◌<ℤ◌, int_laws}
use naive_vite.Types.{AccountStateBlock, received, unknown, is_genesis}
use naive_vite.Verifier.Reader.{ChainReader}
use naive_vite.Verifier.Task.{
  VerifyResult, pending, fail, success, verify_task, requests, requests_of, pending_snapshot,
  pending_account,
}
use naive_vite.Verifier.Account.{
  AccountBlockVerifyStat, verify_result, verify_referred, verify_self, check_self_amount,
  check_against, check_genesis, verify_genesis, new_verify_stat, verify_from, verify_snapshot,
}
use naive_vite.Verifier.Account.Rules.{IsFirst, IsLater, IsFunded, IsAnchored}
use naive_vite.Verifier.Account.Verdict.{verify_referred_iff, checked, referred, has_self}

undo_sum : (a m b s : ℤ) → a +ℤ m ≡ b → s +ℤ m ≡ pos 0 → b +ℤ s ≡ a
undo_sum a m b s sum zero_sum =
    rw (← sum) (omega (int_laws, ap pos_part zero_sum, ap neg_part zero_sum))

spent : (s m : ℤ) → s +ℤ m ≡ pos 0 → pos 0 ≤ℤ m → s ≤ℤ pos 0
spent s m zero_sum h = omega (int_laws, ap pos_part zero_sum, ap neg_part zero_sum)

module _ (r : ChainReader) (now version : ℤ) (block : AccountStateBlock) where
  moved :
      block.block_type ≡ received
      → block.height ≢ pos 0
      → IsFirst r block ⊎ IsLater r block
      → IsFunded r block
      → (last : AccountStateBlock) × (r.head_account block.signer ≡ some last)
        × (source : AccountStateBlock) × (r.get_account_by_height block.from block.source_height
            ≡ some source)
        × (source.hash ≡ block.source_hash)
        × (block.amount +ℤ source.modified_amount ≡ last.amount)
        × (source.modified_amount ≤ℤ pos 0)
  moved kind high (inl first) funded = absurd (high first.height)
  moved kind high (inr (_, (last, at, n))) (inl other) = absurd (ground arith)
  moved kind high (inr (_, (last, at, n))) (inr (source, found, agree, src)) = (
    last,
    at,
    source,
    found,
    src.named,
    undo_sum last.amount block.modified_amount block.amount source.modified_amount n.balance
        src.opposite,
    spent source.modified_amount block.modified_amount src.opposite (ground (arith, n.gains)),
  )

  -- If a receipt above height 0 is verified with success, then the balance of the signer's account
  -- rises by just what the source block on the sender's chain spends, and that is not negative.
  pub receipt_moves_amount :
      (stat : AccountBlockVerifyStat)
      → block.block_type ≡ received
      → block.height ≢ pos 0
      → verify_referred r now version block ≡ ok stat
      → verify_result stat ≡ success
      → (last : AccountStateBlock) × (r.head_account block.signer ≡ some last)
        × (source : AccountStateBlock) × (r.get_account_by_height block.from block.source_height
            ≡ some source)
        × (source.hash ≡ block.source_hash)
        × (block.amount +ℤ source.modified_amount ≡ last.amount)
        × (source.modified_amount ≤ℤ pos 0)
  receipt_moves_amount stat kind high e v =
      let (known, valid, funded) =
        (verify_referred_iff r block now version (ground (arith, kind))).0 (stat, e, v) in
      moved kind high valid funded

  -- A block whose type is none of the three constants is held to no sign, needs no source, and may
  -- add any amount to its account: it is verified with success as soon as it follows the head of
  -- its signer's chain and its snapshot block is known.
  pub unknown_type_mints :
      (k : ℤ) (last : AccountStateBlock)
      → block.block_type ≡ unknown k
      → IsAnchored r block
      → r.head_account block.signer ≡ some last
      → last.hash ≡ block.pre_hash
      → last.snapshot_height ≤ℤ block.snapshot_height
      → last.amount +ℤ block.modified_amount ≡ block.amount
      → pos 0 <ℤ block.amount
      → (stat : AccountBlockVerifyStat) × (verify_referred r now version block ≡ ok stat)
        × (verify_result stat ≡ success)
  unknown_type_mints k last kind known at link snapshots balance positive =
      (verify_referred_iff r block now version (ground (arith, kind))).1 (
        known,
        inr (
          inl (ground (arith, kind)),
          (
            last,
            at,
            record {
              link = link;
              snapshots = snapshots;
              spends = inl (ground (arith, kind));
              gains = inl (ground (arith, kind));
              balance = balance;
              positive = positive;
            },
          ),
        ),
        inl (ground (arith, kind)),
      )

  decided : (self : VerifyResult) → verify_self r block ≡ ok self → self ≢ pending
  unfolding verify_self check_self_amount check_against check_genesis
  decided self e = ground arith

  genesis_decided :
      (stat : AccountBlockVerifyStat)
      → is_genesis block.block_type ≡ true
      → verify_referred r now version block ≡ ok stat
      → verify_result stat ≢ pending
  unfolding verify_referred verify_genesis verify_result new_verify_stat
  genesis_decided stat kind e = ground arith

  waits :
      (stat : AccountBlockVerifyStat)
      → stat ≡ verify_from r block (checked r block now version success)
      → verify_result stat ≡ pending
      → requests (verify_task stat.task) ≢ []
  unfolding verify_from verify_snapshot new_verify_stat pending_snapshot pending_account requests
      verify_result requests_of
  waits stat e v =
      elim (Option-cases (
        r.get_snapshot_by_hash_h
          (record { hash = block.snapshot_hash; height = block.snapshot_height }))) [
            | inl missing ↦ ground (arith, missing)
            | inr (s, known) ↦ ground (arith, known)
          ]

  failed_result :
      (stat : AccountBlockVerifyStat)
      → stat ≡ checked r block now version fail
      → verify_result stat ≡ fail
  unfolding verify_result
  failed_result stat e = ground arith

  not_stopped :
      (stat : AccountBlockVerifyStat) (self : VerifyResult)
      → is_genesis block.block_type ≡ false
      → verify_self r block ≡ ok self
      → verify_referred r now version block ≡ ok stat
      → verify_result stat ≡ pending
      → stat ≡ verify_from r block (checked r block now version success)
  not_stopped stat pending kind f e v = absurd (decided pending f refl)
  not_stopped stat fail kind f e v =
      let same : stat ≡ checked r block now version fail =
        ground (arith, referred r block now version fail kind f) in
      absurd (ground (arith, failed_result stat same))
  not_stopped stat success kind f e v = ground (arith, referred r block now version success kind f)

  -- A block of any type that is verified with neither success nor failure waits for something: its
  -- task asks for a snapshot block or for the source of a receipt.
  pub pending_requests :
      (stat : AccountBlockVerifyStat)
      → verify_referred r now version block ≡ ok stat
      → verify_result stat ≡ pending
      → requests (verify_task stat.task) ≢ []
  pending_requests stat e v = elim (Bool-cases (is_genesis block.block_type)) [
    | inl kind ↦ absurd (genesis_decided stat kind e v)
    | inr kind ↦
        let (self, f) = has_self r block now version stat kind e in
        waits stat (not_stopped stat self kind f e v) v
  ]

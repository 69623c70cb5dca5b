-- ===== src/Verifier/Account/Rules.antt =====
-- The rules for an account block, as predicates, and that the checks decide them.
use naive_vite.Base.{
  ◌≡◌, ◌≢◌, ◌↔◌, ◌⊎◌, inl, inr, none, some, true, false, ok, arith, Bool-cases, Option-cases,
  Result-cases,
}
use naive_vite.Base.Int.{pos, ◌+ℤ◌, ◌≤ℤ◌, ◌<ℤ◌, ◌==ℤ◌, ==ℤ_iff}
use naive_vite.Types.{AccountStateBlock, SnapshotBlock, is_received, is_send, empty_str}
use naive_vite.Verifier.Reader.{ChainReader}
use naive_vite.Verifier.Task.{success}
use naive_vite.Verifier.Account.{
  AccountBlockVerifyStat, check_genesis, check_against, check_self_amount, verify_self,
  check_source, sources_differ, check_from_amount, verify_from,
}

-- `block` may follow `last` on the chain of an account.
pub record IsNext (last block : AccountStateBlock) : Type 0 where
  pub link : last.hash ≡ block.pre_hash
  pub snapshots : last.snapshot_height ≤ℤ block.snapshot_height
  pub spends : (is_send block.block_type ≡ false) ⊎ (block.modified_amount ≤ℤ pos 0)
  pub gains : (is_received block.block_type ≡ false) ⊎ (pos 0 ≤ℤ block.modified_amount)
  pub balance : last.amount +ℤ block.modified_amount ≡ block.amount
  pub positive : pos 0 <ℤ block.amount

check_against_iff :
    (last block : AccountStateBlock) → (check_against last block ≡ success) ↔ IsNext last block
unfolding check_against
check_against_iff last block = (
  λ e. record {
    link = ground arith;
    snapshots = ground arith;
    spends = ground arith;
    gains = ground arith;
    balance = ground (arith, ==ℤ_iff (last.amount +ℤ block.modified_amount) block.amount);
    positive = ground arith;
  },
  λ n. ground (arith, ==ℤ_iff (last.amount +ℤ block.modified_amount) block.amount),
)

-- `source` is what the receipt `block` receives.
pub record IsSource (source block : AccountStateBlock) : Type 0 where
  pub named : source.hash ≡ block.source_hash
  pub snapshots : source.snapshot_height ≤ℤ block.snapshot_height
  pub opposite : source.modified_amount +ℤ block.modified_amount ≡ pos 0

check_source_iff :
    (source block : AccountStateBlock)
    → (check_source source block ≡ success) ↔ IsSource source block
unfolding check_source
check_source_iff source block = (
  λ e. record {
    named = ground arith;
    snapshots = ground arith;
    opposite = ground (arith, ==ℤ_iff (source.modified_amount +ℤ block.modified_amount) (pos 0));
  },
  λ n. ground (arith, ==ℤ_iff (source.modified_amount +ℤ block.modified_amount) (pos 0)),
)

module _ (r : ChainReader) (block : AccountStateBlock) where
  -- The first block of an account that has none, as the receipt of its whole balance.
  pub record IsFirst : Type 0 where
    pub receipt : is_received block.block_type ≡ true
    pub height : block.height ≡ pos 0
    pub no_head : r.head_account block.signer ≡ none
    pub no_previous : block.pre_hash ≡ empty_str
    pub balance : block.modified_amount ≡ block.amount

  -- A later block: not a receipt, or a receipt of what has not been received, at a height other
  -- than 0; and it may follow the head of the signer's chain.
  abbrev pub ExtendsHead : Type 0
  ExtendsHead =
      (last : AccountStateBlock) × (r.head_account block.signer ≡ some last) × IsNext last block

  abbrev pub IsLater : Type 0
  IsLater =
      ((is_received block.block_type ≡ false)
        ⊎ ((block.height ≢ pos 0)
            × (r.get_account_by_source_hash block.to block.source_hash ≡ ok none)))
      × ExtendsHead

  -- The snapshot block that the block refers to is on the snapshot chain.
  abbrev pub IsAnchored : Type 0
  IsAnchored =
      (s : SnapshotBlock) × (r.get_snapshot_by_hash_h
          (record { hash = block.snapshot_hash; height = block.snapshot_height })
        ≡ some s)

  -- A receipt has a source on the sender's chain.
  abbrev pub IsFunded : Type 0
  IsFunded =
      (is_received block.block_type ≡ false)
      ⊎ ((source : AccountStateBlock) × (r.get_account_by_height block.from block.source_height
            ≡ some source)
          × (sources_differ (some source) (r.get_account_by_hash block.from block.source_hash)
              ≡ false)
          × IsSource source block)

  check_self_amount_iff : (check_self_amount r block ≡ success) ↔ ExtendsHead
  unfolding check_self_amount
  check_self_amount_iff = (
    λ e. elim (Option-cases (r.head_account block.signer)) [
      | inl missing ↦ absurd (ground arith)
      | inr (last, at) ↦ (last, at, (check_against_iff last block).0 (ground arith))
    ],
    λ (last, at, n). rw (at, check_self_amount) ((check_against_iff last block).1 n),
  )

  check_genesis_iff :
      is_received block.block_type ≡ true
      → block.height ≡ pos 0
      → (check_genesis r block ≡ success) ↔ IsFirst
  unfolding check_genesis
  check_genesis_iff kind at = (
    λ e. record {
      receipt = kind;
      height = at;
      no_head = ground arith;
      no_previous = ground arith;
      balance = ground arith;
    },
    λ f. ground (arith, f.no_head, f.no_previous, f.balance),
  )

  -- A receipt above height 0: the chain lists no receipt of its source, and the self check passes.
  later_receipt :
      is_received block.block_type ≡ true
      → (block.height ==ℤ pos 0) ≡ false
      → verify_self r block ≡ ok success
      → (r.get_account_by_source_hash block.to block.source_hash ≡ ok none)
        × (check_self_amount r block ≡ success)
  unfolding verify_self
  later_receipt kind high e =
      elim (Result-cases (r.get_account_by_source_hash block.to block.source_hash)) [
        | inl (none, f) ↦ (f, ground arith)
        | inl (some b, f) ↦ absurd (ground arith)
        | inr (inl (x, f)) ↦ absurd (ground arith)
        | inr (inr f) ↦ absurd (ground arith)
      ]

  pub self_valid : verify_self r block ≡ ok success → IsFirst ⊎ IsLater
  unfolding verify_self
  self_valid e = elim (Bool-cases (is_received block.block_type)) [
    | inr other ↦ inr (inl other, check_self_amount_iff.0 (ground arith))
    | inl kind ↦ elim (Bool-cases (block.height ==ℤ pos 0)) [
      | inl at ↦
          let zero_height = (==ℤ_iff block.height (pos 0)).0 at in
          inl ((check_genesis_iff kind zero_height).0 (ground arith))
      | inr high ↦
          let (fresh, passed) = later_receipt kind high e in
          inr (inr (ground arith, fresh), check_self_amount_iff.0 passed)
    ]
  ]

  pub valid_self : IsFirst ⊎ IsLater → verify_self r block ≡ ok success
  unfolding verify_self
  valid_self (inl f) =
      let passed = (check_genesis_iff f.receipt f.height).1 f in
      ground (arith, passed, f.receipt, f.height)
  valid_self (inr (inl other, later)) =
      let passed = check_self_amount_iff.1 later in ground (arith, passed, other)
  valid_self (inr (inr (high, fresh), later)) =
      let passed = check_self_amount_iff.1 later in ground (arith, passed, high, fresh)

  pub from_funded :
      (stat : AccountBlockVerifyStat)
      → (verify_from r block stat).referred_from_result ≡ success
      → IsFunded
  unfolding verify_from check_from_amount
  from_funded stat e = elim (Bool-cases (is_received block.block_type)) [
    | inr other ↦ inl other
    | inl kind ↦ elim (Option-cases (r.get_account_by_height block.from block.source_height)) [
      | inl missing ↦ absurd (ground arith)
      | inr (source, at) ↦
          inr (source, at, ground arith, (check_source_iff source block).0 (ground arith))
    ]
  ]

  pub funded_from :
      (stat : AccountBlockVerifyStat)
      → IsFunded
      → (verify_from r block stat).referred_from_result ≡ success
  unfolding verify_from check_from_amount
  funded_from stat (inl other) = ground arith
  funded_from stat (inr (source, at, agree, valid)) =
      let passed = (check_source_iff source block).1 valid in ground (arith, passed)

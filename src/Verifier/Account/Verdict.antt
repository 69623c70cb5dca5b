-- ===== src/Verifier/Account/Verdict.antt =====
-- What the verdict on an account block means, against a description of the valid blocks.
use naive_vite.Base.{
  if◌then◌else◌, sym, ap, ◌∙◌, ◌≡◌, ◌↔◌, ◌⊎◌, inl, inr, false, ok, arith, Option-cases,
  Result-cases,
}
use naive_vite.Base.Int.{ℤ}
use naive_vite.Types.{AccountStateBlock, is_genesis}
use naive_vite.Verifier.Reader.{ChainReader}
use naive_vite.Verifier.Task.{VerifyResult, is_fail, success}
use naive_vite.Verifier.Account.{
  AccountBlockVerifyStat, verify_result, verify_self, verify_from, verify_snapshot, verify_referred,
  new_verify_stat,
}
use naive_vite.Verifier.Account.Rules.{
  IsAnchored, IsFirst, IsLater, IsFunded, self_valid, valid_self, from_funded, funded_from,
}

pub success_parts :
    (s : AccountBlockVerifyStat)
    → (verify_result s ≡ success) ↔ (
        (s.referred_snapshot_result ≡ success)
        × (s.referred_self_result ≡ success)
        × (s.referred_from_result ≡ success))
unfolding verify_result
success_parts s =
    (λ e. (ground arith, ground arith, ground arith), λ p. ground (arith, p.0, p.1, p.2))

module _ (r : ChainReader) (block : AccountStateBlock) where
  abbrev pub checked : ℤ → ℤ → VerifyResult → AccountBlockVerifyStat
  checked now version self = record (verify_snapshot r block (new_verify_stat now version)) {
    referred_self_result = self;
  }

  pub referred :
      (now version : ℤ) (self : VerifyResult)
      → is_genesis block.block_type ≡ false
      → verify_self r block ≡ ok self
      → verify_referred r now version block
        ≡ ok (
            if is_fail self
            then checked now version self
            else verify_from r block (checked now version self))
  unfolding verify_referred
  referred now version self kind e = ground arith

  pub kept :
      (stat : AccountBlockVerifyStat)
      → ((verify_from r block stat).referred_self_result ≡ stat.referred_self_result)
        × ((verify_from r block stat).referred_snapshot_result ≡ stat.referred_snapshot_result)
  unfolding verify_from
  kept stat = (ground arith, ground arith)

  anchored :
      (stat : AccountBlockVerifyStat)
      → (verify_snapshot r block stat).referred_snapshot_result ≡ success
      → (IsAnchored r block)
  unfolding verify_snapshot
  anchored stat e =
      elim (Option-cases (
        r.get_snapshot_by_hash_h
          (record { hash = block.snapshot_hash; height = block.snapshot_height }))) [
            | inl missing ↦ absurd (ground arith)
            | inr known ↦ known
          ]

  pub has_self :
      (now version : ℤ) (stat : AccountBlockVerifyStat)
      → is_genesis block.block_type ≡ false
      → verify_referred r now version block ≡ ok stat
      → (self : VerifyResult) × (verify_self r block ≡ ok self)
  unfolding verify_referred
  has_self now version stat kind e = elim (Result-cases (verify_self r block)) [
    | inl found ↦ found
    | inr (inl (x, f)) ↦ absurd (ground arith)
    | inr (inr f) ↦ absurd (ground arith)
  ]

  not_failed :
      (now version : ℤ) (self : VerifyResult) (stat : AccountBlockVerifyStat)
      → is_genesis block.block_type ≡ false
      → verify_self r block ≡ ok self
      → verify_referred r now version block ≡ ok stat
      → verify_result stat ≡ success
      → stat ≡ verify_from r block (checked now version self)
  not_failed now version self stat kind f e v =
      let parts = (success_parts stat).0 v in
      ground (arith, referred now version self kind f, parts.1)

  verified_valid :
      (now version : ℤ) (stat : AccountBlockVerifyStat)
      → is_genesis block.block_type ≡ false
      → verify_referred r now version block ≡ ok stat
      → verify_result stat ≡ success
      → (IsAnchored r block) × ((IsFirst r block) ⊎ (IsLater r block)) × (IsFunded r block)
  verified_valid now version stat kind e v =
      let (self, f) = has_self now version stat kind e in
      let start = checked now version self in
      let same = not_failed now version self stat kind f e v in
      let (at_snapshot, at_self, at_from) =
        (success_parts (verify_from r block start)).0 (rw same at v) in
      let (self_kept, snapshot_kept) = kept start in
      let passed : self ≡ success = sym self_kept ∙ at_self in
      (
        anchored (new_verify_stat now version) (sym snapshot_kept ∙ at_snapshot),
        self_valid r block (f ∙ ap ok passed),
        from_funded r block start at_from,
      )

  known_snapshot :
      (stat : AccountBlockVerifyStat)
      → (IsAnchored r block)
      → (verify_snapshot r block stat).referred_snapshot_result ≡ success
  unfolding verify_snapshot
  known_snapshot stat (s, at) = ground (arith, at)

  valid_verified :
      (now version : ℤ)
      → is_genesis block.block_type ≡ false
      → (IsAnchored r block)
      → (IsFirst r block) ⊎ (IsLater r block)
      → (IsFunded r block)
      → (stat : AccountBlockVerifyStat) × (verify_referred r now version block ≡ ok stat)
        × (verify_result stat ≡ success)
  valid_verified now version kind known valid funded =
      let start = checked now version success in
      let (self_kept, snapshot_kept) = kept start in
      (
        verify_from r block start,
        referred now version success kind (valid_self r block valid),
        (success_parts (verify_from r block start)).1 (
          snapshot_kept ∙ known_snapshot (new_verify_stat now version) known,
          self_kept,
          funded_from r block start funded,
        ),
      )

  -- A block that is no genesis block is verified with success exactly if the snapshot block that it
  -- refers to is known; it is the first block of its account, or it follows the head of its
  -- account's chain with the right hash, snapshot height, sign and balance, and is no second
  -- receipt of its source; and, if it is a receipt, its source is on the sender's chain with the
  -- opposite amount and no later snapshot.
  pub verify_referred_iff :
      (now version : ℤ)
      → is_genesis block.block_type ≡ false
      → ((stat : AccountBlockVerifyStat) × (verify_referred r now version block ≡ ok stat)
          × (verify_result stat ≡ success))
        ↔ ((IsAnchored r block) × ((IsFirst r block) ⊎ (IsLater r block)) × (IsFunded r block))
  verify_referred_iff now version kind = (
    λ (stat, e, v). verified_valid now version stat kind e v,
    λ (known, valid, funded). valid_verified now version kind known valid funded,
  )

-- ===== src/Ledger/Spending.antt =====
-- When a transfer that the ledger makes is verified with success.
use naive_vite.Base.{◌≡◌, ◌↔◌, refl, sym, subst, Option, some, ok, inl, inr, arith}
use naive_vite.Base.Int.{ℤ, pos, negsuc, ◌+ℤ◌, ◌≤ℤ◌, ◌<ℤ◌}
use naive_vite.Types.{
  Hash, Address, AccountStateBlock, SnapshotBlock, empty_str, send, new_account_block_from,
}
use naive_vite.Verifier.Reader.{ChainReader}
use naive_vite.Verifier.Task.{success}
use naive_vite.Verifier.Account.{AccountBlockVerifyStat, verify_referred, verify_result}
use naive_vite.Verifier.Account.Rules.{IsNext}
use naive_vite.Verifier.Account.Verdict.{verify_referred_iff}

module _ (calculate : AccountStateBlock → Hash) (now : ℤ) (from to : Address) (amount : ℤ)
    (head : SnapshotBlock) where
  -- The transfer after the account's head, if it has one.
  abbrev pub transfer : Option AccountStateBlock → AccountStateBlock
  transfer last =
      let made =
        new_account_block_from last from now amount head send from to empty_str (negsuc 0) in
      record made { hash = calculate made }

  -- The account `from` has a head, no later than the snapshot head, the amount takes something off its
  -- balance or nothing, and something is left.
  abbrev pub CanSpend : ChainReader → Type 0
  CanSpend r =
      (last : AccountStateBlock) × (r.head_account from ≡ some last)
      × (last.snapshot_height ≤ℤ head.height)
      × (amount ≤ℤ pos 0)
      × (pos 0 <ℤ last.amount +ℤ amount)

  may_follow :
      (last : AccountStateBlock)
      → IsNext last (transfer (some last)) ↔ (
          (last.snapshot_height ≤ℤ head.height)
          × (amount ≤ℤ pos 0)
          × (pos 0 <ℤ last.amount +ℤ amount))
  unfolding new_account_block_from
  may_follow last = (
    λ n. (n.snapshots, ground (arith, n.spends), n.positive),
    λ (snapshots, spends, positive). record {
      link = refl;
      snapshots = snapshots;
      spends = inr spends;
      gains = inl refl;
      balance = refl;
      positive = positive;
    },
  )

  module _ (r : ChainReader) (time version : ℤ)
      (known : r.get_snapshot_by_hash_h (record { hash = head.hash; height = head.height })
        ≡ some head) where
    abbrev pub IsVerified : Type 0
    IsVerified =
        (stat : AccountBlockVerifyStat) × (verify_referred r time version
            (transfer (r.head_account from))
          ≡ ok stat)
        × (verify_result stat ≡ success)

    pub spends_verified : CanSpend r → IsVerified
    unfolding new_account_block_from
    spends_verified (last, at, snapshots, spends, positive) =
        let next = (may_follow last).1 (snapshots, spends, positive) in
        (verify_referred_iff r (transfer (r.head_account from)) time version refl).1 (
          (head, known),
          inr (inl refl, (last, at, subst (λ o. IsNext last (transfer o)) (sym at) next)),
          inl refl,
        )

    pub verified_spends : IsVerified → CanSpend r
    unfolding new_account_block_from
    verified_spends v =
        let (_, follows, _) =
          (verify_referred_iff r (transfer (r.head_account from)) time version refl).0 v in
        elim follows [
          | inl first ↦ absurd (ground (arith, first.receipt))
          | inr (_, (last, at, next)) ↦
              let (snapshots, spends, positive) =
                (may_follow last).0 (subst (λ o. IsNext last (transfer o)) at next) in
              (last, at, snapshots, spends, positive)
        ]

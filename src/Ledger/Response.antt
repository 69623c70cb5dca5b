-- ===== src/Ledger/Response.antt =====
-- A receipt that the ledger makes, before the verifier.
use naive_vite.Base.{◌≡◌, none, some, ok, ◌⊎◌, arith}
use naive_vite.Base.Int.{ℤ, pos, negsuc, ◌≤ℤ◌, ◌<ℤ◌}
use naive_vite.Types.{Hash, Address, AccountStateBlock, SnapshotBlock, empty_str}
use naive_vite.Verifier.Reader.{ChainReader}
use naive_vite.Ledger.{receipt_on, response_block}

-- The account `to` is new, or its head is no later than the snapshot head `head`, at a height from 0 on,
-- with a balance that is not below 0.
abbrev pub CanExtend : ChainReader → Address → SnapshotBlock → Type 0
CanExtend r to head =
    (r.head_account to ≡ none)
    ⊎ ((last : AccountStateBlock) × (r.head_account to ≡ some last)
        × (last.snapshot_height ≤ℤ head.height)
        × (pos 0 ≤ℤ last.amount)
        × (pos 0 ≤ℤ last.height))

-- `b` is on the chain of `from`, spends something and has not been received by `to`; its snapshot block
-- and the snapshot head `head` are known.
pub record CanReceive (r : ChainReader) (from to : Address) (b : AccountStateBlock)
    (head : SnapshotBlock) : Type 0 where
  pub found : r.get_account_by_hash from b.hash ≡ some b
  pub stored : r.get_account_by_height from b.height ≡ some b
  pub spends : b.modified_amount <ℤ pos 0
  pub fresh : r.get_account_by_source_hash to b.hash ≡ ok none
  pub top : r.head_snapshot ≡ some head
  pub known :
      r.get_snapshot_by_hash_h (record { hash = head.hash; height = head.height }) ≡ some head
  pub low : b.snapshot_height ≤ℤ head.height

module _ (calculate : AccountStateBlock → Hash) (r : ChainReader) (now : ℤ) (from to : Address)
    (b : AccountStateBlock) (head : SnapshotBlock) where
  -- The receipt on these values of the previous block.
  abbrev pub receipt : ℤ → Hash → ℤ → AccountStateBlock
  receipt height hash amount =
      let made = receipt_on height hash amount now from to b.hash b head in
      record made { hash = calculate made }

  pub made_first :
      CanReceive r from to b head
      → r.head_account to ≡ none
      → response_block calculate r now from to b.hash ≡ ok (receipt (negsuc 0) empty_str (pos 0))
  unfolding response_block
  made_first can new = ground (arith, can.found, can.top, new)

  pub made_next :
      (last : AccountStateBlock)
      → CanReceive r from to b head
      → r.head_account to ≡ some last
      → response_block calculate r now from to b.hash
        ≡ ok (receipt last.height last.hash last.amount)
  unfolding response_block
  made_next last can at = ground (arith, can.found, can.top, at)

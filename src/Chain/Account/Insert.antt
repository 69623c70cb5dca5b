-- ===== src/Chain/Account/Insert.antt =====
-- What the account chain and the store answer after `insertChain`.
use naive_vite.Base.{◌≡◌, refl, some, [], ◌∷◌, ◌++◌, ◌&&◌, ◌==◌, if◌then◌else◌, arith}
use naive_vite.Base.Int.{ℤ, pos, ◌≤ℤ◌, ◌==ℤ◌}
use naive_vite.Types.{Address, Hash, AccountStateBlock, is_received, account_insert}
use naive_vite.Store
use naive_vite.Chain.Account.{
  AccountChain, Backend, new_account_chain, get_block_by_height, insert_chain,
}

module _ (c : AccountChain) (w : Backend) (block : AccountStateBlock) where
  -- After an insertion at a height of at least 0, the block is the head of the chain, found by its
  -- height and by its hash, and the head of a chain that is made from the store anew; the listener
  -- has been called once more, with the block; and the stack of snapshot points is as it was.
  pub insert_chain_reads :
      pos 0 ≤ℤ block.height
      → let (c', w') = insert_chain c w block in
        (c'.head ≡ some block)
        × (get_block_by_height c' w'.store block.height ≡ some block)
        × (Store.get_account_by_hash w'.store block.hash ≡ some block)
        × ((new_account_chain c.address w'.store).head ≡ some block)
        × (w'.events ≡ w.events ++ (account_insert c.address block ∷ []))
        × (c'.snapshot_point ≡ c.snapshot_point)
  unfolding insert_chain get_block_by_height new_account_chain Store.put_account
      Store.put_source_hash Store.set_account_head Store.get_account_by_height
      Store.get_account_by_hash Store.get_account_head
  insert_chain_reads h = (refl, ground arith, ground arith, ground arith, ground arith, refl)

  -- Every read of the store after an insertion: by hash, by address and height, and of the heads,
  -- the block stands at its own keys and each other key reads as before; the block is listed under
  -- its source exactly if it is a receipt.
  pub insert_chain_store :
      (hash : Hash) (a : Address) (h : ℤ)
      → let s = w.store in
        let s' = (insert_chain c w block).1.store in
        (Store.get_account_by_hash s' hash
          ≡ (if hash == block.hash then some block else Store.get_account_by_hash s hash))
        × (Store.get_account_by_height s' a h ≡ (
            if a == c.address && h ==ℤ block.height
            then some block
            else Store.get_account_by_height s a h))
        × (Store.get_account_head s' a ≡ (
            if a == c.address
            then some (record { hash = block.hash; height = block.height })
            else Store.get_account_head s a))
        × (Store.get_account_by_source_hash s' hash ≡ (
            if is_received block.block_type && hash == block.source_hash
            then some block
            else Store.get_account_by_source_hash s hash))
        × (Store.get_snapshot_head s' ≡ Store.get_snapshot_head s)
  unfolding insert_chain Store.put_account Store.put_source_hash Store.set_account_head
      Store.get_account_by_height Store.get_account_by_hash Store.get_account_head
      Store.get_snapshot_head Store.get_account_by_source_hash
  insert_chain_store hash a h =
      (ground arith, ground arith, ground arith, ground arith, ground arith)

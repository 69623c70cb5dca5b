-- ===== src/Chain/Account/Removal.antt =====
-- `removeChain`: what the snapshot points protect, and the head that a removal leaves.
use naive_vite.Base.{
  ℕ, zero, suc, ◌≡◌, refl, ◌↔◌, none, some, List, [], ◌∷◌, get_elem?, ok, err, Error, All, arith,
}
use naive_vite.Base.Int.{ℤ, ◌≤ℤ◌, ◌<ℤ◌}
use naive_vite.Types.{SnapshotPoint, AccountStateBlock, equals}
use naive_vite.Store
use naive_vite.Chain.Account.{
  AccountChain, Backend, top, peek, remove_chain, rollback_snapshot_point,
}
use naive_vite.Chain.Account.Points.{IsBelow, Ordered, rollback_snapshot_point_cases}

All-get {ℓ κ} :
    {A : Type ℓ} (P : A → Type κ) (xs : List A) (i : ℕ) (a : A)
    → All P xs
    → get_elem? xs i ≡ some a
    → P a
All-get P [] i a h e = cc
All-get P (x ∷ xs) zero a h e = ground (arith, h.0)
All-get P (x ∷ xs) (suc i) a h e = All-get P xs i a h.1 e

-- Some point of the stack is at `height` or above.
abbrev pub IsSnapshotted : List SnapshotPoint → ℤ → Type 0
IsSnapshotted ps height =
    (i : ℕ) × (p : SnapshotPoint) × (get_elem? ps i ≡ some p) × (height ≤ℤ p.account_height)

top_highest :
    (p : SnapshotPoint) (ps : List SnapshotPoint) (height : ℤ)
    → Ordered (p ∷ ps)
    → IsSnapshotted (p ∷ ps) height
    → height ≤ℤ p.account_height
top_highest p ps height o (zero, q, e, h) = ground arith
top_highest p ps height o (suc i, q, e, h) =
    let below = All-get (IsBelow p) ps i q o.0 e in omega (arith, below)

module _ (c : AccountChain) (w : Backend) (block : AccountStateBlock) where
  protected :
      (ps : List SnapshotPoint)
      → c.snapshot_point ≡ ps
      → Ordered ps
      → IsSnapshotted ps block.height
      → remove_chain c w block ≡ err Error.has_snapshot
  unfolding remove_chain peek top
  protected [] e o (i, p, f, h) = cc
  protected (p ∷ ps) e o s = ground (arith, top_highest p ps block.height o s)

  exposed :
      (ps : List SnapshotPoint)
      → c.snapshot_point ≡ ps
      → remove_chain c w block ≡ err Error.has_snapshot
      → IsSnapshotted ps block.height
  unfolding remove_chain peek top
  exposed [] e h = absurd (ground arith)
  exposed (p ∷ ps) e h = (0, p, refl, ground arith)

  -- On a chain whose snapshot points are in order, `removeChain` refuses a block exactly if some
  -- snapshot point on the stack, not just the top one, is at the block's height or above.
  pub remove_chain_refused_iff :
      Ordered c.snapshot_point
      → (remove_chain c w block ≡ err Error.has_snapshot)
        ↔ IsSnapshotted c.snapshot_point block.height
  remove_chain_refused_iff o = (exposed c.snapshot_point refl, protected c.snapshot_point refl o)

  -- After the removal of a stored block the chain's head, and the head recorded in the store, are
  -- still the removed block, which the store has no longer.
  pub remove_chain_keeps_head :
      (c' : AccountChain) (w' : Backend) (b : AccountStateBlock)
      → Store.get_account_by_hash w.store block.hash ≡ some b
      → remove_chain c w block ≡ ok (c', w')
      → (c'.head ≡ some b)
        × (Store.get_account_head w'.store c.address
            ≡ some (record { hash = b.hash; height = b.height }))
        × (Store.get_account_by_hash w'.store block.hash ≡ none)
        × (Store.get_account_by_height w'.store c.address block.height ≡ none)
  unfolding remove_chain Store.get_account_by_hash Store.get_account_head
      Store.get_account_by_height Store.delete_account Store.set_account_head
      Store.delete_source_hash
  remove_chain_keeps_head c' w' b e h = (ground arith, ground arith, ground arith, ground arith)

  rollback_of_equal :
      (start end : SnapshotPoint) (rest : List SnapshotPoint)
      → c.snapshot_point ≡ start ∷ rest
      → Ordered (start ∷ rest)
      → end.account_height <ℤ start.account_height
      → rollback_snapshot_point c start end ≡ (c, ok tt)
  unfolding equals
  rollback_of_equal start end rest e o low =
      rw (rollback_snapshot_point_cases c start end start rest e o) (ground arith)

  -- Where `end` is below the top point, `RollbackSnapshotPoint` succeeds and unlocks nothing: the
  -- blocks up to the top point are refused as before.
  pub rollback_unlocks_nothing :
      (start end : SnapshotPoint) (rest : List SnapshotPoint)
      → c.snapshot_point ≡ start ∷ rest
      → Ordered (start ∷ rest)
      → end.account_height <ℤ start.account_height
      → block.height ≤ℤ start.account_height
      → (rollback_snapshot_point c start end ≡ (c, ok tt))
        × (remove_chain c w block ≡ err Error.has_snapshot)
  rollback_unlocks_nothing start end rest e o low h =
      (rollback_of_equal start end rest e o low, protected (start ∷ rest) e o (0, start, refl, h))

  -- A removal leaves the snapshot points alone.
  pub remove_chain_points :
      (c' : AccountChain) (w' : Backend)
      → remove_chain c w block ≡ ok (c', w')
      → c'.snapshot_point ≡ c.snapshot_point
  unfolding remove_chain
  remove_chain_points c' w' e = ground arith

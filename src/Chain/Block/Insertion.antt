-- ===== src/Chain/Block/Insertion.antt =====
-- What `InsertSnapshotBlock` leaves on the chains of the accounts that the block lists.
use naive_vite.Base.{
  ◌≡◌, ◌≢◌, ◌∙◌, ap, sym, refl, inl, inr, some, List, [], ◌∷◌, Result, ok, All, arith, Result-cases,
}
use naive_vite.Base.Int.{ℤ}
use naive_vite.Types.{Hash, Address, AccountHashH, SnapshotBlock}
use naive_vite.Chain.Account.{AccountChain}
use naive_vite.Chain.Account.Points.{new_point, snapshot_point_iff}
use naive_vite.Chain.Snapshot
use naive_vite.Chain.Snapshot.{SnapshotChain}
use naive_vite.Chain.Block.{
  BlockChain, self_ac, put_ac, snapshot_points, insert_snapshot_block, head_snapshot,
}
use naive_vite.Chain.Block.Points.{points, attempt, points_of_ac, points_of_insert}

-- The address is that of none of the accounts; no two of the accounts share one.
abbrev pub IsAbsent : Address → List AccountHashH → Type 0
IsAbsent a = All (λ h. h.addr ≢ a)

abbrev pub IsDistinct : List AccountHashH → Type 0
IsDistinct [] = Unit {0}
IsDistinct (h ∷ rest) = IsAbsent h.addr rest × IsDistinct rest

-- The points of an account that a snapshot block does not list stay.
snapshot_points_frame :
    (b : BlockChain) (height : ℤ) (hash : Hash) (accounts : List AccountHashH) (a : Address)
    → IsAbsent a accounts
    → points (snapshot_points b height hash accounts).0 a ≡ points b a
unfolding snapshot_points attempt put_ac
snapshot_points_frame b height hash [] a none_here = refl
snapshot_points_frame b height hash (h ∷ rest) a (other, others) =
    elim (Result-cases (attempt b height hash h)) [
      | inl (c, e) ↦
          rw (e, snapshot_points)
            (snapshot_points_frame (put_ac b h.addr c) height hash rest a others
              ∙ ground (arith, points_of_insert b (put_ac b h.addr c) h.addr a c refl))
      | inr (inl (x, e)) ↦ rw (e, snapshot_points)
      | inr (inr e) ↦ rw (e, snapshot_points)
    ]

put_ac_self :
    (b : BlockChain) (addr : Address) (c : AccountChain)
    → points (put_ac b addr c) addr ≡ c.snapshot_point
unfolding put_ac
put_ac_self b addr c = ground (arith, points_of_insert b (put_ac b addr c) addr addr c refl)

kept_points :
    (b : BlockChain) (addr a : Address) (c : AccountChain)
    → a ≢ addr
    → points (put_ac b addr c) a ≡ points b a
unfolding put_ac
kept_points b addr a c ne = ground (arith, points_of_insert b (put_ac b addr c) addr a c refl)

-- Each listed account has its new point, on top of the points that it had.
abbrev pub AllPushed : BlockChain → BlockChain → ℤ → Hash → List AccountHashH → Type 0
AllPushed b b' height hash = All (λ h.
    (self_ac b' h.addr).snapshot_point
    ≡ new_point height hash h ∷ (self_ac b h.addr).snapshot_point)

AllPushed-put_ac :
    (b b' : BlockChain) (addr : Address) (c : AccountChain) (height : ℤ) (hash : Hash)
    (accounts : List AccountHashH)
    → IsAbsent addr accounts
    → AllPushed (put_ac b addr c) b' height hash accounts
    → AllPushed b b' height hash accounts
unfolding points put_ac
AllPushed-put_ac b b' addr c height hash [] absent p = tt
AllPushed-put_ac b b' addr c height hash (h ∷ rest) (other, others) (p, ps) = (
  p ∙ ap (◌∷◌ (new_point height hash h)) (kept_points b addr h.addr c other),
  AllPushed-put_ac b b' addr c height hash rest others ps,
)

snapshot_points_ok :
    (b b' : BlockChain) (height : ℤ) (hash : Hash) (accounts : List AccountHashH)
    → IsDistinct accounts
    → snapshot_points b height hash accounts ≡ (b', ok tt)
    → AllPushed b b' height hash accounts
unfolding snapshot_points attempt points
snapshot_points_ok b b' height hash [] d e = tt
snapshot_points_ok b b' height hash (h ∷ rest) (absent, d) e =
    elim (Result-cases (attempt b height hash h)) [
      | inl (c, f) ↦
          let (_, _, _, _, _, _, _, pushed) =
            (snapshot_point_iff (self_ac b h.addr) b.backend.store height hash h c).0 f in
          let e' : snapshot_points (put_ac b h.addr c) height hash rest ≡ (b', ok tt) =
            ground arith in
          let kept = snapshot_points_frame (put_ac b h.addr c) height hash rest h.addr absent in
          (
            ap (λ (r : BlockChain × Result (Unit {0})). points r.0 h.addr) (sym e')
                ∙ kept
                ∙ put_ac_self b h.addr c
                ∙ ap (λ (x : AccountChain). x.snapshot_point) pushed,
            AllPushed-put_ac b b' h.addr c height hash rest absent
                (snapshot_points_ok (put_ac b h.addr c) b' height hash rest d e'),
          )
      | inr (inl (x, f)) ↦ absurd (ground arith)
      | inr (inr f) ↦ absurd (ground arith)
    ]

AllPushed-same_ac :
    (b b0 b' : BlockChain) (height : ℤ) (hash : Hash) (accounts : List AccountHashH)
    → b0.ac ≡ b.ac
    → AllPushed b0 b' height hash accounts
    → AllPushed b b' height hash accounts
unfolding points
AllPushed-same_ac b b0 b' height hash [] e p = tt
AllPushed-same_ac b b0 b' height hash (h ∷ rest) e (p, ps) = (
  p ∙ ap (◌∷◌ (new_point height hash h)) (points_of_ac b b0 h.addr e),
  AllPushed-same_ac b b0 b' height hash rest e ps,
)

snapshot_points_sc :
    (b : BlockChain) (height : ℤ) (hash : Hash) (accounts : List AccountHashH)
    → (snapshot_points b height hash accounts).0.sc ≡ b.sc
unfolding snapshot_points attempt put_ac
snapshot_points_sc b height hash [] = refl
snapshot_points_sc b height hash (h ∷ rest) = elim (Result-cases (attempt b height hash h)) [
  | inl (c, e) ↦ rw (e, snapshot_points) (snapshot_points_sc (put_ac b h.addr c) height hash rest)
  | inr (inl (x, e)) ↦ rw (e, snapshot_points)
  | inr (inr e) ↦ rw (e, snapshot_points)
]

-- Whatever the outcome, an error or a panic included, the inserted block has become the head of the
-- snapshot chain.
pub insert_snapshot_block_head :
    (b : BlockChain) (block : SnapshotBlock)
    → head_snapshot (insert_snapshot_block b block).0 ≡ some block
unfolding insert_snapshot_block head_snapshot Snapshot.insert_chain
insert_snapshot_block_head b block =
    ap (λ (sc : SnapshotChain). sc.head)
      (snapshot_points_sc _ block.height block.hash block.accounts)

-- A successful insertion of a snapshot block that lists no address twice puts, for each account that
-- it lists, just the block's point on top of the account's stack.
pub insert_snapshot_block_ok :
    (b b' : BlockChain) (block : SnapshotBlock)
    → IsDistinct block.accounts
    → insert_snapshot_block b block ≡ (b', ok tt)
    → AllPushed b b' block.height block.hash block.accounts
unfolding insert_snapshot_block
insert_snapshot_block_ok b b' block d e =
    AllPushed-same_ac b _ b' block.height block.hash block.accounts refl
      (snapshot_points_ok _ b' block.height block.hash block.accounts d e)

-- ===== src/Chain/Block/Mined.antt =====
-- The accounts that `NextAccountSnapshot` lists take their points from the next snapshot block.
use naive_vite.Base.{
  All-insert, insert, ◌≡◌, ◌≢◌, inl, inr, refl, ap, subst, ◌∙◌, some, List, [], ◌∷◌, ok, ◌==◌,
  false, All, arith, Bool-cases,
}
use naive_vite.Base.Int.{ℤ, pos, ◌+ℤ◌, ◌≤ℤ◌}
use naive_vite.Types.{Hash, Address, AccountHashH, SnapshotPoint}
use naive_vite.Store.{BlockStore}
use naive_vite.Chain.Account
use naive_vite.Chain.Account.{
  AccountChain, top, next_snapshot_point, point_is_stale, get_block_by_height,
}
use naive_vite.Chain.Account.Points.{new_point, snapshot_point_iff}
use naive_vite.Chain.Block.{BlockChain, self_ac, put_ac, snapshot_points}
use naive_vite.Chain.Block.Points.{self_ac-put_ac, attempt}
use naive_vite.Chain.Block.Insertion.{IsAbsent, IsDistinct}
use naive_vite.Chain.Block.News.{PointsUpTo, CanSnapshot}
use naive_vite.Chain.Block.Next.{CanList, IsListedIn}

CanSnapshot-le :
    (s : BlockStore) (height height' : ℤ) (c : AccountChain)
    → height ≤ℤ height'
    → CanSnapshot s height c
    → CanSnapshot s height' c
CanSnapshot-le s height height' c le (inl empty) = inl empty
CanSnapshot-le s height height' c le (inr (head, at, stored, up_to)) =
    inr (head, at, stored, raised c.snapshot_point up_to)
  where
    raised : (ps : List SnapshotPoint) → PointsUpTo height ps → PointsUpTo height' ps
    raised [] low = tt
    raised (p ∷ ps) low = omega (arith, low, le)

pub CanList-le :
    (s : BlockStore) (height height' : ℤ) (ac : List (Address × AccountChain))
    → height ≤ℤ height'
    → CanList s height ac
    → CanList s height' ac
CanList-le s height height' [] le can = tt
CanList-le s height height' ((k, c) ∷ rest) le (here, once, can) =
    (CanSnapshot-le s height height' c le here, once, CanList-le s height height' rest le can)

insert-CanList :
    (s : BlockStore) (height : ℤ) (k : Address) (c : AccountChain)
    (ac : List (Address × AccountChain))
    → CanSnapshot s height c
    → CanList s height ac
    → CanList s height (insert k c ac)
unfolding insert
insert-CanList s height k c [] here can = (here, tt, tt)
insert-CanList s height k c ((j, d) ∷ rest) here (old, once, can) = elim (Bool-cases (j == k)) [
  | inl e ↦
      let same : j ≡ k = ground (arith, e) in
      subst (CanList s height) {x = (k, c) ∷ rest} {y = insert k c ((j, d) ∷ rest)}
        (ground (arith, e))
        (
          here,
          subst (λ i. All (λ (x : Address × AccountChain). (x.0 == i) ≡ false) rest) same once,
          can,
        )
  | inr e ↦
      subst (CanList s height) {x = (j, d) ∷ insert k c rest} {y = insert k c ((j, d) ∷ rest)}
        (ground (arith, e))
        (
          old,
          All-insert (λ (x : Address × AccountChain). (x.0 == j) ≡ false) k c rest
              (ground (arith, e)) once,
          insert-CanList s height k c rest here can,
        )
]

-- A point that is set on the account's chain as it is.
abbrev pub CanPoint : BlockChain → ℤ → Hash → AccountHashH → Type 0
CanPoint b height hash h =
    let w = b.backend in
    (c : AccountChain) × (attempt b height hash h ≡ ok c) × CanSnapshot w.store height c

-- The point of one account does not matter to another.
attempt_other :
    (b : BlockChain) (addr : Address) (c : AccountChain) (height : ℤ) (hash : Hash)
    (h : AccountHashH)
    → h.addr ≢ addr
    → attempt (put_ac b addr c) height hash h ≡ attempt b height hash h
unfolding attempt put_ac
attempt_other b addr c height hash h other =
    let same : self_ac (put_ac b addr c) h.addr ≡ self_ac b h.addr =
      self_ac-put_ac b addr h.addr c ∙ ground (arith, other) in
    ap (λ x. Account.snapshot_point x b.backend.store height hash h) same

put_ac-CanPoint :
    (b : BlockChain) (addr : Address) (c : AccountChain) (height : ℤ) (hash : Hash)
    (accounts : List AccountHashH)
    → IsAbsent addr accounts
    → All (CanPoint b height hash) accounts
    → All (CanPoint (put_ac b addr c) height hash) accounts
unfolding put_ac
put_ac-CanPoint b addr c height hash [] absent can = tt
put_ac-CanPoint b addr c height hash (h ∷ rest) (other, absent) ((d, e, ready), can) = (
  (d, attempt_other b addr c height hash h other ∙ e, ready),
  put_ac-CanPoint b addr c height hash rest absent can,
)

snapshot_points_next :
    (b : BlockChain) (height : ℤ) (hash : Hash) (h : AccountHashH) (rest : List AccountHashH)
    (c : AccountChain)
    → attempt b height hash h ≡ ok c
    → snapshot_points b height hash (h ∷ rest)
      ≡ snapshot_points (put_ac b h.addr c) height hash rest
unfolding snapshot_points attempt
snapshot_points_next b height hash h rest c e = ground (arith, e)

-- Points that can all be set are set, and then the chains can be snapshot again.
pub snapshot_points_run :
    (b : BlockChain) (height : ℤ) (hash : Hash) (accounts : List AccountHashH)
    → IsDistinct accounts
    → All (CanPoint b height hash) accounts
    → (let w = b.backend in CanList w.store height b.ac)
    → (b' : BlockChain) × (snapshot_points b height hash accounts ≡ (b', ok tt))
      × (b'.backend ≡ b.backend)
      × (let w = b.backend in CanList w.store height b'.ac)
unfolding snapshot_points put_ac
snapshot_points_run b height hash [] distinct can all = (b, refl, refl, all)
snapshot_points_run b height hash (h ∷ rest) (absent, distinct) ((c, e, ready), can) all =
    let w = b.backend in
    let kept = put_ac-CanPoint b h.addr c height hash rest absent can in
    let (b', run, same, after) =
      snapshot_points_run (put_ac b h.addr c) height hash rest distinct kept
        (insert-CanList w.store height h.addr c b.ac ready all) in
    (b', snapshot_points_next b height hash h rest c e ∙ run, same, after)

-- Each listed account takes its point, at the height above `height`.
pub IsListed-CanPoint :
    (b : BlockChain) (height : ℤ) (hash : Hash) (h : AccountHashH)
    → IsListedIn b.backend.store height b.ac h
    → CanPoint b (height +ℤ pos 1) hash h
unfolding attempt self_ac get_block_by_height
IsListed-CanPoint b height hash h (c, at, (head, is_head, stored, same_hash, same_height, fresh)) =
    let c' = record c { snapshot_point = new_point (height +ℤ pos 1) hash h ∷ c.snapshot_point } in
    let found : get_block_by_height c b.backend.store h.height ≡ some head =
      ap (get_block_by_height c b.backend.store) same_height ∙ stored in
    let pushed =
      (snapshot_point_iff c b.backend.store (height +ℤ pos 1) hash h c').1
        (head, is_head, fresh, head, found, same_hash, same_height, refl) in
    (c', ground (arith, at, pushed), inr (head, is_head, stored, omega arith))

-- ===== src/Chain/Block/Points.antt =====
-- The order of the snapshot points under the operations of the block chain.
use naive_vite.Base.{
  ◌≡◌, refl, inl, inr, none, some, List, [], ◌∷◌, Result, ok, lookup, insert, lookup-insert, arith,
  ◌==◌, if◌then◌else◌, Bool-cases, Result-cases,
}
use naive_vite.Base.Int.{ℤ}
use naive_vite.Types.{Hash, Address, AccountHashH, SnapshotPoint, AccountStateBlock, SnapshotBlock}
use naive_vite.Chain.Account
use naive_vite.Chain.Account.{AccountChain, Backend}
use naive_vite.Chain.Account.Removal.{remove_chain_points}
use naive_vite.Chain.Account.Points.{
  Ordered, snapshot_point-Ordered, rollback_snapshot_point-Ordered,
}
use naive_vite.Chain.Block.{
  BlockChain, self_ac, put_ac, snapshot_points, insert_snapshot_block, rollback_snapshot_point,
  insert_account_block, remove_account_head, remove_snapshot_head,
}

-- On each account's chain the stack of snapshot points is in order.
abbrev pub IsOrdered : BlockChain → Type 0
IsOrdered b = (a : Address) → Ordered (self_ac b a).snapshot_point

pub self_ac-put_ac :
    (b : BlockChain) (addr a : Address) (c : AccountChain)
    → self_ac (put_ac b addr c) a ≡ (if addr == a then c else self_ac b a)
unfolding self_ac put_ac
self_ac-put_ac b addr a c = ground (arith, lookup-insert addr a c b.ac)

unfoldable pub points : BlockChain → Address → List SnapshotPoint
points b a = (self_ac b a).snapshot_point

-- The points of an account depend on the map of chains alone.
points-lookup :
    (b : BlockChain) (a : Address)
    → points b a ≡ (elim (lookup a b.ac) [ none ↦ [] | some c ↦ c.snapshot_point ])
unfolding points self_ac Account.new_account_chain
points-lookup b a = ground arith

pub points_of_ac : (b b' : BlockChain) (a : Address) → b'.ac ≡ b.ac → points b' a ≡ points b a
points_of_ac b b' a e = rw (points-lookup b a, points-lookup b' a, e) refl

pub points_of_insert :
    (b b' : BlockChain) (addr a : Address) (c : AccountChain)
    → b'.ac ≡ insert addr c b.ac
    → points b' a ≡ (if addr == a then c.snapshot_point else points b a)
points_of_insert b b' addr a c e =
    ground (arith, points-lookup b a, points-lookup b' a, lookup-insert addr a c b.ac)

same_ac-IsOrdered : (b b' : BlockChain) → b'.ac ≡ b.ac → IsOrdered b → IsOrdered b'
unfolding points
same_ac-IsOrdered b b' e o a = rw (points_of_ac b b' a e) (o a)

insert-IsOrdered :
    (b b' : BlockChain) (addr : Address) (c : AccountChain)
    → b'.ac ≡ insert addr c b.ac
    → Ordered c.snapshot_point
    → IsOrdered b
    → IsOrdered b'
unfolding points
insert-IsOrdered b b' addr c e oc o a =
    rw (points_of_insert b b' addr a c e)
      (elim (Bool-cases (addr == a)) [ inl here ↦ rw here oc | inr other ↦ rw other (o a) ])

unfoldable pub attempt : BlockChain → ℤ → Hash → AccountHashH → Result AccountChain
attempt b height hash h = Account.snapshot_point (self_ac b h.addr) b.backend.store height hash h

put_ac-IsOrdered :
    (b : BlockChain) (height : ℤ) (hash : Hash) (h : AccountHashH) (c : AccountChain)
    → attempt b height hash h ≡ ok c
    → IsOrdered b
    → IsOrdered (put_ac b h.addr c)
unfolding put_ac attempt
put_ac-IsOrdered b height hash h c e o =
    insert-IsOrdered b _ h.addr c refl
      (snapshot_point-Ordered (self_ac b h.addr) b.backend.store height hash h c (o h.addr) e) o

snapshot_points-IsOrdered :
    (b : BlockChain) (height : ℤ) (hash : Hash) (accounts : List AccountHashH)
    → IsOrdered b
    → IsOrdered (snapshot_points b height hash accounts).0
unfolding snapshot_points attempt
snapshot_points-IsOrdered b height hash [] o = o
snapshot_points-IsOrdered b height hash (h ∷ rest) o =
    elim (Result-cases (attempt b height hash h)) [
      | inl (c, e) ↦
          rw (e, snapshot_points)
            (snapshot_points-IsOrdered (put_ac b h.addr c) height hash rest
              (put_ac-IsOrdered b height hash h c e o))
      | inr (inl (x, e)) ↦ rw (e, snapshot_points) o
      | inr (inr e) ↦ rw (e, snapshot_points) o
    ]

-- The operations of the block chain, in any order and with any arguments. A failed insertion of a
-- snapshot block and a failed rollback of points leave what they have changed; a failed removal
-- changes nothing but that, as any read, it puts a missing account's chain into the map.
pub data Step (b : BlockChain) : BlockChain → Type 0 where
  account_in : (a : Address) (block : AccountStateBlock) → Step b (insert_account_block b a block)
  account_out :
      {b' : BlockChain} (a : Address) (block : AccountStateBlock)
      → remove_account_head b a block ≡ ok b'
      → Step b b'
  snapshot_in : (block : SnapshotBlock) → Step b (insert_snapshot_block b block).0
  snapshot_out : (block : SnapshotBlock) → Step b (remove_snapshot_head b block)
  read : (a : Address) → Step b (put_ac b a (self_ac b a))
  unlock :
      (a : Address) (start end : SnapshotPoint) → Step b (rollback_snapshot_point b a start end).0

pub data Reach (b : BlockChain) : BlockChain → Type 0 where
  here : Reach b b
  next : {b' b'' : BlockChain} → Reach b b' → Step b' b'' → Reach b b''

account_in-IsOrdered :
    (b : BlockChain) (a : Address) (block : AccountStateBlock)
    → IsOrdered b
    → IsOrdered (insert_account_block b a block)
unfolding insert_account_block put_ac Account.insert_chain
account_in-IsOrdered b a block o = insert-IsOrdered b _ a _ refl (o a) o

account_out-IsOrdered :
    (b b' : BlockChain) (a : Address) (block : AccountStateBlock)
    → remove_account_head b a block ≡ ok b'
    → IsOrdered b
    → IsOrdered b'
unfolding remove_account_head put_ac
account_out-IsOrdered b b' a block e o =
    elim (Result-cases (Account.remove_chain (self_ac b a) b.backend block)) [
      | inl ((c, w), f) ↦
          let kept = remove_chain_points (self_ac b a) b.backend block c w f in
          insert-IsOrdered b b' a c (ground arith) (rw kept (o a)) o
      | inr (inl (x, f)) ↦ absurd (ground arith)
      | inr (inr f) ↦ absurd (ground arith)
    ]

unlock-IsOrdered :
    (b : BlockChain) (a : Address) (start end : SnapshotPoint)
    → IsOrdered b
    → IsOrdered (rollback_snapshot_point b a start end).0
unfolding rollback_snapshot_point put_ac
unlock-IsOrdered b a start end o =
    insert-IsOrdered b _ a _ refl (rollback_snapshot_point-Ordered (self_ac b a) start end (o a)) o

read-IsOrdered : (b : BlockChain) (a : Address) → IsOrdered b → IsOrdered (put_ac b a (self_ac b a))
unfolding put_ac
read-IsOrdered b a o = insert-IsOrdered b _ a _ refl (o a) o

snapshot_in-IsOrdered :
    (b : BlockChain) (block : SnapshotBlock)
    → IsOrdered b
    → IsOrdered (insert_snapshot_block b block).0
unfolding insert_snapshot_block
snapshot_in-IsOrdered b block o =
    snapshot_points-IsOrdered _ block.height block.hash block.accounts
      (same_ac-IsOrdered b _ refl o)

snapshot_out-IsOrdered :
    (b : BlockChain) (block : SnapshotBlock)
    → IsOrdered b
    → IsOrdered (remove_snapshot_head b block)
unfolding remove_snapshot_head
snapshot_out-IsOrdered b block o = same_ac-IsOrdered b _ refl o

Step-IsOrdered : {b b' : BlockChain} → Step b b' → IsOrdered b → IsOrdered b'
Step-IsOrdered {b} (account_in a block) o = account_in-IsOrdered b a block o
Step-IsOrdered {b} {b'} (account_out a block e) o = account_out-IsOrdered b b' a block e o
Step-IsOrdered {b} (snapshot_in block) o = snapshot_in-IsOrdered b block o
Step-IsOrdered {b} (snapshot_out block) o = snapshot_out-IsOrdered b block o
Step-IsOrdered {b} (read a) o = read-IsOrdered b a o
Step-IsOrdered {b} (unlock a start end) o = unlock-IsOrdered b a start end o

Reach-Ordered : {b b' : BlockChain} → IsOrdered b → Reach b b' → IsOrdered b'
Reach-Ordered o here = o
Reach-Ordered o (next r st) = Step-IsOrdered st (Reach-Ordered o r)

-- Whatever the operations of the block chain do, in any order, those that fail with what they leave,
-- to chains with no snapshot points, the stack of points of each account is in order: the snapshot heights rise strictly and the
-- account heights do not fall.
pub Reach-IsOrdered :
    {b b' : BlockChain} (a : Address)
    → b.ac ≡ []
    → Reach b b'
    → Ordered (self_ac b' a).snapshot_point
unfolding points lookup
Reach-IsOrdered {b} a e r = Reach-Ordered (λ a'. rw (points-lookup b a', e, lookup) tt) r a

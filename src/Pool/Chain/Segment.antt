-- ===== src/Pool/Chain/Segment.antt =====
-- Linked runs of blocks: the invariant of snippets and forked chains.
use naive_vite.Base.{
  inr, inl, false, Bool-cases, ℕ, zero, suc, ◌+◌, ◌≡◌, sym, ap, ◌∙◌, refl, some, store, delete,
  arith,
}
use naive_vite.Base.Int.{
  ==ℤ_iff, +ℤ_parts, ℤ, pos, pos_part, neg_part, ◌+ℤ◌, ◌-ℤ◌, ◌≤ℤ◌, ◌<ℤ◌, ◌==ℤ◌, int_laws,
  eq_of_parts,
}
use naive_vite.Types.{Hash}
use naive_vite.Pool.Chain.{PoolBlock, Blocks, height, hash, pre_hash}

-- `n` blocks of `m` link the hash `x` at the height `tail` to the hash `y` at the height `head`:
-- each is at its height, and names the hash of the one below.
abbrev pub Linked : Blocks → ℕ → ℤ → Hash → ℤ → Hash → Type 0
Linked m zero tail x head y = (tail ≡ head) × (x ≡ y)
Linked m (suc n) tail x head y =
    (w : PoolBlock) × (m (tail +ℤ pos 1) ≡ some w)
    × (height w ≡ tail +ℤ pos 1)
    × (pre_hash w ≡ x)
    × Linked m n (tail +ℤ pos 1) (hash w) head y

pub Linked-count :
    (m : Blocks) (n : ℕ) (tail : ℤ) (x : Hash) (head : ℤ) (y : Hash)
    → Linked m n tail x head y
    → pos_part tail + neg_part head + n ≡ pos_part head + neg_part tail
Linked-count m zero tail x head y l = omega (int_laws, ap pos_part l.0, ap neg_part l.0)
Linked-count m (suc n) tail x head y (w, at, h, p, l) =
    let rest = Linked-count m n (tail +ℤ pos 1) (hash w) head y l in omega int_laws

pub Linked-length :
    (m : Blocks) (n : ℕ) (tail : ℤ) (x : Hash) (head : ℤ) (y : Hash)
    → Linked m n tail x head y
    → pos_part (head -ℤ tail) ≡ n
unfolding ◌-ℤ◌
Linked-length m n tail x head y l =
    let count = Linked-count m n tail x head y l in ground (arith, count)

pub next_inj : (a b : ℤ) → a +ℤ pos 1 ≡ b +ℤ pos 1 → a ≡ b
next_inj a b e = eq_of_parts a b (omega (int_laws, ap pos_part e, ap neg_part e))

-- Blocks at heights outside the run may change.
pub Linked-change :
    (m m' : Blocks) (n : ℕ) (tail : ℤ) (x : Hash) (head : ℤ) (y : Hash)
    → ((h : ℤ) → tail <ℤ h → h ≤ℤ head → m' h ≡ m h)
    → Linked m n tail x head y
    → Linked m' n tail x head y
Linked-change m m' zero tail x head y same l = l
Linked-change m m' (suc n) tail x head y same (w, at, h, p, l) =
    let up = Linked-count m n (tail +ℤ pos 1) (hash w) head y l in
    (
      w,
      same (tail +ℤ pos 1) (omega int_laws) (omega (int_laws, up)) ∙ at,
      h,
      p,
      Linked-change m m' n (tail +ℤ pos 1) (hash w) head y
          (λ i low high. same i (omega int_laws) high) l,
    )

pub Linked-snoc :
    (m : Blocks) (n : ℕ) (tail : ℤ) (x : Hash) (head : ℤ) (y : Hash) (w : PoolBlock)
    → Linked m n tail x head y
    → m (head +ℤ pos 1) ≡ some w
    → height w ≡ head +ℤ pos 1
    → pre_hash w ≡ y
    → Linked m (suc n) tail x (head +ℤ pos 1) (hash w)
Linked-snoc m zero tail x head y w l at h p = (
  w,
  ap (λ t. m (t +ℤ pos 1)) l.0 ∙ at,
  h ∙ ap (λ t. t +ℤ pos 1) (sym l.0),
  p ∙ sym l.1,
  (ap (λ t. t +ℤ pos 1) l.0, refl),
)
Linked-snoc m (suc n) tail x head y w (v, at_v, h_v, p_v, l) at h p =
    (v, at_v, h_v, p_v, Linked-snoc m n (tail +ℤ pos 1) (hash v) head y w l at h p)

pub outside :
    (m : Blocks) (w : PoolBlock) (i : ℤ) → i <ℤ height w → store ◌==ℤ◌ m (height w) w i ≡ m i
outside m w i low = ground arith

pub store_here :
    (m : Blocks) (w : PoolBlock) (i : ℤ) → i ≡ height w → store ◌==ℤ◌ m (height w) w i ≡ some w
store_here m w i same = ground arith

pub delete_other : (m : Blocks) (k i : ℤ) → k <ℤ i → delete ◌==ℤ◌ m k i ≡ m i
delete_other m k i low = ground arith

above_next : (t j : ℤ) → t <ℤ j → (j ==ℤ t +ℤ pos 1) ≡ false → t +ℤ pos 1 <ℤ j
above_next t j low later = ground (arith, +ℤ_parts t (pos 1), low, later)

-- The run has a block at each of its heights.
pub Linked-get :
    (m : Blocks) (n : ℕ) (tail : ℤ) (x : Hash) (head : ℤ) (y : Hash) (i : ℤ)
    → Linked m n tail x head y
    → tail <ℤ i
    → i ≤ℤ head
    → (w : PoolBlock) × (m i ≡ some w) × (height w ≡ i)
Linked-get m zero tail x head y i l low high =
    absurd (omega (arith, ap pos_part l.0, ap neg_part l.0))
Linked-get m (suc n) tail x head y i (w, at, h, p, l) low high =
    elim (Bool-cases (i ==ℤ tail +ℤ pos 1)) [
      | inl first ↦
          let same : i ≡ tail +ℤ pos 1 = (==ℤ_iff i (tail +ℤ pos 1)).0 first in
          (w, ap m same ∙ at, h ∙ sym same)
      | inr later ↦
          Linked-get m n (tail +ℤ pos 1) (hash w) head y i l (above_next tail i low later) high
    ]

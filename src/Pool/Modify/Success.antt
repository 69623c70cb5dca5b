-- ===== src/Pool/Modify/Success.antt =====
-- The current chain after a call of `currentModifyToChain` that succeeds.
use naive_vite.Base.{
  ℕ, zero, suc, ◌≡◌, refl, ap, subst, ◌∙◌, ◌⊎◌, inl, inr, some, length, ok, Option-cases,
  Bool-cases, Result-cases, arith,
}
use naive_vite.Base.Int.{ℤ}
use naive_vite.Pool.Chain.{Refer, disk, forked, ForkedChain}
use naive_vite.Pool.Disk.{ChainRw, ChainPool}
use naive_vite.Pool.Refer.{chain_at, put_chain}
use naive_vite.Pool.Modify.Chains.{modify_refer_cases}
use naive_vite.Pool.Modify.{put_current, refer_rounds, has_disk_head, current_modify_to_chain}

Refer-cases : (r : Refer) → (r ≡ disk) ⊎ ((id : ℕ) × (r ≡ forked id))
Refer-cases disk = inl refl
Refer-cases (forked id) = inr (id, refl)

module _ {S : Type 0} (rw : ChainRw S) (version : ℤ) where
  refer_rounds_ok :
      (n : ℕ) (p p' : ChainPool S) (c c' : ForkedChain)
      → refer_rounds rw version n p c ≡ some (ok (p', c'))
      → (c'.chain_id ≡ c.chain_id) × (c'.refer_chain ≡ disk)
  unfolding refer_rounds
  refer_rounds_ok zero p p' c c' e = absurd (ground (arith, e))
  refer_rounds_ok (suc n) p p' c c' e = elim (Refer-cases c.refer_chain) [
    | inl f ↦ (ground (arith, e, f), ground (arith, e, f))
    | inr (id, f) ↦ elim (Option-cases (chain_at p id)) [
      | inl g ↦ absurd (ground (arith, e, f, g))
      | inr (from, g) ↦ elim (modify_refer_cases rw version from c) [
        | inl h ↦ absurd (ground (arith, e, f, g, h))
        | inr (from', to', h, fid, tid, refer) ↦
            let (i, d) =
              refer_rounds_ok n (put_chain (put_chain p from') to') p' to' c'
                (ground (arith, e, f, g, h)) in
            (i ∙ tid, d)
      ]
    ]
  ]

  abbrev pub IsCurrently : ForkedChain → ChainPool S → Type 0
  IsCurrently c q = (let new = q.current in (new.chain_id ≡ c.chain_id) × (new.refer_chain ≡ disk))

  -- Whenever it succeeds, the chain is the current one and refers to the chain on disk.
  pub current_modify_to_chain_ok :
      (p q : ChainPool S) (c : ForkedChain)
      → current_modify_to_chain rw version p c ≡ some (ok q)
      → IsCurrently c q
  unfolding current_modify_to_chain put_current
  current_modify_to_chain_ok p q c e = elim (Result-cases (has_disk_head rw version p c)) [
    | inr (inl (x, h)) ↦ absurd (ground (arith, e, h))
    | inr (inr h) ↦ absurd (ground (arith, e, h))
    | inl (found, h) ↦ elim (Bool-cases found) [
      | inr b ↦ absurd (ground (arith, e, h, b))
      | inl b ↦ elim (Option-cases (refer_rounds rw version (suc (suc (length p.others))) p c)) [
        | inl f ↦ absurd (ground (arith, e, h, b, f))
        | inr (o, f) ↦ elim (Result-cases o) [
          | inr (inl (x, g)) ↦ absurd (ground (arith, e, h, b, f, g))
          | inr (inr g) ↦ absurd (ground (arith, e, h, b, f, g))
          | inl ((p', c'), g) ↦
              let both = refer_rounds_ok (suc (suc (length p.others))) p p' c c' (f ∙ ap some g) in
              let same : put_current p' c' ≡ q = ground (arith, e, h, b, f, g) in
              subst (IsCurrently c) same both
        ]
      ]
    ]
  ]

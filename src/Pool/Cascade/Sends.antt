-- ===== src/Pool/Cascade/Sends.antt =====
-- Which transfers a task takes back.
use naive_vite.Base.{
  In, ℕ, zero, suc, ◌≤◌, ◌≡◌, refl, sym, ap, subst, ◌∙◌, true, false, ◌==◌, Option, none, some,
  List, [], ◌∷◌, inl, inr, ◌⊎◌, Option-cases, Bool-cases, arith,
}
use naive_vite.Base.Int.{ℤ, pos, pos_part, ◌-ℤ◌, ◌<ℤ◌, ◌≤ℤ◌, int_laws, -ℤ_rounds}
use naive_vite.Types.{Address, AccountHashH, AccountStateBlock, is_send}
use naive_vite.Verifier.Reader.{ChainReader}
use naive_vite.Pool.Missing.{sends_above, try_rollback}
use naive_vite.Pool.Cascade.{head_on_disk, on_disk, sends_of}

-- The block of the point is on its account's chain.
abbrev pub IsOnDisk : ChainReader → AccountHashH → Type 0
IsOnDisk r p = (b : AccountStateBlock) × (on_disk r p.addr p.height ≡ some b) × (b.hash ≡ p.hash)

step_none :
    (get : ℤ → Option AccountStateBlock) (n : ℕ) (i : ℤ)
    → get i ≡ none
    → sends_above get (suc n) i ≡ sends_above get n (i -ℤ pos 1)
unfolding sends_above
step_none get n i e = ground (arith, e)

step_taken :
    (get : ℤ → Option AccountStateBlock) (n : ℕ) (i : ℤ) (b : AccountStateBlock)
    → get i ≡ some b
    → is_send b.block_type ≡ true
    → sends_above get (suc n) i ≡ b ∷ sends_above get n (i -ℤ pos 1)
unfolding sends_above
step_taken get n i b e t = ground (arith, e, t)

step_passed :
    (get : ℤ → Option AccountStateBlock) (n : ℕ) (i : ℤ) (b : AccountStateBlock)
    → get i ≡ some b
    → is_send b.block_type ≡ false
    → sends_above get (suc n) i ≡ sends_above get n (i -ℤ pos 1)
unfolding sends_above
step_passed get n i b e t = ground (arith, e, t)

-- A transfer taken back is a transfer that is read above the height where the loop ends.
abbrev pub IsSendAbove : (ℤ → Option AccountStateBlock) → ℤ → AccountStateBlock → Type 0
IsSendAbove get h s = (i : ℤ) × (h <ℤ i) × (get i ≡ some s) × (is_send s.block_type ≡ true)

sends_above_sound :
    (get : ℤ → Option AccountStateBlock) (h : ℤ) (n : ℕ) (i : ℤ) (s : AccountStateBlock)
    → n ≡ pos_part (i -ℤ h)
    → In s (sends_above get n i)
    → IsSendAbove get h s
unfolding sends_above
sends_above_sound get h zero i s e m = absurd m
sends_above_sound get h (suc n) i s e m =
    let low : h <ℤ i = omega (int_laws, e, -ℤ_rounds i h) in
    let deeper : In s (sends_above get n (i -ℤ pos 1)) → IsSendAbove get h s =
      sends_above_sound get h n (i -ℤ pos 1) s
        (omega (int_laws, e, -ℤ_rounds i h, -ℤ_rounds (i -ℤ pos 1) h)) in
    elim (Option-cases (get i)) [
      | inl g ↦ deeper (subst (In s) (step_none get n i g) m)
      | inr (b, g) ↦ elim (Bool-cases (is_send b.block_type)) [
        | inl t ↦ elim (subst (In s) (step_taken get n i b g t) m) [
          | inl same ↦ (i, low, g ∙ ap some same, sym (ap (λ x. is_send x.block_type) same) ∙ t)
          | inr d ↦ deeper d
        ]
        | inr t ↦ deeper (subst (In s) (step_passed get n i b g t) m)
      ]
    ]

deeper_sends :
    (get : ℤ → Option AccountStateBlock) (n m : ℕ) (i : ℤ) (s : AccountStateBlock)
    → n ≤ m
    → In s (sends_above get n i)
    → In s (sends_above get m i)
unfolding sends_above
deeper_sends get zero m i s le d = absurd d
deeper_sends get (suc n) zero i s le d = absurd (omega (arith, le))
deeper_sends get (suc n) (suc m) i s le d =
    let below : In s (sends_above get n (i -ℤ pos 1)) → In s (sends_above get m (i -ℤ pos 1)) =
      deeper_sends get n m (i -ℤ pos 1) s (omega (arith, le)) in
    elim (Option-cases (get i)) [
      | inl g ↦
          subst (In s) (sym (step_none get m i g)) (below (subst (In s) (step_none get n i g) d))
      | inr (b, g) ↦ elim (Bool-cases (is_send b.block_type)) [
        | inl t ↦ elim (subst (In s) (step_taken get n i b g t) d) [
          | inl same ↦ subst (In s) (sym (step_taken get m i b g t)) (inl same)
          | inr l ↦ subst (In s) (sym (step_taken get m i b g t)) (inr (below l))
        ]
        | inr t ↦
            subst (In s) (sym (step_passed get m i b g t))
              (below (subst (In s) (step_passed get n i b g t) d))
      ]
    ]

lower_rounds : (t a b : ℤ) → a ≤ℤ b → pos_part (t -ℤ b) ≤ pos_part (t -ℤ a)
lower_rounds t a b le = omega (int_laws, le, -ℤ_rounds t a, -ℤ_rounds t b)

module _ (r : ChainReader) where
  abbrev top : Address → ℤ
  top a = let head = head_on_disk r a in head.height

  abbrev rounds_at : Address → ℤ → ℕ
  rounds_at a h = pos_part (top a -ℤ h)

  -- The transfers of the account `a` above the height `h`.
  abbrev above : Address → ℤ → List AccountStateBlock
  above a h = sends_above (on_disk r a) (rounds_at a h) (top a)

  sends_of-found : (v : AccountHashH) → IsOnDisk r v → sends_of r v ≡ above v.addr v.height
  unfolding sends_of try_rollback
  sends_of-found v (b, at, h) = ground (arith, at, h)

  sends_of_cases : (v : AccountHashH) → IsOnDisk r v ⊎ (sends_of r v ≡ [])
  unfolding sends_of try_rollback
  sends_of_cases v = elim (Option-cases (on_disk r v.addr v.height)) [
    | inl at ↦ inr (ground (arith, at))
    | inr (b, at) ↦ elim (Bool-cases (b.hash == v.hash)) [
      | inl h ↦ inl (b, at, ground (arith, h))
      | inr h ↦ inr (ground (arith, at, h))
    ]
  ]

  -- The transfers of a task are transfers on its account's chain, above its height.
  pub sends_of_sound :
      (v : AccountHashH) (s : AccountStateBlock)
      → In s (sends_of r v)
      → IsSendAbove (on_disk r v.addr) v.height s
  sends_of_sound v s m = elim (sends_of_cases v) [
    | inl d ↦
        sends_above_sound (on_disk r v.addr) v.height (rounds_at v.addr v.height) (top v.addr) s
          refl (subst (In s) (sends_of-found v d) m)
    | inr e ↦ absurd (subst (In s) e m)
  ]

  -- A task at a lower height of the same account takes at least the same transfers back.
  pub sends_of-lower :
      (v low : AccountHashH) (s : AccountStateBlock)
      → low.addr ≡ v.addr
      → low.height ≤ℤ v.height
      → IsOnDisk r low
      → In s (sends_of r v)
      → In s (sends_of r low)
  sends_of-lower v low s same le d m = elim (sends_of_cases v) [
    | inl dv ↦ subst (In s) (sym (sends_of-found low d)) (
        deeper_sends (on_disk r low.addr) (rounds_at low.addr v.height)
          (rounds_at low.addr low.height) (top low.addr) s
          (lower_rounds (top low.addr) low.height v.height le)
          (subst (λ a. In s (above a v.height)) (sym same) (subst (In s) (sends_of-found v dv) m)))
    | inr e ↦ absurd (subst (In s) e m)
  ]

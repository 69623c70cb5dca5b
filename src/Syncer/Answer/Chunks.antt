-- ===== src/Syncer/Answer/Chunks.antt =====
-- The chunks in which many hashes are sent.
use naive_vite.Base.{
  ◌∙◌, ℕ, zero, suc, ◌-◌, ◌≡◌, ◌≤◌, ◌<◌, refl, ap, sym, subst, List, [], ◌∷◌, ◌++◌, length, take,
  drop, ok, leb, Bool-cases, inl, inr, arith,
}
use naive_vite.Types.{HashHeight}
use naive_vite.Syncer.Answer.{last_chunk, split_rounds, split}

abbrev pub concat : List (List HashHeight) → List HashHeight
concat [] = []
concat (c ∷ cs) = c ++ concat cs

-- Every chunk but the last has just `lim` hashes, and the last one at least one and at most `lim`.
abbrev pub IsChunked : ℕ → List (List HashHeight) → Type 0
IsChunked lim [] = Unit
IsChunked lim (c ∷ []) = (0 < length c) × (length c ≤ lim)
IsChunked lim (c ∷ d ∷ cs) = (length c ≡ lim) × IsChunked lim (d ∷ cs)

take-drop : (n : ℕ) (xs : List HashHeight) → take n xs ++ drop n xs ≡ xs
take-drop zero xs = refl
take-drop (suc n) [] = refl
take-drop (suc n) (x ∷ xs) = ap (λ ys. x ∷ ys) (take-drop n xs)

length-take : (n : ℕ) (xs : List HashHeight) → n ≤ length xs → length (take n xs) ≡ n
length-take zero xs fits = refl
length-take (suc n) [] fits = absurd (omega arith)
length-take (suc n) (x ∷ xs) fits = ap suc (length-take n xs (omega arith))

length-drop : (n : ℕ) (xs : List HashHeight) → length (drop n xs) ≡ length xs - n
length-drop zero xs = omega arith
length-drop (suc n) [] = omega arith
length-drop (suc n) (x ∷ xs) = omega (arith, length-drop n xs)

IsChunked-cons :
    (lim : ℕ) (c : List HashHeight) (cs : List (List HashHeight))
    → length c ≡ suc lim
    → IsChunked (suc lim) cs
    → IsChunked (suc lim) (c ∷ cs)
IsChunked-cons lim c [] full rest = (omega (arith, full), omega (arith, full))
IsChunked-cons lim c (d ∷ cs) full rest = (full, rest)

-- Chunks of `buf`.
abbrev pub IsSplit : ℕ → List HashHeight → List (List HashHeight) → Type 0
IsSplit lim buf chunks = (concat chunks ≡ buf) × IsChunked lim chunks

last_chunk-IsSplit :
    (lim : ℕ) (buf : List HashHeight) → length buf < lim → IsSplit lim buf (last_chunk buf)
unfolding last_chunk
last_chunk-IsSplit lim [] short = (refl, tt)
last_chunk-IsSplit lim (x ∷ xs) short =
    (ap (λ ys. x ∷ ys) (append-nil xs), (omega arith, omega arith))
  where
    append-nil : (xs : List HashHeight) → xs ++ [] ≡ xs
    append-nil [] = refl
    append-nil (y ∷ ys) = ap (λ zs. y ∷ zs) (append-nil ys)

long :
    (n lim : ℕ) (buf : List HashHeight)
    → suc lim ≤ length buf
    → split_rounds (suc n) (suc lim) buf
      ≡ take (suc lim) buf ∷ split_rounds n (suc lim) (drop (suc lim) buf)
unfolding split_rounds
long n lim buf fits = ground (arith, fits)

short :
    (n lim : ℕ) (buf : List HashHeight)
    → length buf < suc lim
    → split_rounds n (suc lim) buf ≡ last_chunk buf
unfolding split_rounds
short zero lim buf low = refl
short (suc n) lim buf low = ground (arith, low)

split_rounds-IsSplit :
    (n lim : ℕ) (buf : List HashHeight)
    → length buf ≤ n
    → IsSplit (suc lim) buf (split_rounds n (suc lim) buf)
split_rounds-IsSplit zero lim buf enough =
    subst (IsSplit (suc lim) buf) (sym (short zero lim buf (omega arith)))
      (last_chunk-IsSplit (suc lim) buf (omega arith))
split_rounds-IsSplit (suc n) lim buf enough = elim (Bool-cases (leb (suc lim) (length buf))) [
  | inl fits ↦
      let rest =
        split_rounds-IsSplit n lim (drop (suc lim) buf)
          (omega (arith, length-drop (suc lim) buf, enough)) in
      subst (IsSplit (suc lim) buf) (sym (long n lim buf (ground (arith, fits)))) (
        ap (λ ys. take (suc lim) buf ++ ys) rest.0 ∙ take-drop (suc lim) buf,
        IsChunked-cons lim (take (suc lim) buf) (split_rounds n (suc lim) (drop (suc lim) buf))
            (length-take (suc lim) buf (ground (arith, fits))) rest.1,
      )
  | inr low ↦
      subst (IsSplit (suc lim) buf) (sym (short (suc n) lim buf (ground (arith, low))))
        (last_chunk-IsSplit (suc lim) buf (ground (arith, low)))
]

-- Splitting with a limit that is not 0 never fails: the chunks together are the hashes in their order,
-- every chunk but the last is full, and the last is neither empty nor over the limit.
pub split-IsSplit :
    (lim : ℕ) (buf : List HashHeight)
    → (chunks : List (List HashHeight)) × (split (suc lim) buf ≡ ok chunks)
      × IsSplit (suc lim) buf chunks
unfolding split
split-IsSplit lim buf = (
  split_rounds (length buf) (suc lim) buf,
  refl,
  split_rounds-IsSplit (length buf) lim buf (omega arith),
)

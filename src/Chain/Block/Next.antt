-- ===== src/Chain/Block/Next.antt =====
-- What `NextAccountSnapshot` lists.
use naive_vite.Base.{
  In, All-lookup, ◌≡◌, ◌≢◌, ◌⊎◌, inl, inr, refl, ap, subst, ◌∙◌, none, some, List, [], ◌∷◌, ok,
  ◌==◌, false, All, All-map, lookup, arith, Bool-cases,
}
use naive_vite.Base.Int.{neg_part, pos_part, ℤ, pos, ◌≤ℤ◌, ◌<ℤ◌}
use naive_vite.Types.{Hash, Address, AccountHashH, AccountStateBlock, new_account_hash_h}
use naive_vite.Store.{BlockStore}
use naive_vite.Chain.Account.{AccountChain, next_snapshot_point}
use naive_vite.Chain.Block.{next_points}
use naive_vite.Chain.Block.Insertion.{IsAbsent, IsDistinct}
use naive_vite.Chain.Block.News.{CanSnapshot, IsListed, HasNews, next_cases, news_next, head_high}

-- The chains stand at different addresses, and each can be snapshot.
abbrev pub CanList : BlockStore → ℤ → List (Address × AccountChain) → Type 0
CanList s height [] = Unit {0}
CanList s height ((k, c) ∷ rest) =
    CanSnapshot s height c
    × All (λ (e : Address × AccountChain). (e.0 == k) ≡ false) rest
    × CanList s height rest

abbrev pub IsListedIn : BlockStore → ℤ → List (Address × AccountChain) → AccountHashH → Type 0
IsListedIn s height ac h = (c : AccountChain) × (lookup h.addr ac ≡ some c) × IsListed s height c h

apart :
    (s : BlockStore) (height : ℤ) (k : Address) (rest : List (Address × AccountChain))
    (h : AccountHashH)
    → All (λ (e : Address × AccountChain). (e.0 == k) ≡ false) rest
    → IsListedIn s height rest h
    → h.addr ≢ k
apart s height k rest h once (c, at, _) e =
    let other =
      All-lookup (λ (e : Address × AccountChain). (e.0 == k) ≡ false) rest h.addr c once at in
    ground (arith, other, e)

later :
    (s : BlockStore) (height : ℤ) (k : Address) (c : AccountChain)
    (rest : List (Address × AccountChain)) (h : AccountHashH)
    → h.addr ≢ k
    → IsListedIn s height rest h
    → IsListedIn s height ((k, c) ∷ rest) h
unfolding lookup
later s height k c rest h other (d, at, listed) = (d, ground (arith, at, other), listed)

next_skips :
    (k : Address) (c : AccountChain) (rest : List (Address × AccountChain)) (i : ℤ) (x : Hash)
    → next_snapshot_point c ≡ ok (i, x)
    → i <ℤ pos 0
    → next_points ((k, c) ∷ rest) ≡ next_points rest
unfolding next_points
next_skips k c rest i x e low = ground (arith, e, low)

next_lists :
    (k : Address) (c : AccountChain) (rest : List (Address × AccountChain)) (i : ℤ) (x : Hash)
    (accounts : List AccountHashH)
    → next_snapshot_point c ≡ ok (i, x)
    → pos 0 ≤ℤ i
    → next_points rest ≡ ok accounts
    → next_points ((k, c) ∷ rest) ≡ ok (new_account_hash_h k x i ∷ accounts)
unfolding next_points
next_lists k c rest i x accounts e high f = ground (arith, e, high, f)

no_chain : (k : Address) → lookup {V = AccountChain} k [] ≡ none
unfolding lookup
no_chain k = refl

found_first :
    (k : Address) (c : AccountChain) (rest : List (Address × AccountChain))
    → lookup k ((k, c) ∷ rest) ≡ some c
unfolding lookup
found_first k c rest = ground arith

-- Every chain with a head above its last point is listed.
abbrev pub ListsNews : List (Address × AccountChain) → List AccountHashH → Type 0
ListsNews ac accounts =
    (k : Address) (c : AccountChain) (head : AccountStateBlock)
    → lookup k ac ≡ some c
    → c.head ≡ some head
    → HasNews head c.snapshot_point
    → In (new_account_hash_h k head.hash head.height) accounts

found_rest :
    (j k : Address) (d c : AccountChain) (rest : List (Address × AccountChain))
    → lookup k ((j, d) ∷ rest) ≡ some c
    → ((j ≡ k) × (d ≡ c)) ⊎ (lookup k rest ≡ some c)
unfolding lookup
found_rest j k d c rest e = elim (Bool-cases (j == k)) [
  | inl same ↦ inl (ground (arith, same), ground (arith, same, e))
  | inr other ↦ inr (ground (arith, other, e))
]

-- The accounts that `NextAccountSnapshot` lists, each once.
pub next_points-IsListed :
    (s : BlockStore) (height : ℤ) (ac : List (Address × AccountChain))
    → CanList s height ac
    → (accounts : List AccountHashH) × (next_points ac ≡ ok accounts)
      × All (IsListedIn s height ac) accounts
      × IsDistinct accounts
      × ListsNews ac accounts
unfolding next_points new_account_hash_h
next_points-IsListed s height [] can =
    ([], refl, tt, tt, λ k c head at is_head news. ground (arith, no_chain k, at))
next_points-IsListed s height ((k, c) ∷ rest) (here, once, can) =
    let (accounts, run, listed, distinct, all) = next_points-IsListed s height rest can in
    let absent : IsAbsent k accounts =
      All-map (IsListedIn s height rest) (λ h. h.addr ≢ k) accounts
        (λ h l. apart s height k rest h once l) listed in
    let kept : All (IsListedIn s height ((k, c) ∷ rest)) accounts =
      All-map (IsListedIn s height rest) (IsListedIn s height ((k, c) ∷ rest)) accounts
        (λ h l. later s height k c rest h (apart s height k rest h once l) l) listed in
    elim (next_cases s height c k here) [
      | inl (i, x, e, low) ↦ (
        accounts,
        next_skips k c rest i x e low ∙ run,
        kept,
        distinct,
        λ j d head at is_head news. elim (found_rest k j c d rest at) [
          | inl (_, same) ↦
              let (up, _) = news_next s height c d head i x same e is_head news in
              let high =
                head_high s height d head (subst (CanSnapshot s height) same here) is_head in
              absurd (omega (arith, low, high, ap pos_part up, ap neg_part up))
          | inr f ↦ all j d head f is_head news
        ],
      )
      | inr (i, x, e, high, entry) ↦ (
        new_account_hash_h k x i ∷ accounts,
        next_lists k c rest i x accounts e high run,
        ((c, found_first k c rest, entry), kept),
        (absent, distinct),
        λ j d head at is_head news. elim (found_rest k j c d rest at) [
          | inl (is, same) ↦
              let (up, hash) = news_next s height c d head i x same e is_head news in
              inl (ground (arith, is, up, hash))
          | inr f ↦ inr (all j d head f is_head news)
        ],
      )
    ]

-- ===== src/Syncer/Answer/Walk.antt =====
-- The hashes that answer a request, on an account's chain without gaps.
use naive_vite.Base.{
  err, panic, ℕ, zero, suc, ◌≡◌, ◌≤◌, ◌<◌, refl, ap, sym, subst, ◌∙◌, List, [], ◌∷◌, ◌++◌, length,
  All, none, some, Result, ok, arith,
}
use naive_vite.Base.Int.{ℤ, pos, pos_part, neg_part, ◌-ℤ◌, int_laws, eq_of_parts}
use naive_vite.Types.{Address, HashHeight, AccountStateBlock}
use naive_vite.Verifier.Reader.{ChainReader}
use naive_vite.Syncer.{Peer, Message, account_hashes, Net, Sent, send_account_hashes, send_to}
use naive_vite.Syncer.Answer.{walk, account_prev, split, send_chunks, answer_account_hash}
use naive_vite.Syncer.Answer.Chunks.{concat, IsChunked, split-IsSplit}

-- The hash and the height of a block.
abbrev pub hash_h : AccountStateBlock → HashHeight
hash_h b = record { hash = b.hash; height = b.height }

-- From the height `k` on down, at most `n` of the blocks `b`.
abbrev pub down : (ℕ → AccountStateBlock) → ℕ → ℕ → List HashHeight
down b k zero = []
down b zero (suc n) = hash_h (b 0) ∷ []
down b (suc k) (suc n) = hash_h (b (suc k)) ∷ down b k n

-- The account's chain has the blocks `b`, one at each height from 0 to `top`, which are linked by their
-- hashes, and nothing before the first.
abbrev pub IsOnChain : ChainReader → Address → (ℕ → AccountStateBlock) → ℕ → Type 0
IsOnChain r address b top =
    ((i : ℕ) → i ≤ top → r.get_account_by_hash_h address (hash_h (b i)) ≡ some (b i))
    × ((i : ℕ) → i ≤ top → (b i).height ≡ pos i)
    × ((i : ℕ) → i < top → (b (suc i)).pre_hash ≡ (b i).hash)
    × (r.get_account_by_hash_h address (record { hash = (b 0).pre_hash; height = pos 0 -ℤ pos 1 })
        ≡ none)

-- The messages are `account_hashes` of this account to this peer, each with at most 1000 hashes.
abbrev pub IsPart : Address → Peer → Peer × Message → Type 0
IsPart address p (q, account_hashes a hs) = (q ≡ p) × (a ≡ address) × (length hs ≤ 1000)
IsPart address p (q, m) = ⊥

abbrev pub hashes_of : Sent → List HashHeight
hashes_of [] = []
hashes_of ((q, account_hashes a hs) ∷ rest) = hs ++ hashes_of rest
hashes_of ((q, m) ∷ rest) = hashes_of rest

module _ (r : ChainReader) (address : Address) (b : ℕ → AccountStateBlock) where
  read :
      (i : ℕ)
      → r.get_account_by_hash_h address (hash_h (b i)) ≡ some (b i)
      → account_prev r address (hash_h (b i))
        ≡ some (record { hash = (b i).pre_hash; height = (b i).height -ℤ pos 1 })
  unfolding account_prev
  read i e = ground (arith, e)

  read_none :
      (h : HashHeight) → r.get_account_by_hash_h address h ≡ none → account_prev r address h ≡ none
  unfolding account_prev
  read_none h e = ground (arith, e)

  step :
      (n : ℕ) (h h' : HashHeight)
      → account_prev r address h ≡ some h'
      → walk (account_prev r address) (suc n) h ≡ h ∷ walk (account_prev r address) n h'
  unfolding walk
  step n h h' e = ground (arith, e)

  stop :
      (n : ℕ) (h : HashHeight)
      → account_prev r address h ≡ none
      → walk (account_prev r address) n h ≡ []
  unfolding walk
  stop zero h e = refl
  stop (suc n) h e = ground (arith, e)

  below_is :
      (i : ℕ)
      → r.get_account_by_hash_h address (hash_h (b (suc i))) ≡ some (b (suc i))
      → (b (suc i)).pre_hash ≡ (b i).hash
      → (b (suc i)).height ≡ pos (suc i)
      → (b i).height ≡ pos i
      → account_prev r address (hash_h (b (suc i))) ≡ some (hash_h (b i))
  below_is i found link h h' =
      let down_one : (b (suc i)).height -ℤ pos 1 ≡ (b i).height =
        eq_of_parts ((b (suc i)).height -ℤ pos 1) (b i).height
          (omega (int_laws, ap pos_part h, ap neg_part h, ap pos_part h', ap neg_part h')) in
      read (suc i) found
      ∙ ap (λ x. some (record { hash = x; height = (b (suc i)).height -ℤ pos 1 })) link
      ∙ ap (λ y. some (record { hash = (b i).hash; height = y })) down_one

  nothing_asked : (h : HashHeight) → walk (account_prev r address) 0 h ≡ []
  unfolding walk
  nothing_asked h = refl

  walk-down :
      (top k n : ℕ)
      → IsOnChain r address b top
      → k ≤ top
      → walk (account_prev r address) n (hash_h (b k)) ≡ down b k n
  walk-down top k zero chain low = nothing_asked (hash_h (b k))
  walk-down top zero (suc n) (found, heights, links, bottom) low =
      let first : HashHeight = record { hash = (b 0).pre_hash; height = pos 0 -ℤ pos 1 } in
      let at_first : account_prev r address (hash_h (b 0)) ≡ some first =
        read 0 (found 0 low)
        ∙ ap (λ y. some (record { hash = (b 0).pre_hash; height = y -ℤ pos 1 })) (heights 0 low) in
      step n (hash_h (b 0)) first at_first
      ∙ ap (λ xs. hash_h (b 0) ∷ xs) (stop n first (read_none first bottom))
  walk-down top (suc k) (suc n) chain low =
      let (found, heights, links, _) = chain in
      let at_k =
        below_is k (found (suc k) low) (links k low) (heights (suc k) low)
          (heights k (omega arith)) in
      step n (hash_h (b (suc k))) (hash_h (b k)) at_k
      ∙ ap (λ xs. hash_h (b (suc k)) ∷ xs) (walk-down top k n chain (omega arith))

send_chunks-hashes :
    (net : Net) (r : ChainReader) (address : Address) (chunks : List (List HashHeight)) (p : Peer)
    → IsChunked 1000 chunks
    → (hashes_of (send_chunks net r address chunks p) ≡ concat chunks)
      × All (IsPart address p) (send_chunks net r address chunks p)
unfolding send_chunks send_account_hashes send_to
send_chunks-hashes net r address [] p sized = (refl, tt)
send_chunks-hashes net r address (c ∷ []) p (some_hash, sized) =
    let (same, parts) = send_chunks-hashes net r address [] p tt in
    (ap (λ xs. c ++ xs) same, ((refl, refl, sized), parts))
send_chunks-hashes net r address (c ∷ d ∷ cs) p (full, sized) =
    let (same, parts) = send_chunks-hashes net r address (d ∷ cs) p sized in
    (ap (λ xs. c ++ xs) same, ((refl, refl, omega (arith, full)), parts))

-- The hashes of an account's chain that a peer is sent.
abbrev pub IsAnswer : Address → Peer → List HashHeight → Result Sent → Type 0
IsAnswer address p hashes (ok sent) = (hashes_of sent ≡ hashes) × All (IsPart address p) sent
IsAnswer address p hashes (err e) = ⊥
IsAnswer address p hashes panic = ⊥

nothing_to_send :
    (net : Net) (r : ChainReader) (address : Address) (h : HashHeight) (prev_cnt : ℤ) (p : Peer)
    → walk (account_prev r address) (pos_part prev_cnt) h ≡ []
    → answer_account_hash net r address h prev_cnt p ≡ ok []
unfolding answer_account_hash
nothing_to_send net r address h prev_cnt p e = ground (arith, e)

sends :
    (net : Net) (r : ChainReader) (address : Address) (h : HashHeight) (prev_cnt : ℤ) (p : Peer)
    (x : HashHeight) (xs : List HashHeight) (chunks : List (List HashHeight))
    → walk (account_prev r address) (pos_part prev_cnt) h ≡ x ∷ xs
    → split 1000 (x ∷ xs) ≡ ok chunks
    → answer_account_hash net r address h prev_cnt p ≡ ok (send_chunks net r address chunks p)
unfolding answer_account_hash
sends net r address h prev_cnt p x xs chunks e f = ground (arith, e, f)

walk-IsAnswer :
    (net : Net) (r : ChainReader) (address : Address) (h : HashHeight) (prev_cnt : ℤ) (p : Peer)
    (hashes : List HashHeight)
    → walk (account_prev r address) (pos_part prev_cnt) h ≡ hashes
    → IsAnswer address p hashes (answer_account_hash net r address h prev_cnt p)
walk-IsAnswer net r address h prev_cnt p [] e =
    subst (IsAnswer address p []) (sym (nothing_to_send net r address h prev_cnt p e)) (refl, tt)
walk-IsAnswer net r address h prev_cnt p (x ∷ xs) e =
    let (chunks, done, is_split) = split-IsSplit 999 (x ∷ xs) in
    let (same, parts) = send_chunks-hashes net r address chunks p is_split.1 in
    subst (IsAnswer address p (x ∷ xs)) (sym (sends net r address h prev_cnt p x xs chunks e done))
      (same ∙ is_split.0, parts)

-- Asked for the hashes of at most `prev_cnt` blocks down from a block of an account's linked chain, the
-- handler sends just those blocks' hashes with their heights, down to the first block, to the peer that
-- asked, in messages of at most 1000 hashes.
pub answer_account_hash-IsAnswer :
    (net : Net) (r : ChainReader) (address : Address) (b : ℕ → AccountStateBlock) (top k : ℕ)
    (prev_cnt : ℤ) (p : Peer)
    → IsOnChain r address b top
    → k ≤ top
    → IsAnswer address p
        (down b k (pos_part prev_cnt))
        (answer_account_hash net r address (hash_h (b k)) prev_cnt p)
answer_account_hash-IsAnswer net r address b top k prev_cnt p chain low =
    walk-IsAnswer net r address (hash_h (b k)) prev_cnt p (down b k (pos_part prev_cnt))
      (walk-down r address b top k (pos_part prev_cnt) chain low)

-- ===== src/Syncer/Answer/Tests.antt =====
-- A peer asks for the hashes of account 7, whose chain has two blocks.
use naive_vite.Base.{
  ℕ, zero, suc, ◌≡◌, ◌≤◌, ◌<◌, refl, Option, none, some, [], ◌∷◌, ok, arith, if◌then◌else◌, ◌&&◌,
  ◌==◌,
}
use naive_vite.Base.Int.{pos, ◌==ℤ◌, ◌-ℤ◌}
use naive_vite.Types.{HashHeight, AccountStateBlock, SnapshotBlock}
use naive_vite.Samples.{first, second}
use naive_vite.Verifier.Reader.{ChainReader}
use naive_vite.Syncer.{Net, send_account_hashes, send_to, account_hashes}
use naive_vite.Syncer.Answer.{
  split, split_rounds, last_chunk, walk, account_prev, send_chunks, answer_account_hash,
}
use naive_vite.Syncer.Answer.Walk.{hash_h, down, IsOnChain, IsAnswer, answer_account_hash-IsAnswer}

abbrev net : Net
net = record { all_peer = ok (1 ∷ 2 ∷ []); best_peer = ok 1; write = λ _ _. ok tt }

abbrev genesis_block : SnapshotBlock
genesis_block = record {
  height = pos 0;
  hash = 10;
  pre_hash = 0;
  signer = 0;
  timestamp = pos 0;
  accounts = [];
}

abbrev get : HashHeight → Option AccountStateBlock
get h =
    if (h.height ==ℤ pos 0) && (h.hash == 100)
    then some first
    else (if (h.height ==ℤ pos 1) && (h.hash == 101) then some second else none)

abbrev chain : ChainReader
chain = record {
  genesis_snapshot = genesis_block;
  head_snapshot = none;
  get_snapshot_by_hash_h = λ _. none;
  head_account = λ _. some second;
  get_account_by_hash_h = λ _ h. get h;
  get_account_by_hash = λ _ _. none;
  get_account_by_height = λ _ _. none;
  get_account_by_source_hash = λ _ _. ok none;
}

abbrev block : ℕ → AccountStateBlock
block zero = first
block (suc i) = second

both_asked :
    answer_account_hash net chain 7 (hash_h second) (pos 5) 3
    ≡ ok ((3, account_hashes 7 (hash_h second ∷ hash_h first ∷ [])) ∷ [])
unfolding answer_account_hash walk account_prev split split_rounds last_chunk send_chunks
    send_account_hashes send_to ◌-ℤ◌
both_asked = refl

chain-IsOnChain : IsOnChain chain 7 block 1
unfolding ◌-ℤ◌
chain-IsOnChain = (found, heights, links, refl)
  where
    found : (i : ℕ) → i ≤ 1 → chain.get_account_by_hash_h 7 (hash_h (block i)) ≡ some (block i)
    found zero low = refl
    found (suc i) low = refl

    heights : (i : ℕ) → i ≤ 1 → (block i).height ≡ pos i
    heights zero low = refl
    heights (suc zero) low = refl
    heights (suc (suc i)) low = absurd (omega arith)

    links : (i : ℕ) → i < 1 → (block (suc i)).pre_hash ≡ (block i).hash
    links zero low = refl
    links (suc i) low = absurd (omega arith)

answer_account_hash-IsAnswer_example :
    IsAnswer 7 3 (down block 1 5) (answer_account_hash net chain 7 (hash_h (block 1)) (pos 5) 3)
answer_account_hash-IsAnswer_example =
    answer_account_hash-IsAnswer net chain 7 block 1 1 (pos 5) 3 chain-IsOnChain (omega arith)

-- ===== src/Syncer/Answer.antt =====
-- syncer/handler_reqs.go: the answers to a peer's requests for hashes and for blocks. A handler takes
-- the message that the request's JSON text holds.
pub mod Chunks
pub mod Walk
mod Tests
use naive_vite.Base.{
  ℕ, zero, suc, ◌-◌, List, [], ◌∷◌, ◌++◌, length, take, drop, Option, none, some, Result, ok, err,
  panic, leb, if◌then◌else◌,
}
use naive_vite.Base.Int.{ℤ, pos, pos_part, ◌-ℤ◌}
use naive_vite.Types.{Hash, Address, HashHeight, AccountStateBlock, SnapshotBlock}
use naive_vite.Verifier.Reader.{ChainReader}
use naive_vite.Syncer.{
  Peer, Net, Sent, send_account_hashes, send_snapshot_hashes, send_account_blocks,
  send_snapshot_blocks,
}

-- What is left after the loop of `split`.
unfoldable pub last_chunk : List HashHeight → List (List HashHeight)
last_chunk [] = []
last_chunk (h ∷ hs) = (h ∷ hs) ∷ []

-- The loop of `split` for at most `n` rounds, and the chunk after it.
unfoldable pub split_rounds : ℕ → ℕ → List HashHeight → List (List HashHeight)
unfolding last_chunk
split_rounds zero lim buf = last_chunk buf
split_rounds (suc n) lim buf =
    let rest = split_rounds n lim (drop lim buf) in
    if leb lim (length buf) then take lim buf ∷ rest else last_chunk buf

-- `split(buf, lim)`: a limit of 0 is a division by zero.
unfoldable pub split : ℕ → List HashHeight → Result (List (List HashHeight))
unfolding split_rounds
split zero buf = panic
split (suc lim) buf = ok (split_rounds (length buf) (suc lim) buf)

-- The loop over `PrevCnt` blocks, the `n` rounds of it: `prev` reads a block, and gives the hash and
-- the height of the one before it.
unfoldable pub walk : (HashHeight → Option HashHeight) → ℕ → HashHeight → List HashHeight
walk prev zero h = []
walk prev (suc n) h = elim (prev h) [ none ↦ [] | some h' ↦ h ∷ walk prev n h' ]

unfoldable pub account_prev : ChainReader → Address → HashHeight → Option HashHeight
account_prev r address h = elim (r.get_account_by_hash_h address h) [
  | none ↦ none
  | some b ↦ some (record { hash = b.pre_hash; height = b.height -ℤ pos 1 })
]

unfoldable pub snapshot_prev : ChainReader → HashHeight → Option HashHeight
snapshot_prev r h = elim (r.get_snapshot_by_hash_h h) [
  | none ↦ none
  | some b ↦ some (record { hash = b.pre_hash; height = b.height -ℤ pos 1 })
]

-- The blocks that are found, in the order of the hashes.
unfoldable pub found {ℓ} : {B : Type ℓ} → (HashHeight → Option B) → List HashHeight → List B
found get [] = []
found get (h ∷ hs) = elim (get h) [ none ↦ found get hs | some b ↦ b ∷ found get hs ]

module _ (net : Net) (r : ChainReader) where
  -- One message for each chunk; what a write returns is not read.
  unfoldable pub send_chunks : Address → List (List HashHeight) → Peer → Sent
  unfolding send_account_hashes
  send_chunks address [] p = []
  send_chunks address (c ∷ cs) p =
      (send_account_hashes net address c p).1 ++ send_chunks address cs p

  unfoldable pub answer_account_hash : Address → HashHeight → ℤ → Peer → Result Sent
  unfolding walk account_prev split send_chunks
  answer_account_hash address h prev_cnt p =
      elim (walk (account_prev r address) (pos_part prev_cnt) h) [
        | [] ↦ ok []
        | hashes ↦ elim (split 1000 hashes) [
          | ok chunks ↦ ok (send_chunks address chunks p)
          | err e ↦ err e
          | panic ↦ panic
        ]
      ]

  unfoldable pub answer_snapshot_hash : HashHeight → ℤ → Peer → Sent
  unfolding walk snapshot_prev send_snapshot_hashes
  answer_snapshot_hash h prev_cnt p = elim (walk (snapshot_prev r) (pos_part prev_cnt) h) [
    | [] ↦ []
    | hashes ↦ (send_snapshot_hashes net hashes p).1
  ]

  unfoldable pub answer_account_blocks : Address → List HashHeight → Peer → Sent
  unfolding found send_account_blocks
  answer_account_blocks address hashes p = elim (found (r.get_account_by_hash_h address) hashes) [
    | [] ↦ []
    | blocks ↦ (send_account_blocks net address blocks p).1
  ]

  unfoldable pub answer_snapshot_blocks : List HashHeight → Peer → Sent
  unfolding found send_snapshot_blocks
  answer_snapshot_blocks hashes p = elim (found r.get_snapshot_by_hash_h hashes) [
    | [] ↦ []
    | blocks ↦ (send_snapshot_blocks net blocks p).1
  ]

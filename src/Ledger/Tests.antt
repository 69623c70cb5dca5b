-- ===== src/Ledger/Tests.antt =====
-- Account 8 receives the transfer of 30 from account 7; a request that is inserted, received and rolled
-- back; a snapshot block that is mined on the first block of account 7; another
-- transfer of that account.
use naive_vite.Base.{List, inr, ◌⊎◌, panic, ◌≡◌, refl, none, some, [], ◌∷◌, ok, lookup, insert}
use naive_vite.Base.Int.{pos, negsuc, ◌+ℤ◌}
use naive_vite.Types.{
  Hash, HashHeight, AccountHashH, AccountStateBlock, SnapshotBlock, received, new_account_hash_h,
}
use naive_vite.Verifier.Reader.{ChainReader, reader}
use naive_vite.Ledger.ReqPool.{
  Req, unconfirmed, ReqPool, block_insert, block_rollback, put_req, get_reqs, open_reqs,
  confirmed_by,
}
use naive_vite.Ledger.ReqPool.Lifecycle.{HasReq, opened, closed, reopened, block_insert-HasReq}
use naive_vite.Samples.{second, first, no_blocks, genesis_block}
use naive_vite.Chain.Account.{get_block_by_height}
use naive_vite.Chain.Snapshot
use naive_vite.Chain.Block.{
  BlockChain, next_account_snapshot, head_snapshot, get_snapshot_by_hash_h,
}
use naive_vite.Chain.Block.Insertion.{AllPushed}
use naive_vite.Chain.Block.Next.{ListsNews}
use naive_vite.Pool.Chain.{snapshot_block, init_forked}
use naive_vite.Pool.Disk.{ChainPool}
use naive_vite.Store
use naive_vite.Syncer.{Net}
use naive_vite.Pool.Accounts.{AccountPools}
use naive_vite.Ledger.Transfer.{Sends, Refuses, request_account_block_cases}
use naive_vite.Mutex.{RwMutex, unlocked}
use naive_vite.Pool.Rounds.{add_direct_snapshot_block}
use naive_vite.Ledger.{mined_block, BlockPool, mining_snapshot_block}
use naive_vite.Ledger.Mining.{CanMine, mining_pool, mining_snapshot_block_stuck}

abbrev top_block : SnapshotBlock
top_block = record {
  height = pos 4;
  hash = 504;
  pre_hash = 503;
  signer = 9;
  timestamp = pos 0;
  accounts = [];
}

abbrev chains : ChainReader
chains = record {
  genesis_snapshot = top_block;
  head_snapshot = some top_block;
  get_snapshot_by_hash_h = λ _. some top_block;
  head_account = λ _. none;
  get_account_by_hash_h = λ _ _. none;
  get_account_by_hash = λ _ _. some second;
  get_account_by_height = λ _ _. some second;
  get_account_by_source_hash = λ _ _. ok none;
}

abbrev calculate : AccountStateBlock → Hash
calculate b = 999

abbrev listed : Req
listed = record {
  req_hash = 101;
  acc = none;
  state = unconfirmed;
  amount = second.modified_amount;
  from = 7;
}

one_listed : block_insert second [] ≡ ok ((8, (101, listed) ∷ []) ∷ [])
unfolding block_insert put_req lookup insert
one_listed = refl

still_open : get_reqs ((8, (101, listed) ∷ []) ∷ []) 8 ≡ listed ∷ []
unfolding get_reqs open_reqs lookup
still_open = refl

abbrev its_receipt : AccountStateBlock
its_receipt = record second { block_type = received; hash = 301; source_hash = 101; signer = 8 }

block_insert-HasReq_example :
    (p1 : ReqPool) × (p2 : ReqPool) × (p3 : ReqPool) × (block_insert second [] ≡ ok p1)
    × HasReq [] second (opened second) p1
    × (block_insert its_receipt p1 ≡ ok p2)
    × HasReq [] second (closed second its_receipt) p2
    × (confirmed_by p2 8 101 ≡ some (new_account_hash_h 8 301 (pos 1)))
    × (block_rollback its_receipt p2 ≡ ok p3)
    × HasReq [] second (reopened second its_receipt) p3
block_insert-HasReq_example = block_insert-HasReq [] second its_receipt refl refl refl refl

-- Account 7 has just its first block, which no snapshot block lists yet.
abbrev bc : BlockChain
bc = record {
  ac = (7, record { address = 7; head = some first; snapshot_point = [] }) ∷ [];
  sc = record { head = some genesis_block };
  backend = record {
    store = record no_blocks { account_by_height = λ _. some first };
    events = [];
  };
}

bc-CanMine : CanMine bc genesis_block
unfolding get_block_by_height Store.get_account_by_height
bc-CanMine = record { top = refl; accounts = (inr (first, refl, refl, tt), tt, tt) }

abbrev pool : ChainPool BlockChain
pool = record {
  disk = bc;
  current = init_forked 1 (snapshot_block genesis_block);
  others = [];
  snippet_chains = [];
  lastest_chain_idx = 1;
}

abbrev no_net : Net
no_net = record { all_peer = ok []; best_peer = panic; write = λ p m. ok tt }

abbrev mined_on : BlockPool (ChainPool BlockChain)
mined_on =
    mining_pool genesis_block (pos 5) (pos 0) pool (λ b. 901) no_net 1 (pos 3) (λ s a b. (s, ok tt))

mining_snapshot_block_stuck_example :
    ((m : RwMutex)
      → mining_snapshot_block mined_on no_net (λ b. 901) (next_account_snapshot bc) 1 (pos 3) m pool
        ≡ none)
    × (h : HashHeight) × (accounts : List AccountHashH) × (next_account_snapshot bc
        ≡ ok (h, accounts))
    × (let block = mined_block (λ b. 901) h accounts 1 (pos 3) in
        (q : ChainPool BlockChain) × (add_direct_snapshot_block genesis_block
            (pos 5)
            (pos 0)
            unlocked
            pool
            block
          ≡ some (unlocked, q, ok tt))
        × (block.height ≡ pos 0 +ℤ pos 1)
        × (block.pre_hash ≡ 900)
        × (head_snapshot q.disk ≡ some block)
        × AllPushed bc q.disk block.height block.hash block.accounts
        × CanMine q.disk block
        × ListsNews bc.ac block.accounts)
mining_snapshot_block_stuck_example =
    mining_snapshot_block_stuck genesis_block (pos 5) (pos 0) pool (λ b. 901) no_net 1 (pos 3)
      (λ s a b. (s, ok tt)) genesis_block bc-CanMine

-- Account 7 has sent its transfer, and account 8 has no chain.
abbrev paid : BlockChain
paid = record {
  ac = (7, record { address = 7; head = some second; snapshot_point = [] }) ∷ [];
  sc = record { head = some top_block };
  backend = record {
    store = record no_blocks {
      account_by_height = λ _. some second;
      account_by_hash = λ _. some second;
      snapshot_by_height = λ _. some top_block;
    };
    events = [];
  };
}

abbrev pools : AccountPools
pools = record { bc = paid; pending_ac = []; fetched = [] }

top_stored :
    (let r = reader top_block paid in
      r.get_snapshot_by_hash_h (record { hash = 504; height = pos 4 }) ≡ some top_block)
unfolding reader get_snapshot_by_hash_h Snapshot.get_block_by_hash_h Store.get_snapshot_by_height
top_stored = refl

top_read : (let r = reader top_block paid in r.head_snapshot ≡ some top_block)
unfolding reader head_snapshot
top_read = refl

-- Account 7 sends 30 more.
request_account_block_cases_example :
    Sends top_block
      (pos 6)
      (pos 0)
      calculate
      no_net
      (pos 5)
      7
      8
      (negsuc 29)
      (λ m s b. none)
      pools
      top_block
    ⊎ Refuses top_block
        (pos 6)
        (pos 0)
        calculate
        no_net
        (pos 5)
        7
        8
        (negsuc 29)
        (λ m s b. none)
        pools
        top_block
request_account_block_cases_example =
    request_account_block_cases top_block (pos 6) (pos 0) calculate no_net (pos 5) 7 8 (negsuc 29)
      (λ m s b. none) pools top_block top_read top_stored

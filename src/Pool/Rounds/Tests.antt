-- ===== src/Pool/Rounds/Tests.antt =====
-- A task that asks for a snapshot block that waits already, and for an account block that does not.
use naive_vite.Base.{◌≡◌, refl, none, some, [], ◌∷◌, ◌++◌, store, lookup, insert, List}
use naive_vite.Base.Int.{ℤ, pos, ◌==ℤ◌}
use naive_vite.Types.{FetchRequest, empty_str}
use naive_vite.Samples.{no_blocks, genesis_block, next_block}
use naive_vite.Chain.Block.{BlockChain}
use naive_vite.Pool.Chain.{snapshot_block, SnippetChain, ForkedChain, disk, init_forked}
use naive_vite.Pool.Disk.{ChainPool}
use naive_vite.Pool.Accounts.{
  AccountPools, fetch, touch, self_pending_ac, put_pending_ac, new_account_pool,
}
use naive_vite.Pool.Rounds.{
  exist_in_current, exists, fetch_one, fetch_for_task, sort_snippets, put_sorted,
}
use naive_vite.Pool.Rounds.Fetched.{unanswered, fetch_for_task-unanswered}

abbrev bc : BlockChain
bc = record {
  ac = [];
  sc = record { head = some genesis_block };
  backend = record { store = no_blocks; events = [] };
}

abbrev current : ForkedChain
current = record {
  height_blocks =
      store ◌==ℤ◌ (λ _. none) (pos 1)
        (record { block = snapshot_block next_block; fork_version = pos 0 });
  head_height = pos 1;
  tail_height = pos 0;
  chain_id = 1;
  head_hash = 901;
  tail_hash = 900;
  refer_chain = disk;
}

abbrev pending_sc : ChainPool BlockChain
pending_sc = record {
  disk = bc;
  current = current;
  others = [];
  snippet_chains = [];
  lastest_chain_idx = 1;
}

abbrev pools : AccountPools
pools = record { bc = bc; pending_ac = []; fetched = [] }

abbrev waiting_block : FetchRequest
waiting_block = record { chain = empty_str; height = pos 1; hash = 901; prev_cnt = pos 1 }

abbrev missing_block : FetchRequest
missing_block = record { chain = 7; height = pos 5; hash = 105; prev_cnt = pos 1 }

abbrev reqs : List FetchRequest
reqs = waiting_block ∷ missing_block ∷ []

asks_once :
    (fetch_for_task genesis_block (pos 0) pending_sc reqs pools).fetched ≡ missing_block ∷ []
unfolding fetch_for_task fetch_one exists exist_in_current fetch touch self_pending_ac
    put_pending_ac new_account_pool init_forked lookup insert
asks_once = refl

fetch_for_task-unanswered_example :
    (fetch_for_task genesis_block (pos 0) pending_sc reqs pools).fetched
    ≡ [] ++ unanswered genesis_block (pos 0) pending_sc pools reqs
fetch_for_task-unanswered_example =
    fetch_for_task-unanswered genesis_block (pos 0) pending_sc reqs pools

abbrev snippet : ℤ → SnippetChain
snippet tail = record {
  height_blocks = λ _. none;
  head_height = pos 9;
  tail_height = tail;
  chain_id = 1;
  tail_hash = 106;
  head_hash = 109;
}

sorted :
    sort_snippets (snippet (pos 3) ∷ snippet (pos 1) ∷ snippet (pos 2) ∷ [])
    ≡ snippet (pos 1) ∷ snippet (pos 2) ∷ snippet (pos 3) ∷ []
unfolding sort_snippets put_sorted
sorted = refl

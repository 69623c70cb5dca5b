-- ===== src/Pool/Rounds.antt =====
-- pool/account_pool.go and pool/pool.go: the rounds of an account's pool. `Compact` sorts what has been
-- received, `TryInsert` inserts what waits, and what a task asks for is fetched unless it waits already.
-- A round has the locks that it takes: no other is running. Only AddDirectSnapshotBlock takes its lock
-- here, since MiningSnapshotBlock of the ledger calls it with that lock in hand.

pub mod Fetched
mod Tests
use naive_vite.Base.{
  ℕ, zero, suc, ◌+◌, Bool, true, false, Option, none, some, List, [], ◌∷◌, ◌++◌, ◌==◌,
  if◌then◌else◌, map, length, Table, Result, ok, err, panic,
}
use naive_vite.Base.Int.{ℤ, pos, ◌+ℤ◌, ltb_ℤ, leb_ℤ}
use naive_vite.Types.{Address, AccountStateBlock, FetchRequest, SnapshotBlock, empty_str}
use naive_vite.Mutex.{RwMutex, r_lock, r_unlock}
use naive_vite.Chain.Block.{BlockChain, put_ac, self_ac}
use naive_vite.Verifier.Reader.{reader}
use naive_vite.Verifier.Snapshot
use naive_vite.Verifier.Account
use naive_vite.Verifier.Account.{verify_result}
use naive_vite.Verifier.Task.{VerifyResult, Task, requests, task_done}
use naive_vite.Pool.Chain.{Block, account_block, snapshot_block, SnippetChain, size, ForkedChain}
use naive_vite.Pool.Disk.{ChainPool, try_insert_blocks, add_direct_block}
use naive_vite.Pool.Disk.Reader.{account_rw, snapshot_rw}
use naive_vite.Pool.Modify.{chains}
use naive_vite.Pool.Generate.{BlockPool, gen_snippet_chains}
use naive_vite.Pool.Append.{append_loop}
use naive_vite.Pool.Missing.{fetch_for_snippets}
use naive_vite.Pool.Accounts.{AccountPools, fetch, touch, self_pending_ac, put_pending_ac}

pub record AccountPool : Type 0 where
  pub chainpool : ChainPool BlockChain
  pub blockpool : BlockPool
  pub verify_task : Option Task
  pub loop_time : ℤ

-- `ByTailHeight`: a snippet put into its place among sorted ones.
unfoldable pub put_sorted : SnippetChain → List SnippetChain → List SnippetChain
put_sorted s [] = s ∷ []
put_sorted s (c ∷ cs) =
    let rest = put_sorted s cs in if ltb_ℤ c.tail_height s.tail_height then c ∷ rest else s ∷ c ∷ cs

unfoldable pub sort_snippets : List SnippetChain → List SnippetChain
unfolding put_sorted
sort_snippets [] = []
sort_snippets (s ∷ ss) = put_sorted s (sort_snippets ss)

abbrev values {ℓ} : {V : Type ℓ} → List (ℕ × V) → List V
values t = map (λ e. e.1) t

-- `loopGenSnippetChains`
unfoldable pub loop_gen_snippet_chains : AccountPool → AccountPool × ℕ
unfolding gen_snippet_chains
loop_gen_snippet_chains a =
    let p = a.chainpool in
    let blocks = a.blockpool in
    let free = values blocks.free_blocks in
    let (snippets, idx, blocks') =
      gen_snippet_chains free (values p.snippet_chains) p.lastest_chain_idx blocks in
    (
      record a {
        chainpool = record p { snippet_chains = snippets; lastest_chain_idx = idx };
        blockpool = blocks';
      },
      length free,
    )

-- 200 milliseconds, in nanoseconds.
abbrev pub pause : ℤ
pause = pos 200_000_000

module _ (genesis : SnapshotBlock) (address : Address) (version : ℤ) where
  -- `loopAppendChains`
  unfoldable pub loop_append_chains : AccountPool → Result (AccountPool × ℕ)
  unfolding append_loop sort_snippets
  loop_append_chains a =
      let p = a.chainpool in
      elim (append_loop (account_rw address version) version p (chains p)
        (sort_snippets (values p.snippet_chains))) [
          | ok (p', n) ↦ ok (record a { chainpool = p' }, n)
          | err e ↦ err e
          | panic ↦ panic
        ]

  -- `loopFetchForSnippets`: every snippet counts.
  unfoldable pub loop_fetch_for_snippets : AccountPool → List FetchRequest
  unfolding fetch_for_snippets sort_snippets
  loop_fetch_for_snippets a =
      let p = a.chainpool in
      let current = p.current in
      fetch_for_snippets address current.head_height (sort_snippets (values p.snippet_chains))

  -- `Compact`: the pool, what has been asked for, and the count.
  unfoldable pub compact : ℤ → AccountPool → Result (AccountPool × List FetchRequest × ℕ)
  unfolding loop_gen_snippet_chains loop_append_chains loop_fetch_for_snippets
  compact now a =
      let blocks = a.blockpool in
      if length blocks.free_blocks == 0
      then ok (a, [], 0)
      else (if ltb_ℤ (a.loop_time +ℤ pause) now
          then (let (a1, n) = loop_gen_snippet_chains (record a { loop_time = now }) in
              elim (loop_append_chains a1) [
                | ok (a2, m) ↦
                    let reqs = loop_fetch_for_snippets a2 in ok (a2, reqs, n + m + length reqs)
                | err e ↦ err e
                | panic ↦ panic
              ])
          else ok (a, [], 0))

  -- The rest of `TryInsert`, once the last task is done.
  unfoldable pub insert_now :
      (BlockChain → Block → VerifyResult × Task)
      → ℤ
      → AccountPool
      → Result (AccountPool × Option Task)
  unfolding try_insert_blocks
  insert_now verify now a =
      let (p, task) =
        try_insert_blocks (account_rw address version) verify version now a.chainpool in
      elim task [
        | none ↦ panic
        | some t ↦ ok (record a { chainpool = p; verify_task = some t }, some t)
      ]

  -- `TryInsert`
  unfoldable pub try_insert_account :
      (BlockChain → Block → VerifyResult × Task)
      → ℤ
      → AccountPool
      → Result (AccountPool × Option Task)
  unfolding size insert_now task_done
  try_insert_account verify now a =
      let p = a.chainpool in
      if leb_ℤ (size p.current) (pos 0) then ok (a, none) else (elim a.verify_task [
        | none ↦ insert_now verify now a
        | some t ↦
            let (over, t') = task_done (reader genesis p.disk) now version t in
            let a' = record a { verify_task = some t' } in
            if over then insert_now verify now a' else ok (a', none)
      ])

-- `ExistInCurrent`
unfoldable pub exist_in_current : {S : Type 0} → ChainPool S → FetchRequest → Bool
exist_in_current p r =
    let c = p.current in elim (c.height_blocks r.height) [ none ↦ false | some _ ↦ true ]

module _ (genesis : SnapshotBlock) (version : ℤ) (pending_sc : ChainPool BlockChain) where
  -- Whether what is asked for waits in the current chain of its pool.
  unfoldable pub exists : AccountPools → FetchRequest → Bool
  unfolding exist_in_current self_pending_ac
  exists ps r =
      if r.chain == empty_str
      then exist_in_current pending_sc r
      else exist_in_current (self_pending_ac genesis version ps r.chain) r

  -- One round of `fetchForTask`: an account's pool is made if need be.
  unfoldable pub fetch_one : AccountPools → FetchRequest → AccountPools
  unfolding exists fetch touch
  fetch_one ps r =
      let ps' = if r.chain == empty_str then ps else touch genesis version ps r.chain in
      if exists ps r then ps' else fetch ps' r

  -- `fetchForTask`; what it returns is used nowhere.
  unfoldable pub fetch_for_task : List FetchRequest → AccountPools → AccountPools
  unfolding fetch_one
  fetch_for_task [] ps = ps
  fetch_for_task (r ∷ rs) ps = fetch_for_task rs (fetch_one ps r)

-- `pendingSc.AddDirectBlock`, with the verifier at the time `now`.
unfoldable pub add_verified_snapshot_block :
    SnapshotBlock
    → ℤ
    → ℤ
    → ChainPool BlockChain
    → SnapshotBlock
    → ChainPool BlockChain × Result (Unit {0})
unfolding Snapshot.verify_referred snapshot_rw add_direct_block
add_verified_snapshot_block genesis now version pending_sc block =
    add_direct_block snapshot_rw
      (λ bc _. (Snapshot.verify_referred (reader genesis bc) now version block).result) version
      pending_sc (snapshot_block block)

-- `AddDirectSnapshotBlock`, under the read lock of `rwMutex`; `none` if it waits for the lock for ever.
unfoldable pub add_direct_snapshot_block :
    SnapshotBlock
    → ℤ
    → ℤ
    → RwMutex
    → ChainPool BlockChain
    → SnapshotBlock
    → Option (RwMutex × ChainPool BlockChain × Result (Unit {0}))
unfolding r_lock r_unlock add_verified_snapshot_block
add_direct_snapshot_block genesis now version rw_mutex pending_sc block = elim (r_lock rw_mutex) [
  | none ↦ none
  | some m ↦
      let (p, done) = add_verified_snapshot_block genesis now version pending_sc block in
      some (r_unlock m, p, done)
]

-- The account's chain is read: from then on it is in the map of chains.
unfoldable pub seen : AccountPools → Address → AccountPools
unfolding put_ac self_ac
seen ps a = let bc = ps.bc in record ps { bc = put_ac bc a (self_ac bc a) }

-- `AddDirectAccountBlock`, with the read lock free. The account's chain has been read before, for the
-- block.
unfoldable pub add_direct_account_block :
    SnapshotBlock
    → ℤ
    → ℤ
    → AccountPools
    → Address
    → AccountStateBlock
    → AccountPools × Result (Unit {0})
unfolding seen self_pending_ac put_pending_ac touch add_direct_block Account.verify_referred
    verify_result
add_direct_account_block genesis now version before address block =
    let ps = seen before address in
    elim (Account.verify_referred (reader genesis before.bc) now version block) [
      | ok stat ↦
          let (p, done) =
            add_direct_block (account_rw address version) (λ _ _. verify_result stat) version
              (self_pending_ac genesis version ps address) (account_block block) in
          (put_pending_ac genesis version ps address p, done)
      | err e ↦ (touch genesis version ps address, err e)
      | panic ↦ (touch genesis version ps address, panic)
    ]

-- ===== src/Lib.antt =====
-- A model of naive-vite, a ledger of one chain of blocks for each account and one snapshot
-- chain over them, and what makes it correct.
--
-- The parts. A node keeps its blocks in a block store. On the store stand the account chains
-- and the snapshot chain: a block of an account chain is one transfer, and a block of the
-- snapshot chain lists the heads of some accounts, which puts a snapshot point on each
-- account's chain that protects the blocks below it. The verifiers decide from the chains
-- whether a block may be added, and if they cannot yet, what has to be fetched first. Blocks
-- that come from other nodes wait in a pool: they are gathered into snippets, put on forked
-- chains, and written to disk, that is to the chains, once the verifier accepts them. The
-- consensus says which member of the committee may produce a snapshot block at which time. The
-- ledger makes blocks from the heads of the chains, puts them on the pool and sends them out;
-- as the listener of the chains it knows which transfers wait for a receipt. The syncer asks
-- peers for what the pool and the verifiers miss, and answers them.
--
-- The files.
-- - Base and its children: the shared names; lists, maps and results; Base.Int has Go's
--   integers.
-- - Types: common/types.go and the events and requests of common/face.
-- - Store: store/block_store.go, the store in memory, a method each (PutAccount is put_account).
-- - Chain.Account: chain/account_chain.go (insertChain, removeChain, SnapshotPoint,
--   RollbackSnapshotPoint, NextSnapshotPoint and the reads). Its children are about insertion,
--   the order of the snapshot points, removal, and the searches.
-- - Chain.Snapshot: chain/snapshot_chain.go. Chain.Block: chain/chain.go, which has both, and
--   calls a listener at each insertion and removal on an account chain.
-- - Verifier.Reader: the reads of common/face/chain.go as an interface that the block chain
--   fills. Verifier.Task: verifier/verifier.go. Verifier.Account: verifier/account_verifier.go;
--   its Rules describe a valid block without the code's order of checks. Verifier.Snapshot:
--   verifier/snapshot_verifier.go.
-- - Pool.Chain: the snippets and forked chains of pool/bc_pool.go with what is done to them. Its
--   Segment has the invariant of both, a run of linked blocks. Pool.Disk: the interface chainRw
--   of pool/chain.go, and what moves blocks between a pool and its chain on disk (writeToChain,
--   insertNotify, AddDirectBlock, rollback, and tryInsert of pool/account_pool.go);
--   Pool.Disk.Reader fills the interface with an account's chain and the snapshot chain.
--   Pool.Generate: the received blocks and the snippets made of them (AddBlock,
--   loopGenSnippetChains). Pool.Append: where a snippet goes (forky, forkChain,
--   loopAppendChains). Pool.Refer: chains that refer to one another (getBlock, modifyRefer,
--   getForkPoint, LongestChain). Pool.Missing: loopFetchForSnippets with pool/fetcher.go, and
--   TryRollback of pool/account_pool.go. Pool.Waiting and Pool.Unlock: which height of an account waits
--   to be rolled back, of pool/pool.go, and which snapshot points a fork takes back, of
--   pool/snapshot_pool.go. Pool.Modify: which chain of a pool has a block, and how another chain
--   becomes the current one (whichChain, currentModifyToChain). Pool.Cascade:
--   getWaitRollbackAccounts of pool/pool.go, which follows the transfers that a rollback takes
--   back to their receipts. Pool.Accounts: the pools of all accounts over the one block chain
--   (ForkAccounts, ForkAccountTo, PendingAccountTo). Pool.Fork: the pool of the snapshot chain
--   (snapshotTryInsert, checkFork, snapshotFork), of pool/snapshot_pool.go. Pool.Rounds: Compact
--   and TryInsert of pool/account_pool.go, fetchForTask, and AddDirectSnapshotBlock.
-- - Ledger: ledger/ledger.go. Ledger.ReqPool: ledger/req_pool.go. Ledger.Mining and
--   Ledger.Transfer follow a mined block and a transfer through the ledger, the pool, the verifier
--   and the chains, with Ledger.Receipt on a verified block that a pool takes; Ledger.Response and
--   Ledger.Spending are about the blocks that the ledger makes, before the verifier.
-- - Mutex: sync.RWMutex, as far as MiningSnapshotBlock and AddDirectSnapshotBlock, which share one,
--   use it. A call that waits for ever is none.
-- - Syncer: the messages of syncer/types.go and syncer/sender.go; the peer-to-peer network is
--   the interface Net. Syncer.Retry and Syncer.Fetch: syncer/fetcher.go. Syncer.Answer:
--   syncer/handler_reqs.go. Syncer.Receive: syncer/receiver.go. Syncer.State: syncer/state.go,
--   where the first sync is a machine that takes one event at a time.
-- - Monitor.Ring: monitor/ring.go.
-- - Consensus: consensus/hdpos.go (genPlan, time2Index, the teller and verifyProducer).
--   Consensus.Update: the loop there that tells the miner its slots, a round at a time.
-- - Version: version/version.go, the fork version.
-- - Common.Lifecycle and Common.Lock: common/lifecycle.go and common/lock.go.
-- - Samples has blocks for the tests, which stand with the witnesses in modules named Tests.
--
-- The correspondence. A struct is a record with the source's fields, a method a function from
-- the receiver to the receiver it leaves and its result. A returned error and a panic (an
-- index or nil pointer that Go stops at, a failed type assertion) are values of Result.
-- Strings that the code only compares (hashes, addresses, ids) are numbers, 0 the empty
-- string; nil is none. An int is an unbounded integer: the model says nothing about amounts or
-- heights that leave 64 bits, nor about counters that leave 32, but for the fork version. A time is a number of
-- nanoseconds; the clock and the fork version are arguments of the functions that read them. The
-- elections before the genesis time, which have negative numbers in the source, are not modelled. A
-- map that is only looked up is a function, one that is ranged over a list. What is shared by
-- a pointer (the store of all account chains, the task of a verification) is passed on from
-- call to call.
--
-- The bounds. Three loops take fuel and give none where it does not do: that of
-- getWaitRollbackAccounts, for which a theorem says how many rounds are enough, that of
-- currentModifyToChain, which has one round more than there are chains, and that of getForkPoint,
-- which has a round for each height and one more. Else no function runs out of fuel: a loop over a range of heights is a recursion on
-- the number of heights in it, which the caller computes from the ends of the range, and a
-- loop over a list or a stack is a recursion on it. The loop that cuts a snippet ends at a
-- missing block, and runs at most once for each height up to the snippet's head and once above
-- it. The loop of getForkPoint runs at most once for each height from the current head down to
-- -1, where there is no block; a block is looked up along at most as many chains as the pool
-- has; merging snippets takes an entry off the map of heads in each round; splitting hashes
-- takes one off the list at least.
--
-- What is left out. Logging, the texts of errors and messages, and statistics; locks around
-- whole operations, which a sequence of steps stands for, but for the mutex that the ledger shares
-- with the pool where one call holds it and another asks for it; panics of the chains' listener (the
-- ledger's fails at a receipt whose request it does not know: Ledger.ReqPool), the chains being left
-- as if it returned; JSON, for which the messages
-- themselves stand; the network (p2p), the command line and the examples; the miner's
-- goroutines, and the tickers that start the pool's rounds, of which no property here speaks. A block's hash is a field that nothing recomputes, as in the code; where the ledger
-- sets it, the hash function is an argument.
pub mod Base
pub mod Types
pub mod Samples
pub mod Chain
pub mod Common
pub mod Consensus
pub mod Ledger
pub mod Monitor
pub mod Mutex
pub mod Pool
pub mod Store
pub mod Syncer
pub mod Verifier
pub mod Version

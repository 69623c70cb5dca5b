-- ===== src/Chain.antt =====
-- chain/: the account chains, the snapshot chain, and the block chain that holds them.
pub mod Account
pub mod Snapshot
pub mod Block

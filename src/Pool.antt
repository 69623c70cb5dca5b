-- ===== src/Pool.antt =====
-- pool/: blocks that wait for their chain, gathered into chains of their own.
pub mod Chain
pub mod Disk
pub mod Refer
pub mod Append
pub mod Generate
pub mod Missing
pub mod Modify
pub mod Cascade
pub mod Accounts
pub mod Fork
pub mod Rounds
pub mod Waiting
pub mod Unlock

-- ===== src/Verifier.antt =====
-- verifier/: what a block is checked against before it goes onto a chain.
pub mod Reader
pub mod Task
pub mod Account
pub mod Snapshot

-- ===== src/Common.antt =====
-- common/: what every service of a node is built on.
pub mod Lifecycle
pub mod Lock

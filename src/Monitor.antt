-- ===== src/Monitor.antt =====
-- monitor/: the ring of the last measurements.
pub mod Ring

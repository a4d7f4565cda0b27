-- ===== src/Prom.antt =====
-- The package `prom` (src/prom): per-worker mining state, difficulties and job headers.
pub mod Gauges
pub mod Block
pub mod Difficulty
pub mod MiningState
pub mod Header
pub mod Hasher
pub mod Metrics

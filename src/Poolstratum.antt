-- ===== src/Poolstratum.antt =====
-- The package `poolstratum` (src/poolstratum): shares, statistics and the connected workers.
pub mod Server
pub mod Api
pub mod Stats
pub mod Nonce
pub mod Shares
pub mod Listener

-- ===== src/Gostratum.antt =====
-- The package `gostratum` (src/gostratum): one worker's connection and its handlers.
pub mod Worker
pub mod Lines
pub mod Listener
pub mod Shutdown
pub mod Handle

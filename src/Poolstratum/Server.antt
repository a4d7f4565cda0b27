-- ===== src/Poolstratum/Server.antt =====
-- The configuration of the bridge: its defaults in cmd/kaspabridge/main.go, and the limits under which
-- `ListenAndServe` of src/poolstratum/stratum_server.go hands it on.
pub mod Limits
use kaspa_stratum_bridge.Base.{ℕ, Bool, true, ltb, if◌then◌else◌, ◌==◌}
use kaspa_stratum_bridge.Base.Int.{ℤ, pos, negsuc, int_eq}
use kaspa_stratum_bridge.Text.{Bytes}

-- `BridgeConfig`; a time is in nanoseconds, and a `uint` is a number.
pub record BridgeConfig : Type 0 where
  pub stratum_port : Bytes
  pub chain_type : Bytes
  pub chain_rpc : Bytes
  pub prom_port : Bytes
  pub print_stats : Bool
  pub use_log_file : Bool
  pub health_check_port : Bytes
  pub block_wait_time : ℤ
  pub min_share_diff : ℕ
  pub extranonce_size : ℕ

-- The defaults that `main` puts in for zeros: 4, and five seconds.
unfoldable pub with_defaults : BridgeConfig → BridgeConfig
with_defaults cfg = record cfg {
  min_share_diff = if cfg.min_share_diff == 0 then 4 else cfg.min_share_diff;
  block_wait_time =
      if int_eq.beq cfg.block_wait_time (pos 0) then pos 5_000_000_000 else cfg.block_wait_time;
}

-- 500 milliseconds.
abbrev pub min_block_wait_time : ℕ
min_block_wait_time = 500_000_000

abbrev pub is_below : ℤ → ℕ → Bool
is_below (pos n) least = ltb n least
is_below (negsuc n) least = true

-- `blockWaitTime`
unfoldable pub block_wait_of : BridgeConfig → ℤ
block_wait_of cfg =
    if is_below cfg.block_wait_time min_block_wait_time
    then pos min_block_wait_time
    else cfg.block_wait_time

-- `minDiff`
unfoldable pub min_diff_of : BridgeConfig → ℕ
min_diff_of cfg = if ltb cfg.min_share_diff 1 then 1 else cfg.min_share_diff

-- `extranonceSize`
unfoldable pub extranonce_size_of : BridgeConfig → ℕ
extranonce_size_of cfg = if ltb 3 cfg.extranonce_size then 3 else cfg.extranonce_size

-- ===== src/Poolstratum/Server/Limits.antt =====
-- The limits of the configuration (src/poolstratum/stratum_server.go), and the extranonces under them.
use kaspa_stratum_bridge.Base.{
  ℕ, zero, suc, ◌*◌, ◌^◌, ◌≤◌, ◌<◌, ◌≡◌, refl, arith, Bool-cases, inl, inr, ltb, if◌then◌else◌,
}
use kaspa_stratum_bridge.Base.Int.{ℤ, pos, negsuc}
use kaspa_stratum_bridge.Poolstratum.Listener.{new_workers_listener}
use kaspa_stratum_bridge.Poolstratum.Server.{
  BridgeConfig, min_block_wait_time, is_below, block_wait_of, min_diff_of, extranonce_size_of,
}

abbrev limited : ℤ → ℤ
limited time = if is_below time min_block_wait_time then pos min_block_wait_time else time

limited-least : (time : ℤ) → (n : ℕ) × ((limited time ≡ pos n) × (500_000_000 ≤ n))
limited-least (negsuc n) = (500_000_000, (refl, omega arith))
limited-least (pos n) = elim (Bool-cases (ltb n 500_000_000)) [
  | inl below ↦ rw below (500_000_000, (refl, omega arith))
  | inr above ↦ rw above (n, (refl, ground arith))
]

max_extranonce-bound : (size : ℕ) → size ≤ 3 → (new_workers_listener size).max_extranonce < 2 ^ 24
unfolding new_workers_listener
max_extranonce-bound zero h = omega arith
max_extranonce-bound (suc zero) h = omega arith
max_extranonce-bound (suc (suc zero)) h = omega arith
max_extranonce-bound (suc (suc (suc zero))) h = omega arith
max_extranonce-bound (suc (suc (suc (suc n)))) h = absurd (omega arith)

size_bound : (cfg : BridgeConfig) → extranonce_size_of cfg ≤ 3
unfolding extranonce_size_of
size_bound cfg = ground arith

-- Whatever the configuration says, the block listener waits at least half a second, a share's least
-- difficulty is at least 1, an extranonce has at most three bytes, so that twice its size fits an int8,
-- and the greatest extranonce is below 2^24, so that it fits an int32.
pub limits_hold :
    (cfg : BridgeConfig)
    → ((n : ℕ) × ((block_wait_of cfg ≡ pos n) × (500_000_000 ≤ n)))
      × (1 ≤ min_diff_of cfg)
      × (2 * extranonce_size_of cfg < 2 ^ 7)
      × ((new_workers_listener (extranonce_size_of cfg)).max_extranonce < 2 ^ 24)
unfolding block_wait_of min_diff_of
limits_hold cfg =
    let size = size_bound cfg in
    (
      limited-least cfg.block_wait_time,
      ground arith,
      omega (arith, size),
      max_extranonce-bound (extranonce_size_of cfg) size,
    )

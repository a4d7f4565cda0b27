-- ===== src/Prom/MiningState.antt =====
-- src/prom/mining_state.go: the jobs that a worker was sent, in 32 slots.
pub mod Ring
use kaspa_stratum_bridge.Base.{ℕ, ◌+◌, ◌%◌, ◌^◌, Bool, false, List, [], Option, none}
use kaspa_stratum_bridge.Base.Int.{ℤ, signed64, rem, int_eq}
use kaspa_stratum_bridge.Base.GoMap.{lookup, insert}
use kaspa_stratum_bridge.Prom.Block.{RpcBlock}
use kaspa_stratum_bridge.Prom.Difficulty.{KaspaDiff}

abbrev pub maxjobs : ℕ
maxjobs = 32

pub record MiningState : Type 0 where
  pub jobs : List (ℤ × RpcBlock)
  pub job_counter : ℕ  -- the bit pattern of an int
  pub big_diff : ℕ
  pub initialized : Bool
  pub use_big_job : Bool
  pub connect_time : ℕ
  pub stratum_diff : Option KaspaDiff  -- `none` is the nil pointer

-- `MiningStateGenerator`, at a given time.
unfoldable pub mining_state_generator : ℕ → MiningState
mining_state_generator now = record {
  jobs = [];
  job_counter = 0;
  big_diff = 0;
  initialized = false;
  use_big_job = false;
  connect_time = now;
  stratum_diff = none;
}

-- `AddJob`: the new state and the job's number.
unfoldable pub add_job : MiningState → RpcBlock → MiningState × ℤ
add_job ms job =
    let counter = (ms.job_counter + 1) % 2 ^ 64 in
    let idx = signed64 counter in
    (record ms { job_counter = counter; jobs = insert (rem idx maxjobs) job ms.jobs }, idx)

-- `GetJob`; Go's remainder of a negative number is negative, and no such slot is ever filled.
unfoldable pub get_job : MiningState → ℤ → Option RpcBlock
get_job ms id = lookup (rem id maxjobs) ms.jobs

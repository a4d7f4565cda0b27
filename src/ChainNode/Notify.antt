-- ===== src/ChainNode/Notify.antt =====
-- `GetNotifyParams` of src/chainnode/node.go for the chain kaspa, and the goroutine of
-- `NewBlockAvailable` (src/poolstratum/workers_listener.go) that sends a job to one worker.
pub mod Jobs
pub mod Shape
pub mod Dispatch
use kaspa_stratum_bridge.Base.{
  ℕ, List, [], ◌∷◌, ◌++◌, Bool, true, Option, none, some, Result, ok, err, map, if◌then◌else◌,
}
use kaspa_stratum_bridge.Base.Int.{ℤ}
use kaspa_stratum_bridge.Text.{Bytes, codes, contains, is_empty}
use kaspa_stratum_bridge.Text.Digits.{format_int}
use kaspa_stratum_bridge.Model.{Value, nil, int, float, text, array, to_values, JsonRpcEvent}
use kaspa_stratum_bridge.Prom.Block.{RpcBlock}
use kaspa_stratum_bridge.Prom.Difficulty.{
  BigFloats, new_kaspa_diff, set_diff_value, calculate_target,
}
use kaspa_stratum_bridge.Prom.MiningState.{add_job}
use kaspa_stratum_bridge.Prom.Header.{Blake2b, serialize_block_header}
use kaspa_stratum_bridge.Prom.Hasher.{generate_job_header, generate_large_job_params}
use kaspa_stratum_bridge.Prom.Metrics.{
  Metrics, err_no_miner_address, err_invalid_address_fmt, err_failed_block_fetch,
  err_bad_data_from_miner, err_failed_set_diff, record_worker_error,
}
use kaspa_stratum_bridge.Gostratum.Worker.{Env, WorkerContext, Error, send, disconnect}

pub data NotifyError : Type 0 where
  wallet_missing : NotifyError
  template_failed : Bytes → NotifyError
  header_failed : Bytes → NotifyError
  difficulty_unsent : Error → NotifyError
  header_short : NotifyError  -- the panic of a header of fewer than 32 bytes

-- The node's answer to `GetBlockTemplate` of an address and extra data (a block, or the text of an
-- error), and the test that more than 20 seconds lie between two readings of the clock.
pub record Node : Type 0 where
  pub get_block_template : Bytes → Bytes → Result Bytes RpcBlock
  pub passed_20s : ℕ → ℕ → Bool

-- `bigJobRegex.MatchString`: ".*BzMiner.*" in the name of a miner.
unfoldable pub big_job : Bytes → Bool
big_job miner_name = contains miner_name (codes "BzMiner")

-- The worker, the counters, and the number and the parameters of the job.
abbrev pub Notified : Type 0
Notified = WorkerContext × Metrics × Result NotifyError (ℤ × List Value)

-- The parameters behind the number of a job; a timestamp is an int64's bit pattern.
unfoldable pub job_params : Bool → Bytes → RpcBlock → Option (List Value)
job_params use_big_job header block =
    if use_big_job
    then elim (generate_large_job_params header block.header.timestamp) [
      | none ↦ none
      | some params ↦ some (text params ∷ [])
    ]
    else elim (generate_job_header header) [
      | none ↦ none
      | some words ↦ some (array (to_values (map int words)) ∷ int block.header.timestamp ∷ [])
    ]

module _ (blake2b : Blake2b) (floats : BigFloats) (node : Node) (env : Env) where
  -- The end of `GetNotifyParams`.
  unfoldable pub finish_job : WorkerContext → Metrics → ℤ → Option (List Value) → Notified
  finish_job sc m job_id none = (sc, m, err header_short)
  finish_job sc m job_id (some params) = (sc, m, ok (job_id, text (format_int job_id) ∷ params))

  -- The event that tells a worker its difficulty.
  abbrev pub difficulty_event : ℕ → JsonRpcEvent
  difficulty_event diff = record {
    id = nil;
    version = codes "2.0";
    method = codes "mining.set_difficulty";
    params = float diff ∷ [];
  }

  -- The first job of a worker: its difficulty is set and sent.
  abbrev pub with_difficulty : WorkerContext → ℕ → WorkerContext
  with_difficulty sc diff = record sc {
    state = record sc.state {
      initialized = true;
      use_big_job = big_job sc.miner_name;
      stratum_diff = some (set_diff_value floats new_kaspa_diff diff);
    };
  }

  unfoldable pub set_difficulty : WorkerContext → ℕ → WorkerContext × Option Error
  set_difficulty sc diff = send env (with_difficulty sc diff) (difficulty_event diff)

  unfoldable pub after_difficulty :
      WorkerContext × Option Error → Metrics → ℤ → Bytes → RpcBlock → Notified
  after_difficulty (sc, some e) m job_id header block =
      (sc, record_worker_error sc.wallet_addr err_failed_set_diff m, err (difficulty_unsent e))
  after_difficulty (sc, none) m job_id header block =
      finish_job sc m job_id (job_params sc.state.use_big_job header block)

  -- From the serialized header on.
  unfoldable pub with_header :
      WorkerContext → Metrics → ℕ → RpcBlock → Result Bytes Bytes → Notified
  with_header sc m diff block (err e) =
      (sc, record_worker_error sc.wallet_addr err_bad_data_from_miner m, err (header_failed e))
  with_header sc m diff block (ok header) =
      let (state, job_id) = add_job sc.state block in
      let added = record sc { state = state } in
      after_difficulty (if state.initialized then (added, none) else set_difficulty added diff) m
        job_id header block

  -- From the node's answer on.
  unfoldable pub with_template : WorkerContext → Metrics → ℕ → Result Bytes RpcBlock → Notified
  with_template sc m diff (err message) =
      if contains message (codes "Could not decode address")
      then (
        disconnect env sc,
        record_worker_error sc.wallet_addr err_invalid_address_fmt m,
        err (template_failed message),
      )
      else (
        sc,
        record_worker_error sc.wallet_addr err_failed_block_fetch m,
        err (template_failed message),
      )
  with_template sc m diff (ok block) =
      let state = record sc.state { big_diff = calculate_target block.header.bits } in
      with_header (record sc { state = state }) m diff block (serialize_block_header blake2b block)

  -- `GetNotifyParams` of a difficulty and a worker.
  unfoldable pub get_notify_params : WorkerContext → Metrics → ℕ → Notified
  get_notify_params sc m diff =
      if is_empty sc.wallet_addr
      then (if node.passed_20s sc.state.connect_time env.now
          then (
            disconnect env sc,
            record_worker_error sc.wallet_addr err_no_miner_address m,
            err wallet_missing,
          )
          else (sc, m, err wallet_missing))
      else with_template sc m diff (
          node.get_block_template sc.wallet_addr (codes "'" ++ (sc.miner_name ++ codes "' client")))

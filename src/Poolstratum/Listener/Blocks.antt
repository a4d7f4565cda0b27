-- ===== src/Poolstratum/Listener/Blocks.antt =====
-- `NewBlockAvailable` of src/poolstratum/workers_listener.go: the workers that are told of a new block,
-- and the goroutine for each of them.
pub mod Balances
pub mod Ready
pub mod Equipped
pub mod Extranonce
use kaspa_stratum_bridge.Base.{
  ℕ, ◌-◌, ◌^◌, suc, List, [], ◌∷◌, Bool, true, false, not, Option, none, some, ok, err,
  if◌then◌else◌, ltb,
}
use kaspa_stratum_bridge.Base.Int.{ℤ, pos, negsuc}
use kaspa_stratum_bridge.Text.{Bytes, bytes_beq, codes, is_empty}
use kaspa_stratum_bridge.Model.{Value, int, JsonRpcEvent}
use kaspa_stratum_bridge.Prom.Difficulty.{BigFloats}
use kaspa_stratum_bridge.Prom.Header.{Blake2b}
use kaspa_stratum_bridge.Prom.Metrics.{
  Metrics, err_disconnected, err_failed_send_work, record_worker_error, record_new_job,
}
use kaspa_stratum_bridge.Gostratum.Worker.{Env, WorkerContext, Error, disconnected, wrapped, send}
use kaspa_stratum_bridge.ChainNode.Notify.{Node, Notified, get_notify_params}
use kaspa_stratum_bridge.Poolstratum.Stats.{labels}
use kaspa_stratum_bridge.Poolstratum.Listener.{WorkersListener}

-- The loop over the clients, in the order in which the map happens to be read: the workers for which
-- it starts a goroutine, and the addresses.
unfoldable pub select_clients : Bytes → (ℕ → WorkerContext) → List (ℕ × ℕ) → List ℕ × List Bytes
select_clients chain_type contexts [] = ([], [])
select_clients chain_type contexts ((idx, p) ∷ clients) =
    let (chosen, addresses) = select_clients chain_type contexts clients in
    let cl = contexts p in
    if not (bytes_beq cl.app_name chain_type)
    then (chosen, addresses)
    else if cl.disconnecting
    then (chosen, addresses)
    else (p ∷ chosen, if is_empty cl.wallet_addr then addresses else cl.wallet_addr ∷ addresses)

-- `balanceDelay`, a minute.
abbrev pub balance_delay : ℕ
balance_delay = 60_000_000_000

-- `time.Since(c.lastBalanceCheck) > balanceDelay`; the clock does not go back.
abbrev pub is_due : ℕ → WorkersListener → Bool
is_due now c = ltb balance_delay (now - c.last_balance_check)

-- The end of `NewBlockAvailable`: the addresses whose balances a goroutine asks for.
unfoldable pub check_balances :
    ℕ → List Bytes → WorkersListener → WorkersListener × Option (List Bytes)
check_balances now addresses c = (
  record c { last_balance_check = if is_due now c then now else c.last_balance_check },
  if is_due now c then elim addresses [ [] ↦ none | a ∷ others ↦ some (a ∷ others) ] else none,
)

-- `errors.Is(err, gostratum.ErrorDisconnected)`
abbrev pub is_disconnected : Error → Bool
is_disconnected disconnected = true
is_disconnected (wrapped e) = is_disconnected e
is_disconnected e = false

-- A job's number as an `any`; a negative one by its bit pattern.
abbrev pub number_value : ℤ → Value
number_value (pos n) = int n
number_value (negsuc n) = int (2 ^ 64 - suc n)

abbrev pub notify_event : ℤ → List Value → JsonRpcEvent
notify_event job_id params = record {
  id = number_value job_id;
  version = codes "2.0";
  method = codes "mining.notify";
  params = params;
}

-- The goroutine after `Send`.
unfoldable pub after_notify : WorkerContext × Option Error → Metrics → WorkerContext × Metrics
after_notify (sc, none) m = (sc, record_new_job (labels sc) m)
after_notify (sc, some e) m =
    if is_disconnected e then (sc, record_worker_error sc.wallet_addr err_disconnected m) else (
      sc,
      record_new_job (labels sc) (record_worker_error sc.wallet_addr err_failed_send_work m),
    )

module _ (blake2b : Blake2b) (floats : BigFloats) (node : Node) (env : Env) where
  unfoldable pub after_params : Notified → WorkerContext × Metrics
  after_params (sc, m, err e) = (sc, m)
  after_params (sc, m, ok (job_id, params)) =
      after_notify (send env sc (notify_event job_id params)) m

  -- The goroutine for one worker, with the listener's least difficulty of a share.
  unfoldable pub notify_worker : ℕ → WorkerContext → Metrics → WorkerContext × Metrics
  notify_worker min_share_diff sc m =
      after_params (get_notify_params blake2b floats node env sc m min_share_diff)

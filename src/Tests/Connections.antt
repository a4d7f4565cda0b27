-- ===== src/Tests/Connections.antt =====
-- The theorems of the models of the read loop, the upstream pool's client, the chain node's calls, the
-- pool's waits and the configuration at concrete data.
use kaspa_stratum_bridge.Base.{
  ℕ, zero, suc, ◌+◌, ◌*◌, ◌^◌, ◌≤◌, ◌<◌, ◌≡◌, ◌==◌, refl, arith, List, [], ◌∷◌, ◌++◌, map, length,
  replicate, Bool, true, false, Option, none, some, Result, ok, err,
}
use kaspa_stratum_bridge.Base.Int.{pos, negsuc}
use kaspa_stratum_bridge.Text.{Bytes, codes, bytes_beq, strip_nul}
use kaspa_stratum_bridge.Model.{text, JsonRpcEvent, new_event}
use kaspa_stratum_bridge.Gostratum.Worker
use kaspa_stratum_bridge.Gostratum.Worker.{WorkerContext}
use kaspa_stratum_bridge.Gostratum.Lines.{read_lines}
use kaspa_stratum_bridge.Gostratum.Lines.Framing.{IsPlain, framed, read_lines_split}
use kaspa_stratum_bridge.Gostratum.Listener
use kaspa_stratum_bridge.Gostratum.Listener.{
  client_loop, handle_lines, timed_out, failed, read_failed,
}
use kaspa_stratum_bridge.Gostratum.Listener.Rounds.{client_loop_merge}
use kaspa_stratum_bridge.Bridge.{calls}
use kaspa_stratum_bridge.Bridge.Leaving.{client_loop-disconnecting}
use kaspa_stratum_bridge.ChainNode.Aleo
use kaspa_stratum_bridge.Gostratum.Lines
use kaspa_stratum_bridge.ChainNode.AleoNode
use kaspa_stratum_bridge.ChainNode.Aleo.{
  AleoStratumNode, create_stratum_node, received, listen, send,
}
use kaspa_stratum_bridge.ChainNode.AleoNode.{
  AleoNode, Attempt, new_aleo_node, event_or_zero, on_line, start_round, start_loop,
}
use kaspa_stratum_bridge.ChainNode.AleoNode.Messages.{closed_after, start_loop-ended}
use kaspa_stratum_bridge.ChainNode.AleoNode.Work.{
  work_params, aleo_notify_params, times, aleo_notify_params-listen,
}
use kaspa_stratum_bridge.ChainNode.Forward.{
  RpcClient, ChainError, ChainNode, create_chain_node, get_info,
}
use kaspa_stratum_bridge.ChainNode.Forward.Chains.{
  closing, info, saving, errors, Answers, create_chain_node-calls,
}
use kaspa_stratum_bridge.Poolstratum.Api.{
  PoolApi, cancelled, ready, ticked, wait_for_sync, template_loop,
}
use kaspa_stratum_bridge.Poolstratum.Api.Sync.{
  polled, answer, is_final, error_of, wait_for_sync-returns, template_loop-callbacks,
}
use kaspa_stratum_bridge.Poolstratum.Listener.{new_workers_listener}
use kaspa_stratum_bridge.Poolstratum.Server.{
  BridgeConfig, block_wait_of, min_diff_of, extranonce_size_of,
}
use kaspa_stratum_bridge.Poolstratum.Server.Limits.{limits_hold}
use kaspa_stratum_bridge.Tests.Bridge.{setting, connected}
use kaspa_stratum_bridge.Tests.{worker_at, busy_env}

abbrev messages : List Bytes
messages = codes "ab" ∷ codes "c" ∷ []

ab-IsPlain : IsPlain (codes "ab")
ab-IsPlain = (
  ((λ e. omega arith), (λ e. omega arith), (λ e. omega arith)),
  (((λ e. omega arith), (λ e. omega arith), (λ e. omega arith)), tt),
)

c-IsPlain : IsPlain (codes "c")
c-IsPlain = (((λ e. omega arith), (λ e. omega arith), (λ e. omega arith)), tt)

read_lines_split_example :
    (read_lines 1024 (codes "ab") ++ read_lines 1024 (codes "c" ++ b'\n' ∷ [])
      ≡ codes "ab" ∷ codes "c" ∷ [])
    × (read_lines 1024 ((codes "ab" ++ codes "c") ++ b'\n' ∷ []) ≡ codes "abc" ∷ [])
read_lines_split_example =
    read_lines_split 1024 b'a' (b'b' ∷ []) (codes "c") ab-IsPlain c-IsPlain (omega arith)

-- Every line is an event, which is counted.
abbrev counting : Listener.Callbacks ℕ
counting = record {
  unmarshal_event = λ line. some (new_event [] line []);
  handler = λ method. some (λ s worker event. (s + 1, none));
  new_block_available = λ s. s;
  disconnect = λ s worker. s;
  wraps_deadline = λ e. false;
}

client_loop_merge_example :
    client_loop counting 0 7 (
      (Listener.received (framed (codes "ab" ∷ [])), false)
      ∷ (Listener.received (framed (codes "c" ∷ [])), false)
      ∷ (timed_out, false)
      ∷ [])
    ≡ client_loop counting 0 7
        ((Listener.received (framed messages), false) ∷ (timed_out, false) ∷ [])
unfolding framed handle_lines Listener.handle_line Listener.handle_event Listener.after_handler
    bytes_beq new_event
client_loop_merge_example =
    client_loop_merge counting 7 0 1 (codes "ab" ∷ []) (codes "c" ∷ []) ((timed_out, false) ∷ [])
      (ab-IsPlain, tt) (c-IsPlain, tt) (omega arith) refl

client_loop-disconnecting_example :
    ((client_loop
        (calls setting busy_env)
        connected
        0
        ((timed_out, false) ∷ (failed, false) ∷ [])).0.contexts
      0).disconnecting
    ≡ true
unfolding client_loop Listener.client_round Listener.after_read Listener.read_from_connection
client_loop-disconnecting_example =
    client_loop-disconnecting setting busy_env 0 connected
      ((timed_out, false) ∷ (failed, false) ∷ []) read_failed refl

abbrev pool_client : AleoStratumNode
pool_client = record (create_stratum_node (codes "pool:1") (codes "a") (codes "b") (codes "c")) {
  has_connection = true;
  connected = true;
}

abbrev rig : WorkerContext
rig = worker_at (codes "10.0.0.1") (codes "rig")

-- A message is an event with its text for six parameters.
abbrev six_of : Bytes → Option JsonRpcEvent
six_of line = some (new_event [] (codes "m.n") (replicate 6 (text line)))

abbrev aleo : AleoNode
aleo = new_aleo_node (codes "pool:1") 60

abbrev attempt : Attempt
attempt = record {
  env = busy_env;
  dialled = true;
  subscribed = received [];
  authorized = received [];
  readings = received (codes "job\n") ∷ [];
}

start_loop-ended_example :
    start_loop six_of
      (λ blocks. blocks + 1)
      (aleo, 0)
      (closed_after six_of (λ blocks. blocks + 1) 2 attempt ∷ attempt ∷ [])
    ≡ (start_round six_of (λ blocks. blocks + 1) (aleo, 0) attempt).0
unfolding start_round AleoNode.start_authorizing AleoNode.start_listening AleoNode.set_last_work
    on_line Aleo.subscribe Aleo.authorize Aleo.await_response Aleo.send Aleo.send_encoded
    Aleo.write_with_backoff Aleo.write_rounds Aleo.write Aleo.write_locked Aleo.check_disconnect
    Aleo.interfere Aleo.read_response Aleo.each_line Aleo.listen new_aleo_node create_stratum_node
    read_lines Lines.scan_lines Lines.scan_from Lines.drop_cr Lines.fill_buffer strip_nul
start_loop-ended_example =
    start_loop-ended six_of (λ blocks. blocks + 1) (aleo, 0) attempt 2 (attempt ∷ []) refl

aleo_notify_params-listen_example :
    let (st, result) =
      listen
        (on_line six_of (λ blocks. blocks + 1))
        (aleo, 0)
        (map (λ ls. received (framed ls)) ((codes "ab" ∷ []) ∷ (codes "c" ∷ []) ∷ [])) in
    (result ≡ none)
    × (st.1 ≡ times (length messages) (λ blocks. blocks + 1) 0)
    × (aleo_notify_params st.0 ≡ work_params (some (event_or_zero (six_of (codes "c")))))
unfolding framed
aleo_notify_params-listen_example =
    aleo_notify_params-listen six_of (λ blocks. blocks + 1) aleo 0
      ((codes "ab" ∷ []) ∷ (codes "c" ∷ []) ∷ []) (codes "ab" ∷ []) (codes "c")
      (((ab-IsPlain, tt), omega arith), (((c-IsPlain, tt), omega arith), tt)) refl

-- A client of kaspad that counts its calls and is synchronized from the fourth on.
abbrev pub counted : RpcClient
counted = record {
  Client = ℕ;
  DagInfo = ℕ;
  NetworkHashes = ℕ;
  Info = Bool;
  Template = ℕ;
  Balances = ℕ;
  RejectReason = ℕ;
  Block = ℕ;
  OnTemplate = ℕ;
  dial = λ address. ok 0;
  close = λ n. (n + 1, ok tt);
  get_block_dag_info = λ n. (n + 1, ok n);
  estimate_network_hashes = λ hash window n. (n + 1, ok n);
  get_info = λ n. (n + 1, ok (3 == n));
  register = λ notify n. (n + 1, ok tt);
  get_block_template = λ address extra n. (n + 1, err (codes "no template"));
  get_balances = λ addresses n. (n + 1, ok n);
  submit_block = λ block n. (n + 1, ok n);
}

abbrev pub kaspa_node : ChainNode counted
kaspa_node = record { chain_type = codes "kaspa"; kasaip = some 0; aleo_node = none }

create_chain_node-calls_example :
    Answers counted
      (codes "kaspa")
      (closing ∷ info ∷ saving none ∷ [])
      (errors counted (closing ∷ info ∷ saving none ∷ []) kaspa_node)
unfolding create_chain_node bytes_beq errors
create_chain_node-calls_example =
    create_chain_node-calls counted (codes "kaspa") (codes "localhost:16110") kaspa_node
      (closing ∷ info ∷ saving none ∷ []) refl

wait_for_sync-returns_example :
    wait_for_sync counted (λ synced. synced) 10 kaspa_node
    ≡ some (
      polled counted (λ synced. synced) 4 kaspa_node,
      error_of counted (λ synced. synced) (answer counted (λ synced. synced) 3 kaspa_node),
    )
unfolding get_info bytes_beq kaspa_stratum_bridge.ChainNode.Forward.from_answer
wait_for_sync-returns_example =
    wait_for_sync-returns counted (λ synced. synced) 3 10 kaspa_node (omega arith) early refl
  where
    early :
        (k : ℕ)
        → k < 3
        → is_final counted (λ synced. synced) (answer counted (λ synced. synced) k kaspa_node)
          ≡ false
    early zero h = refl
    early (suc zero) h = refl
    early (suc (suc zero)) h = refl
    early (suc (suc (suc k))) h = absurd (omega arith)

abbrev pool_api : PoolApi counted (λ info. true)
pool_api = record {
  chain_type = codes "kaspa";
  address = codes "localhost:16110";
  block_wait_time = pos 500_000_000;
  chain_node = kaspa_node;
  connected = true;
}

-- One poll ends a wait, where every node is taken for synchronized.
one_poll :
    (node : ChainNode counted)
    → (r : ChainNode counted × Option ChainError) × (wait_for_sync counted (λ info. true) 1 node
        ≡ some r)
unfolding wait_for_sync
one_poll node = by_answer (get_info counted node).1 refl
  where
    by_answer :
        (given : Result ChainError Bool)
        → (get_info counted node).1 ≡ given
        → (r : ChainNode counted × Option ChainError) × (wait_for_sync counted (λ info. true) 1 node
            ≡ some r)
    by_answer (err e) h = (((get_info counted node).0, some e), rw (h, wait_for_sync) refl)
    by_answer (ok synced) h = (((get_info counted node).0, none), rw (h, wait_for_sync) refl)

template_loop-callbacks_example :
    (end : PoolApi counted (λ info. true)) × (template_loop counted
        (λ info. true)
        (λ blocks. blocks + 1)
        1
        pool_api
        0
        ((ready ∷ ticked ∷ []) ++ cancelled ∷ [])
      ≡ some (end, times (length (ready ∷ ticked ∷ [])) (λ blocks. blocks + 1) 0, true))
template_loop-callbacks_example =
    template_loop-callbacks counted (λ info. true) (λ blocks. blocks + 1) 1 one_poll pool_api 0
      (ready ∷ ticked ∷ []) ((λ e. cc), ((λ e. cc), tt))

abbrev pub config : BridgeConfig
config = record {
  stratum_port = codes ":5555";
  chain_type = codes "kaspa";
  chain_rpc = codes "localhost:16110";
  prom_port = codes ":2112";
  print_stats = true;
  use_log_file = true;
  health_check_port = [];
  block_wait_time = negsuc 4;
  min_share_diff = 0;
  extranonce_size = 9;
}

limits_hold_example :
    ((n : ℕ) × ((block_wait_of config ≡ pos n) × (500_000_000 ≤ n)))
    × (1 ≤ min_diff_of config)
    × (2 * extranonce_size_of config < 2 ^ 7)
    × ((new_workers_listener (extranonce_size_of config)).max_extranonce < 2 ^ 24)
limits_hold_example = limits_hold config

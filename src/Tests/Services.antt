-- ===== src/Tests/Services.antt =====
-- The theorems on the message queue's channel, the network's statistics, the parameters of a job, the
-- clients that are told of a block and the configured bridge at concrete data.
use kaspa_stratum_bridge.Base.{
  ℕ, zero, suc, ◌+◌, ◌<◌, ◌≡◌, ◌≢◌, ◌==◌, refl, arith, [], ◌∷◌, ◌++◌, ◌&&◌, take, replicate, none,
  some, ok, err, true, false, if◌then◌else◌,
}
use kaspa_stratum_bridge.Base.Int.{pos}
use kaspa_stratum_bridge.Text.{codes, bytes_beq, pad_zeros}
use kaspa_stratum_bridge.Text.Digits.{parse_uint, format_int, format_decimal, decimal_loop}
use kaspa_stratum_bridge.Mq.{Amqp, Queue, mq_address, as_json}
use kaspa_stratum_bridge.Mq.Channel.{Message, insert_all, insert_all-retry}
use kaspa_stratum_bridge.Poolstratum.Api.NetworkStats
use kaspa_stratum_bridge.Poolstratum.Api.NetworkStats.{
  StatsFields, Watched, stats_thread, ticks, network, stats_thread-network,
}
use kaspa_stratum_bridge.Poolstratum.Api.{PoolApi, new_pool_api}
use kaspa_stratum_bridge.Poolstratum.Nonce.{add_extranonce}
use kaspa_stratum_bridge.Poolstratum.Server.{block_wait_of, extranonce_size_of}
use kaspa_stratum_bridge.Bridge.{set_at, Setting, State, start, accept, new_block_available}
use kaspa_stratum_bridge.Bridge.Reach.{here, next, connection}
use kaspa_stratum_bridge.Bridge.Clients.{one_if, occurrences, wants_jobs}
use kaspa_stratum_bridge.Bridge.Registry.{is_registered}
use kaspa_stratum_bridge.Bridge.Announced.{new_block_available-notifying}
use kaspa_stratum_bridge.Bridge.Serve.{Libraries, setting_of, assemble, served_nonces_differ}
use kaspa_stratum_bridge.ChainNode.Notify.Dispatch.{
  IsJob, chain_notify_params, chain_notify_params-IsJob,
}
use kaspa_stratum_bridge.ChainNode.Forward.{create_chain_node, dial_kaspa}
use kaspa_stratum_bridge.Tests.Bridge.{setting}
use kaspa_stratum_bridge.Tests.Connections.{counted, kaspa_node, config}
use kaspa_stratum_bridge.Tests.Notifications.{zero_hash, number_floats, steady_node}
use kaspa_stratum_bridge.Tests.Submissions.{refusing}
use kaspa_stratum_bridge.Tests.{worker_at, busy_env}
use kaspa_stratum_bridge.Text.Hex.{format_hex, hex_loop, hex_digit}
use kaspa_stratum_bridge.Text.Endian.{be_number, be_number_from, be_bytes, le_bytes, le_number}
use kaspa_stratum_bridge.Model.{text}
use kaspa_stratum_bridge.Prom.MiningState.{add_job}
use kaspa_stratum_bridge.Prom.Header.{serialize_block_header}
use kaspa_stratum_bridge.Prom.Hasher.{generate_large_job_params, uint64_at, format_word}
use kaspa_stratum_bridge.ChainNode.Notify.{
  job_params, finish_job, after_difficulty, with_header, with_template, get_notify_params,
}
use kaspa_stratum_bridge.Base.GoMap.{insert}
use kaspa_stratum_bridge.Gostratum.Listener.{new_client}
use kaspa_stratum_bridge.Poolstratum.Listener.{on_connect, take_extranonce, new_workers_listener}
use kaspa_stratum_bridge.Poolstratum.Listener.Blocks.{select_clients}

-- The second dial gives a channel, which is its number.
abbrev second_dial : Amqp
second_dial = record {
  Channel = ℕ;
  getenv = λ name. [];
  dial = λ n address. if n == 1 then ok (ok n) else err (codes "refused");
  publish = λ n channel publishing. none;
}

abbrev no_queue : Queue second_dial
no_queue = record { instance_channel = none; dialled = []; published = [] }

abbrev message : Message
message = record {
  body = codes "{}";
  exchange = codes "Kaspa_Direct_Exchange";
  routing = codes "Kaspa_Direct_Routing";
}

insert_all-retry_example :
    let (q', errors) = insert_all second_dial no_queue ((message ∷ []) ++ message ∷ message ∷ []) in
    (q' ≡ record {
      instance_channel = some 1;
      dialled = [] ++ replicate 2 (mq_address second_dial);
      published =
          []
          ++ (1, as_json second_dial message.body message.exchange message.routing)
            ∷ (1, as_json second_dial message.body message.exchange message.routing)
            ∷ [];
    })
    × (take 1 errors ≡ replicate 1 none)
insert_all-retry_example =
    insert_all-retry second_dial no_queue 1 (message ∷ []) message (message ∷ []) refl closed refl
  where
    closed : (i : ℕ) → i < 1 → kaspa_stratum_bridge.Mq.Channel.opened second_dial (0 + i) ≡ none
    closed zero h = refl
    closed (suc i) h = absurd (omega arith)

-- Every answer is a number.
abbrev numbers : StatsFields counted
numbers = record {
  tip_hashes = λ dag. codes "tip" ∷ [];
  block_count = λ dag. dag + 100;
  difficulty = λ dag. dag + 7;
  hashes_per_second = λ hashes. hashes;
  to_float = λ n. n;
}

abbrev watched : Watched counted numbers
watched = (
  kaspa_node,
  record { balances = []; network_hashrate = 0; network_difficulty = 0; network_block_count = 0 },
)

stats_thread-network_example :
    let (w', result) = stats_thread counted numbers watched (ticks counted numbers 1) in
    (result ≡ NetworkStats.returned)
    × (network counted numbers w'.1 ≡ (1, 7, 100))
    × (w'.1.balances ≡ [])
unfolding NetworkStats.found NetworkStats.stats_round
    kaspa_stratum_bridge.ChainNode.Forward.get_block_dag_info
    kaspa_stratum_bridge.ChainNode.Forward.estimate_network_hashes
    kaspa_stratum_bridge.ChainNode.Forward.from_answer bytes_beq NetworkStats.after_dag_info
    NetworkStats.after_tips
stats_thread-network_example =
    stats_thread-network counted numbers 0 0 watched (1, 7, 100) calm refl
      (λ j below. absurd (omega arith))
  where
    calm :
        (j : ℕ)
        → j < 1
        → (NetworkStats.stats_round counted numbers
            (NetworkStats.rounds counted numbers j watched)).1
          ≡ NetworkStats.waiting
    calm zero h = refl
    calm (suc j) h = absurd (omega arith)

chain_notify_params-IsJob_example :
    let r =
      chain_notify_params counted kaspa_node zero_hash number_floats steady_node busy_env
        (worker_at (codes "10.0.0.1") (codes "rig"))
        []
        4 in
    IsJob counted kaspa_node zero_hash number_floats steady_node busy_env
      (worker_at (codes "10.0.0.1") (codes "rig"))
      r.0
      (pos 2)
      (text (codes "2") ∷ text (replicate 64 b'0' ++ codes "e803000000000000") ∷ [])
unfolding chain_notify_params bytes_beq get_notify_params with_template with_header
    serialize_block_header after_difficulty add_job finish_job job_params generate_large_job_params
    uint64_at format_int format_word format_decimal pad_zeros decimal_loop format_hex be_number
    be_number_from le_number be_bytes le_bytes hex_loop hex_digit
chain_notify_params-IsJob_example =
    chain_notify_params-IsJob counted kaspa_node zero_hash number_floats steady_node busy_env
      (worker_at (codes "10.0.0.1") (codes "rig")) [] 4 (pos 2)
      (text (codes "2") ∷ text (replicate 64 b'0' ++ codes "e803000000000000") ∷ []) refl

-- A chain whose name is that of a worker that has not said its own.
abbrev unnamed : Setting
unnamed = record setting { chain_type = [] }

abbrev one_connected : State unnamed
one_connected = accept unnamed 5 (codes "10.0.0.1:4000") (start unnamed 2)

new_block_available-notifying_example :
    occurrences 0 (new_block_available unnamed 70_000_000_000 one_connected).notifying
    ≡ occurrences 0 one_connected.notifying
      + one_if (is_registered one_connected 0 && wants_jobs [] (one_connected.contexts 0))
unfolding start accept
new_block_available-notifying_example =
    new_block_available-notifying unnamed 2 70_000_000_000 0 one_connected
      (next here (connection (start unnamed 2) 5 (codes "10.0.0.1:4000"))) (omega arith)

new_block_is_told :
    occurrences 0 (new_block_available unnamed 70_000_000_000 one_connected).notifying ≡ 1
unfolding new_block_available start accept select_clients bytes_beq on_connect new_client set_at
    take_extranonce new_workers_listener insert
new_block_is_told = refl

abbrev libraries : Libraries
libraries = record {
  rpc = counted;
  is_synced = λ synced. synced;
  kaspad = refusing;
  blake2b = zero_hash;
  floats = number_floats;
  decode_address = λ address. true;
  unmarshal_event = λ line. none;
  wraps_deadline = λ e. false;
  in_kas = λ balance. balance;
  float_of = λ n. n;
}

abbrev served : Setting
served = setting_of libraries config

-- The configuration asks for nine bytes and gets three.
abbrev first_state : State served
first_state = start served 3

abbrev both_connected : State served
both_connected =
    accept served 6 (codes "10.0.0.2:4000") (accept served 5 (codes "10.0.0.1:4000") first_state)

abbrev pool_api : PoolApi counted (λ synced. synced)
pool_api = record {
  chain_type = codes "kaspa";
  address = codes "localhost:16110";
  block_wait_time = pos 500_000_000;
  chain_node = kaspa_node;
  connected = true;
}

served_nonces_differ_example :
    parse_uint 16 (add_extranonce (both_connected.contexts 0).extranonce (codes "1f"))
    ≢ parse_uint 16 (add_extranonce (both_connected.contexts 1).extranonce (codes "1f"))
unfolding start accept assemble new_pool_api create_chain_node dial_kaspa bytes_beq block_wait_of
    extranonce_size_of
served_nonces_differ_example =
    served_nonces_differ libraries config pool_api first_state both_connected 0 1 (codes "1f")
      (codes "1f") (omega arith) refl
      (next (next here (connection first_state 5 (codes "10.0.0.1:4000")))
        (connection _ 6 (codes "10.0.0.2:4000")))
      (omega arith) (omega arith) (omega arith) (refl, (refl, tt)) (refl, (refl, tt)) (omega arith)
      (omega arith)

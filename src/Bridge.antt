-- ===== src/Bridge.antt =====
-- The bridge as `ListenAndServe` of src/poolstratum/stratum_server.go puts it together: the stratum
-- listener with its clients, the workers listener, the share handler and the counters. Whole calls take
-- turns: the handlers of two clients do not interleave inside a call. A handler that panics ends
-- its client's loop here, where the program would end.
pub mod Memory
pub mod Handlers
pub mod Leaving
pub mod Reach
pub mod Sound
pub mod Extranonces
pub mod Clients
pub mod Registry
pub mod Announced
pub mod Serve
use kaspa_stratum_bridge.Base.{
  ℕ, ◌+◌, List, [], ◌++◌, Bool, Option, none, some, if◌then◌else◌, ◌==◌, ◌∷◌,
}
use kaspa_stratum_bridge.Text.{Bytes, bytes_beq}
use kaspa_stratum_bridge.Model.{JsonRpcEvent, method_subscribe, method_authorize, method_submit}
use kaspa_stratum_bridge.Prom.Difficulty.{BigFloats}
use kaspa_stratum_bridge.Prom.Header.{Blake2b}
use kaspa_stratum_bridge.Prom.Metrics.{Metrics}
use kaspa_stratum_bridge.Prom.MiningState.{mining_state_generator}
use kaspa_stratum_bridge.Gostratum.Worker.{Env, WorkerContext, Error, disconnect}
use kaspa_stratum_bridge.Gostratum.Handle.{handle_subscribe, handle_authorize}
use kaspa_stratum_bridge.Gostratum.Listener.{Callbacks, LoopError, Read, client_round, new_client}
use kaspa_stratum_bridge.ChainNode.Notify.{Node}
use kaspa_stratum_bridge.Poolstratum.Stats.{ShareHandler, new_share_handler, get_create_stats}
use kaspa_stratum_bridge.Poolstratum.Shares.{Kaspad, World, handle_submit}
use kaspa_stratum_bridge.Poolstratum.Listener.{
  WorkersListener, new_workers_listener, on_connect, on_disconnect,
}
use kaspa_stratum_bridge.Poolstratum.Listener.Blocks.{select_clients, check_balances, notify_worker}
use kaspa_stratum_bridge.Prom.Gauges.{Gauges, record_balances}

-- Every part's state. A pointer to a `WorkerContext` is a number below `allocated`; `contexts` is the
-- memory. `notifying` holds the goroutines that `NewBlockAvailable` started, by their worker,
-- and `asking` those that ask for balances, by their addresses;
-- `heard` counts what `disconnectListener` received from a worker.
pub record Pool (DomainBlock : Type 0) : Type 0 where
  pub contexts : ℕ → WorkerContext
  pub allocated : ℕ
  pub listener : WorkersListener
  pub handler : ShareHandler
  pub metrics : Metrics
  pub submitted : List DomainBlock
  pub notifying : List ℕ
  pub asking : List (List Bytes)
  pub gauges : Gauges
  pub heard : ℕ → ℕ
  pub disconnects : ℕ

-- A write to memory.
unfoldable pub set_at {ℓ} : {A : Type ℓ} → ℕ → A → (ℕ → A) → ℕ → A
set_at p x f q = if q == p then x else f q

abbrev pub HandlerMap : Type 0 → Type 0
HandlerMap S = Bytes → Option (S → ℕ → JsonRpcEvent → S × Option Error)

-- `DefaultHandlers`: stubs that print.
unfoldable pub default_handlers : {S : Type 0} → HandlerMap S
default_handlers method =
    if bytes_beq method method_subscribe
    then some (λ s worker event. (s, none))
    else if bytes_beq method method_authorize
    then some (λ s worker event. (s, none))
    else if bytes_beq method method_submit
    then some (λ s worker event. (s, none))
    else none

-- `ShareHandler.ProxyHandlers`, with `sh.HandleSubmit`.
unfoldable pub share_proxy :
    {S : Type 0} → (S → ℕ → JsonRpcEvent → S × Option Error) → HandlerMap S → HandlerMap S
share_proxy submit handlers method =
    if bytes_beq method method_subscribe
    then handlers method_subscribe
    else if bytes_beq method method_authorize
    then handlers method_authorize
    else if bytes_beq method method_submit
    then some submit
    else none

-- `workersAuthenticListener.ProxyHandlers`, with `c.HandleSubscribe` and `c.HandleAuthorize`.
unfoldable pub workers_proxy :
    {S : Type 0}
    → (subscribe authorize : S → ℕ → JsonRpcEvent → S × Option Error) → HandlerMap S
    → HandlerMap S
workers_proxy subscribe authorize handlers method =
    if bytes_beq method method_subscribe
    then some subscribe
    else if bytes_beq method method_authorize
    then some authorize
    else if bytes_beq method method_submit
    then handlers method_submit
    else none

-- What does not change while the bridge runs: the node's client, the hash, the floats, the decoders,
-- the errors that wrap a deadline, the chain's name, the least difficulty of a
-- share, and the float of a balance in KAS.
pub record Setting : Type 1 where
  pub kaspad : Kaspad
  pub blake2b : Blake2b
  pub floats : BigFloats
  pub decode_address : Bytes → Bool
  pub unmarshal_event : Bytes → Option JsonRpcEvent
  pub wraps_deadline : Error → Bool
  pub in_kas : ℕ → ℕ
  pub chain_type : Bytes
  pub min_share_diff : ℕ

module _ (setting : Setting) where
  abbrev pub State : Type 0
  State = Pool setting.kaspad.DomainBlock

  -- The state at the start, with the size of the extranonces; the memory holds a blank context
  -- wherever none is allocated.
  unfoldable pub start : ℕ → State
  start size = record {
    contexts = λ p. new_client setting.chain_type (mining_state_generator 0) [];
    allocated = 0;
    listener = new_workers_listener size;
    handler = new_share_handler;
    metrics = [];
    submitted = [];
    notifying = [];
    asking = [];
    gauges = record {
      balances = [];
      network_hashrate = 0;
      network_difficulty = 0;
      network_block_count = 0;
    };
    heard = λ p. 0;
    disconnects = 0;
  }

  -- `newClient`, from the time and the remote address.
  unfoldable pub accept : ℕ → Bytes → State → State
  accept now remote s =
      let blank = new_client setting.chain_type (mining_state_generator now) remote in
      let (listener, ctx) = on_connect s.listener s.allocated blank in
      record s {
        contexts = set_at s.allocated ctx s.contexts;
        allocated = s.allocated + 1;
        listener = listener;
      }

  -- `NewBlockAvailable` at a time: the goroutines it starts.
  unfoldable pub new_block_available : ℕ → State → State
  unfolding select_clients check_balances
  new_block_available now s =
      let (chosen, addresses) = select_clients setting.chain_type s.contexts s.listener.clients in
      let (listener, query) = check_balances now addresses s.listener in
      record s {
        listener = listener;
        notifying = s.notifying ++ chosen;
        asking = elim query [ none ↦ s.asking | some asked ↦ s.asking ++ asked ∷ [] ];
      }

  -- The goroutine that asks for balances, on the node's answer.
  unfoldable pub answer_balances : Option (List (Bytes × ℕ)) → State → State
  answer_balances none s = s
  answer_balances (some entries) s = record s {
    gauges = record_balances setting.in_kas entries s.gauges;
  }

  -- One of the goroutines for the workers, under the node's answers.
  unfoldable pub tell : Node → Env → ℕ → State → State
  tell node env p s =
      let (ctx, metrics) =
        notify_worker setting.blake2b setting.floats node env setting.min_share_diff (s.contexts p)
          s.metrics in
      record s { contexts = set_at p ctx s.contexts; metrics = metrics }

  -- The goroutine of `OnConnect`.
  unfoldable pub look_up : ℕ → ℕ → State → State
  look_up now p s =
      let (handler, entry, metrics) = get_create_stats s.handler s.metrics (s.contexts p) now in
      record s { handler = handler; metrics = metrics }

  -- `Disconnect` of a worker.
  unfoldable pub close : Env → State → ℕ → State
  close env s p = record s { contexts = set_at p (disconnect env (s.contexts p)) s.contexts }

  -- A round of `disconnectListener`.
  unfoldable pub hang_up : ℕ → State → State
  hang_up p s =
      let (listener, metrics) = on_disconnect s.listener s.metrics (s.contexts p) in
      record s {
        listener = listener;
        metrics = metrics;
        heard = set_at p (s.heard p + 1) s.heard;
        disconnects = s.disconnects + 1;
      }

  unfoldable pub subscribe : Env → State → ℕ → JsonRpcEvent → State × Option Error
  subscribe env s p event =
      let (ctx, result) = handle_subscribe env (s.contexts p) event in
      (record s { contexts = set_at p ctx s.contexts }, result)

  unfoldable pub authorize : Env → State → ℕ → JsonRpcEvent → State × Option Error
  authorize env s p event =
      let (ctx, result) = handle_authorize env setting.decode_address (s.contexts p) event in
      (record s { contexts = set_at p ctx s.contexts }, result)

  -- What a submission of a worker reads and changes.
  abbrev pub world_of : State → ℕ → World setting.kaspad.DomainBlock
  world_of s p = record {
    handler = s.handler;
    metrics = s.metrics;
    worker = s.contexts p;
    submitted = s.submitted;
  }

  unfoldable pub submit_share : Env → State → ℕ → JsonRpcEvent → State × Option Error
  submit_share env s p event =
      let (world', result) =
        handle_submit setting.kaspad env setting.chain_type (world_of s p) event in
      (
        record s {
          contexts = set_at p world'.worker s.contexts;
          handler = world'.handler;
          metrics = world'.metrics;
          submitted = world'.submitted;
        },
        result,
      )

  -- The handlers that `ListenAndServe` gives to the stratum listener.
  unfoldable pub handlers : Env → HandlerMap State
  handlers env =
      workers_proxy (subscribe env) (authorize env)
        (share_proxy (submit_share env) default_handlers)

  abbrev pub calls : Env → Callbacks State
  calls env = record {
    unmarshal_event = setting.unmarshal_event;
    handler = handlers env;
    new_block_available = new_block_available env.now;
    disconnect = close env;
    wraps_deadline = setting.wraps_deadline;
  }

  -- A round of the loop of a client.
  unfoldable pub receive : Env → ℕ → Read → Bool → State → State × Option LoopError
  receive env p read cancelled s = client_round (calls env) s p read cancelled

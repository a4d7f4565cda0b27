-- ===== src/Gostratum/Listener.antt =====
-- src/gostratum/stratum_listener.go and stratum_client.go: new connections, the dispatch of events, the
-- loop that reads a connection, and the listener of disconnected workers.
pub mod Rounds
pub mod Keeping
use kaspa_stratum_bridge.Base.{
  ℕ, List, [], ◌∷◌, Option, none, some, Bool, true, false, if◌then◌else◌, ◌==◌,
}
use kaspa_stratum_bridge.Text.{Bytes, bytes_beq}
use kaspa_stratum_bridge.Model.{JsonRpcEvent, method_authorize}
use kaspa_stratum_bridge.Prom.MiningState.{MiningState}
use kaspa_stratum_bridge.Gostratum.Worker.{WorkerContext, Error}
use kaspa_stratum_bridge.Gostratum.Lines.{read_lines}

-- The parts that the listener calls, over the state of the whole bridge: `M.UnmarshalEvent`, the
-- `HandlerMap`, the `ClientListener`, `Disconnect` of a worker, and whether an error of a handler wraps
-- `os.ErrDeadlineExceeded`. A worker is named by its pointer.
pub record Callbacks (S : Type 0) : Type 0 where
  pub unmarshal_event : Bytes → Option JsonRpcEvent
  pub handler : Bytes → Option (S → ℕ → JsonRpcEvent → S × Option Error)
  pub new_block_available : S → S
  pub disconnect : S → ℕ → S
  pub wraps_deadline : Error → Bool

-- Why a client's loop returns.
pub data LoopError : Type 0 where
  unreadable_event : LoopError
  handler_failed : Error → LoopError
  read_timeout : LoopError
  read_failed : LoopError
  cancelled : LoopError

-- What `connection.Read` returns in one round of the loop, `SetReadDeadline` included.
pub data Read : Type 0 where
  received : Bytes → Read
  timed_out : Read
  failed : Read

module _ {S : Type 0} (calls : Callbacks S) where
  -- `HandleEvent` after the handler: an authorized worker makes new jobs go out.
  unfoldable pub after_handler : Bytes → S × Option Error → S × Option Error
  after_handler method (s, some e) = (s, some e)
  after_handler method (s, none) =
      if bytes_beq method method_authorize then (calls.new_block_available s, none) else (s, none)

  -- `HandleEvent`: a method without a handler is passed over.
  unfoldable pub handle_event : S → ℕ → JsonRpcEvent → S × Option Error
  handle_event s worker event = elim (calls.handler event.method) [
    | none ↦ (s, none)
    | some handler ↦ after_handler event.method (handler s worker event)
  ]

  -- The callback of `spawnClientListener` on an event that could be read or not.
  unfoldable pub handle_unmarshalled : S → ℕ → Option JsonRpcEvent → S × Option LoopError
  handle_unmarshalled s worker none = (s, some unreadable_event)
  handle_unmarshalled s worker (some event) =
      let (s', result) = handle_event s worker event in
      elim result [ none ↦ (s', none) | some e ↦ (s', some (handler_failed e)) ]

  unfoldable pub handle_line : S → ℕ → Bytes → S × Option LoopError
  unfolding handle_unmarshalled
  handle_line s worker line = handle_unmarshalled s worker (calls.unmarshal_event line)

  -- The loop of `readFromConnection` over the lines; it stops at the first error.
  unfoldable pub handle_lines : S → ℕ → List Bytes → S × Option LoopError
  handle_lines s worker [] = (s, none)
  handle_lines s worker (line ∷ lines) =
      let (s', result) = handle_line s worker line in
      elim result [ none ↦ handle_lines s' worker lines | some e ↦ (s', some e) ]

  unfoldable pub read_from_connection : S → ℕ → Read → S × Option LoopError
  read_from_connection s worker (received bytes) = handle_lines s worker (read_lines 1024 bytes)
  read_from_connection s worker timed_out = (s, some read_timeout)
  read_from_connection s worker failed = (s, some read_failed)

  -- `errors.Is(err, os.ErrDeadlineExceeded)`
  abbrev pub is_deadline : LoopError → Bool
  is_deadline read_timeout = true
  is_deadline (handler_failed e) = calls.wraps_deadline e
  is_deadline e = false

  -- The end of a round: the tests in the order of the code. `WorkerContext.Err` is always nil, so that
  -- only the parent's context can be cancelled. A return runs the deferred `Disconnect`.
  unfoldable pub after_read : ℕ → Bool → S × Option LoopError → S × Option LoopError
  after_read worker parent_cancelled (s, none) =
      if parent_cancelled then (calls.disconnect s worker, some cancelled) else (s, none)
  after_read worker parent_cancelled (s, some e) =
      if is_deadline e
      then (s, none)
      else if parent_cancelled
      then (calls.disconnect s worker, some cancelled)
      else (calls.disconnect s worker, some e)

  -- One round of `spawnClientListener`: `none` where the loop goes on.
  unfoldable pub client_round : S → ℕ → Read → Bool → S × Option LoopError
  client_round s worker read parent_cancelled =
      after_read worker parent_cancelled (read_from_connection s worker read)

  -- The rounds of `spawnClientListener` while nothing else runs; `none` where it still reads.
  unfoldable pub client_loop : S → ℕ → List (Read × Bool) → S × Option LoopError
  client_loop s worker [] = (s, none)
  client_loop s worker ((read, parent_cancelled) ∷ rounds) =
      let (s', result) = client_round s worker read parent_cancelled in
      elim result [ none ↦ client_loop s' worker rounds | some e ↦ (s', some e) ]

-- The text in front of the first colon: `strings.Split(addr, ":")[0]`.
unfoldable pub before_colon : Bytes → Bytes
before_colon [] = []
before_colon (c ∷ s) = let rest = c ∷ before_colon s in if c == b':' then [] else rest

-- `newClient` up to `OnConnect`: the context of a connection.
unfoldable pub new_client : Bytes → MiningState → Bytes → WorkerContext
new_client chain_type state remote = record {
  chain_type = chain_type;
  app_name = [];
  app_version = [];
  miner_name = [];
  device_company = [];
  device_type = [];
  device_name = [];
  remote_addr = before_colon remote;
  wallet_addr = [];
  id = 0;
  has_connection = true;
  disconnecting = false;
  write_lock = 0;
  extranonce = [];
  state = state;
  attempts = 0;
  wire = [];
  spawned_disconnects = 0;
  closes = 0;
  notifications = 0;
  published = [];
}

-- ===== src/ChainNode/Aleo/Writes.antt =====
-- The writes of src/chainnode/aleo/aleostratum/clientnode.go and of src/gostratum/stratum_client.go.
use kaspa_stratum_bridge.Base.{not, Option, none, some}
use kaspa_stratum_bridge.Gostratum.Worker
use kaspa_stratum_bridge.Gostratum.Worker.{WorkerContext, Error, disconnected, pool_disconnected}
use kaspa_stratum_bridge.ChainNode.Aleo.{AleoStratumNode}

-- A worker of the stratum server with the connection of a client of the upstream pool.
abbrev pub as_worker : WorkerContext → AleoStratumNode → WorkerContext
as_worker base sc = record base {
  disconnecting = not sc.connected;
  write_lock = sc.write_lock;
  attempts = sc.attempts;
  wire = sc.wire;
  spawned_disconnects = sc.spawned_disconnects;
}

-- The client has an error of its own for a connection that is not there, with another text.
abbrev pub as_error : Option Error → Option Error
as_error none = none
as_error (some pool_disconnected) = some disconnected
as_error (some e) = some e

-- A result of the client as one of the server.
abbrev pub as_result : WorkerContext → AleoStratumNode × Option Error → WorkerContext × Option Error
as_result base r = (as_worker base r.0, as_error r.1)

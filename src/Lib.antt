-- ===== src/Lib.antt =====
-- A model of the Kaspa stratum bridge, which serves blocks of a kaspad node to miners as stratum jobs
-- and hands the blocks they find back to the node.
--
-- A miner connects to `gostratum`, which keeps a `WorkerContext` for it; `poolstratum` gives the worker
-- an extranonce, sends it jobs made by `prom` from the node's block templates, and checks what it
-- submits.
--
-- The parts, and the files that model them:
-- - Prom/MiningState: src/prom/mining_state.go, the jobs of a worker. `replay` is the abstract view,
--   a history of added jobs.
-- - Prom/Header, Prom/Hasher, Prom/Difficulty: src/prom/hasher.go, the serialization of headers, the two
--   forms of a job, and difficulties. BLAKE2b and the floats of math/big are parameters.
-- - Prom/Metrics, Prom/Gauges: src/prom/prom.go and src/prom/errors.go, the counters as a list of updates,
--   and the gauges that are set.
-- - ChainNode/Wallet: `CleanWallet` of src/chainnode/utils.go; `util.DecodeAddress` is a parameter.
-- - ChainNode/Notify: `GetNotifyParams` of src/chainnode/node.go for the chain kaspa; the node's block
--   template is the parameter `Node`. Notify/Dispatch is the call for any chain.
-- - ChainNode/Forward: the rest of src/chainnode/node.go, the creation of a chain node and the calls that
--   it passes on; kaspad's RPC client is the parameter `RpcClient`.
-- - ChainNode/Aleo, ChainNode/AleoNode: src/chainnode/aleo/aleostratum/clientnode.go and
--   src/chainnode/aleo/aleonode.go, the client of an upstream pool of aleo, its loop over what the
--   connection gives, and the jobs of `GetNotifyParams` for aleo.
-- - Model, Mq: src/comment/model/stratum.go and src/mq/mqqt.go, the messages, the share records and the
--   channel of the queue; AMQP and the environment of the process are the parameter `Amqp`.
-- - Gostratum/Worker: src/gostratum/worker_context.go. Behind the fields of a worker stand its
--   effects: what the connection took, the goroutines started, what the queue was given. `Env` holds
--   what other code answers, and what the lock shows at each attempt to write, so that other
--   goroutines may hold it at any time.
-- - Gostratum/Handle: src/gostratum/worker_handle.go, mining.subscribe and mining.authorize.
-- - Poolstratum/Stats, Poolstratum/Nonce, Poolstratum/Shares: src/poolstratum/share_handler.go. The map
--   of pointers to statistics is an association list of places in a store, so that aliasing shows, and
--   the store keeps the records that have left the map;
--   kaspad's blocks, proof of work and answers are the parameter `Kaspad`. Shares/Interleaved has the
--   counters while submissions interleave, one lookup or addition at a time. Stats/Table is the
--   table that is printed; the iteration over the map is an order of its entries, and one reading
--   of the clock serves for a table.
-- - Gostratum/Lines, Gostratum/Listener: src/gostratum/stratum_client.go and stratum_listener.go, the lines
--   of a read, the loop that reads a client, and the dispatch of events to handlers over any state.
--   Gostratum/Shutdown is `Listen` with its two goroutines, as a step relation.
-- - Poolstratum/Listener: src/poolstratum/workers_listener.go, connecting, disconnecting,
--   telling the workers of a new block, and asking for their balances.
-- - Poolstratum/Api, Poolstratum/Server: src/poolstratum/api.go, the waits for the node, the block
--   listener and the thread of network statistics, and the limits of the configuration in src/poolstratum/stratum_server.go and
--   cmd/kaspabridge/main.go.
-- - Bridge: the wiring of `ListenAndServe`. A state holds the memory of all workers and the state of each
--   part; a step is a connection, a read on one, a block template, a goroutine that was started, or
--   a received disconnection, in any order. Whole calls take turns: two handlers do not interleave
--   inside a call, which Shares/Interleaved does for the counters alone. Bridge/Clients and
--   Bridge/Registry count the clients, and Bridge/Serve starts the bridge from a configuration.
-- - Text: the parts of strconv, fmt, strings, hex and binary that the code uses, on lists of bytes;
--   Base: shared types, lists, integers and Go maps.
-- - Tests: the theorems at concrete data.
--
-- Words of w bits are numbers below 2 ^ w, with their wrap-around written out; floats are their bit
-- patterns, and arithmetic on them is a parameter. `CleanWallet` has a bound of two calls, the padding
-- loop of the blue work of two rounds, and the loop of `writeWithBackoff` of its own three attempts; numbers
-- are printed with at most 20 decimal or 16 hexadecimal digits, which suffice for 64 bits.
--
-- The loops of the clients, of the upstream pool and of the block listener run over the list of what
-- they meet; `waitForSync` has a number of polls, and it is proved when that is enough.
--
-- Not modelled: logging and sleeping; the JSON codec; the mining state of a
-- worker while two goroutines change it at once; `GetBlockTemplate` and the branch for aleo of
-- `startBlockTemplateListener` in src/poolstratum/api.go, which nothing calls; the HTTP servers, flags and
-- files at the start of the program; the mock connection of the tests.
pub mod Base
pub mod Text
pub mod Model
pub mod Mq
pub mod Prom
pub mod Bridge
pub mod ChainNode
pub mod Gostratum
pub mod Poolstratum
pub mod Tests

-- ===== src/Poolstratum/Listener.antt =====
-- src/poolstratum/workers_listener.go: the connected workers and the extranonces handed to them.
pub mod Extranonces
pub mod Blocks
use kaspa_stratum_bridge.Base.{
  ℕ, ◌+◌, ◌-◌, ◌*◌, ◌%◌, ◌^◌, List, [], ◌∷◌, ◌++◌, leb, ltb, if◌then◌else◌, nat_eq,
}
use kaspa_stratum_bridge.Base.GoMap.{insert, delete}
use kaspa_stratum_bridge.Text.{pad_zeros}
use kaspa_stratum_bridge.Text.Hex.{format_hex}
use kaspa_stratum_bridge.Prom.Metrics.{Metrics, record_disconnect}
use kaspa_stratum_bridge.Gostratum.Worker.{WorkerContext}
use kaspa_stratum_bridge.Poolstratum.Stats.{labels}

-- `workersAuthenticListener`; the map holds pointers, which are numbers here. The server passes a size
-- of at most 3, so that twice the size fits an int8. `waiting` holds the workers for which `OnConnect`
-- started the goroutine that creates the statistics five seconds later. A time is in nanoseconds, and 0 is the zero time.
pub record WorkersListener : Type 0 where
  pub clients : List (ℕ × ℕ)
  pub client_counter : ℕ  -- the bit pattern of an int32
  pub extranonce_size : ℕ
  pub max_extranonce : ℕ
  pub next_extranonce : ℕ
  pub waiting : List ℕ
  pub last_balance_check : ℕ

-- `math.Min(extranonceSize, 3)`
abbrev pub min_size : ℕ → ℕ
min_size size = if leb size 3 then size else 3

unfoldable pub new_workers_listener : ℕ → WorkersListener
new_workers_listener size = record {
  clients = [];
  client_counter = 0;
  extranonce_size = size;
  max_extranonce = 2 ^ (8 * min_size size) - 1;
  next_extranonce = 0;
  waiting = [];
  last_balance_check = 0;
}

-- The extranonce is taken under `clientLock`.
unfoldable pub take_extranonce : WorkersListener → WorkersListener × ℕ
take_extranonce c =
    if ltb 0 c.extranonce_size
    then (
      record c {
        next_extranonce =
            if ltb c.next_extranonce c.max_extranonce then c.next_extranonce + 1 else 0;
      },
      c.next_extranonce,
    )
    else (c, 0)

-- `OnConnect`, for the worker at a pointer.
unfoldable pub on_connect : WorkersListener → ℕ → WorkerContext → WorkersListener × WorkerContext
on_connect c pointer ctx =
    let idx = (c.client_counter + 1) % 2 ^ 32 in
    let (c', extranonce) = take_extranonce c in
    (
      record c' {
        client_counter = idx;
        clients = insert idx pointer c.clients;
        waiting = c.waiting ++ pointer ∷ [];
      },
      record ctx {
        id = idx;
        extranonce =
            if ltb 0 c.extranonce_size
            then pad_zeros (c.extranonce_size * 2) (format_hex extranonce)
            else ctx.extranonce;
      },
    )

unfoldable pub on_disconnect : WorkersListener → Metrics → WorkerContext → WorkersListener × Metrics
on_disconnect c m ctx =
    (record c { clients = delete ctx.id c.clients }, record_disconnect (labels ctx) m)

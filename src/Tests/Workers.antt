-- ===== src/Tests/Workers.antt =====
-- The theorems of the model of src/gostratum at a concrete worker.
use kaspa_stratum_bridge.Base.{
  ◌≤◌, ◌≡◌, ◌≢◌, ◌↔◌, ◌⊎◌, refl, [], ◌∷◌, none, some, Bool, true, false,
}
use kaspa_stratum_bridge.Text.{Bytes, codes}
use kaspa_stratum_bridge.Model.{JsonRpcEvent, JsonRpcResponse}
use kaspa_stratum_bridge.Gostratum.Worker.{
  WorkerContext, disconnected, write_with_backoff, reply, send,
}
use kaspa_stratum_bridge.Gostratum.Worker.Writes.{
  IsWritten, IsBlocked, Frame, write_with_backoff_lem, write_with_backoff-IsWritten,
}
use kaspa_stratum_bridge.Gostratum.Worker.Lifetime.{disconnects, logout_records, disconnects_lem}
use kaspa_stratum_bridge.Gostratum.Handle.{handle_authorize}
use kaspa_stratum_bridge.Gostratum.Handle.Authorize.{Authorized, handle_authorize-Authorized}
use kaspa_stratum_bridge.Tests.{worker_at, busy_env, event_of}

abbrev worker : WorkerContext
worker = worker_at (codes "10.0.0.1") (codes "rig")

write_with_backoff-IsWritten_example :
    ((write_with_backoff busy_env worker (codes "data")).1 ≡ none) ↔ (
      IsWritten busy_env 0
      ⊎ (IsBlocked busy_env 0 × IsWritten busy_env 1)
      ⊎ (IsBlocked busy_env 0 × IsBlocked busy_env 1 × IsWritten busy_env 2))
write_with_backoff-IsWritten_example = write_with_backoff-IsWritten busy_env (codes "data") worker

write_with_backoff_lem_example :
    let (sc', result) = write_with_backoff busy_env worker (codes "data") in
    (result ≡ none → sc'.wire ≡ codes "data" ∷ [])
    × (result ≢ none → sc'.wire ≡ [])
    × (sc'.attempts ≤ 3)
    × Frame worker sc'
write_with_backoff_lem_example = write_with_backoff_lem busy_env (codes "data") worker

disconnects_lem_example :
    let sc' = disconnects busy_env 3 worker in
    (sc' ≡ record worker {
      disconnecting = true;
      closes = 1;
      notifications = 1;
      published = logout_records busy_env worker;
    })
    × ((response : JsonRpcResponse) → reply busy_env sc' response ≡ (sc', some disconnected))
    × ((event : JsonRpcEvent) → send busy_env sc' event ≡ (sc', some disconnected))
disconnects_lem_example = disconnects_lem busy_env 2 worker refl

abbrev no_address : Bytes → Bool
no_address text = false

handle_authorize-Authorized_example :
    let (sc', result) =
      handle_authorize busy_env no_address worker
        (event_of (codes "kaspa:mine" ∷ codes "rig2" ∷ [])) in
    Authorized busy_env worker (codes "kaspa:mine") (codes "rig2") sc' result
handle_authorize-Authorized_example =
    handle_authorize-Authorized busy_env no_address worker
      (event_of (codes "kaspa:mine" ∷ codes "rig2" ∷ [])) (codes "kaspa:mine") (codes "rig2") refl
      refl

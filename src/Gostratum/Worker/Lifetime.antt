-- ===== src/Gostratum/Worker/Lifetime.antt =====
-- Disconnecting a worker (src/gostratum/worker_context.go) by calls that take turns. The flag is tested
-- before the record is published and set after it, so calls that run at once may all pass the test.
use mathlib.Core.List.{append-nil}
use kaspa_stratum_bridge.Base.{
  ℕ, zero, suc, ◌+◌, ◌≡◌, refl, ap, ◌∙◌, true, false, List, [], ◌∷◌, ◌++◌, none, some, arith,
  if◌then◌else◌,
}
use kaspa_stratum_bridge.Text.{Bytes, codes}
use kaspa_stratum_bridge.Model.{JsonRpcEvent, JsonRpcResponse}
use kaspa_stratum_bridge.Gostratum.Worker.{
  Env, WorkerContext, disconnected, session_record, reply, send, disconnect,
}

-- What one call of `Disconnect` leaves of a connected worker.
abbrev pub logout_records : Env → WorkerContext → List Bytes
logout_records env sc =
    elim (env.marshal_record (session_record env.uuid env.now sc (codes "Logout"))) [
      | none ↦ []
      | some json ↦ json ∷ []
    ]

module _ (env : Env) where
  -- Calls of `Disconnect`, one after the other.
  pub disconnects : ℕ → WorkerContext → WorkerContext
  disconnects zero sc = sc
  disconnects (suc n) sc = disconnect env (disconnects n sc)

  pub disconnect-disconnecting : (sc : WorkerContext) → (disconnect env sc).disconnecting ≡ true
  unfolding disconnect
  disconnect-disconnecting sc = ground arith

  pub disconnect_again : (sc : WorkerContext) → sc.disconnecting ≡ true → disconnect env sc ≡ sc
  unfolding disconnect
  disconnect_again sc h = ground arith

  disconnects_once : (n : ℕ) (sc : WorkerContext) → disconnects (suc n) sc ≡ disconnect env sc
  unfolding disconnects
  disconnects_once zero sc = refl
  disconnects_once (suc n) sc =
      ap (disconnect env) (disconnects_once n sc)
      ∙ disconnect_again (disconnect env sc) (disconnect-disconnecting sc)

  disconnect_lem :
      (sc : WorkerContext)
      → sc.disconnecting ≡ false
      → disconnect env sc ≡ record sc {
        disconnecting = true;
        closes = (if sc.has_connection then sc.closes + 1 else sc.closes);
        notifications = sc.notifications + 1;
        published = sc.published ++ logout_records env sc;
      }
  unfolding disconnect
  disconnect_lem sc h = ground (arith, append-nil sc.published)

  -- However often `Disconnect` is called on a connected worker, at least once and by calls that take
  -- turns, so that each returns before the next one tests the flag: the connection is
  -- closed once if there is one, the listener is told once and at most one record of a logout is
  -- published; no other field changes, and every later `Reply` and `Send` refuses and does nothing.
  pub disconnects_lem :
      (n : ℕ) (sc : WorkerContext)
      → sc.disconnecting ≡ false
      → let sc' = disconnects (suc n) sc in
        (sc' ≡ record sc {
          disconnecting = true;
          closes = (if sc.has_connection then sc.closes + 1 else sc.closes);
          notifications = sc.notifications + 1;
          published = sc.published ++ logout_records env sc;
        })
        × ((response : JsonRpcResponse) → reply env sc' response ≡ (sc', some disconnected))
        × ((event : JsonRpcEvent) → send env sc' event ≡ (sc', some disconnected))
  unfolding reply send
  disconnects_lem n sc h =
      let sc' = disconnects (suc n) sc in
      let closed : sc'.disconnecting ≡ true =
        ap (λ c. c.disconnecting) (disconnects_once n sc) ∙ disconnect-disconnecting sc in
      (disconnects_once n sc ∙ disconnect_lem sc h, λ response. rw closed, λ event. rw closed)

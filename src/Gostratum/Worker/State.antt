-- ===== src/Gostratum/Worker/State.antt =====
-- The mining state, the extranonce and the number of a worker under the calls of src/gostratum/worker_context.go.
use kaspa_stratum_bridge.Base.{ℕ, ◌≡◌, refl, ap, Bool-cases, inl, inr, Option, none, some}
use kaspa_stratum_bridge.Text.{Bytes}
use kaspa_stratum_bridge.Model.{Value, JsonRpcEvent, JsonRpcResponse}
use kaspa_stratum_bridge.Gostratum.Worker.{
  Env, WorkerContext, insert_mqqt, reply, send, disconnect, reply_error, reply_stale_share,
  reply_bad_share,
}
use kaspa_stratum_bridge.Prom.MiningState.{MiningState}
use kaspa_stratum_bridge.Gostratum.Worker.Lifetime.{disconnect_again}
use kaspa_stratum_bridge.Gostratum.Worker.Writes.{reply-Frame, send-Frame}

-- The mining state, the extranonce and the number, which only the jobs and the connection set.
abbrev pub marks : WorkerContext → MiningState × Bytes × ℕ
marks sc = (sc.state, sc.extranonce, sc.id)

pub insert_mqqt-marks :
    (json : Option Bytes) (sc : WorkerContext) → marks (insert_mqqt json sc) ≡ marks sc
unfolding insert_mqqt
insert_mqqt-marks none sc = refl
insert_mqqt-marks (some json) sc = refl

module _ (env : Env) (sc : WorkerContext) where
  pub reply-marks : (response : JsonRpcResponse) → marks (reply env sc response).0 ≡ marks sc
  reply-marks response = ap marks (reply-Frame env sc response)

  pub send-marks : (event : JsonRpcEvent) → marks (send env sc event).0 ≡ marks sc
  send-marks event = ap marks (send-Frame env sc event)

  pub send-state : (event : JsonRpcEvent) → (send env sc event).0.state ≡ sc.state
  send-state event = ap (λ m. m.0) (send-marks event)

  pub disconnect-marks : marks (disconnect env sc) ≡ marks sc
  unfolding disconnect
  disconnect-marks = elim (Bool-cases sc.disconnecting) [
    | inl gone ↦ ap (λ w. marks w) (disconnect_again env sc gone)
    | inr live ↦ simp live (insert_mqqt-marks _ sc)
  ]

  pub disconnect-state : (disconnect env sc).state ≡ sc.state
  disconnect-state = ap (λ m. m.0) disconnect-marks

  pub reply_stale_share-marks : (id : Value) → marks (reply_stale_share env sc id).0 ≡ marks sc
  unfolding reply_stale_share reply_error
  reply_stale_share-marks id = reply-marks _

  pub reply_bad_share-marks : (id : Value) → marks (reply_bad_share env sc id).0 ≡ marks sc
  unfolding reply_bad_share reply_error
  reply_bad_share-marks id = reply-marks _

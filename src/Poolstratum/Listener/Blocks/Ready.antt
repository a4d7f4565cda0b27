-- ===== src/Poolstratum/Listener/Blocks/Ready.antt =====
-- A worker that was sent jobs has a difficulty (src/chainnode/node.go, src/poolstratum/workers_listener.go).
use kaspa_stratum_bridge.Base.{
  ℕ, ◌≡◌, refl, ◌∙◌, List, Bool, Bool-cases, inl, inr, true, false, Option, none, some, Result, ok,
  err, arith, if◌then◌else◌,
}
use kaspa_stratum_bridge.Base.Int.{ℤ}
use kaspa_stratum_bridge.Text.{Bytes, codes, contains, is_empty}
use kaspa_stratum_bridge.Model.{Value}
use kaspa_stratum_bridge.Prom.Block.{RpcBlock}
use kaspa_stratum_bridge.Prom.Difficulty.{BigFloats}
use kaspa_stratum_bridge.Prom.MiningState.{add_job}
use kaspa_stratum_bridge.Prom.Header.{Blake2b, serialize_block_header}
use kaspa_stratum_bridge.Prom.Metrics.{Metrics}
use kaspa_stratum_bridge.Gostratum.Worker.{Env, WorkerContext, Error, send}
use kaspa_stratum_bridge.Gostratum.Worker.State.{send-state, disconnect-state}
use kaspa_stratum_bridge.ChainNode.Notify.{
  Node, Notified, finish_job, with_difficulty, set_difficulty, difficulty_event, after_difficulty,
  with_header, with_template, get_notify_params,
}
use kaspa_stratum_bridge.ChainNode.Notify.Jobs.{IsReady}
use kaspa_stratum_bridge.Poolstratum.Listener.Blocks.{
  notify_event, after_notify, after_params, notify_worker,
}

after_notify-state :
    (r : WorkerContext × Option Error) (m : Metrics) → (after_notify r m).0.state ≡ r.0.state
unfolding after_notify
after_notify-state (sc, none) m = refl
after_notify-state (sc, some e) m = ground arith

module _ (blake2b : Blake2b) (floats : BigFloats) (node : Node) (env : Env) where
  finish_job-state :
      (sc : WorkerContext) (m : Metrics) (id : ℤ) (params : Option (List Value))
      → (finish_job blake2b floats node env sc m id params).0.state ≡ sc.state
  unfolding finish_job
  finish_job-state sc m id none = refl
  finish_job-state sc m id (some params) = refl

  pub after_difficulty-state :
      (r : WorkerContext × Option Error) (m : Metrics) (id : ℤ) (header : Bytes) (block : RpcBlock)
      → (after_difficulty blake2b floats node env r m id header block).0.state ≡ r.0.state
  unfolding after_difficulty
  after_difficulty-state (sc, some e) m id header block = refl
  after_difficulty-state (sc, none) m id header block = finish_job-state sc m id _

  pub after_params-state :
      (r : Notified) → (after_params blake2b floats node env r).0.state ≡ r.0.state
  unfolding after_params
  after_params-state (sc, m, err e) = refl
  after_params-state (sc, m, ok (id, params)) =
      after_notify-state (send env sc (notify_event id params)) m
      ∙ send-state env sc (notify_event id params)

  set_difficulty-IsReady :
      (sc : WorkerContext) (diff : ℕ)
      → IsReady (set_difficulty blake2b floats node env sc diff).0.state
  unfolding set_difficulty
  set_difficulty-IsReady sc diff =
      rw
        (send-state env (with_difficulty blake2b floats node env sc diff)
          (difficulty_event blake2b floats node env diff))
        (λ _. (_, refl))

  choice-IsReady :
      (b : Bool) (known new : WorkerContext × Option Error)
      → IsReady known.0.state
      → IsReady new.0.state
      → IsReady (if b then known else new).0.state
  choice-IsReady true known new h k = h
  choice-IsReady false known new h k = k

  pub with_header-IsReady :
      (sc : WorkerContext) (m : Metrics) (diff : ℕ) (block : RpcBlock) (header : Result Bytes Bytes)
      → IsReady sc.state
      → IsReady (with_header blake2b floats node env sc m diff block header).0.state
  unfolding with_header add_job
  with_header-IsReady sc m diff block (err e) ready = ready
  with_header-IsReady sc m diff block (ok header) ready =
      let added = record sc { state = (add_job sc.state block).0 } in
      let new = set_difficulty blake2b floats node env added diff in
      rw
        (after_difficulty-state (if sc.state.initialized then (added, none) else new) m
          (add_job sc.state block).1 header block)
        (choice-IsReady sc.state.initialized (added, none) new ready
          (set_difficulty-IsReady added diff))

  pub with_template-IsReady :
      (sc : WorkerContext) (m : Metrics) (diff : ℕ) (answer : Result Bytes RpcBlock)
      → IsReady sc.state
      → IsReady (with_template blake2b floats node env sc m diff answer).0.state
  unfolding with_template
  with_template-IsReady sc m diff (ok block) ready =
      with_header-IsReady _ m diff block (serialize_block_header blake2b block) ready
  with_template-IsReady sc m diff (err message) ready =
      elim (Bool-cases (contains message (codes "Could not decode address"))) [
        | inl address ↦ rw (address, disconnect-state env sc) ready
        | inr other ↦ rw other ready
      ]

  pub get_notify_params-IsReady :
      (sc : WorkerContext) (m : Metrics) (diff : ℕ)
      → IsReady sc.state
      → IsReady (get_notify_params blake2b floats node env sc m diff).0.state
  unfolding get_notify_params
  get_notify_params-IsReady sc m diff ready = elim (Bool-cases (is_empty sc.wallet_addr)) [
    | inl missing ↦ rw missing (elim (Bool-cases (node.passed_20s sc.state.connect_time env.now)) [
      | inl late ↦ rw (late, disconnect-state env sc) ready
      | inr early ↦ rw early ready
    ])
    | inr given ↦ rw given (with_template-IsReady sc m diff _ ready)
  ]

  -- Telling a worker of a new block, whatever the node, the hasher and the connection answer, keeps
  -- that the worker has a difficulty if it is marked as initialized.
  pub notify_worker-IsReady :
      (diff : ℕ) (sc : WorkerContext) (m : Metrics)
      → IsReady sc.state
      → IsReady (notify_worker blake2b floats node env diff sc m).0.state
  unfolding notify_worker
  notify_worker-IsReady diff sc m ready =
      rw (after_params-state (get_notify_params blake2b floats node env sc m diff))
        (get_notify_params-IsReady sc m diff ready)

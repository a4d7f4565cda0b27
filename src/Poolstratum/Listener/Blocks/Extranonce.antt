-- ===== src/Poolstratum/Listener/Blocks/Extranonce.antt =====
-- Telling a worker of a new block (src/poolstratum/workers_listener.go, src/chainnode/node.go) its
-- extranonce and its number.
use kaspa_stratum_bridge.Base.{
  ℕ, ◌≡◌, refl, ap, ◌∙◌, Bool, true, false, Bool-cases, inl, inr, Option, none, some, Result, ok,
  err, List, if◌then◌else◌,
}
use kaspa_stratum_bridge.Base.Int.{ℤ}
use kaspa_stratum_bridge.Text.{Bytes, codes, contains, is_empty}
use kaspa_stratum_bridge.Model.{Value}
use kaspa_stratum_bridge.Prom.Block.{RpcBlock}
use kaspa_stratum_bridge.Prom.Difficulty.{BigFloats}
use kaspa_stratum_bridge.Prom.Header.{Blake2b}
use kaspa_stratum_bridge.Prom.MiningState.{add_job}
use kaspa_stratum_bridge.Prom.Metrics.{Metrics}
use kaspa_stratum_bridge.Gostratum.Worker.{Env, WorkerContext, Error, send}
use kaspa_stratum_bridge.Gostratum.Worker.State.{send-marks, disconnect-marks}
use kaspa_stratum_bridge.ChainNode.Notify.{
  Node, Notified, finish_job, with_difficulty, set_difficulty, difficulty_event, after_difficulty,
  with_header, with_template, get_notify_params,
}
use kaspa_stratum_bridge.Poolstratum.Listener.Blocks.{
  is_disconnected, after_notify, after_params, notify_event, notify_worker,
}

-- What the connection gives a worker to be told by.
abbrev tag : WorkerContext → Bytes × ℕ
tag sc = (sc.extranonce, sc.id)

module _ (blake2b : Blake2b) (floats : BigFloats) (node : Node) (env : Env) where
  finish_job-tag :
      (sc : WorkerContext) (m : Metrics) (id : ℤ) (params : Option (List Value))
      → tag (finish_job blake2b floats node env sc m id params).0 ≡ tag sc
  unfolding finish_job
  finish_job-tag sc m id none = refl
  finish_job-tag sc m id (some params) = refl

  after_difficulty-tag :
      (r : WorkerContext × Option Error) (m : Metrics) (id : ℤ) (header : Bytes) (block : RpcBlock)
      → tag (after_difficulty blake2b floats node env r m id header block).0 ≡ tag r.0
  unfolding after_difficulty
  after_difficulty-tag (sc, some e) m id header block = refl
  after_difficulty-tag (sc, none) m id header block = finish_job-tag sc m id _

  choice-tag :
      (b : Bool) (sc : WorkerContext) (known new : WorkerContext × Option Error)
      → tag known.0 ≡ tag sc
      → tag new.0 ≡ tag sc
      → tag (if b then known else new).0 ≡ tag sc
  choice-tag true sc known new h k = h
  choice-tag false sc known new h k = k

  set_difficulty-tag :
      (sc : WorkerContext) (diff : ℕ)
      → tag (set_difficulty blake2b floats node env sc diff).0 ≡ tag sc
  unfolding set_difficulty
  set_difficulty-tag sc diff =
      ap (λ m. (m.1, m.2))
        (send-marks env (with_difficulty blake2b floats node env sc diff)
          (difficulty_event blake2b floats node env diff))

  with_header-tag :
      (sc : WorkerContext) (m : Metrics) (diff : ℕ) (block : RpcBlock) (header : Result Bytes Bytes)
      → tag (with_header blake2b floats node env sc m diff block header).0 ≡ tag sc
  unfolding with_header
  with_header-tag sc m diff block (err e) = refl
  with_header-tag sc m diff block (ok header) =
      let added = record sc { state = (add_job sc.state block).0 } in
      after_difficulty-tag _ m _ header block
      ∙ choice-tag _ sc (added, none) _ refl (set_difficulty-tag added diff)

  with_template-tag :
      (sc : WorkerContext) (m : Metrics) (diff : ℕ) (answer : Result Bytes RpcBlock)
      → tag (with_template blake2b floats node env sc m diff answer).0 ≡ tag sc
  unfolding with_template
  with_template-tag sc m diff (ok block) = with_header-tag _ m diff block _
  with_template-tag sc m diff (err message) =
      elim (Bool-cases (contains message (codes "Could not decode address"))) [
        | inl address ↦ rw address (ap (λ m. (m.1, m.2)) (disconnect-marks env sc))
        | inr other ↦ rw other refl
      ]

  get_notify_params-tag :
      (sc : WorkerContext) (m : Metrics) (diff : ℕ)
      → tag (get_notify_params blake2b floats node env sc m diff).0 ≡ tag sc
  unfolding get_notify_params
  get_notify_params-tag sc m diff = elim (Bool-cases (is_empty sc.wallet_addr)) [
    | inl missing ↦ rw missing (elim (Bool-cases (node.passed_20s sc.state.connect_time env.now)) [
      | inl late ↦ rw late (ap (λ m. (m.1, m.2)) (disconnect-marks env sc))
      | inr early ↦ rw early refl
    ])
    | inr given ↦ rw given (with_template-tag sc m diff _)
  ]

  after_notify-tag :
      (r : WorkerContext × Option Error) (m : Metrics) → tag (after_notify r m).0 ≡ tag r.0
  unfolding after_notify
  after_notify-tag (sc, none) m = refl
  after_notify-tag (sc, some e) m = elim (Bool-cases (is_disconnected e)) [
    | inl gone ↦ rw gone refl
    | inr other ↦ rw other refl
  ]

  after_params-tag : (r : Notified) → tag (after_params blake2b floats node env r).0 ≡ tag r.0
  unfolding after_params
  after_params-tag (sc, m, err e) = refl
  after_params-tag (sc, m, ok (id, params)) =
      after_notify-tag (send env sc (notify_event id params)) m
      ∙ ap (λ m. (m.1, m.2)) (send-marks env sc (notify_event id params))

  -- Telling a worker of a new block keeps its extranonce and its number.
  pub notify_worker-tag :
      (diff : ℕ) (sc : WorkerContext) (m : Metrics)
      → tag (notify_worker blake2b floats node env diff sc m).0 ≡ tag sc
  unfolding notify_worker
  notify_worker-tag diff sc m =
      after_params-tag (get_notify_params blake2b floats node env sc m diff)
      ∙ get_notify_params-tag sc m diff

  pub notify_worker-extranonce :
      (diff : ℕ) (sc : WorkerContext) (m : Metrics)
      → (notify_worker blake2b floats node env diff sc m).0.extranonce ≡ sc.extranonce
  notify_worker-extranonce diff sc m = ap (λ t. t.0) (notify_worker-tag diff sc m)

  pub notify_worker-id :
      (diff : ℕ) (sc : WorkerContext) (m : Metrics)
      → (notify_worker blake2b floats node env diff sc m).0.id ≡ sc.id
  notify_worker-id diff sc m = ap (λ t. t.1) (notify_worker-tag diff sc m)

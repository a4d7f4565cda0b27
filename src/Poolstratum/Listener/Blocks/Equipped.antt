-- ===== src/Poolstratum/Listener/Blocks/Equipped.antt =====
-- A worker with jobs has a difficulty (src/chainnode/node.go, src/poolstratum/workers_listener.go).
use kaspa_stratum_bridge.Base.{
  ℕ, ◌≡◌, refl, ap, Bool, Bool-cases, inl, inr, true, false, Option, some, Result, ok, err, none,
  if◌then◌else◌,
}
use kaspa_stratum_bridge.Text.{Bytes, codes, contains, is_empty}
use kaspa_stratum_bridge.Prom.Block.{RpcBlock}
use kaspa_stratum_bridge.Prom.Difficulty.{BigFloats, KaspaDiff}
use kaspa_stratum_bridge.Prom.MiningState.{MiningState, add_job}
use kaspa_stratum_bridge.Prom.Header.{Blake2b, serialize_block_header}
use kaspa_stratum_bridge.Prom.Metrics.{Metrics}
use kaspa_stratum_bridge.Gostratum.Worker.{Env, WorkerContext, Error}
use kaspa_stratum_bridge.Gostratum.Worker.State.{send-state, disconnect-state}
use kaspa_stratum_bridge.ChainNode.Notify.{
  Node, with_difficulty, set_difficulty, difficulty_event, with_header, with_template,
  get_notify_params,
}
use kaspa_stratum_bridge.ChainNode.Notify.Jobs.{IsEquipped}
use kaspa_stratum_bridge.Poolstratum.Listener.Blocks.{notify_worker}
use kaspa_stratum_bridge.Poolstratum.Listener.Blocks.Ready.{
  after_difficulty-state, after_params-state, with_header-IsReady,
}

abbrev HasDifficulty : MiningState → Type 0
HasDifficulty state = (d : KaspaDiff) × (state.stratum_diff ≡ some d)

module _ (blake2b : Blake2b) (floats : BigFloats) (node : Node) (env : Env) where
  choice-HasDifficulty :
      (b : Bool) (known new : WorkerContext × Option Error)
      → (b ≡ true → HasDifficulty known.0.state)
      → HasDifficulty new.0.state
      → HasDifficulty (if b then known else new).0.state
  choice-HasDifficulty true known new h k = h refl
  choice-HasDifficulty false known new h k = k

  set_difficulty-HasDifficulty :
      (sc : WorkerContext) (diff : ℕ)
      → HasDifficulty (set_difficulty blake2b floats node env sc diff).0.state
  unfolding set_difficulty
  set_difficulty-HasDifficulty sc diff = (
    _,
    ap (λ s. s.stratum_diff)
        (send-state env (with_difficulty blake2b floats node env sc diff)
          (difficulty_event blake2b floats node env diff)),
  )

  with_header-IsEquipped :
      (sc : WorkerContext) (m : Metrics) (diff : ℕ) (block : RpcBlock) (header : Result Bytes Bytes)
      → IsEquipped sc.state
      → IsEquipped (with_header blake2b floats node env sc m diff block header).0.state
  unfolding with_header add_job
  with_header-IsEquipped sc m diff block (err e) equipped = equipped
  with_header-IsEquipped sc m diff block (ok header) equipped =
      let added = record sc { state = (add_job sc.state block).0 } in
      let new = set_difficulty blake2b floats node env added diff in
      let kept =
        after_difficulty-state blake2b floats node env
          (if sc.state.initialized then (added, none) else new) m (add_job sc.state block).1 header
          block in
      (
        with_header-IsReady blake2b floats node env sc m diff block (ok header) equipped.0,
        inr (
            rw kept (
              choice-HasDifficulty sc.state.initialized (added, none) new equipped.0
                (set_difficulty-HasDifficulty added diff))),
      )

  with_template-IsEquipped :
      (sc : WorkerContext) (m : Metrics) (diff : ℕ) (answer : Result Bytes RpcBlock)
      → IsEquipped sc.state
      → IsEquipped (with_template blake2b floats node env sc m diff answer).0.state
  unfolding with_template
  with_template-IsEquipped sc m diff (ok block) equipped =
      with_header-IsEquipped _ m diff block (serialize_block_header blake2b block) equipped
  with_template-IsEquipped sc m diff (err message) equipped =
      elim (Bool-cases (contains message (codes "Could not decode address"))) [
        | inl address ↦ rw (address, disconnect-state env sc) equipped
        | inr other ↦ rw other equipped
      ]

  get_notify_params-IsEquipped :
      (sc : WorkerContext) (m : Metrics) (diff : ℕ)
      → IsEquipped sc.state
      → IsEquipped (get_notify_params blake2b floats node env sc m diff).0.state
  unfolding get_notify_params
  get_notify_params-IsEquipped sc m diff equipped = elim (Bool-cases (is_empty sc.wallet_addr)) [
    | inl missing ↦ rw missing (elim (Bool-cases (node.passed_20s sc.state.connect_time env.now)) [
      | inl late ↦ rw (late, disconnect-state env sc) equipped
      | inr early ↦ rw early equipped
    ])
    | inr given ↦ rw given (with_template-IsEquipped sc m diff _ equipped)
  ]

  -- Telling a worker of a new block keeps that it has a difficulty if it has jobs or is initialized.
  pub notify_worker-IsEquipped :
      (diff : ℕ) (sc : WorkerContext) (m : Metrics)
      → IsEquipped sc.state
      → IsEquipped (notify_worker blake2b floats node env diff sc m).0.state
  unfolding notify_worker
  notify_worker-IsEquipped diff sc m equipped =
      rw
        (after_params-state blake2b floats node env
          (get_notify_params blake2b floats node env sc m diff))
        (get_notify_params-IsEquipped sc m diff equipped)

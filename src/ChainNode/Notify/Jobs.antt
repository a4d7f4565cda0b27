-- ===== src/ChainNode/Notify/Jobs.antt =====
-- The job that `GetNotifyParams` (src/chainnode/node.go) sends, and the one that a worker's state holds.
use kaspa_stratum_bridge.Base.{
  ℕ, ◌⊎◌, [], ◌+◌, ◌%◌, ◌^◌, ◌≡◌, refl, sym, ap, ◌∙◌, List, ◌∷◌, ◌++◌, Bool, true, false, Option,
  none, some, Result, ok, err, arith, if◌then◌else◌,
}
use kaspa_stratum_bridge.Base.Int.{ℤ, int_eq, rem, signed64}
use kaspa_stratum_bridge.Base.GoMap.{lookup-insert, beq_refl}
use kaspa_stratum_bridge.Text.{Bytes, codes}
use kaspa_stratum_bridge.Text.Digits.{format_int}
use kaspa_stratum_bridge.Model.{Value, text}
use kaspa_stratum_bridge.Prom.Block.{RpcBlock}
use kaspa_stratum_bridge.Prom.Difficulty.{BigFloats, KaspaDiff}
use kaspa_stratum_bridge.Prom.MiningState.{MiningState, maxjobs, add_job, get_job}
use kaspa_stratum_bridge.Prom.Header.{Blake2b, serialize_block_header}
use kaspa_stratum_bridge.Prom.Metrics.{Metrics}
use kaspa_stratum_bridge.Gostratum.Worker.{Env, WorkerContext, Error}
use kaspa_stratum_bridge.Gostratum.Worker.Writes.{send-Frame}
use kaspa_stratum_bridge.ChainNode.Notify.{
  Node, Notified, job_params, finish_job, with_difficulty, set_difficulty, difficulty_event,
  after_difficulty, with_header, with_template, get_notify_params,
}

-- A worker that was sent its difficulty has one.
abbrev pub IsReady : MiningState → Type 0
IsReady state = state.initialized ≡ true → (d : KaspaDiff) × (state.stratum_diff ≡ some d)

-- A worker's state as the bridge uses it: it has a difficulty once it is initialized, and as soon as it
-- has a job.
abbrev pub IsEquipped : MiningState → Type 0
IsEquipped state =
    IsReady state × ((state.jobs ≡ []) ⊎ ((d : KaspaDiff) × (state.stratum_diff ≡ some d)))

-- If there is a result, the worker's state answers its number with the block and has a difficulty,
-- and the first parameter is the number.
abbrev pub Sent : RpcBlock → Notified → Type 0
Sent block r =
    (id : ℤ) (params : List Value)
    → r.2 ≡ ok (id, params)
    → (get_job r.0.state id ≡ some block)
      × ((d : KaspaDiff) × (r.0.state.stratum_diff ≡ some d))
      × ((rest : List Value) × (params ≡ text (format_int id) ∷ rest))

added-get_job :
    (state : MiningState) (b : RpcBlock) → get_job (add_job state b).0 (add_job state b).1 ≡ some b
unfolding get_job add_job
added-get_job state b =
    let k = rem (signed64 ((state.job_counter + 1) % 2 ^ 64)) maxjobs in
    rw (lookup-insert k k b state.jobs, beq_refl k) refl

module _ (blake2b : Blake2b) (floats : BigFloats) (node : Node) (env : Env) where
  finish_job-Sent :
      (sc : WorkerContext) (m : Metrics) (id : ℤ) (block : RpcBlock) (params : Option (List Value))
      → get_job sc.state id ≡ some block
      → (d : KaspaDiff) × (sc.state.stratum_diff ≡ some d)
      → Sent block (finish_job blake2b floats node env sc m id params)
  unfolding finish_job
  finish_job-Sent sc m id block none stored ready id' params e = cc
  finish_job-Sent sc m id block (some rest) stored ready id' params e =
      let number : id ≡ id' = cc in
      let parameters : text (format_int id) ∷ rest ≡ params = cc in
      (
        rw⁻¹ number stored,
        ready,
        (rest, sym parameters ∙ ap (λ i. text (format_int i) ∷ rest) number),
      )

  after_difficulty-Sent :
      (sc : WorkerContext) (result : Option Error) (m : Metrics) (id : ℤ) (header : Bytes)
      (block : RpcBlock)
      → get_job sc.state id ≡ some block
      → (d : KaspaDiff) × (sc.state.stratum_diff ≡ some d)
      → Sent block (after_difficulty blake2b floats node env (sc, result) m id header block)
  unfolding after_difficulty
  after_difficulty-Sent sc (some e) m id header block stored ready id' params sent = cc
  after_difficulty-Sent sc none m id header block stored ready id' params sent =
      finish_job-Sent sc m id block (job_params sc.state.use_big_job header block) stored ready id'
        params sent

  -- Sending the difficulty sets it and keeps the jobs.
  set_difficulty-state :
      (sc : WorkerContext) (diff : ℕ) (id : ℤ) (block : RpcBlock)
      → get_job sc.state id ≡ some block
      → let sc' = (set_difficulty blake2b floats node env sc diff).0 in
        (get_job sc'.state id ≡ some block) × ((d : KaspaDiff) × (sc'.state.stratum_diff ≡ some d))
  unfolding set_difficulty get_job
  set_difficulty-state sc diff id block stored =
      let kept =
        ap (λ w. w.state)
          (send-Frame env (with_difficulty blake2b floats node env sc diff)
            (difficulty_event blake2b floats node env diff)) in
      rw kept (stored, (_, refl))

  choice-Sent :
      (b : Bool) (known new : WorkerContext × Option Error) (m : Metrics) (id : ℤ) (header : Bytes)
      (block : RpcBlock)
      → (b ≡ true → Sent block (after_difficulty blake2b floats node env known m id header block))
      → (b ≡ false → Sent block (after_difficulty blake2b floats node env new m id header block))
      → Sent block
          (after_difficulty blake2b floats node env (if b then known else new) m id header block)
  choice-Sent true known new m id header block h k = h refl
  choice-Sent false known new m id header block h k = k refl

  serialized-Sent :
      (sc : WorkerContext) (m : Metrics) (diff : ℕ) (block : RpcBlock) (header : Bytes)
      → IsReady sc.state
      → Sent block (with_header blake2b floats node env sc m diff block (ok header))
  unfolding with_header add_job
  serialized-Sent sc m diff block header ready =
      let stored = added-get_job sc.state block in
      let number = (add_job sc.state block).1 in
      let added = record sc { state = (add_job sc.state block).0 } in
      let (kept, set) = set_difficulty-state added diff number block stored in
      let r = set_difficulty blake2b floats node env added diff in
      choice-Sent sc.state.initialized (added, none) r m number header block
        (λ known. after_difficulty-Sent added none m number header block stored (ready known))
        (λ _. after_difficulty-Sent r.0 r.1 m number header block kept set)

  with_header-Sent :
      (sc : WorkerContext) (m : Metrics) (diff : ℕ) (block : RpcBlock) (header : Result Bytes Bytes)
      → IsReady sc.state
      → Sent block (with_header blake2b floats node env sc m diff block header)
  unfolding with_header
  with_header-Sent sc m diff block (err e) ready id params sent = cc
  with_header-Sent sc m diff block (ok header) ready id params sent =
      serialized-Sent sc m diff block header ready id params sent

  with_template-Sent :
      (sc : WorkerContext) (m : Metrics) (diff : ℕ) (block : RpcBlock)
      → IsReady sc.state
      → Sent block (with_template blake2b floats node env sc m diff (ok block))
  unfolding with_template
  with_template-Sent sc m diff block ready =
      with_header-Sent _ m diff block (serialize_block_header blake2b block) ready

  answer-Sent :
      (sc : WorkerContext) (m : Metrics) (diff : ℕ) (answer : Result Bytes RpcBlock) (id : ℤ)
      (params : List Value)
      → IsReady sc.state
      → (with_template blake2b floats node env sc m diff answer).2 ≡ ok (id, params)
      → (block : RpcBlock) × (answer ≡ ok block)
  unfolding with_template
  answer-Sent sc m diff (ok block) id params ready sent = (block, refl)
  answer-Sent sc m diff (err message) id params ready sent = ground (arith, sent)

  pub wallet_given :
      (sc : WorkerContext) (m : Metrics) (diff : ℕ) (id : ℤ) (params : List Value)
      → (get_notify_params blake2b floats node env sc m diff).2 ≡ ok (id, params)
      → get_notify_params blake2b floats node env sc m diff
        ≡ with_template blake2b floats node env sc m diff (
            node.get_block_template sc.wallet_addr
              (codes "'" ++ (sc.miner_name ++ codes "' client")))
  unfolding get_notify_params
  wallet_given sc m diff id params sent = ground (arith, sent)

  -- When `GetNotifyParams` returns a job, the node has answered with a block for the worker's wallet,
  -- the number of the job answers that very block in the worker's state, the first parameter is the
  -- number in decimal digits, and the worker has a difficulty, if it had one or was not initialized.
  pub get_notify_params-get_job :
      (sc : WorkerContext) (m : Metrics) (diff : ℕ) (id : ℤ) (params : List Value)
      → IsReady sc.state
      → (get_notify_params blake2b floats node env sc m diff).2 ≡ ok (id, params)
      → (block : RpcBlock) × (node.get_block_template sc.wallet_addr
            (codes "'" ++ (sc.miner_name ++ codes "' client"))
          ≡ ok block)
        × (get_job (get_notify_params blake2b floats node env sc m diff).0.state id ≡ some block)
        × ((d : KaspaDiff) × ((get_notify_params blake2b floats node env sc m
                diff).0.state.stratum_diff
              ≡ some d))
        × ((rest : List Value) × (params ≡ text (format_int id) ∷ rest))
  get_notify_params-get_job sc m diff id params ready sent =
      let extra = codes "'" ++ (sc.miner_name ++ codes "' client") in
      let given = wallet_given sc m diff id params sent in
      let sent' = sym (ap (λ r. r.2) given) ∙ sent in
      let (block, answered) =
        answer-Sent sc m diff (node.get_block_template sc.wallet_addr extra) id params ready
          sent' in
      let ends : get_notify_params blake2b floats node env sc m diff
          ≡ with_template blake2b floats node env sc m diff (ok block) =
        given ∙ ap (with_template blake2b floats node env sc m diff) answered in
      let (stored, difficulty, first) =
        with_template-Sent sc m diff block ready id params (sym (ap (λ r. r.2) ends) ∙ sent) in
      (block, answered, rw ends stored, rw ends difficulty, first)

-- ===== src/ChainNode/Notify/Dispatch.antt =====
-- `GetNotifyParams` (src/chainnode/node.go) for whatever chain the node has.
use kaspa_stratum_bridge.Base.{
  ℕ, ◌≡◌, refl, sym, ap, ◌∙◌, List, length, true, Bool-cases, inl, inr, Option, none, some, Result,
  Result-cases, ok, err, ◌==◌, ==_iff, ◌⊎◌, if◌then◌else◌,
}
use kaspa_stratum_bridge.Base.Int.{ℤ, pos}
use kaspa_stratum_bridge.Model.{Value, JsonRpcEvent}
use kaspa_stratum_bridge.Prom.Difficulty.{BigFloats}
use kaspa_stratum_bridge.Prom.Header.{Blake2b}
use kaspa_stratum_bridge.Prom.Metrics.{Metrics}
use kaspa_stratum_bridge.Gostratum.Worker.{Env, WorkerContext}
use kaspa_stratum_bridge.ChainNode.{chain_type_aleo, chain_type_kaspa}
use kaspa_stratum_bridge.ChainNode.AleoNode.{AleoNode, get_last_work}
use kaspa_stratum_bridge.ChainNode.AleoNode.Work.{
  WorkError, not_six_params, work_params, aleo_notify_params,
}
use kaspa_stratum_bridge.ChainNode.Forward.{RpcClient, ChainNode, check_type}
use kaspa_stratum_bridge.ChainNode.Notify.{Node, Notified, NotifyError, get_notify_params}
use kaspa_stratum_bridge.ChainNode.Notify.Shape.{IsKaspaJob, Shaped, get_notify_params-Shaped}

-- Why there is no job: an error of one of the two chains, a chain node without the client of its chain,
-- or another chain.
pub data ParamsError : Type 0 where
  of_kaspa : NotifyError → ParamsError
  of_aleo : WorkError → ParamsError
  nil_aleo_node : ParamsError
  other_chain : ParamsError

unfoldable pub of_kaspa_job :
    Notified → WorkerContext × Metrics × Result ParamsError (ℤ × List Value)
of_kaspa_job (sc, m, ok job) = (sc, m, ok job)
of_kaspa_job (sc, m, err e) = (sc, m, err (of_kaspa e))

unfoldable pub of_aleo_job : Option AleoNode → Result ParamsError (ℤ × List Value)
of_aleo_job none = err nil_aleo_node
of_aleo_job (some aleo) = elim (aleo_notify_params aleo) [
  | ok job ↦ ok job
  | err e ↦ err (of_aleo e)
]

module _ (rpc : RpcClient) (chain : ChainNode rpc) (blake2b : Blake2b) (floats : BigFloats)
    (node : Node) (env : Env) where
  -- `GetNotifyParams` for whatever chain the node has.
  unfoldable pub chain_notify_params :
      WorkerContext → Metrics → ℕ → WorkerContext × Metrics × Result ParamsError (ℤ × List Value)
  unfolding of_kaspa_job of_aleo_job check_type
  chain_notify_params sc m diff =
      if check_type rpc chain chain_type_kaspa
      then of_kaspa_job (get_notify_params blake2b floats node env sc m diff)
      else if check_type rpc chain chain_type_aleo
      then (sc, m, of_aleo_job chain.aleo_node)
      else (sc, m, err other_chain)

  abbrev pub IsJob : WorkerContext → WorkerContext → ℤ → List Value → Type 0
  IsJob sc sc' id params =
      ((check_type rpc chain chain_type_kaspa ≡ true) × IsKaspaJob sc'.state.use_big_job id params)
      ⊎ ((check_type rpc chain chain_type_aleo ≡ true)
          × (sc' ≡ sc)
          × (id ≡ pos 0)
          × (length params ≡ 6))

  kaspa_job :
      (r : Notified) (id : ℤ) (params : List Value)
      → Shaped r
      → (of_kaspa_job r).2 ≡ ok (id, params)
      → IsKaspaJob (of_kaspa_job r).0.state.use_big_job id params
  unfolding of_kaspa_job
  kaspa_job (sc, m, ok job) id params shaped h =
      let same : job ≡ (id, params) = cc in shaped id params (ap ok same)
  kaspa_job (sc, m, err e) id params shaped h = cc

  six_params :
      (work : Option JsonRpcEvent) (id : ℤ) (params : List Value)
      → work_params work ≡ ok (id, params)
      → (id ≡ pos 0) × (length params ≡ 6)
  unfolding work_params
  six_params none id params h = cc
  six_params (some work) id params h = elim (Bool-cases (length work.params == 6)) [
    | inl six ↦
        let taken : work_params (some work) ≡ ok (pos 0, work.params) = rw six refl in
        let found = sym taken ∙ h in
        let number : pos 0 ≡ id = cc in
        let same : work.params ≡ params = cc in
        (sym number, ap length (sym same) ∙ (==_iff (length work.params) 6).0 six)
    | inr other ↦
        let refused : work_params (some work) ≡ err not_six_params = rw other refl in
        absurd (mismatched (sym refused ∙ h))
  ]
    where
      mismatched : {j : ℤ × List Value} → err not_six_params ≡ ok j → ⊥
      mismatched e = cc

  aleo_job :
      (aleo : Option AleoNode) (id : ℤ) (params : List Value)
      → of_aleo_job aleo ≡ ok (id, params)
      → (id ≡ pos 0) × (length params ≡ 6)
  unfolding of_aleo_job aleo_notify_params
  aleo_job none id params h = cc
  aleo_job (some aleo) id params h = elim (Result-cases (work_params (get_last_work aleo))) [
    | inl (e, failed) ↦
        let refused : of_aleo_job (some aleo) ≡ err (of_aleo e) = rw (failed, of_aleo_job) refl in
        let never = sym refused ∙ h in cc
    | inr ((id', params'), worked) ↦
        let given : of_aleo_job (some aleo) ≡ ok (id', params') = rw (worked, of_aleo_job) refl in
        let found = sym given ∙ h in
        let number : id' ≡ id = cc in
        let same : params' ≡ params = cc in
        rw⁻¹ number (rw⁻¹ same (six_params (get_last_work aleo) id' params' worked))
  ]

  -- Whenever `GetNotifyParams` returns a job, on whatever chain, its parameters have the form of that
  -- chain: for kaspa the number of the job in decimal digits, and then one text if the worker's state
  -- says that its miner takes big jobs, and four words of 64 bits and a timestamp if not; for aleo six
  -- parameters, with the number 0 and no change of the worker. No other chain has a job.
  pub chain_notify_params-IsJob :
      (sc : WorkerContext) (m : Metrics) (diff : ℕ) (id : ℤ) (params : List Value)
      → (chain_notify_params sc m diff).2 ≡ ok (id, params)
      → IsJob sc (chain_notify_params sc m diff).0 id params
  unfolding chain_notify_params
  chain_notify_params-IsJob sc m diff id params h =
      elim (Bool-cases (check_type rpc chain chain_type_kaspa)) [
        | inl kaspa ↦ rw kaspa (
            inl (
              refl,
              kaspa_job (get_notify_params blake2b floats node env sc m diff) id params
                  (get_notify_params-Shaped blake2b floats node env sc m diff) (rw kaspa at h),
            ))
        | inr other ↦ elim (Bool-cases (check_type rpc chain chain_type_aleo)) [
          | inl aleo ↦
              let (number, six) = aleo_job chain.aleo_node id params (rw (other, aleo) at h) in
              rw (other, aleo) (inr (refl, refl, number, six))
          | inr neither ↦ let never = rw (other, neither) at h in absurd (cc)
        ]
      ]

-- ===== src/Poolstratum/Shares/Accounting.antt =====
-- The counters under submissions (src/poolstratum/share_handler.go).
use kaspa_stratum_bridge.Base.{
  ◌≡◌, refl, ap, ◌∙◌, inl, inr, Option, none, some, Result, ok, err, length, ltb, Result-cases,
  Bool-cases, Option-cases,
}
use kaspa_stratum_bridge.Text.{Bytes, bytes_beq}
use kaspa_stratum_bridge.Text.Digits.{ParseError, parse_uint, parse_int}
use kaspa_stratum_bridge.Model.{JsonRpcEvent, string_at}
use kaspa_stratum_bridge.ChainNode.{chain_type_kaspa}
use kaspa_stratum_bridge.Prom.Difficulty.{KaspaDiff}
use kaspa_stratum_bridge.Gostratum.Worker.{Env, Error}
use kaspa_stratum_bridge.Prom.Metrics.{ErrorShortCode, err_missing_job, err_bad_data_from_miner}
use kaspa_stratum_bridge.Prom.Block.{RpcBlock}
use kaspa_stratum_bridge.Prom.MiningState.{get_job}
use kaspa_stratum_bridge.Base.Int.{ℤ}
use kaspa_stratum_bridge.Poolstratum.Stats.Totals.{Accounts}
use kaspa_stratum_bridge.Poolstratum.Stats.Entry.{get_create_stats-Entry}
use kaspa_stratum_bridge.Poolstratum.Nonce.{add_extranonce}
use kaspa_stratum_bridge.Poolstratum.Shares.{
  Kaspad, World, SubmitInfo, worker_error, validate_job, validate_number, validate_submit,
  handle_converted, handle_block, handle_nonce, after_validation, temp_kasp_handle_submit,
  handle_submit,
}
use kaspa_stratum_bridge.Poolstratum.Shares.Settled.{block_result-Settled}

module _ (kaspad : Kaspad) (env : Env) where
  open kaspad use {DomainBlock, to_domain, set_nonce, pow_value, target, submit_block, add_float}

  -- A block that cannot be converted changes no counter.
  handle_block-Accounts :
      (chain_type : Bytes) (w : World DomainBlock) (event : JsonRpcEvent) (info : SubmitInfo)
      (diff : KaspaDiff)
      → w.worker.state.stratum_diff ≡ some diff
      → Accounts w.handler
      → Accounts (handle_block kaspad env chain_type w event info).0.handler
  unfolding handle_block handle_converted
  handle_block-Accounts chain_type w event info diff hd a =
      elim (Option-cases (to_domain info.block)) [
        | inl refused ↦
            rw refused ((get_create_stats-Entry w.handler w.metrics w.worker env.now a).accounts)
        | inr (converted, hb) ↦
            (block_result-Settled kaspad env chain_type w event info converted diff hb hd
              a).accounts
      ]

  -- The validation changes neither the counters of shares nor the worker.
  pub record Validated (w w' : World DomainBlock) : Type 0 where
    pub handler_kept : w'.handler ≡ w.handler
    pub worker_kept : w'.worker ≡ w.worker

  error_Validated :
      (w : World DomainBlock) (code : ErrorShortCode) → Validated w (worker_error kaspad env w code)
  unfolding worker_error
  error_Validated w code = record { handler_kept = refl; worker_kept = refl }

  validate_job-Validated :
      (w : World DomainBlock) (event : JsonRpcEvent) (job : Option RpcBlock)
      → Validated w (validate_job kaspad env w event job).0
  unfolding validate_job
  validate_job-Validated w event none = error_Validated w err_missing_job
  validate_job-Validated w event (some block) = elim (Option-cases (string_at event.params 2)) [
    | inl missing ↦ rw (missing, validate_job) (error_Validated w err_bad_data_from_miner)
    | inr (noncestr, found) ↦
        rw (found, validate_job) (record { handler_kept = refl; worker_kept = refl })
  ]

  validate_number-Validated :
      (w : World DomainBlock) (event : JsonRpcEvent) (number : Result ParseError ℤ)
      → Validated w (validate_number kaspad env w event number).0
  unfolding validate_number
  validate_number-Validated w event (err e) = error_Validated w err_bad_data_from_miner
  validate_number-Validated w event (ok job_id) =
      validate_job-Validated w event (get_job w.worker.state job_id)

  pub validate_submit-Validated :
      (w : World DomainBlock) (event : JsonRpcEvent)
      → Validated w (validate_submit kaspad env w event).0
  unfolding validate_submit
  validate_submit-Validated w event = elim (Bool-cases (ltb (length event.params) 3)) [
    | inl few ↦ rw few (error_Validated w err_bad_data_from_miner)
    | inr enough ↦ rw enough (elim (Option-cases (string_at event.params 1)) [
      | inl missing ↦ rw (missing, validate_job) (error_Validated w err_bad_data_from_miner)
      | inr (job_id, found) ↦ rw found (validate_number-Validated w event (parse_int job_id))
    ])
  ]

  handle_nonce-Accounts :
      (chain_type : Bytes) (w : World DomainBlock) (event : JsonRpcEvent) (info : SubmitInfo)
      (diff : KaspaDiff)
      → w.worker.state.stratum_diff ≡ some diff
      → Accounts w.handler
      → Accounts (handle_nonce kaspad env chain_type w event info).0.handler
  unfolding handle_nonce worker_error
  handle_nonce-Accounts chain_type w event info diff hd a =
      elim (Result-cases (parse_uint 16 (add_extranonce w.worker.extranonce info.noncestr))) [
        | inl (e, failed) ↦ rw (failed, handle_nonce) a
        | inr (nonce, parsed) ↦
            rw (parsed, handle_nonce) (handle_block-Accounts chain_type w event _ diff hd a)
      ]

  after_validation-Accounts :
      (chain_type : Bytes) (event : JsonRpcEvent) (w : World DomainBlock)
      (validated : Result Error SubmitInfo) (diff : KaspaDiff)
      → w.worker.state.stratum_diff ≡ some diff
      → Accounts w.handler
      → Accounts (after_validation kaspad env chain_type event w validated).0.handler
  unfolding after_validation
  after_validation-Accounts chain_type event w (err e) diff hd a = a
  after_validation-Accounts chain_type event w (ok info) diff hd a =
      handle_nonce-Accounts chain_type w event info diff hd a

  -- A submission, whatever it holds and however the node and the network answer, keeps the accounts:
  -- the pool's overall counters stay the sums of the counters of all records that were made, modulo the
  -- width of an int64, and the map keeps each of these whose device is not empty under its device. The
  -- worker must have a difficulty.
  pub handle_submit-Accounts :
      (chain_type : Bytes) (w : World DomainBlock) (event : JsonRpcEvent) (diff : KaspaDiff)
      → w.worker.state.stratum_diff ≡ some diff
      → Accounts w.handler
      → Accounts (handle_submit kaspad env chain_type w event).0.handler
  unfolding handle_submit temp_kasp_handle_submit
  handle_submit-Accounts chain_type w event diff hd a =
      elim (Bool-cases (bytes_beq chain_type chain_type_kaspa)) [
        | inl kaspa ↦
            let v = validate_submit-Validated w event in
            let (w', validated) = validate_submit kaspad env w event in
            rw kaspa (
              after_validation-Accounts chain_type event w' validated diff
                (ap (λ c. c.state.stratum_diff) v.worker_kept ∙ hd) (rw v.handler_kept a))
        | inr other ↦ rw other a
      ]

-- ===== src/Poolstratum/Shares/Equipped.antt =====
-- The counters under the submissions of a worker as the bridge keeps it
-- (src/poolstratum/share_handler.go).
use kaspa_stratum_bridge.Base.{
  ◌≡◌, refl, Bool-cases, inl, inr, [], Result, ok, err, Option-cases, ltb, length,
}
use kaspa_stratum_bridge.Base.Int.{ℤ, int_eq}
use kaspa_stratum_bridge.Base.GoMap.{lookup}
use kaspa_stratum_bridge.Text.{Bytes, bytes_beq}
use kaspa_stratum_bridge.Text.Digits.{ParseError, parse_int}
use kaspa_stratum_bridge.Model.{JsonRpcEvent, string_at}
use kaspa_stratum_bridge.ChainNode.{chain_type_kaspa}
use kaspa_stratum_bridge.Prom.MiningState.{get_job}
use kaspa_stratum_bridge.Gostratum.Worker.{Env, Error}
use kaspa_stratum_bridge.ChainNode.Notify.Jobs.{IsEquipped}
use kaspa_stratum_bridge.Poolstratum.Stats.Totals.{Accounts}
use kaspa_stratum_bridge.Poolstratum.Shares.{
  Kaspad, World, SubmitInfo, validate_job, validate_number, validate_submit, after_validation,
  temp_kasp_handle_submit, handle_submit,
}
use kaspa_stratum_bridge.Poolstratum.Shares.Accounting.{
  validate_submit-Validated, handle_submit-Accounts,
}

module _ (kaspad : Kaspad) (env : Env) where
  open kaspad use {DomainBlock}

  abbrev pub IsRefused : World DomainBlock × Result Error SubmitInfo → Type 0
  IsRefused r = (e : Error) × (r.1 ≡ err e)

  module _ (w : World DomainBlock) (event : JsonRpcEvent) (idle : w.worker.state.jobs ≡ []) where
    validate_number-IsRefused :
        (number : Result ParseError ℤ) → IsRefused (validate_number kaspad env w event number)
    unfolding validate_number validate_job get_job lookup
    validate_number-IsRefused (err e) = (_, refl)
    validate_number-IsRefused (ok id) = rw (idle, get_job) (_, refl)

    -- A worker without jobs submits in vain.
    pub validate_submit-IsRefused : IsRefused (validate_submit kaspad env w event)
    unfolding validate_submit
    validate_submit-IsRefused = elim (Bool-cases (ltb (length event.params) 3)) [
      | inl few ↦ rw few (_, refl)
      | inr enough ↦ rw enough (elim (Option-cases (string_at event.params 1)) [
        | inl missing ↦ rw (missing, validate_submit) (_, refl)
        | inr (job_id, found) ↦
            rw (found, validate_submit) (validate_number-IsRefused (parse_int job_id))
      ])
    ]

  -- A submission keeps the accounts for a worker that has a difficulty if it has jobs: one without jobs
  -- is refused before it is counted.
  pub handle_submit_equipped :
      (chain_type : Bytes) (w : World DomainBlock) (event : JsonRpcEvent)
      → IsEquipped w.worker.state
      → Accounts w.handler
      → Accounts (handle_submit kaspad env chain_type w event).0.handler
  unfolding handle_submit temp_kasp_handle_submit after_validation
  handle_submit_equipped chain_type w event (ready, inr (diff, hd)) a =
      handle_submit-Accounts kaspad env chain_type w event diff hd a
  handle_submit_equipped chain_type w event (ready, inl idle) a =
      elim (Bool-cases (bytes_beq chain_type chain_type_kaspa)) [
        | inl kaspa ↦
            let (e, refused) = validate_submit-IsRefused w event idle in
            let v = validate_submit-Validated kaspad env w event in
            rw (kaspa, refused) (rw v.handler_kept a)
        | inr other ↦ rw other a
      ]

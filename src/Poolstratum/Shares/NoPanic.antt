-- ===== src/Poolstratum/Shares/NoPanic.antt =====
-- A submission (src/poolstratum/share_handler.go) of a worker as the bridge keeps it does not panic.
use kaspa_stratum_bridge.Base.{
  ℕ, ◌≡◌, refl, ap, ◌∙◌, sym, ◌⊎◌, Bool-cases, inl, inr, [], Option, Option-cases, none, some,
  Result, Result-cases, ok, err, ltb, length,
}
use kaspa_stratum_bridge.Base.Int.{ℤ}
use kaspa_stratum_bridge.Text.{Bytes, bytes_beq}
use kaspa_stratum_bridge.Text.Digits.{ParseError, parse_int, parse_uint}
use kaspa_stratum_bridge.Model.{JsonRpcEvent, string_at}
use kaspa_stratum_bridge.ChainNode.{chain_type_kaspa}
use kaspa_stratum_bridge.Prom.Block.{RpcBlock}
use kaspa_stratum_bridge.Prom.Difficulty.{KaspaDiff}
use kaspa_stratum_bridge.Prom.MiningState.{get_job}
use kaspa_stratum_bridge.Gostratum.Worker.{Env, Error, panicked}
use kaspa_stratum_bridge.Gostratum.Worker.NoPanic.{NoPanic, reply-NoPanic}
use kaspa_stratum_bridge.ChainNode.Notify.Jobs.{IsEquipped}
use kaspa_stratum_bridge.Poolstratum.Nonce.{add_extranonce}
use kaspa_stratum_bridge.Poolstratum.Shares.{
  Kaspad, World, SubmitInfo, validate_job, validate_number, validate_submit, record_share,
  handle_converted, handle_block, handle_nonce, after_validation, temp_kasp_handle_submit,
  handle_submit,
}
use kaspa_stratum_bridge.Poolstratum.Shares.Accounting.{validate_submit-Validated}
use kaspa_stratum_bridge.Poolstratum.Shares.Equipped.{validate_submit-IsRefused}

module _ (kaspad : Kaspad) (env : Env) where
  open kaspad use {DomainBlock, to_domain}

  -- No validation ends in a panic.
  abbrev Refuses : World DomainBlock × Result Error SubmitInfo → Type 0
  Refuses r = ¬ (r.1 ≡ err panicked)

  validate_job-Refuses :
      (w : World DomainBlock) (event : JsonRpcEvent) (job : Option RpcBlock)
      → Refuses (validate_job kaspad env w event job)
  unfolding validate_job
  validate_job-Refuses w event none = λ e. cc
  validate_job-Refuses w event (some block) = elim (Option-cases (string_at event.params 2)) [
    | inl missing ↦ rw (missing, validate_job) (λ e. cc)
    | inr (nonce, found) ↦ rw (found, validate_job) (λ e. cc)
  ]

  validate_number-Refuses :
      (w : World DomainBlock) (event : JsonRpcEvent) (number : Result ParseError ℤ)
      → Refuses (validate_number kaspad env w event number)
  unfolding validate_number
  validate_number-Refuses w event (err e) = λ e. cc
  validate_number-Refuses w event (ok id) = validate_job-Refuses w event (get_job w.worker.state id)

  validate_submit-Refuses :
      (w : World DomainBlock) (event : JsonRpcEvent) → Refuses (validate_submit kaspad env w event)
  unfolding validate_submit
  validate_submit-Refuses w event = elim (Bool-cases (ltb (length event.params) 3)) [
    | inl few ↦ rw few (λ e. cc)
    | inr enough ↦ rw enough (elim (Option-cases (string_at event.params 1)) [
      | inl missing ↦ rw (missing, validate_submit) (λ e. cc)
      | inr (job_id, found) ↦
          rw (found, validate_submit) (validate_number-Refuses w event (parse_int job_id))
    ])
  ]

  handle_converted-NoPanic :
      (chain_type : Bytes) (w : World DomainBlock) (event : JsonRpcEvent) (info : SubmitInfo)
      (p : ℕ) (converted : Option DomainBlock) (diff : KaspaDiff)
      → w.worker.state.stratum_diff ≡ some diff
      → NoPanic (handle_converted kaspad env chain_type w event info p converted).1
  unfolding handle_converted record_share
  handle_converted-NoPanic chain_type w event info p none diff hd = λ e. cc
  handle_converted-NoPanic chain_type w event info p (some converted) diff hd =
      rw (hd, record_share) (reply-NoPanic env _ _)

  handle_nonce-NoPanic :
      (chain_type : Bytes) (w : World DomainBlock) (event : JsonRpcEvent) (info : SubmitInfo)
      (diff : KaspaDiff)
      → w.worker.state.stratum_diff ≡ some diff
      → NoPanic (handle_nonce kaspad env chain_type w event info).1
  unfolding handle_nonce handle_block
  handle_nonce-NoPanic chain_type w event info diff hd =
      elim (Result-cases (parse_uint 16 (add_extranonce w.worker.extranonce info.noncestr))) [
        | inl (e, failed) ↦ rw (failed, handle_nonce) (λ e. cc)
        | inr (nonce, parsed) ↦
            rw (parsed, handle_nonce) (handle_converted-NoPanic chain_type _ event _ _ _ diff hd)
      ]

  after_validation-NoPanic :
      (chain_type : Bytes) (event : JsonRpcEvent) (w : World DomainBlock)
      (validated : Result Error SubmitInfo)
      → ¬ (validated ≡ err panicked)
      → ((info : SubmitInfo)
          → validated ≡ ok info
          → (diff : KaspaDiff) × (w.worker.state.stratum_diff ≡ some diff))
      → NoPanic (after_validation kaspad env chain_type event w validated).1
  unfolding after_validation
  after_validation-NoPanic chain_type event w (err e) refused ready = λ same. refused (cc)
  after_validation-NoPanic chain_type event w (ok info) refused ready =
      let (diff, hd) = ready info refl in handle_nonce-NoPanic chain_type w event info diff hd

  -- A submission does not panic, whatever its parameters are, for a worker that has a difficulty if it
  -- has jobs.
  pub handle_submit-NoPanic :
      (chain_type : Bytes) (w : World DomainBlock) (event : JsonRpcEvent)
      → IsEquipped w.worker.state
      → NoPanic (handle_submit kaspad env chain_type w event).1
  unfolding handle_submit temp_kasp_handle_submit
  handle_submit-NoPanic chain_type w event (ready, equipped) =
      elim (Bool-cases (bytes_beq chain_type chain_type_kaspa)) [
        | inl kaspa ↦ rw kaspa (
            after_validation-NoPanic chain_type event _ _ (validate_submit-Refuses w event)
              (λ info valid. difficulty info valid equipped))
        | inr other ↦ rw other (λ e. cc)
      ]
    where
      difficulty :
          (info : SubmitInfo)
          → (validate_submit kaspad env w event).1 ≡ ok info
          → (w.worker.state.jobs ≡ []) ⊎ ((d : KaspaDiff) × (w.worker.state.stratum_diff ≡ some d))
          → (d : KaspaDiff) × ((validate_submit kaspad env w event).0.worker.state.stratum_diff
              ≡ some d)
      difficulty info valid (inl idle) =
          let (e, refused) = validate_submit-IsRefused kaspad env w event idle in
          let impossible : err e ≡ ok info = sym refused ∙ valid in absurd (cc)
      difficulty info valid (inr (d, hd)) =
          let v = validate_submit-Validated kaspad env w event in
          (d, ap (λ c. c.state.stratum_diff) v.worker_kept ∙ hd)

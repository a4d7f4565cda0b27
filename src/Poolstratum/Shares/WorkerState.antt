-- ===== src/Poolstratum/Shares/WorkerState.antt =====
-- A submission (src/poolstratum/share_handler.go) keeps its worker's jobs, difficulty and extranonce.
use kaspa_stratum_bridge.Base.{
  ℕ, ◌≡◌, refl, ap, ◌∙◌, Bool-cases, inl, inr, Option, none, some, Result, ok, err, Result-cases,
  leb,
}
use kaspa_stratum_bridge.Text.{Bytes, bytes_beq, codes, contains}
use kaspa_stratum_bridge.Text.Digits.{parse_uint}
use kaspa_stratum_bridge.Model.{Value, JsonRpcEvent}
use kaspa_stratum_bridge.ChainNode.{chain_type_kaspa}
use kaspa_stratum_bridge.Prom.Difficulty.{KaspaDiff}
use kaspa_stratum_bridge.Gostratum.Worker.{Env, Error}
use kaspa_stratum_bridge.Gostratum.Worker.State.{
  marks, insert_mqqt-marks, reply-marks, reply_stale_share-marks, reply_bad_share-marks,
}
use kaspa_stratum_bridge.Poolstratum.Nonce.{add_extranonce}
use kaspa_stratum_bridge.Poolstratum.Stats.{WorkStats}
use kaspa_stratum_bridge.Poolstratum.Shares.{
  Kaspad, World, SubmitInfo, worker_error, count, after_submit, temp_kasp_submit, submit,
  record_share, submit_if_solved, handle_converted, handle_block, handle_nonce, after_validation,
  temp_kasp_handle_submit, handle_submit, add_block,
}
use kaspa_stratum_bridge.Poolstratum.Shares.Accounting.{validate_submit-Validated}

module _ (kaspad : Kaspad) (env : Env) where
  open kaspad use {DomainBlock, to_domain, set_nonce, pow_value, target, submit_block}

  abbrev SameState : World DomainBlock → World DomainBlock → Type 0
  SameState w w' = marks w'.worker ≡ marks w.worker

  count-SameState :
      (add : WorkStats → WorkStats) (w : World DomainBlock) → SameState w (count kaspad env add w)
  unfolding count
  count-SameState add w = refl

  after_submit-SameState :
      (w : World DomainBlock) (block : DomainBlock) (id : Value) (answer : Option Bytes)
      → SameState w (after_submit kaspad env w block id answer)
  unfolding after_submit
  after_submit-SameState w block id none = count-SameState add_block w
  after_submit-SameState w block id (some message) =
      elim (Bool-cases (contains message (codes "ErrDuplicateBlock"))) [
        | inl stale ↦ rw stale (reply_stale_share-marks env w.worker id)
        | inr other ↦ rw other (reply_bad_share-marks env w.worker id)
      ]

  submit-SameState :
      (chain_type : Bytes) (w : World DomainBlock) (converted : DomainBlock) (nonce : ℕ)
      (id : Value)
      → SameState w (submit kaspad env chain_type w converted nonce id)
  unfolding submit temp_kasp_submit
  submit-SameState chain_type w converted nonce id =
      elim (Bool-cases (bytes_beq chain_type chain_type_kaspa)) [
        | inl kaspa ↦ rw kaspa (after_submit-SameState _ (set_nonce converted nonce) id _)
        | inr other ↦ rw other refl
      ]

  submit_if_solved-SameState :
      (chain_type : Bytes) (w : World DomainBlock) (converted : DomainBlock) (nonce : ℕ)
      (id : Value)
      → SameState w (submit_if_solved kaspad env chain_type w converted nonce id)
  unfolding submit_if_solved
  submit_if_solved-SameState chain_type w converted nonce id =
      let block = set_nonce converted nonce in
      elim (Bool-cases (leb (pow_value block) (target block))) [
        | inl solved ↦ rw solved (submit-SameState chain_type w converted nonce id)
        | inr missed ↦ rw missed refl
      ]

  record_share-SameState :
      (w : World DomainBlock) (p : ℕ) (info : SubmitInfo) (id : Value)
      (difficulty : Option KaspaDiff)
      → SameState w (record_share kaspad env w p info id difficulty).0
  unfolding record_share
  record_share-SameState w p info id none = refl
  record_share-SameState w p info id (some diff) =
      reply-marks env _ _ ∙ insert_mqqt-marks _ w.worker

  handle_converted-SameState :
      (chain_type : Bytes) (w : World DomainBlock) (event : JsonRpcEvent) (info : SubmitInfo)
      (p : ℕ) (converted : Option DomainBlock)
      → SameState w (handle_converted kaspad env chain_type w event info p converted).0
  unfolding handle_converted
  handle_converted-SameState chain_type w event info p none = refl
  handle_converted-SameState chain_type w event info p (some converted) =
      record_share-SameState _ p info event.id _
      ∙ submit_if_solved-SameState chain_type w converted info.nonce_val event.id

  handle_nonce-SameState :
      (chain_type : Bytes) (w : World DomainBlock) (event : JsonRpcEvent) (info : SubmitInfo)
      → SameState w (handle_nonce kaspad env chain_type w event info).0
  unfolding handle_nonce handle_block worker_error
  handle_nonce-SameState chain_type w event info =
      elim (Result-cases (parse_uint 16 (add_extranonce w.worker.extranonce info.noncestr))) [
        | inl (e, failed) ↦ rw (failed, handle_nonce) refl
        | inr (nonce, parsed) ↦
            rw (parsed, handle_nonce) (handle_converted-SameState chain_type _ event _ _ _)
      ]

  after_validation-SameState :
      (chain_type : Bytes) (event : JsonRpcEvent) (w : World DomainBlock)
      (validated : Result Error SubmitInfo)
      → SameState w (after_validation kaspad env chain_type event w validated).0
  unfolding after_validation
  after_validation-SameState chain_type event w (err e) = refl
  after_validation-SameState chain_type event w (ok info) =
      handle_nonce-SameState chain_type w event info

  -- A submission changes none of its worker's jobs, not its difficulty and not its extranonce.
  pub handle_submit-marks :
      (chain_type : Bytes) (w : World DomainBlock) (event : JsonRpcEvent)
      → marks (handle_submit kaspad env chain_type w event).0.worker ≡ marks w.worker
  unfolding handle_submit temp_kasp_handle_submit
  handle_submit-marks chain_type w event =
      elim (Bool-cases (bytes_beq chain_type chain_type_kaspa)) [
        | inl kaspa ↦
            let v = validate_submit-Validated kaspad env w event in
            rw kaspa (after_validation-SameState chain_type event _ _ ∙ ap marks v.worker_kept)
        | inr other ↦ rw other refl
      ]

-- ===== src/Poolstratum/Shares.antt =====
-- The handler of mining.submit, src/poolstratum/share_handler.go. The kaspad packages, the sums of
-- floats and the JSON of a share are a parameter.
pub mod Stale
pub mod Settled
pub mod Notified
pub mod Accounting
pub mod WorkerState
pub mod Equipped
pub mod NoPanic
pub mod Interleaved
use kaspa_stratum_bridge.Base.{
  ◌/◌, ℕ, ◌-◌, List, [], ◌∷◌, ◌++◌, Option, none, some, Bool, true, Result, ok, err, length, leb,
  ltb, if◌then◌else◌,
}
use kaspa_stratum_bridge.Text.{Bytes, bytes_beq, codes, contains, remove_first}
use kaspa_stratum_bridge.Text.Digits.{ParseError, parse_int, parse_uint}
use kaspa_stratum_bridge.Base.Int.{ℤ}
use kaspa_stratum_bridge.Model.{Value, boolean, JsonRpcEvent, string_at}
use kaspa_stratum_bridge.Mq.{MqShareRecordData}
use kaspa_stratum_bridge.ChainNode.{chain_type_kaspa}
use kaspa_stratum_bridge.Prom.Block.{RpcBlock}
use kaspa_stratum_bridge.Prom.Difficulty.{KaspaDiff}
use kaspa_stratum_bridge.Prom.MiningState.{get_job}
use kaspa_stratum_bridge.Prom.Metrics.{
  Metrics, ErrorShortCode, err_bad_data_from_miner, err_missing_job, record_worker_error,
  record_stale_share, record_invalid_share, record_block_found, record_share_found,
}
use kaspa_stratum_bridge.Gostratum.Worker.{
  Env, WorkerContext, Error, malformed_event, bad_number, missing_job, bad_block, wrapped, panicked,
  insert_mqqt, reply, reply_stale_share, reply_bad_share,
}
use kaspa_stratum_bridge.Poolstratum.Stats.{
  WorkStats, ShareHandler, add_one, modify, labels, get_create_stats,
}
use kaspa_stratum_bridge.Poolstratum.Nonce.{add_extranonce}

pub record SubmitInfo : Type 0 where
  pub block : RpcBlock
  pub noncestr : Bytes
  pub nonce_val : ℕ

-- `appmessage`, `pow` and `consensushashing` of kaspad, the node's answer to the n-th submission (the
-- text of its error), and the functions on floats and JSON that a share needs.
pub record Kaspad : Type 1 where
  pub DomainBlock : Type 0
  pub to_domain : RpcBlock → Option DomainBlock
  pub set_nonce : DomainBlock → ℕ → DomainBlock
  pub pow_value : DomainBlock → ℕ
  pub target : DomainBlock → ℕ
  pub submit_block : ℕ → DomainBlock → Option Bytes
  pub block_hash : DomainBlock → Bytes
  pub block_nonce : DomainBlock → ℕ
  pub block_blue_score : DomainBlock → ℕ
  pub add_float : ℕ → ℕ → ℕ
  pub float_to_uint64 : ℕ → ℕ
  pub submit_json : SubmitInfo → Bytes

-- What a submission reads and changes.
pub record World (DomainBlock : Type 0) : Type 0 where
  pub handler : ShareHandler
  pub metrics : Metrics
  pub worker : WorkerContext
  pub submitted : List DomainBlock

abbrev pub add_stale : WorkStats → WorkStats
add_stale s = record s { stale_shares = add_one s.stale_shares }

abbrev pub add_invalid : WorkStats → WorkStats
add_invalid s = record s { invalid_shares = add_one s.invalid_shares }

abbrev pub add_block : WorkStats → WorkStats
add_block s = record s { blocks_found = add_one s.blocks_found }

abbrev pub add_share : WorkStats → WorkStats
add_share s = record s { shares_found = add_one s.shares_found }

abbrev pub work_window : ℕ
work_window = 8

-- `checkStales`, which no handler calls any more.
unfoldable pub check_stales :
    ShareHandler → Metrics → WorkerContext → RpcBlock → ShareHandler × Metrics × Bool
check_stales sh m sc block =
    let tip = sh.tip_blue_score in
    if ltb tip block.header.blue_score
    then (record sh { tip_blue_score = block.header.blue_score }, m, true)
    else if ltb work_window (tip - block.header.blue_score)
    then (sh, record_stale_share (labels sc) m, Bool.false)
    else (sh, m, true)

module _ (kaspad : Kaspad) (env : Env) where
  open kaspad use {
    DomainBlock, to_domain, set_nonce, pow_value, target, submit_block, block_hash, block_nonce,
    block_blue_score, add_float, float_to_uint64, submit_json,
  }

  unfoldable pub worker_error : World DomainBlock → ErrorShortCode → World DomainBlock
  worker_error w code = record w {
    metrics = record_worker_error w.worker.wallet_addr code w.metrics;
  }

  -- `validateSubmit` from the job on.
  unfoldable pub validate_job :
      World DomainBlock
      → JsonRpcEvent
      → Option RpcBlock
      → World DomainBlock × Result Error SubmitInfo
  unfolding worker_error
  validate_job w event none = (worker_error w err_missing_job, err missing_job)
  validate_job w event (some block) = elim (string_at event.params 2) [
    | none ↦ (worker_error w err_bad_data_from_miner, err malformed_event)
    | some noncestr ↦ (
      w,
      ok (record { block = block; noncestr = remove_first noncestr (codes "0x"); nonce_val = 0 }),
    )
  ]

  unfoldable pub validate_number :
      World DomainBlock
      → JsonRpcEvent
      → Result ParseError ℤ
      → World DomainBlock × Result Error SubmitInfo
  unfolding validate_job
  validate_number w event (err e) =
      (worker_error w err_bad_data_from_miner, err (wrapped bad_number))
  validate_number w event (ok job_id) = validate_job w event (get_job w.worker.state job_id)

  unfoldable pub validate_submit :
      World DomainBlock → JsonRpcEvent → World DomainBlock × Result Error SubmitInfo
  unfolding validate_number
  validate_submit w event =
      if ltb (length event.params) 3
      then (worker_error w err_bad_data_from_miner, err malformed_event)
      else elim (string_at event.params 1) [
        | none ↦ (worker_error w err_bad_data_from_miner, err malformed_event)
        | some job_id ↦ validate_number w event (parse_int job_id)
      ]

  -- `sh.getCreateStats(ctx).X.Add(1)` and `sh.overall.X.Add(1)`.
  unfoldable pub count : (WorkStats → WorkStats) → World DomainBlock → World DomainBlock
  count add w =
      let (sh, p, m) = get_create_stats w.handler w.metrics w.worker env.now in
      record w {
        handler = record sh { store = modify p add sh.store; overall = add sh.overall };
        metrics = m;
      }

  -- `temp_kasp_submit` on the node's answer. Its own result is dropped by `submit`.
  unfoldable pub after_submit :
      World DomainBlock → DomainBlock → Value → Option Bytes → World DomainBlock
  after_submit w block event_id none =
      let w' = count add_block w in
      record w' {
        metrics =
            record_block_found (labels w.worker) (block_nonce block) (block_blue_score block)
              (block_hash block) w'.metrics;
      }
  after_submit w block event_id (some message) =
      if contains message (codes "ErrDuplicateBlock")
      then (let w' = count add_stale w in
          record w' {
            metrics = record_stale_share (labels w.worker) w'.metrics;
            worker = (reply_stale_share env w.worker event_id).0;
          })
      else (let w' = count add_invalid w in
          record w' {
            metrics = record_invalid_share (labels w.worker) w'.metrics;
            worker = (reply_bad_share env w.worker event_id).0;
          })

  -- `temp_kasp_submit`
  unfoldable pub temp_kasp_submit : World DomainBlock → DomainBlock → ℕ → Value → World DomainBlock
  temp_kasp_submit w block nonce event_id =
      let block' = set_nonce block nonce in
      let w' = record w { submitted = w.submitted ++ block' ∷ [] } in
      after_submit w' block' event_id (submit_block (length w.submitted) block')

  -- `submit`, which returns nil whatever `temp_kasp_submit` returned.
  unfoldable pub submit : Bytes → World DomainBlock → DomainBlock → ℕ → Value → World DomainBlock
  submit chain_type w block nonce event_id =
      if bytes_beq chain_type chain_type_kaspa then temp_kasp_submit w block nonce event_id else w

  unfoldable pub share_record : WorkerContext → KaspaDiff → SubmitInfo → MqShareRecordData
  share_record sc diff info = record {
    message_id = env.uuid;
    app_name = sc.app_name;
    app_version = sc.app_version;
    recode_type = codes "submit";
    miner_name = sc.miner_name;
    device_company = sc.device_company;
    device_type = sc.device_type;
    device_name = sc.device_name;
    remote_addr = sc.remote_addr;
    time = env.now / 1_000_000;
    code = 0;
    target_difficulty = float_to_uint64 diff.diff_value;
    params = submit_json info;
  }

  -- The end of `TempKaspHandleSubmit`: the share is counted, published and answered. `p` points to
  -- the worker's statistics; a nil difficulty panics behind the first counter.
  unfoldable pub record_share :
      World DomainBlock
      → ℕ
      → SubmitInfo
      → Value
      → Option KaspaDiff
      → World DomainBlock × Option Error
  unfolding insert_mqqt
  record_share w p info event_id none = (
    record w { handler = record w.handler { store = modify p add_share w.handler.store } },
    some panicked,
  )
  record_share w p info event_id (some diff) =
      let credit = λ (s : WorkStats). record s {
        shares_found = add_one s.shares_found;
        shares_diff = add_float s.shares_diff diff.hash_value;
        last_share = env.now;
      } in
      let sc = insert_mqqt (env.marshal_record (share_record w.worker diff info)) w.worker in
      let (sc', result) =
        reply env sc (record { id = event_id; result = boolean true; error = none }) in
      (
        record w {
          handler = record w.handler {
            store = modify p credit w.handler.store;
            overall = add_share w.handler.overall;
          };
          metrics = record_share_found (labels w.worker) diff.hash_value w.metrics;
          worker = sc';
        },
        result,
      )

  -- The block goes to the node when its proof of work reaches the target.
  unfoldable pub submit_if_solved :
      Bytes → World DomainBlock → DomainBlock → ℕ → Value → World DomainBlock
  submit_if_solved chain_type w converted nonce event_id =
      let block = set_nonce converted nonce in
      if leb (pow_value block) (target block)
      then submit chain_type w converted nonce event_id
      else w

  unfoldable pub handle_converted :
      Bytes
      → World DomainBlock
      → JsonRpcEvent
      → SubmitInfo
      → ℕ
      → Option DomainBlock
      → World DomainBlock × Option Error
  handle_converted chain_type w event info p none = (w, some bad_block)
  handle_converted chain_type w event info p (some converted) =
      record_share (submit_if_solved chain_type w converted info.nonce_val event.id) p info event.id
        w.worker.state.stratum_diff

  -- From the parsed nonce on: the statistics, the proof of work, the block and the share.
  unfoldable pub handle_block :
      Bytes → World DomainBlock → JsonRpcEvent → SubmitInfo → World DomainBlock × Option Error
  handle_block chain_type w event info =
      let (sh, p, m) = get_create_stats w.handler w.metrics w.worker env.now in
      handle_converted chain_type (record w { handler = sh; metrics = m }) event info p
        (to_domain info.block)

  -- `TempKaspHandleSubmit` after `validateSubmit`; the two branches on `UseBigJob` are the same.
  unfoldable pub handle_nonce :
      Bytes → World DomainBlock → JsonRpcEvent → SubmitInfo → World DomainBlock × Option Error
  handle_nonce chain_type w event info =
      let noncestr = add_extranonce w.worker.extranonce info.noncestr in
      elim (parse_uint 16 noncestr) [
        | err e ↦ (worker_error w err_bad_data_from_miner, some (wrapped bad_number))
        | ok nonce ↦
            handle_block chain_type w event
              (record { block = info.block; noncestr = noncestr; nonce_val = nonce })
      ]

  unfoldable pub after_validation :
      Bytes
      → JsonRpcEvent
      → World DomainBlock
      → Result Error SubmitInfo
      → World DomainBlock × Option Error
  after_validation chain_type event w (err e) = (w, some e)
  after_validation chain_type event w (ok info) = handle_nonce chain_type w event info

  unfoldable pub temp_kasp_handle_submit :
      Bytes → World DomainBlock → JsonRpcEvent → World DomainBlock × Option Error
  temp_kasp_handle_submit chain_type w event =
      let (w', validated) = validate_submit w event in
      after_validation chain_type event w' validated

  -- `HandleSubmit`: the branch for the chain aleo only prints.
  unfoldable pub handle_submit :
      Bytes → World DomainBlock → JsonRpcEvent → World DomainBlock × Option Error
  handle_submit chain_type w event =
      if bytes_beq chain_type chain_type_kaspa
      then temp_kasp_handle_submit chain_type w event
      else (w, none)

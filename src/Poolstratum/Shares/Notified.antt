-- ===== src/Poolstratum/Shares/Notified.antt =====
-- A submission (src/poolstratum/share_handler.go) on the job that its worker was sent
-- (src/chainnode/node.go).
use kaspa_stratum_bridge.Base.{ℕ, ◌^◌, ◌<◌, ◌≡◌, refl, ap, ◌∙◌, List, [], ◌∷◌, ◌++◌, some, ok}
use kaspa_stratum_bridge.Base.Int.{ℤ, pos}
use kaspa_stratum_bridge.Text.{Bytes, codes, remove_first}
use kaspa_stratum_bridge.Text.Digits.{parse_int, format_int}
use kaspa_stratum_bridge.Text.Digits.Decimal.{parse_int-format_int}
use kaspa_stratum_bridge.Model.{Value, text, JsonRpcEvent}
use kaspa_stratum_bridge.Prom.Block.{RpcBlock}
use kaspa_stratum_bridge.Prom.Difficulty.{BigFloats}
use kaspa_stratum_bridge.Prom.MiningState.{get_job}
use kaspa_stratum_bridge.Prom.Header.{Blake2b}
use kaspa_stratum_bridge.Prom.Metrics.{Metrics}
use kaspa_stratum_bridge.Gostratum.Worker.{Env, WorkerContext}
use kaspa_stratum_bridge.ChainNode.Notify.{Node, get_notify_params}
use kaspa_stratum_bridge.ChainNode.Notify.Jobs.{IsReady, get_notify_params-get_job}
use kaspa_stratum_bridge.Poolstratum.Shares.{
  Kaspad, World, SubmitInfo, validate_job, validate_number, validate_submit,
}

module _ (kaspad : Kaspad) (env : Env) where
  open kaspad use {DomainBlock}

  -- What the validation returns for a block and the text of a nonce.
  abbrev pub info_of : RpcBlock → Bytes → SubmitInfo
  info_of block noncestr = record {
    block = block;
    noncestr = remove_first noncestr (codes "0x");
    nonce_val = 0;
  }

  found_job :
      (w : World DomainBlock) (event : JsonRpcEvent) (miner : Value) (job noncestr : Bytes)
      (number : ℤ) (block : RpcBlock)
      → event.params ≡ miner ∷ text job ∷ text noncestr ∷ []
      → parse_int job ≡ ok number
      → get_job w.worker.state number ≡ some block
      → validate_submit kaspad env w event ≡ (w, ok (info_of block noncestr))
  unfolding validate_submit validate_number validate_job
  found_job w event miner job noncestr number block sent parsed stored = rw sent (
      ap (validate_number kaspad env w event) parsed
      ∙ ap (validate_job kaspad env w event) stored
      ∙ rw sent refl)

  -- A worker that submits a nonce on the job that it was sent last is checked against the very block
  -- that the node answered for it: the text of the job's number that `GetNotifyParams` returned is
  -- read back by `validateSubmit`, as long as the number is not negative and fits an int64. The worker
  -- had a difficulty or was not initialized.
  pub validate_submit-get_notify_params :
      (blake2b : Blake2b) (floats : BigFloats) (node : Node) (sc : WorkerContext) (m : Metrics)
      (diff n : ℕ) (job miner : Value) (rest : List Value) (w : World DomainBlock)
      (event : JsonRpcEvent) (noncestr : Bytes)
      → IsReady sc.state
      → n < 2 ^ 63
      → (get_notify_params blake2b floats node env sc m diff).2 ≡ ok (pos n, job ∷ rest)
      → w.worker.state ≡ (get_notify_params blake2b floats node env sc m diff).0.state
      → event.params ≡ miner ∷ job ∷ text noncestr ∷ []
      → (block : RpcBlock) × (node.get_block_template sc.wallet_addr
            (codes "'" ++ (sc.miner_name ++ codes "' client"))
          ≡ ok block)
        × (validate_submit kaspad env w event ≡ (w, ok (info_of block noncestr)))
  validate_submit-get_notify_params blake2b floats node sc m diff n job miner rest w event noncestr
        ready bound notified same sent =
      let (block, answered, stored, difficulty, (others, first)) =
        get_notify_params-get_job blake2b floats node env sc m diff (pos n) (job ∷ rest) ready
          notified in
      let number : job ≡ text (format_int (pos n)) = cc in
      (
        block,
        answered,
        found_job w event miner (format_int (pos n)) noncestr (pos n) block
            (sent ∙ ap (λ j. miner ∷ j ∷ text noncestr ∷ []) number) (parse_int-format_int n bound)
            (ap (λ s. get_job s (pos n)) same ∙ stored),
      )

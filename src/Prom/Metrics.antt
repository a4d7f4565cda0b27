-- ===== src/Prom/Metrics.antt =====
-- src/prom/prom.go and errors.go: the counters, as the sequence of what was added to them.
use kaspa_stratum_bridge.Base.{ℕ, List, ◌∷◌, ◌++◌}
use kaspa_stratum_bridge.Text.{Bytes, codes}
use kaspa_stratum_bridge.Text.Digits.{format_decimal}

pub data ErrorShortCode : Type 0 where
  err_no_miner_address err_failed_block_fetch err_invalid_address_fmt err_missing_job :
      ErrorShortCode
  err_bad_data_from_miner err_failed_send_work err_failed_set_diff err_disconnected : ErrorShortCode

-- `commonLabels`
pub record Labels : Type 0 where
  pub worker : Bytes
  pub miner : Bytes
  pub wallet : Bytes
  pub ip : Bytes

pub data Series : Type 0 where
  share_counter : Labels → Series
  share_diff_counter : Labels → Series
  invalid_counter : Labels → Bytes → Series
  block_counter : Labels → Series
  block_gauge : Labels → Bytes → Bytes → Bytes → Series
  disconnect_counter : Labels → Series
  job_counter : Labels → Series
  error_by_wallet : Bytes → ErrorShortCode → Series

-- What was added to each series, the newest first; a difficulty is the bit pattern of its float.
abbrev pub Metrics : Type 0
Metrics = List (Series × ℕ)

unfoldable pub record_share_found : Labels → ℕ → Metrics → Metrics
record_share_found worker share_diff m =
    (share_diff_counter worker, share_diff) ∷ (share_counter worker, 1) ∷ m

unfoldable pub record_stale_share : Labels → Metrics → Metrics
record_stale_share worker m = (invalid_counter worker (codes "stale"), 1) ∷ m

unfoldable pub record_dupe_share : Labels → Metrics → Metrics
record_dupe_share worker m = (invalid_counter worker (codes "duplicate"), 1) ∷ m

unfoldable pub record_invalid_share : Labels → Metrics → Metrics
record_invalid_share worker m = (invalid_counter worker (codes "invalid"), 1) ∷ m

unfoldable pub record_weak_share : Labels → Metrics → Metrics
record_weak_share worker m = (invalid_counter worker (codes "weak"), 1) ∷ m

-- `%d` of a string prints the string in a note on the wrong verb.
unfoldable pub wrong_verb : Bytes → Bytes
wrong_verb s = codes "%!d(string=" ++ (s ++ codes ")")

unfoldable pub record_block_found : Labels → ℕ → ℕ → Bytes → Metrics → Metrics
record_block_found worker nonce bluescore hash m =
    (block_gauge worker (format_decimal nonce) (format_decimal bluescore) (wrong_verb hash), 1)
    ∷ (block_counter worker, 1)
    ∷ m

unfoldable pub record_disconnect : Labels → Metrics → Metrics
record_disconnect worker m = (disconnect_counter worker, 1) ∷ m

unfoldable pub record_new_job : Labels → Metrics → Metrics
record_new_job worker m = (job_counter worker, 1) ∷ m

unfoldable pub record_worker_error : Bytes → ErrorShortCode → Metrics → Metrics
record_worker_error address short_error m = (error_by_wallet address short_error, 1) ∷ m

unfoldable pub init_invalid_counter : Labels → Bytes → Metrics → Metrics
init_invalid_counter worker error_type m = (invalid_counter worker error_type, 0) ∷ m

unfoldable pub init_worker_counters : Labels → Metrics → Metrics
unfolding init_invalid_counter
init_worker_counters worker m =
    (job_counter worker, 0)
    ∷ (disconnect_counter worker, 0)
    ∷ (block_counter worker, 0)
    ∷ init_invalid_counter worker (codes "weak") (
        init_invalid_counter worker (codes "invalid") (
          init_invalid_counter worker (codes "duplicate") (
            init_invalid_counter worker (codes "stale")
              ((share_diff_counter worker, 0) ∷ (share_counter worker, 0) ∷ m))))

-- ===== src/Tests/Submissions.antt =====
-- The theorems of the model of src/poolstratum at concrete workers and submissions.
use kaspa_stratum_bridge.Base.{
  ◌+◌, ◌%◌, ◌^◌, ◌<◌, ◌≡◌, ◌↔◌, refl, arith, List, [], ◌∷◌, some, false,
}
use kaspa_stratum_bridge.Text.{codes, pad_zeros}
use kaspa_stratum_bridge.Text.Hex.{hex_fixed, format_hex, hex_digit}
use kaspa_stratum_bridge.Base.GoMap.{lookup}
use kaspa_stratum_bridge.Prom.Block.{RpcBlock}
use kaspa_stratum_bridge.Gostratum.Worker.{WorkerContext}
use kaspa_stratum_bridge.Poolstratum.Stats.{new_share_handler}
use kaspa_stratum_bridge.Poolstratum.Stats.Listed.{names, Distinct}
use kaspa_stratum_bridge.Poolstratum.Stats.Totals.{
  Tally, tally, blocks, shares, stales, invalids, total, Accounts,
}
use kaspa_stratum_bridge.Poolstratum.Shares.{
  Kaspad, World, SubmitInfo, add_share, work_window, check_stales, handle_block,
}
use kaspa_stratum_bridge.Poolstratum.Shares.Settled.{block_adds, handle_block-overall}
use kaspa_stratum_bridge.Poolstratum.Shares.Stale.{check_all, highest, check_all-stale}
use kaspa_stratum_bridge.Poolstratum.Listener.{
  new_workers_listener, on_connect, on_disconnect, take_extranonce,
}
use kaspa_stratum_bridge.Poolstratum.Listener.Extranonces.{
  Event, join, leave, assigned, space, assigned_lem,
}
use kaspa_stratum_bridge.Tests.{block_at, diff_four, worker_at, busy_env, event_of}

abbrev worker : WorkerContext
worker = worker_at (codes "10.0.0.1") (codes "rig")

abbrev other_worker : WorkerContext
other_worker = worker_at (codes "10.0.0.1") (codes "rig2")

-- A node that takes no block; each block reaches its target.
abbrev pub refusing : Kaspad
refusing = record {
  DomainBlock = RpcBlock;
  to_domain = some;
  set_nonce = λ b nonce. record b { header = record b.header { nonce = nonce } };
  pow_value = λ b. 1;
  target = λ b. b.header.bits;
  submit_block = λ n b. some (codes "ErrDuplicateBlock");
  block_hash = λ b. b.header.hash_merkle_root;
  block_nonce = λ b. b.header.nonce;
  block_blue_score = λ b. b.header.blue_score;
  add_float = λ a b. a + b;
  float_to_uint64 = λ a. a;
  submit_json = λ info. info.noncestr;
}

abbrev pub start : World RpcBlock
start = record { handler = new_share_handler; metrics = []; worker = worker; submitted = [] }

new_share_handler-Accounts : Accounts new_share_handler
unfolding new_share_handler total lookup names Distinct
new_share_handler-Accounts = record {
  listed = record { single = tt; entries = λ k p h. cc; kept = λ p k h. cc };
  balanced = balance;
}
  where
    balance :
        (t : Tally) → total t new_share_handler.store % 2 ^ 64 ≡ tally t new_share_handler.overall
    balance blocks = refl
    balance shares = refl
    balance stales = refl
    balance invalids = refl

abbrev pub info_example : SubmitInfo
info_example = record { block = block_at 40; noncestr = codes "1f"; nonce_val = 31 }

handle_block-overall_example :
    (handle_block refusing busy_env
      (codes "kaspa")
      start
      (event_of [])
      info_example).0.handler.overall
    ≡ add_share (
        block_adds refusing busy_env
          (codes "kaspa")
          start
          (refusing.set_nonce (block_at 40) 31)
          new_share_handler.overall)
handle_block-overall_example =
    handle_block-overall refusing busy_env (codes "kaspa") start (event_of []) info_example
      (block_at 40) diff_four refl refl new_share_handler-Accounts

abbrev events_example : List Event
events_example = join 100 worker ∷ leave worker ∷ join 101 other_worker ∷ []

assigned_lem_example : codes "01" ≡ hex_fixed 2 (1 % space 1)
unfolding assigned on_connect on_disconnect take_extranonce new_workers_listener pad_zeros
    format_hex hex_digit
assigned_lem_example =
    assigned_lem 1 [] events_example 1 (codes "01") (omega arith) (omega arith) refl

check_all-stale_example :
    ((check_stales
        (check_all new_share_handler [] worker (block_at 40 ∷ block_at 20 ∷ []))
        []
        worker
        (block_at 31)).2
      ≡ false)
    ↔ (31 + work_window < highest new_share_handler.tip_blue_score (block_at 40 ∷ block_at 20 ∷ []))
check_all-stale_example =
    check_all-stale new_share_handler [] [] worker (block_at 40 ∷ block_at 20 ∷ []) (block_at 31)

-- ===== src/Tests/Notifications.antt =====
-- The theorems of the models of src/chainnode and `NewBlockAvailable` at a concrete node.
use kaspa_stratum_bridge.Base.{
  ℕ, ◌+◌, ◌*◌, ◌/◌, ◌≡◌, refl, List, [], ◌∷◌, ◌++◌, some, ok, false, replicate, arith,
}
use kaspa_stratum_bridge.Base.Int.{pos}
use kaspa_stratum_bridge.Text.{codes, pad_zeros}
use kaspa_stratum_bridge.Text.Digits.{format_int, format_decimal, decimal_loop}
use kaspa_stratum_bridge.Text.Hex.{format_hex, hex_loop, hex_digit}
use kaspa_stratum_bridge.Text.Endian.{be_number, be_number_from, be_bytes, le_bytes, le_number}
use kaspa_stratum_bridge.Model.{Value, text}
use kaspa_stratum_bridge.Prom.Block.{RpcBlock}
use kaspa_stratum_bridge.Prom.Difficulty.{BigFloats, KaspaDiff}
use kaspa_stratum_bridge.Prom.MiningState.{add_job, get_job}
use kaspa_stratum_bridge.Prom.Header.{Blake2b, serialize_block_header}
use kaspa_stratum_bridge.Prom.Hasher.{generate_large_job_params, uint64_at, format_word}
use kaspa_stratum_bridge.Gostratum.Worker.{WorkerContext}
use kaspa_stratum_bridge.ChainNode.Notify.{
  Node, job_params, finish_job, after_difficulty, with_header, with_template, get_notify_params,
}
use kaspa_stratum_bridge.ChainNode.Notify.Jobs.{IsReady, get_notify_params-get_job}
use kaspa_stratum_bridge.Poolstratum.Stats.{new_share_handler}
use kaspa_stratum_bridge.Poolstratum.Shares.{World, validate_submit}
use kaspa_stratum_bridge.Poolstratum.Shares.Notified.{info_of, validate_submit-get_notify_params}
use kaspa_stratum_bridge.Tests.Submissions.{refusing}
use kaspa_stratum_bridge.Tests.{block_at, worker_at, busy_env, diff_four, event_of}

abbrev pub zero_hash : Blake2b
zero_hash = record { new = λ size key. ok (λ input. replicate 32 0) }

abbrev pub number_floats : BigFloats
number_floats = record {
  BigFloat = ℕ;
  new_float = λ b. b;
  set_int = λ n. n;
  set_mant_exp = λ m e. m + e;
  quo = λ a b. a / b;
  mul = λ a b. a * b;
  int = λ a. a;
  float64 = λ a. a;
}

abbrev pub steady_node : Node
steady_node = record {
  get_block_template = λ address extra. ok (block_at 41);
  passed_20s = λ since now. false;
}

abbrev worker : WorkerContext
worker = worker_at (codes "10.0.0.1") (codes "rig")

worker-IsReady : IsReady worker.state
worker-IsReady known = (diff_four, refl)

abbrev params_example : List Value
params_example = text (codes "2") ∷ text (replicate 64 b'0' ++ codes "e803000000000000") ∷ []

get_notify_params-get_job_example :
    (block : RpcBlock) × (steady_node.get_block_template (codes "kaspa:qq") (codes "'miner' client")
      ≡ ok block)
    × (get_job
          (get_notify_params zero_hash number_floats steady_node busy_env worker [] 4).0.state
          (pos 2)
        ≡ some block)
    × ((d : KaspaDiff) × ((get_notify_params zero_hash number_floats steady_node busy_env worker []
            4).0.state.stratum_diff
          ≡ some d))
    × ((rest : List Value) × (params_example ≡ text (format_int (pos 2)) ∷ rest))
unfolding get_notify_params with_template with_header serialize_block_header after_difficulty
    add_job finish_job job_params generate_large_job_params uint64_at format_int format_word
    format_decimal pad_zeros decimal_loop format_hex be_number be_number_from le_number be_bytes
    le_bytes hex_loop hex_digit
get_notify_params-get_job_example =
    get_notify_params-get_job zero_hash number_floats steady_node busy_env worker [] 4 (pos 2)
      params_example worker-IsReady refl

-- The worker after the notification, with a fresh handler.
abbrev notified_world : World RpcBlock
notified_world = record {
  handler = new_share_handler;
  metrics = [];
  worker = (get_notify_params zero_hash number_floats steady_node busy_env worker [] 4).0;
  submitted = [];
}

validate_submit-get_notify_params_example :
    (block : RpcBlock) × (steady_node.get_block_template (codes "kaspa:qq") (codes "'miner' client")
      ≡ ok block)
    × (validate_submit refusing busy_env notified_world
          (event_of (codes "rig" ∷ codes "2" ∷ codes "0x1f" ∷ []))
        ≡ (notified_world, ok (info_of refusing busy_env block (codes "0x1f"))))
unfolding get_notify_params with_template with_header serialize_block_header after_difficulty
    add_job finish_job job_params generate_large_job_params uint64_at format_int format_word
    format_decimal pad_zeros decimal_loop format_hex be_number be_number_from le_number be_bytes
    le_bytes hex_loop hex_digit
validate_submit-get_notify_params_example =
    validate_submit-get_notify_params refusing busy_env zero_hash number_floats steady_node worker
      [] 4 2 (text (codes "2")) (text (codes "rig"))
      (text (replicate 64 b'0' ++ codes "e803000000000000") ∷ []) notified_world
      (event_of (codes "rig" ∷ codes "2" ∷ codes "0x1f" ∷ [])) (codes "0x1f") worker-IsReady
      (omega arith) refl refl refl

-- ===== src/Tests.antt =====
-- Concrete data for the models of src/prom, src/gostratum, src/chainnode and src/poolstratum, and the
-- theorems at them.
mod Jobs
mod Workers
mod Table
mod Notifications
mod Submissions
mod Bridge
mod Connections
mod Concurrency
mod Services
use kaspa_stratum_bridge.Base.{
  ℕ, ◌+◌, List, [], ◌∷◌, some, true, false, replicate, if◌then◌else◌, ◌==◌,
}
use kaspa_stratum_bridge.Text.{Bytes, codes}
use kaspa_stratum_bridge.Text.Hex.{encode_hex}
use kaspa_stratum_bridge.Model.{text, JsonRpcEvent}
use kaspa_stratum_bridge.Prom.Block.{RpcBlockHeader, RpcBlock}
use kaspa_stratum_bridge.Prom.Difficulty.{KaspaDiff}
use kaspa_stratum_bridge.Prom.MiningState.{MiningState}
use kaspa_stratum_bridge.Gostratum.Worker.{Env, WorkerContext}

abbrev pub hash_of : ℕ → Bytes
hash_of b = encode_hex (replicate 32 b)

-- A header with a parent, of a nonce and a blue score.
abbrev pub header_at : ℕ → ℕ → RpcBlockHeader
header_at nonce blue_score = record {
  version = 1;
  parents = (hash_of 7 ∷ []) ∷ [];
  hash_merkle_root = hash_of 1;
  accepted_id_merkle_root = hash_of 2;
  utxo_commitment = hash_of 3;
  timestamp = 1000 + nonce;
  bits = 0x1e7f_ffff;
  nonce = nonce;
  daa_score = 55;
  blue_score = blue_score;
  blue_work = codes "abc";
  pruning_point = hash_of 4;
}

abbrev pub block_at : ℕ → RpcBlock
block_at blue_score = record { header = header_at 0 blue_score; transactions = [] }

abbrev pub diff_four : KaspaDiff
diff_four = record { hash_value = 17; diff_value = 4; target_value = 99 }

-- A worker that was sent one job, with the number 1.
abbrev pub one_job : MiningState
one_job = record {
  jobs = (kaspa_stratum_bridge.Base.Int.pos 1, block_at 40) ∷ [];
  job_counter = 1;
  big_diff = 0;
  initialized = true;
  use_big_job = true;
  connect_time = 5;
  stratum_diff = some diff_four;
}

abbrev pub worker_at : Bytes → Bytes → WorkerContext
worker_at remote device = record {
  chain_type = codes "kaspa";
  app_name = codes "kaspa";
  app_version = codes "1.0";
  miner_name = codes "miner";
  device_company = codes "company";
  device_type = codes "gpu";
  device_name = device;
  remote_addr = remote;
  wallet_addr = codes "kaspa:qq";
  id = 1;
  has_connection = true;
  disconnecting = false;
  write_lock = 0;
  extranonce = codes "0a";
  state = one_job;
  attempts = 0;
  wire = [];
  spawned_disconnects = 0;
  closes = 0;
  notifications = 0;
  published = [];
}

-- The first attempt to write finds the lock taken.
abbrev pub busy_env : Env
busy_env = record {
  marshal_response = λ r. some (codes "response");
  marshal_event = λ e. some (codes "event");
  marshal_record = λ r. some r.recode_type;
  lock_seen = λ n. if n == 0 then 1 else 0;
  deadline_ok = λ n. true;
  write_ok = λ n. true;
  now = 1234;
  uuid = codes "uuid";
}

abbrev pub event_of : List Bytes → JsonRpcEvent
event_of params = record {
  id = text (codes "7");
  version = codes "2.0";
  method = codes "mining";
  params = kaspa_stratum_bridge.Base.map text params;
}

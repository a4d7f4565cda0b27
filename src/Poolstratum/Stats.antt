-- ===== src/Poolstratum/Stats.antt =====
-- The statistics of src/poolstratum/share_handler.go. The map holds pointers, so a worker's record
-- stands in a store, and a pointer is its place there.
pub mod Sharing
pub mod Listed
pub mod Totals
pub mod Entry
pub mod Table
pub mod Shown
use kaspa_stratum_bridge.Base.{
  ℕ, zero, suc, ◌+◌, ◌%◌, ◌^◌, List, [], ◌∷◌, ◌++◌, Option, none, some, length, if◌then◌else◌,
}
use kaspa_stratum_bridge.Base.GoMap.{lookup, insert, delete}
use kaspa_stratum_bridge.Text.{Bytes, bytes_eq, codes, is_empty}
use kaspa_stratum_bridge.Gostratum.Worker.{WorkerContext}
use kaspa_stratum_bridge.Prom.Metrics.{Labels, Metrics, init_worker_counters}

-- `WorkStats`; the counters are the bit patterns of an int64, and the sum of the difficulties that
-- of a float.
pub record WorkStats : Type 0 where
  pub blocks_found : ℕ
  pub shares_found : ℕ
  pub shares_diff : ℕ
  pub stale_shares : ℕ
  pub invalid_shares : ℕ
  pub app_name_or_ver : Bytes
  pub device_name : Bytes
  pub start_time : ℕ
  pub last_share : ℕ

pub record ShareHandler : Type 0 where
  pub stats : List (Bytes × ℕ)
  pub store : List WorkStats
  pub overall : WorkStats
  pub tip_blue_score : ℕ

abbrev pub zero_stats : WorkStats
zero_stats = record {
  blocks_found = 0;
  shares_found = 0;
  shares_diff = 0;
  stale_shares = 0;
  invalid_shares = 0;
  app_name_or_ver = [];
  device_name = [];
  start_time = 0;
  last_share = 0;
}

unfoldable pub new_share_handler : ShareHandler
new_share_handler = record { stats = []; store = []; overall = zero_stats; tip_blue_score = 0 }

-- `Add(1)` on an atomic int64.
abbrev pub add_one : ℕ → ℕ
add_one n = (n + 1) % 2 ^ 64

-- A write through a pointer.
unfoldable pub modify : ℕ → (WorkStats → WorkStats) → List WorkStats → List WorkStats
modify p f [] = []
modify zero f (s ∷ store) = f s ∷ store
modify (suc p) f (s ∷ store) = s ∷ modify p f store

abbrev pub labels : WorkerContext → Labels
labels sc = record {
  worker = sc.device_name;
  miner = sc.miner_name;
  wallet = sc.wallet_addr;
  ip = sc.remote_addr;
}

-- The name under which the pool's statistics are printed.
abbrev pub app_name_or_ver_of : WorkerContext → Bytes
app_name_or_ver_of sc = sc.app_name ++ (codes "/" ++ sc.app_version)

-- The first look: by the device's name, if it has one.
unfoldable pub find_by_device : ShareHandler → WorkerContext → Option ℕ
find_by_device sh sc = if is_empty sc.device_name then none else lookup sc.device_name sh.stats

-- The entry under the remote address is moved to the device's name.
unfoldable pub rename_entry : ShareHandler → WorkerContext → ℕ → ShareHandler
unfolding modify
rename_entry sh sc p = record sh {
  stats = insert sc.device_name p (delete sc.remote_addr sh.stats);
  store = modify p (λ s. record s { device_name = sc.device_name }) sh.store;
}

-- The record that is created for a worker.
abbrev pub new_stats : WorkerContext → ℕ → WorkStats
new_stats sc now = record zero_stats {
  last_share = now;
  device_name = sc.remote_addr;
  start_time = now;
}

-- A new entry under the remote address.
unfoldable pub create_entry : ShareHandler → WorkerContext → ℕ → ShareHandler
create_entry sh sc now = record sh {
  stats = insert sc.remote_addr (length sh.store) sh.stats;
  store = sh.store ++ new_stats sc now ∷ [];
}

-- The three cases of `getCreateStats`: the handler, the pointer and the counters.
unfoldable pub find_or_create :
    ShareHandler → Metrics → WorkerContext → ℕ → Option ℕ → Option ℕ → ShareHandler × ℕ × Metrics
find_or_create sh m sc now (some p) by_remote = (sh, p, m)
find_or_create sh m sc now none (some p) = (rename_entry sh sc p, p, m)
find_or_create sh m sc now none none =
    (create_entry sh sc now, length sh.store, init_worker_counters (labels sc) m)

unfoldable pub get_create_stats :
    ShareHandler → Metrics → WorkerContext → ℕ → ShareHandler × ℕ × Metrics
get_create_stats sh m sc now =
    let (sh', p, m') =
      find_or_create sh m sc now (find_by_device sh sc) (lookup sc.remote_addr sh.stats) in
    (
      record sh' {
        store = modify p (λ s. record s { app_name_or_ver = app_name_or_ver_of sc }) sh'.store;
      },
      p,
      m',
    )

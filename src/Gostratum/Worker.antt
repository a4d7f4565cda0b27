-- ===== src/Gostratum/Worker.antt =====
-- src/gostratum/worker_context.go: the state of a worker, writing to its connection, disconnecting.
pub mod Writes
pub mod Lifetime
pub mod State
pub mod NoPanic
use kaspa_stratum_bridge.Base.{
  ℕ, zero, suc, ◌+◌, ◌/◌, Bool, true, false, List, [], ◌∷◌, ◌++◌, Option, none, some, ◌==◌,
  if◌then◌else◌,
}
use kaspa_stratum_bridge.Text.{Bytes, codes}
use kaspa_stratum_bridge.Model.{Value, nil, int, text, JsonRpcEvent, JsonRpcResponse}
use kaspa_stratum_bridge.Mq.{MqShareRecordData}
use kaspa_stratum_bridge.Prom.MiningState.{MiningState}

pub data Error : Type 0 where
  disconnected : Error  -- ErrorDisconnected
  pool_disconnected : Error  -- ErrorDisconnected of the client of an upstream pool
  write_blocked : Error  -- errWriteBlocked
  backoff_exhausted : Error  -- "failed writing to socket after 3 attempts"
  encoding_failed : Error
  deadline_failed : Error
  write_failed : Error
  malformed_event : Error
  invalid_wallet : Error
  missing_job : Error
  bad_number : Error
  bad_block : Error
  wrapped : Error → Error
  panicked : Error  -- a nil pointer or a slice out of range

-- What answers the bridge's calls: the encoders, and for the n-th attempt to write the lock as other
-- goroutines left it and what the connection returns; the clock, in nanoseconds, and the identifiers.
pub record Env : Type 0 where
  pub marshal_response : JsonRpcResponse → Option Bytes
  pub marshal_event : JsonRpcEvent → Option Bytes
  pub marshal_record : MqShareRecordData → Option Bytes
  pub lock_seen : ℕ → ℕ
  pub deadline_ok : ℕ → Bool
  pub write_ok : ℕ → Bool
  pub now : ℕ
  pub uuid : Bytes

-- `WorkerContext`; behind its fields stand the effects of its calls: the attempts to write, the data
-- that the connection took whole (the oldest first; a failed write takes nothing), the goroutines started to disconnect, the calls of
-- `connection.Close`, the messages sent to `onDisconnect` and the records given to the queue.
pub record WorkerContext : Type 0 where
  pub chain_type : Bytes
  pub app_name : Bytes
  pub app_version : Bytes
  pub miner_name : Bytes
  pub device_company : Bytes
  pub device_type : Bytes
  pub device_name : Bytes
  pub remote_addr : Bytes
  pub wallet_addr : Bytes
  pub id : ℕ
  pub has_connection : Bool
  pub disconnecting : Bool
  pub write_lock : ℕ
  pub extranonce : Bytes
  pub state : MiningState
  pub attempts : ℕ
  pub wire : List Bytes
  pub spawned_disconnects : ℕ
  pub closes : ℕ
  pub notifications : ℕ
  pub published : List Bytes

-- `checkDisconnect` after a failed write starts `go sc.Disconnect()`.
unfoldable pub check_disconnect : WorkerContext → Option Error → WorkerContext
check_disconnect sc none = sc
check_disconnect sc (some e) = record sc { spawned_disconnects = sc.spawned_disconnects + 1 }

-- The loop of `writeWithBackoff` goes on only after `errWriteBlocked`.
abbrev pub is_blocked : Option Error → Bool
is_blocked none = false
is_blocked (some write_blocked) = true
is_blocked (some e) = false

-- A record of the kind "Login" or "Logout", with the time in milliseconds.
unfoldable pub session_record : Bytes → ℕ → WorkerContext → Bytes → MqShareRecordData
session_record uuid now sc recode_type = record {
  message_id = uuid;
  app_name = sc.app_name;
  app_version = sc.app_version;
  recode_type = recode_type;
  miner_name = sc.miner_name;
  device_company = sc.device_company;
  device_type = sc.device_type;
  device_name = sc.device_name;
  remote_addr = sc.remote_addr;
  time = now / 1_000_000;
  code = 0;
  target_difficulty = 0;
  params = [];
}

-- `mq.Insertmqqt`, whose error no caller reads.
unfoldable pub insert_mqqt : Option Bytes → WorkerContext → WorkerContext
insert_mqqt none sc = sc
insert_mqqt (some json) sc = record sc { published = sc.published ++ json ∷ [] }

module _ (env : Env) where
  -- The compare-and-swap of `write` got the lock; the deferred store gives it back.
  unfoldable pub write_locked : WorkerContext → Bytes → WorkerContext × Option Error
  unfolding check_disconnect
  write_locked sc bytes =
      let n = sc.attempts in
      let tried = record sc { attempts = n + 1; write_lock = 0 } in
      if env.deadline_ok n
      then (if env.write_ok n
          then (check_disconnect (record tried { wire = sc.wire ++ bytes ∷ [] }) none, none)
          else (check_disconnect tried (some write_failed), some write_failed))
      else (tried, some deadline_failed)

  unfoldable pub write : WorkerContext → Bytes → WorkerContext × Option Error
  unfolding write_locked
  write sc bytes =
      if sc.write_lock == 0
      then write_locked sc bytes
      else (record sc { attempts = sc.attempts + 1 }, some write_blocked)

  -- Other goroutines between two attempts.
  unfoldable pub interfere : WorkerContext → WorkerContext
  interfere sc = record sc { write_lock = env.lock_seen sc.attempts }

  -- The loop of `writeWithBackoff`, with the rounds left.
  unfoldable pub write_rounds : ℕ → WorkerContext → Bytes → WorkerContext × Option Error
  write_rounds zero sc bytes = (sc, some backoff_exhausted)
  write_rounds (suc rounds) sc bytes =
      let (sc', result) = write (interfere sc) bytes in
      let again = write_rounds rounds sc' bytes in
      if is_blocked result then again else (sc', result)

  unfoldable pub write_with_backoff : WorkerContext → Bytes → WorkerContext × Option Error
  write_with_backoff = write_rounds 3

  -- What `Reply` and `Send` share: an encoded message and its newline.
  unfoldable pub send_encoded : WorkerContext → Option Bytes → WorkerContext × Option Error
  send_encoded sc none = (sc, some (wrapped encoding_failed))
  send_encoded sc (some encoded) = write_with_backoff sc (encoded ++ b'\n' ∷ [])

  unfoldable pub reply : WorkerContext → JsonRpcResponse → WorkerContext × Option Error
  unfolding send_encoded
  reply sc response =
      if sc.disconnecting
      then (sc, some disconnected)
      else send_encoded sc (env.marshal_response response)

  unfoldable pub send : WorkerContext → JsonRpcEvent → WorkerContext × Option Error
  unfolding send_encoded
  send sc event =
      if sc.disconnecting
      then (sc, some disconnected)
      else send_encoded sc (env.marshal_event event)

  -- The four refusals of a share.
  unfoldable pub reply_error : WorkerContext → Value → ℕ → Bytes → WorkerContext × Option Error
  reply_error sc id code message =
      reply sc (record { id = id; result = nil; error = some (int code ∷ text message ∷ nil ∷ []) })

  unfoldable pub reply_stale_share : WorkerContext → Value → WorkerContext × Option Error
  reply_stale_share sc id = reply_error sc id 21 (codes "Job not found")

  unfoldable pub reply_dupe_share : WorkerContext → Value → WorkerContext × Option Error
  reply_dupe_share sc id = reply_error sc id 22 (codes "Duplicate share submitted")

  unfoldable pub reply_bad_share : WorkerContext → Value → WorkerContext × Option Error
  reply_bad_share sc id = reply_error sc id 20 (codes "Unknown problem")

  unfoldable pub reply_low_diff_share : WorkerContext → Value → WorkerContext × Option Error
  reply_low_diff_share sc id = reply_error sc id 23 (codes "Invalid difficulty")

  unfoldable pub disconnect : WorkerContext → WorkerContext
  unfolding session_record insert_mqqt
  disconnect sc =
      if sc.disconnecting
      then sc
      else (let json = env.marshal_record (session_record env.uuid env.now sc (codes "Logout")) in
          let logged = insert_mqqt json sc in
          record logged {
            disconnecting = true;
            closes = if sc.has_connection then sc.closes + 1 else sc.closes;
            notifications = sc.notifications + 1;
          })

-- `Connected`
unfoldable pub is_connected : WorkerContext → Bool
is_connected sc = if sc.disconnecting then false else true

-- ===== src/ChainNode/Aleo.antt =====
-- src/chainnode/aleo/aleostratum/clientnode.go: the client of an upstream pool of aleo.
pub mod Writes
use kaspa_stratum_bridge.Base.{
  ℕ, zero, suc, ◌+◌, List, [], ◌∷◌, ◌++◌, Bool, true, false, Option, none, some, if◌then◌else◌,
  ◌==◌,
}
use kaspa_stratum_bridge.Text.{Bytes, codes}
use kaspa_stratum_bridge.Model.{Value, nil, int, text, JsonRpcEvent, JsonRpcResponse}
use kaspa_stratum_bridge.Gostratum.Worker.{
  Env, Error, pool_disconnected, panicked, write_blocked, backoff_exhausted, encoding_failed,
  deadline_failed, write_failed, wrapped, is_blocked,
}
use kaspa_stratum_bridge.Gostratum.Lines.{read_lines}

abbrev pub method_subscribe : Bytes
method_subscribe = codes "m.ss"

abbrev pub method_authorize : Bytes
method_authorize = codes "m.a"

pub record PoolConfig : Type 0 where
  pub address : Bytes
  pub channelid : Bytes
  pub minername : Bytes
  pub devicename : Bytes

-- `AleoStratumNode`; `has_connection` tells whether `conn` is not nil. `dials` counts the connections that `Subscribe` made, and behind the fields stand
-- the effects of the writes, as with `WorkerContext`.
pub record AleoStratumNode : Type 0 where
  pub config : PoolConfig
  pub has_connection : Bool
  pub connected : Bool
  pub write_lock : ℕ
  pub last_work : Option JsonRpcEvent
  pub dials : ℕ
  pub attempts : ℕ
  pub wire : List Bytes
  pub spawned_disconnects : ℕ

unfoldable pub create_stratum_node : Bytes → Bytes → Bytes → Bytes → AleoStratumNode
create_stratum_node address channelid minername devicename = record {
  config = record {
    address = address;
    channelid = channelid;
    minername = minername;
    devicename = devicename;
  };
  has_connection = false;
  connected = false;
  write_lock = 0;
  last_work = none;
  dials = 0;
  attempts = 0;
  wire = [];
  spawned_disconnects = 0;
}

-- `checkDisconnect`; the `Disconnect` that it starts does nothing yet.
unfoldable pub check_disconnect : AleoStratumNode → Option Error → AleoStratumNode
check_disconnect sc none = sc
check_disconnect sc (some e) = record sc { spawned_disconnects = sc.spawned_disconnects + 1 }

module _ (env : Env) where
  -- `write` with the lock in hand; the deferred store gives it back. A nil connection panics.
  unfoldable pub write_locked : AleoStratumNode → Bytes → AleoStratumNode × Option Error
  unfolding check_disconnect
  write_locked sc bytes =
      let n = sc.attempts in
      let tried = record sc { attempts = n + 1; write_lock = 0 } in
      if sc.has_connection
      then (if env.deadline_ok n
          then (if env.write_ok n
              then (check_disconnect (record tried { wire = sc.wire ++ bytes ∷ [] }) none, none)
              else (check_disconnect tried (some write_failed), some write_failed))
          else (tried, some deadline_failed))
      else (tried, some panicked)

  unfoldable pub write : AleoStratumNode → Bytes → AleoStratumNode × Option Error
  unfolding write_locked
  write sc bytes =
      if sc.write_lock == 0
      then write_locked sc bytes
      else (record sc { attempts = sc.attempts + 1 }, some write_blocked)

  -- Other goroutines between two attempts.
  unfoldable pub interfere : AleoStratumNode → AleoStratumNode
  interfere sc = record sc { write_lock = env.lock_seen sc.attempts }

  unfoldable pub write_rounds : ℕ → AleoStratumNode → Bytes → AleoStratumNode × Option Error
  write_rounds zero sc bytes = (sc, some backoff_exhausted)
  write_rounds (suc rounds) sc bytes =
      let (sc', result) = write (interfere sc) bytes in
      let again = write_rounds rounds sc' bytes in
      if is_blocked result then again else (sc', result)

  unfoldable pub write_with_backoff : AleoStratumNode → Bytes → AleoStratumNode × Option Error
  write_with_backoff = write_rounds 3

  -- What `Reply` and `Send` share: an encoded message and its newline.
  unfoldable pub send_encoded : AleoStratumNode → Option Bytes → AleoStratumNode × Option Error
  send_encoded sc none = (sc, some (wrapped encoding_failed))
  send_encoded sc (some encoded) = write_with_backoff sc (encoded ++ b'\n' ∷ [])

  unfoldable pub reply : AleoStratumNode → JsonRpcResponse → AleoStratumNode × Option Error
  reply sc response =
      if sc.connected
      then send_encoded sc (env.marshal_response response)
      else (sc, some pool_disconnected)

  unfoldable pub send : AleoStratumNode → JsonRpcEvent → AleoStratumNode × Option Error
  send sc event =
      if sc.connected
      then send_encoded sc (env.marshal_event event)
      else (sc, some pool_disconnected)

-- What one `conn.Read` returns: data, data and `io.EOF`, or another error.
pub data Reading : Type 0 where
  received : Bytes → Reading
  ended : Bytes → Reading
  broken : Reading

pub data ReadError (E : Type 0) : Type 0 where
  read_broken : ReadError E
  callback_failed : E → ReadError E

module _ {S E : Type 0} (cb : S → Bytes → S × Option E) where
  -- The loop over the lines of one read.
  unfoldable pub each_line : S → List Bytes → S × Option (ReadError E)
  each_line s [] = (s, none)
  each_line s (line ∷ lines) =
      let (s', result) = cb s line in
      elim result [ none ↦ each_line s' lines | some e ↦ (s', some (callback_failed e)) ]

  -- `readResponse`; the body of the loop of `Listen` is the same.
  unfoldable pub read_response : S → Reading → S × Option (ReadError E)
  read_response s (received bytes) = each_line s (read_lines 4096 bytes)
  read_response s (ended bytes) = each_line s (read_lines 4096 bytes)
  read_response s broken = (s, some read_broken)

  -- `Listen` over what the connection gives; `none` where it still listens.
  unfoldable pub listen : S → List Reading → S × Option (ReadError E)
  listen s [] = (s, none)
  listen s (reading ∷ readings) =
      let (s', result) = read_response s reading in
      elim result [ none ↦ listen s' readings | some e ↦ (s', some e) ]

-- Why `Subscribe` or `Authorize` fails.
pub data SessionError : Type 0 where
  dial_failed : SessionError
  not_sent : Error → SessionError
  no_response : SessionError

abbrev pub request : Bytes → List Value → JsonRpcEvent
request method params = record {
  id = int 0;
  version = codes "2.0";
  method = method;
  params = params;
}

abbrev pub subscribe_event : PoolConfig → JsonRpcEvent
subscribe_event config =
    request method_subscribe (text config.channelid ∷ text (codes "aleopool/0.0.1") ∷ nil ∷ [])

abbrev pub authorize_event : PoolConfig → JsonRpcEvent
authorize_event config =
    request method_authorize (text config.minername ∷ text config.devicename ∷ nil ∷ [])

-- The callbacks of `Subscribe` and `Authorize` take every line.
abbrev pub take_line : AleoStratumNode → Bytes → AleoStratumNode × Option Error
take_line sc line = (sc, none)

-- The request was sent or not, where the panic of a nil connection is passed on; then the response is
-- read.
unfoldable pub await_response :
    AleoStratumNode × Option Error → Reading → AleoStratumNode × Option SessionError
await_response (sc, some e) reading = (sc, some (not_sent e))
await_response (sc, none) reading =
    let (sc', result) = read_response take_line sc reading in
    elim result [ none ↦ (sc', none) | some e ↦ (sc', some no_response) ]

-- `Subscribe`: whether `net.Dial` connects, and the read of the response. A failed dial leaves no
-- connection behind, and a node that was connected before still counts as connected.
unfoldable pub subscribe :
    Env → AleoStratumNode → Bool → Reading → AleoStratumNode × Option SessionError
subscribe env sc dialled reading =
    let open_node = record sc { has_connection = true; connected = true; dials = sc.dials + 1 } in
    if dialled
    then await_response (send env open_node (subscribe_event sc.config)) reading
    else (record sc { has_connection = false }, some dial_failed)

unfoldable pub authorize : Env → AleoStratumNode → Reading → AleoStratumNode × Option SessionError
authorize env sc reading = await_response (send env sc (authorize_event sc.config)) reading

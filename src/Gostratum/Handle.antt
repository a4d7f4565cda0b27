-- ===== src/Gostratum/Handle.antt =====
-- src/gostratum/worker_handle.go, with `SendExtranonce` of default_client.go: the handlers of
-- mining.subscribe and mining.authorize.
pub mod Authorize
pub mod State
use kaspa_stratum_bridge.Base.{
  Bool, true, List, [], ◌∷◌, Option, none, some, ok, err, length, ltb, if◌then◌else◌,
}
use kaspa_stratum_bridge.Text.{Bytes, bytes_beq, codes, is_empty}
use kaspa_stratum_bridge.Model.{
  Value, boolean, int, text, array, to_values, JsonRpcEvent, new_event, new_response, string_at,
}
use kaspa_stratum_bridge.ChainNode.{chain_type_aleo, chain_type_kaspa}
use kaspa_stratum_bridge.ChainNode.Wallet.{clean_wallet, not_coercible, slice_out_of_range}
use kaspa_stratum_bridge.Gostratum.Worker.{
  Env, WorkerContext, Error, encoding_failed, malformed_event, invalid_wallet, wrapped, panicked,
  session_record, insert_mqqt, reply, send,
}

unfoldable pub is_aleo : WorkerContext → Bool
is_aleo sc = bytes_beq sc.chain_type chain_type_aleo

unfoldable pub is_kaspa : WorkerContext → Bool
is_kaspa sc = bytes_beq sc.chain_type chain_type_kaspa

-- The old value of a field where the parameter is absent or no string.
abbrev pub or_keep : Option Bytes → Bytes → Bytes
or_keep none old = old
or_keep (some new) old = new

-- The four parameters of mining.subscribe.
unfoldable pub take_identity : List Value → WorkerContext → WorkerContext
take_identity params sc = record sc {
  app_name = or_keep (string_at params 0) sc.app_name;
  app_version = or_keep (string_at params 1) sc.app_version;
  device_company = or_keep (string_at params 2) sc.device_company;
  device_type = or_keep (string_at params 3) sc.device_type;
}

-- The address that `HandleAuthorize` cleans, whatever the miner sent.
abbrev pub pool_address : Bytes
pool_address = codes "kaspa:qzn4fltcsh30n22f6zszvuy9pkzjnmz97dcvm740wd5l98dqw94q6s820ggvg"

module _ (env : Env) where
  -- One branch of `HandleSubscribe`: the reply, and then the parameters.
  unfoldable pub subscribe_as :
      WorkerContext → JsonRpcEvent → List Value → WorkerContext × Option Error
  subscribe_as sc event results =
      let (sc', result) = reply env sc (new_response event (array (to_values results)) none) in
      elim result [
        | some e ↦ (sc', some (wrapped e))
        | none ↦ (take_identity event.params sc', none)
      ]

  -- The chain type has one value, so at most one of the two branches runs.
  unfoldable pub handle_subscribe : WorkerContext → JsonRpcEvent → WorkerContext × Option Error
  unfolding is_aleo is_kaspa
  handle_subscribe sc event =
      if is_aleo sc
      then subscribe_as sc event (text sc.extranonce ∷ [])
      else if is_kaspa sc
      then subscribe_as sc event (boolean true ∷ text (codes "kaspa/1.0.0") ∷ [])
      else (sc, none)

  -- The error of `Send` is logged.
  unfoldable pub send_extranonce : WorkerContext → WorkerContext
  send_extranonce sc =
      (send env sc (
        new_event [] (codes "set_extranonce")
          (text sc.extranonce ∷ int (length sc.extranonce) ∷ []))).0

  -- The end of `HandleAuthorize`: the record of the login, if it can be encoded.
  unfoldable pub publish_login : WorkerContext → Option Bytes → WorkerContext × Option Error
  unfolding insert_mqqt
  publish_login sc none = (sc, some encoding_failed)
  publish_login sc (some json) = (insert_mqqt (some json) sc, none)

  unfoldable pub record_login : WorkerContext → WorkerContext × Option Error
  record_login sc =
      publish_login sc (env.marshal_record (session_record env.uuid env.now sc (codes "Login")))

  -- `HandleAuthorize` after the reply.
  unfoldable pub after_reply : WorkerContext → Option Error → WorkerContext × Option Error
  after_reply sc (some e) = (sc, some (wrapped e))
  after_reply sc none = record_login (if is_empty sc.extranonce then sc else send_extranonce sc)

  -- `HandleAuthorize` from the assignment of the address on.
  unfoldable pub authorize_as :
      WorkerContext → JsonRpcEvent → Bytes → Bytes → Bytes → WorkerContext × Option Error
  authorize_as sc event address minername devicename =
      let named = record sc {
        wallet_addr = address;
        miner_name = minername;
        device_name = devicename;
      } in
      let (sc', result) = reply env named (new_response event (boolean true) none) in
      after_reply sc' result

  module _ (decode_address : Bytes → Bool) where
    -- The address by the name of the miner's application, which stands where a chain type is wanted.
    unfoldable pub authorize_address :
        WorkerContext → JsonRpcEvent → Bytes → Bytes → WorkerContext × Option Error
    authorize_address sc event minername devicename =
        elim (clean_wallet decode_address sc.app_name pool_address) [
          | none ↦ (sc, some panicked)
          | some (err not_coercible) ↦ (sc, some (wrapped invalid_wallet))
          | some (err slice_out_of_range) ↦ (sc, some panicked)
          | some (ok address) ↦ authorize_as sc event address minername devicename
        ]

    unfoldable pub handle_authorize : WorkerContext → JsonRpcEvent → WorkerContext × Option Error
    handle_authorize sc event =
        if ltb (length event.params) 2
        then (sc, some malformed_event)
        else elim (string_at event.params 0) [
          | none ↦ (sc, some malformed_event)
          | some minername ↦ elim (string_at event.params 1) [
            | none ↦ (sc, some malformed_event)
            | some devicename ↦ authorize_address sc event minername devicename
          ]
        ]

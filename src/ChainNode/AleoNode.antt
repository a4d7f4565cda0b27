-- ===== src/ChainNode/AleoNode.antt =====
-- src/chainnode/aleo/aleonode.go: the upstream pool of aleo, kept connected.
pub mod Messages
pub mod Work
use kaspa_stratum_bridge.Base.{
  ℕ, List, [], ◌∷◌, Bool, true, false, Option, none, some, if◌then◌else◌,
}
use kaspa_stratum_bridge.Text.{Bytes, codes}
use kaspa_stratum_bridge.Model.{nil, JsonRpcEvent}
use kaspa_stratum_bridge.Gostratum.Worker.{Env, Error}
use kaspa_stratum_bridge.ChainNode.Aleo.{
  AleoStratumNode, create_stratum_node, Reading, SessionError, subscribe, authorize, listen,
}

-- `AleoNode`; the time is in nanoseconds.
pub record AleoNode : Type 0 where
  pub address : Bytes
  pub block_wait_time : ℕ
  pub connected : Bool
  pub aleoclient : AleoStratumNode

unfoldable pub new_aleo_node : Bytes → ℕ → AleoNode
new_aleo_node address block_wait_time = record {
  address = address;
  block_wait_time = block_wait_time;
  connected = true;
  aleoclient = create_stratum_node address (codes "aleopool") (codes "rdpool") (codes "rddevice");
}

unfoldable pub set_last_work : Option JsonRpcEvent → AleoNode → AleoNode
set_last_work work node = record node { aleoclient = record node.aleoclient { last_work = work } }

unfoldable pub get_last_work : AleoNode → Option JsonRpcEvent
get_last_work node = node.aleoclient.last_work

-- What `UnmarshalEvent` returns beside an error.
abbrev pub zero_event : JsonRpcEvent
zero_event = record { id = nil; version = []; method = []; params = [] }

abbrev pub event_or_zero : Option JsonRpcEvent → JsonRpcEvent
event_or_zero none = zero_event
event_or_zero (some event) = event

-- What one round of the loop of `Start` meets: whether the pool can be reached, its two responses, and
-- what it sends then.
pub record Attempt : Type 0 where
  pub env : Env
  pub dialled : Bool
  pub subscribed : Reading
  pub authorized : Reading
  pub readings : List Reading

-- The state of the callers stands in `S`, which `blockCb` changes.
module _ {S : Type 0} (unmarshal_event : Bytes → Option JsonRpcEvent) (block_cb : S → S) where
  -- The callback of `startBlockTemplateListener`: an error is only logged.
  unfoldable pub on_line : AleoNode × S → Bytes → (AleoNode × S) × Option Error
  unfolding set_last_work
  on_line (node, s) line =
      ((set_last_work (some (event_or_zero (unmarshal_event line))) node, block_cb s), none)

  -- Whether the round is over: `Listen` returned, or something failed before it.
  unfoldable pub start_listening :
      AleoNode × S → Option SessionError → List Reading → (AleoNode × S) × Bool
  start_listening st (some e) readings = (st, true)
  start_listening st none readings =
      let (st', result) = listen on_line st readings in
      elim result [ none ↦ (st', false) | some e ↦ (st', true) ]

  unfoldable pub start_authorizing :
      AleoNode × S → Option SessionError → Attempt → (AleoNode × S) × Bool
  start_authorizing st (some e) attempt = (st, true)
  start_authorizing (node, s) none attempt =
      let (client, result) = authorize attempt.env node.aleoclient attempt.authorized in
      start_listening (record node { aleoclient = client }, s) result attempt.readings

  unfoldable pub start_round : AleoNode × S → Attempt → (AleoNode × S) × Bool
  start_round (node, s) attempt =
      let (client, result) =
        subscribe attempt.env node.aleoclient attempt.dialled attempt.subscribed in
      start_authorizing (record node { aleoclient = client }, s) result attempt

  -- The loop of `Start`, which never returns: its rounds so far.
  unfoldable pub start_loop : AleoNode × S → List Attempt → AleoNode × S
  start_loop st [] = st
  start_loop st (attempt ∷ attempts) =
      let (st', over) = start_round st attempt in
      let later = start_loop st' attempts in if over then later else st'

-- ===== src/ChainNode/Forward.antt =====
-- `ChainNode` of src/chainnode/node.go: the calls that it passes on to the client of its chain.
pub mod Chains
use kaspa_stratum_bridge.Base.{ℕ, List, Bool, Option, none, some, Result, ok, err, if◌then◌else◌}
use kaspa_stratum_bridge.Text.{Bytes, bytes_beq, codes}
use kaspa_stratum_bridge.Model.{JsonRpcEvent}
use kaspa_stratum_bridge.Gostratum.Worker.{Env}
use kaspa_stratum_bridge.ChainNode.Aleo.{
  AleoStratumNode, Reading, SessionError, subscribe, authorize,
}
use kaspa_stratum_bridge.ChainNode.AleoNode.{AleoNode, new_aleo_node, set_last_work}
use kaspa_stratum_bridge.ChainNode.{chain_type_aleo, chain_type_kaspa}

-- kaspad's `rpcclient.RPCClient`, which is not part of this repository: each call changes the client
-- and answers, or gives the text of an error. A call without a value answers `tt`.
pub record RpcClient : Type 1 where
  pub Client : Type 0
  pub DagInfo : Type 0
  pub NetworkHashes : Type 0
  pub Info : Type 0
  pub Template : Type 0
  pub Balances : Type 0
  pub RejectReason : Type 0
  pub Block : Type 0
  pub OnTemplate : Type 0
  pub dial : Bytes → Result Bytes Client
  pub close : Client → Client × Result Bytes Unit
  pub get_block_dag_info : Client → Client × Result Bytes DagInfo
  pub estimate_network_hashes : Bytes → ℕ → Client → Client × Result Bytes NetworkHashes
  pub get_info : Client → Client × Result Bytes Info
  pub register : OnTemplate → Client → Client × Result Bytes Unit
  pub get_block_template : Bytes → Bytes → Client → Client × Result Bytes Template
  pub get_balances : List Bytes → Client → Client × Result Bytes Balances
  pub submit_block : Block → Client → Client × Result Bytes RejectReason

-- Why a call fails: the client's error, a chain without it (the format and the argument of
-- `fmt.Errorf`), an error of the upstream pool's client or its panic on a nil connection, or the panic of
-- a nil client.
pub data ChainError : Type 0 where
  from_client : Bytes → ChainError
  not_for : Bytes → Bytes → ChainError
  from_pool : SessionError → ChainError
  nil_client : ChainError

module _ (rpc : RpcClient) where
  open rpc use {
    Client, DagInfo, NetworkHashes, Info, Template, Balances, RejectReason, Block, OnTemplate,
  }

  pub record ChainNode : Type 0 where
    pub chain_type : Bytes
    pub kasaip : Option Client
    pub aleo_node : Option AleoNode

  -- The client of kaspad, if the chain is kaspa.
  unfoldable pub dial_kaspa : Bytes → Bytes → Result Bytes (Option Client)
  dial_kaspa chain_type address =
      if bytes_beq chain_type chain_type_kaspa
      then elim (rpc.dial address) [ err e ↦ err e | ok client ↦ ok (some client) ]
      else ok none

  -- `CreateChainNode`; a minute is 60 thousand million nanoseconds.
  unfoldable pub create_chain_node : Bytes → Bytes → Result Bytes ChainNode
  unfolding dial_kaspa new_aleo_node
  create_chain_node chain_type address = elim (dial_kaspa chain_type address) [
    | err e ↦ err e
    | ok kasaip ↦ ok (record {
      chain_type = chain_type;
      kasaip = kasaip;
      aleo_node =
          if bytes_beq chain_type chain_type_aleo
          then some (new_aleo_node address 60_000_000_000)
          else none;
    })
  ]

  unfoldable pub check_type : ChainNode → Bytes → Bool
  check_type node chain_type = bytes_beq node.chain_type chain_type

  unfoldable pub is_kaspa : ChainNode → Bool
  unfolding check_type
  is_kaspa node = check_type node chain_type_kaspa

  unfoldable pub is_aleo : ChainNode → Bool
  unfolding check_type
  is_aleo node = check_type node chain_type_aleo

  unfoldable pub from_answer :
      {A : Type 0} → ChainNode → Client × Result Bytes A → ChainNode × Result ChainError A
  from_answer node (client, ok a) = (record node { kasaip = some client }, ok a)
  from_answer node (client, err e) = (record node { kasaip = some client }, err (from_client e))

  -- The body that the calls for kaspa share: the name of the call stands in the error's text.
  unfoldable pub for_kaspa :
      {A : Type 0}
      → Bytes
      → (Client → Client × Result Bytes A)
      → ChainNode
      → ChainNode × Result ChainError A
  unfolding check_type
  for_kaspa name call node =
      if check_type node chain_type_kaspa
      then elim node.kasaip [
        | none ↦ (node, err nil_client)
        | some client ↦ from_answer node (call client)
      ]
      else (node, err (not_for node.chain_type name))

  unfoldable pub close : ChainNode → ChainNode × Result ChainError Unit
  unfolding for_kaspa
  close = for_kaspa (codes "  not Close") rpc.close

  -- `Reconnect`, which closes the client.
  unfoldable pub reconnect : ChainNode → ChainNode × Result ChainError Unit
  unfolding for_kaspa
  reconnect = for_kaspa (codes "  not Reconnect") rpc.close

  unfoldable pub get_block_dag_info : ChainNode → ChainNode × Result ChainError DagInfo
  unfolding for_kaspa
  get_block_dag_info = for_kaspa (codes "  not GetBlockDAGInfo") rpc.get_block_dag_info

  unfoldable pub estimate_network_hashes :
      Bytes → ℕ → ChainNode → ChainNode × Result ChainError NetworkHashes
  unfolding for_kaspa
  estimate_network_hashes start_hash window_size =
      for_kaspa (codes "  not EstimateNetworkHashesPerSecond")
        (rpc.estimate_network_hashes start_hash window_size)

  unfoldable pub get_info : ChainNode → ChainNode × Result ChainError Info
  unfolding for_kaspa
  get_info = for_kaspa (codes "  not GetInfo") rpc.get_info

  unfoldable pub register_for_templates :
      OnTemplate → ChainNode → ChainNode × Result ChainError Unit
  unfolding for_kaspa
  register_for_templates on_template =
      for_kaspa (codes " not RegisterForNewBlockTemplateNotifications") (rpc.register on_template)

  unfoldable pub get_block_template :
      Bytes → Bytes → ChainNode → ChainNode × Result ChainError Template
  unfolding for_kaspa
  get_block_template address extra =
      for_kaspa (codes " not GetBlockTemplate") (rpc.get_block_template address extra)

  unfoldable pub get_balances : List Bytes → ChainNode → ChainNode × Result ChainError Balances
  unfolding for_kaspa
  get_balances addresses =
      for_kaspa (codes " not GetBalancesByAddresses") (rpc.get_balances addresses)

  unfoldable pub submit_block : Block → ChainNode → ChainNode × Result ChainError RejectReason
  unfolding for_kaspa
  submit_block block = for_kaspa (codes " not SubmitBlock") (rpc.submit_block block)

  -- The body that the calls for aleo share.
  unfoldable pub for_aleo :
      Bytes
      → (AleoNode → AleoNode × Option ChainError)
      → ChainNode
      → ChainNode × Result ChainError Unit
  unfolding check_type
  for_aleo name call node =
      if check_type node chain_type_aleo
      then elim node.aleo_node [
        | none ↦ (node, err nil_client)
        | some aleo ↦
            let (aleo', failed) = call aleo in
            let node' = record node { aleo_node = some aleo' } in
            elim failed [ none ↦ (node', ok tt) | some e ↦ (node', err e) ]
      ]
      else (node, err (not_for node.chain_type name))

  -- The upstream client's answer to `Subscribe` or `Authorize`.
  abbrev pub from_session :
      AleoNode → AleoStratumNode × Option SessionError → AleoNode × Option ChainError
  from_session aleo (client, none) = (record aleo { aleoclient = client }, none)
  from_session aleo (client, some e) = (record aleo { aleoclient = client }, some (from_pool e))

  unfoldable pub subscribe_pool :
      Env → Bool → Reading → ChainNode → ChainNode × Result ChainError Unit
  unfolding for_aleo
  subscribe_pool env dialled reading =
      for_aleo (codes " not Subscribe")
        (λ aleo. from_session aleo (subscribe env aleo.aleoclient dialled reading))

  unfoldable pub authorize_pool : Env → Reading → ChainNode → ChainNode × Result ChainError Unit
  unfolding for_aleo
  authorize_pool env reading =
      for_aleo (codes " not Authorize")
        (λ aleo. from_session aleo (authorize env aleo.aleoclient reading))

  unfoldable pub save_work : Option JsonRpcEvent → ChainNode → ChainNode × Result ChainError Unit
  unfolding for_aleo
  save_work work = for_aleo (codes " not Listen") (λ aleo. (set_last_work work aleo, none))

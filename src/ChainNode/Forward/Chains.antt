-- ===== src/ChainNode/Forward/Chains.antt =====
-- The calls of a chain node (src/chainnode/node.go) against the chain that it was created for.
use kaspa_stratum_bridge.Base.{
  ℕ, ◌≡◌, refl, ap, sym, ◌∙◌, List, [], ◌∷◌, Bool, Bool-cases, inl, inr, true, false, Option, none,
  some, Result, ok, err, if◌then◌else◌,
}
use kaspa_stratum_bridge.Text.{Bytes, bytes_beq, codes}
use kaspa_stratum_bridge.Model.{JsonRpcEvent}
use kaspa_stratum_bridge.Gostratum.Worker.{Env}
use kaspa_stratum_bridge.ChainNode.{chain_type_aleo, chain_type_kaspa}
use kaspa_stratum_bridge.ChainNode.Aleo.{AleoStratumNode, Reading, SessionError}
use kaspa_stratum_bridge.ChainNode.AleoNode.{AleoNode, new_aleo_node}
use kaspa_stratum_bridge.ChainNode.Forward.{
  RpcClient, ChainError, nil_client, not_for, ChainNode, dial_kaspa, create_chain_node, check_type,
  from_answer, for_kaspa, for_aleo, from_session, close, reconnect, get_block_dag_info,
  estimate_network_hashes, get_info, register_for_templates, get_block_template, get_balances,
  submit_block, subscribe_pool, authorize_pool, save_work,
}

module _ (rpc : RpcClient) where
  open rpc use {Client, Block, OnTemplate}

  -- The calls of a chain node but `Start`, `Listen` and `GetNotifyParams`.
  pub data Call : Type 0 where
    closing reconnecting dag_info info : Call
    network_hashes : Bytes → ℕ → Call
    registering : OnTemplate → Call
    template : Bytes → Bytes → Call
    balances : List Bytes → Call
    submitting : Block → Call
    subscribing : Env → Bool → Reading → Call
    authorizing : Env → Reading → Call
    saving : Option JsonRpcEvent → Call

  -- The node and the error of a call.
  abbrev pub outcome :
      {A : Type 0} → ChainNode rpc × Result ChainError A → ChainNode rpc × Option ChainError
  outcome (node, ok a) = (node, none)
  outcome (node, err e) = (node, some e)

  unfoldable pub call : Call → ChainNode rpc → ChainNode rpc × Option ChainError
  call closing node = outcome (close rpc node)
  call reconnecting node = outcome (reconnect rpc node)
  call dag_info node = outcome (get_block_dag_info rpc node)
  call info node = outcome (get_info rpc node)
  call (network_hashes hash window) node = outcome (estimate_network_hashes rpc hash window node)
  call (registering on_template) node = outcome (register_for_templates rpc on_template node)
  call (template address extra) node = outcome (get_block_template rpc address extra node)
  call (balances addresses) node = outcome (get_balances rpc addresses node)
  call (submitting block) node = outcome (submit_block rpc block node)
  call (subscribing env dialled reading) node =
      outcome (subscribe_pool rpc env dialled reading node)
  call (authorizing env reading) node = outcome (authorize_pool rpc env reading node)
  call (saving work) node = outcome (save_work rpc work node)

  -- The errors of one call after the other.
  unfoldable pub errors : List Call → ChainNode rpc → List (Option ChainError)
  errors [] node = []
  errors (c ∷ calls) node = (call c node).1 ∷ errors calls (call c node).0

  -- The chain that a call is for.
  abbrev pub wanted : Call → Bytes
  wanted (subscribing env dialled reading) = chain_type_aleo
  wanted (authorizing env reading) = chain_type_aleo
  wanted (saving work) = chain_type_aleo
  wanted closing = chain_type_kaspa
  wanted reconnecting = chain_type_kaspa
  wanted dag_info = chain_type_kaspa
  wanted info = chain_type_kaspa
  wanted (network_hashes hash window) = chain_type_kaspa
  wanted (registering on_template) = chain_type_kaspa
  wanted (template address extra) = chain_type_kaspa
  wanted (balances addresses) = chain_type_kaspa
  wanted (submitting block) = chain_type_kaspa

  -- The text that the refusal of a call has beside the chain.
  abbrev pub refusal : Call → Bytes
  refusal (subscribing env dialled reading) = codes " not Subscribe"
  refusal (authorizing env reading) = codes " not Authorize"
  refusal (saving work) = codes " not Listen"
  refusal closing = codes "  not Close"
  refusal reconnecting = codes "  not Reconnect"
  refusal dag_info = codes "  not GetBlockDAGInfo"
  refusal info = codes "  not GetInfo"
  refusal (network_hashes hash window) = codes "  not EstimateNetworkHashesPerSecond"
  refusal (registering on_template) = codes " not RegisterForNewBlockTemplateNotifications"
  refusal (template address extra) = codes " not GetBlockTemplate"
  refusal (balances addresses) = codes " not GetBalancesByAddresses"
  refusal (submitting block) = codes " not SubmitBlock"

  -- The error of a call on a node of a chain: no panic of a nil client, and the refusal if the call is
  -- for the other chain.
  pub record Answered (chain : Bytes) (c : Call) (e : Option ChainError) : Type 0 where
    pub no_panic : ¬ (e ≡ some nil_client)
    pub refused : bytes_beq chain (wanted c) ≡ false → e ≡ some (not_for chain (refusal c))

  -- The errors of calls, one for each.
  abbrev pub Answers : Bytes → List Call → List (Option ChainError) → Type 0
  Answers chain [] [] = Unit
  Answers chain [] (e ∷ es) = ⊥
  Answers chain (c ∷ calls) [] = ⊥
  Answers chain (c ∷ calls) (e ∷ es) = Answered chain c e × Answers chain calls es

  -- The node has the client of its chain.
  record IsMatched (chain : Bytes) (node : ChainNode rpc) : Type 0 where
    same_chain : node.chain_type ≡ chain
    kaspa :
        bytes_beq chain chain_type_kaspa ≡ true → (client : Client) × (node.kasaip ≡ some client)
    aleo : bytes_beq chain chain_type_aleo ≡ true → (aleo : AleoNode) × (node.aleo_node ≡ some aleo)

  -- A call on such a node ends on such a node, with no panic, and refuses the other chain.
  record Fine (chain want name : Bytes) (r : ChainNode rpc × Option ChainError) : Type 0 where
    matched : IsMatched chain r.0
    no_panic : ¬ (r.1 ≡ some nil_client)
    refused : bytes_beq chain want ≡ false → r.1 ≡ some (not_for chain name)

  -- A call that reached kaspad's client.
  answered-Fine :
      {A : Type 0} (chain name : Bytes) (node : ChainNode rpc) (answer : Client × Result Bytes A)
      → IsMatched chain node
      → bytes_beq chain chain_type_kaspa ≡ true
      → Fine chain chain_type_kaspa name (outcome (from_answer rpc node answer))
  unfolding from_answer
  answered-Fine chain name node (client, ok a) m same = record {
    matched = record { same_chain = m.same_chain; kaspa = λ h. (client, refl); aleo = m.aleo };
    no_panic = λ e. cc;
    refused = λ other. cc;
  }
  answered-Fine chain name node (client, err e) m same = record {
    matched = record { same_chain = m.same_chain; kaspa = λ h. (client, refl); aleo = m.aleo };
    no_panic = λ e. cc;
    refused = λ other. cc;
  }

  -- A call that the test of the chain refuses.
  refused-Fine :
      (chain want name : Bytes) (node : ChainNode rpc)
      → IsMatched chain node
      → Fine chain want name (node, some (not_for node.chain_type name))
  refused-Fine chain want name node m = record {
    matched = m;
    no_panic = λ e. cc;
    refused = λ other. ap (λ t. some (not_for t name)) m.same_chain;
  }

  for_kaspa-Fine :
      {A : Type 0} (chain name : Bytes) (ask : Client → Client × Result Bytes A)
      (node : ChainNode rpc)
      → IsMatched chain node
      → Fine chain chain_type_kaspa name (outcome (for_kaspa rpc name ask node))
  unfolding for_kaspa check_type
  for_kaspa-Fine chain name ask node m = elim (Bool-cases (bytes_beq chain chain_type_kaspa)) [
    | inl same ↦
        let (client, h) = m.kaspa same in
        rw (ap (λ t. bytes_beq t chain_type_kaspa) m.same_chain ∙ same, h, for_kaspa)
          (answered-Fine chain name node (ask client) m same)
    | inr other ↦
        rw (ap (λ t. bytes_beq t chain_type_kaspa) m.same_chain ∙ other, for_kaspa)
          (refused-Fine chain chain_type_kaspa name node m)
  ]

  -- What `for_aleo` does with the pool's client.
  abbrev with_aleo :
      ChainNode rpc → AleoNode × Option ChainError → ChainNode rpc × Result ChainError Unit
  with_aleo node r = elim r.1 [
    | none ↦ (record node { aleo_node = some r.0 }, ok tt)
    | some e ↦ (record node { aleo_node = some r.0 }, err e)
  ]

  with_aleo-Fine :
      (chain name : Bytes) (node : ChainNode rpc) (r : AleoNode × Option ChainError)
      → IsMatched chain node
      → bytes_beq chain chain_type_aleo ≡ true
      → ¬ (r.1 ≡ some nil_client)
      → Fine chain chain_type_aleo name (outcome (with_aleo node r))
  with_aleo-Fine chain name node (aleo, none) m same h = record {
    matched = record { same_chain = m.same_chain; kaspa = m.kaspa; aleo = λ _. (aleo, refl) };
    no_panic = λ e. cc;
    refused = λ other. cc;
  }
  with_aleo-Fine chain name node (aleo, some e) m same h = record {
    matched = record { same_chain = m.same_chain; kaspa = m.kaspa; aleo = λ _. (aleo, refl) };
    no_panic = h;
    refused = λ other. cc;
  }

  for_aleo-Fine :
      (chain name : Bytes) (ask : AleoNode → AleoNode × Option ChainError) (node : ChainNode rpc)
      → IsMatched chain node
      → ((aleo : AleoNode) → ¬ ((ask aleo).1 ≡ some nil_client))
      → Fine chain chain_type_aleo name (outcome (for_aleo rpc name ask node))
  unfolding for_aleo check_type
  for_aleo-Fine chain name ask node m fine = elim (Bool-cases (bytes_beq chain chain_type_aleo)) [
    | inl same ↦
        let (aleo, h) = m.aleo same in
        rw (ap (λ t. bytes_beq t chain_type_aleo) m.same_chain ∙ same, h, for_aleo)
          (with_aleo-Fine chain name node (ask aleo) m same (fine aleo))
    | inr other ↦
        rw (ap (λ t. bytes_beq t chain_type_aleo) m.same_chain ∙ other, for_aleo)
          (refused-Fine chain chain_type_aleo name node m)
  ]

  from_session-error :
      (aleo : AleoNode) (r : AleoStratumNode × Option SessionError)
      → ¬ ((from_session rpc aleo r).1 ≡ some nil_client)
  from_session-error aleo (client, none) = λ e. cc
  from_session-error aleo (client, some e) = λ e. cc

  none_error : {e : ChainError} → ¬ (Option.none ≡ some e)
  none_error h = cc

  call-Fine :
      (chain : Bytes) (c : Call) (node : ChainNode rpc)
      → IsMatched chain node
      → Fine chain (wanted c) (refusal c) (call c node)
  unfolding call close reconnect get_block_dag_info get_info estimate_network_hashes
      register_for_templates get_block_template get_balances submit_block subscribe_pool
      authorize_pool save_work
  call-Fine chain closing node m = for_kaspa-Fine chain _ _ node m
  call-Fine chain reconnecting node m = for_kaspa-Fine chain _ _ node m
  call-Fine chain dag_info node m = for_kaspa-Fine chain _ _ node m
  call-Fine chain info node m = for_kaspa-Fine chain _ _ node m
  call-Fine chain (network_hashes hash window) node m = for_kaspa-Fine chain _ _ node m
  call-Fine chain (registering on_template) node m = for_kaspa-Fine chain _ _ node m
  call-Fine chain (template address extra) node m = for_kaspa-Fine chain _ _ node m
  call-Fine chain (balances addresses) node m = for_kaspa-Fine chain _ _ node m
  call-Fine chain (submitting block) node m = for_kaspa-Fine chain _ _ node m
  call-Fine chain (subscribing env dialled reading) node m =
      for_aleo-Fine chain _ _ node m (λ aleo. from_session-error aleo _)
  call-Fine chain (authorizing env reading) node m =
      for_aleo-Fine chain _ _ node m (λ aleo. from_session-error aleo _)
  call-Fine chain (saving work) node m = for_aleo-Fine chain _ _ node m (λ aleo. none_error)

  errors-Answers :
      (chain : Bytes) (calls : List Call) (node : ChainNode rpc)
      → IsMatched chain node
      → Answers chain calls (errors calls node)
  unfolding errors
  errors-Answers chain [] node m = tt
  errors-Answers chain (c ∷ calls) node m =
      let fine = call-Fine chain c node m in
      (
        record { no_panic = fine.no_panic; refused = fine.refused },
        errors-Answers chain calls (call c node).0 fine.matched,
      )

  abbrev dialled : Result Bytes Client → Result Bytes (Option Client)
  dialled answer = elim answer [ err e ↦ err e | ok client ↦ ok (some client) ]

  from_dial :
      (answer : Result Bytes Client) (kasaip : Option Client)
      → dialled answer ≡ ok kasaip
      → (client : Client) × (kasaip ≡ some client)
  from_dial (err e) kasaip h = absurd (cc)
  from_dial (ok client) kasaip h = (client, cc)

  dialled_client :
      (chain_type address : Bytes) (kasaip : Option Client)
      → dial_kaspa rpc chain_type address ≡ ok kasaip
      → bytes_beq chain_type chain_type_kaspa ≡ true
      → (client : Client) × (kasaip ≡ some client)
  unfolding dial_kaspa
  dialled_client chain_type address kasaip h kaspa =
      from_dial (rpc.dial address) kasaip
        (ap (λ b. if b then dialled (rpc.dial address) else ok none) (sym kaspa) ∙ h)

  -- The node that `CreateChainNode` makes around a client of kaspad.
  abbrev created : Bytes → Bytes → Option Client → ChainNode rpc
  created chain_type address kasaip = record {
    chain_type = chain_type;
    kasaip = kasaip;
    aleo_node =
        if bytes_beq chain_type chain_type_aleo
        then some (new_aleo_node address 60_000_000_000)
        else none;
  }

  abbrev created_from : Bytes → Bytes → Result Bytes (Option Client) → Result Bytes (ChainNode rpc)
  created_from chain_type address kasaip = elim kasaip [
    | err e ↦ err e
    | ok client ↦ ok (created chain_type address client)
  ]

  made-IsMatched :
      (chain_type address : Bytes) (kasaip : Result Bytes (Option Client)) (node : ChainNode rpc)
      → dial_kaspa rpc chain_type address ≡ kasaip
      → created_from chain_type address kasaip ≡ ok node
      → IsMatched chain_type node
  made-IsMatched chain_type address (err e) node h made = absurd (cc)
  made-IsMatched chain_type address (ok kasaip) node h made =
      let same : created chain_type address kasaip ≡ node = cc in
      rw⁻¹ same (record {
        same_chain = refl;
        kaspa = dialled_client chain_type address kasaip h;
        aleo = λ aleo. rw aleo (_, refl);
      })

  created-IsMatched :
      (chain_type address : Bytes) (node : ChainNode rpc)
      → create_chain_node rpc chain_type address ≡ ok node
      → IsMatched chain_type node
  unfolding create_chain_node
  created-IsMatched chain_type address node h =
      made-IsMatched chain_type address (dial_kaspa rpc chain_type address) node refl h

  -- On a chain node that was created without an error, under any sequence of the calls that are modelled,
  -- one after the other: no call uses a client of kaspad or of the upstream pool that the node does not
  -- have, and each call that is for the other chain returns its refusal with the node's chain. The
  -- connection of the upstream pool's client may be missing all the same.
  pub create_chain_node-calls :
      (chain_type address : Bytes) (node : ChainNode rpc) (calls : List Call)
      → create_chain_node rpc chain_type address ≡ ok node
      → Answers chain_type calls (errors calls node)
  create_chain_node-calls chain_type address node calls h =
      errors-Answers chain_type calls node (created-IsMatched chain_type address node h)

-- ===== src/Poolstratum/Api.antt =====
-- `PoolApi` of src/poolstratum/api.go: the pool's view of its chain node.
pub mod Sync
pub mod NetworkStats
use kaspa_stratum_bridge.Base.{
  ℕ, zero, suc, List, [], ◌∷◌, Bool, true, false, Option, none, some, Result, ok, err,
  if◌then◌else◌,
}
use kaspa_stratum_bridge.Base.Int.{ℤ}
use kaspa_stratum_bridge.Text.{Bytes}
use kaspa_stratum_bridge.ChainNode.Forward.{
  RpcClient, ChainError, ChainNode, create_chain_node, get_info, reconnect, is_kaspa, is_aleo,
}

-- What ends a wait of the block listener.
pub data Wake : Type 0 where
  cancelled : Wake  -- `ctx.Done()`
  ready : Wake  -- `blockReadyChan`
  ticked : Wake  -- `ticker.C`

-- Why a reconnection fails.
pub data ReconnectError : Type 0 where
  not_closed : ChainError → ReconnectError
  not_created : Bytes → ReconnectError

module _ (rpc : RpcClient) (is_synced : rpc.Info → Bool) where
  open rpc use {Info}

  -- `PoolApi`; the time is in nanoseconds. `NewPoolAPI` sets a node and nothing unsets it, so `reconnect`
  -- never comes to its branch for a nil node.
  pub record PoolApi : Type 0 where
    pub chain_type : Bytes
    pub address : Bytes
    pub block_wait_time : ℤ
    pub chain_node : ChainNode rpc
    pub connected : Bool

  unfoldable pub new_pool_api : Bytes → Bytes → ℤ → Result Bytes PoolApi
  new_pool_api chain_type address block_wait_time =
      elim (create_chain_node rpc chain_type address) [
        | err e ↦ err e
        | ok node ↦ ok (record {
          chain_type = chain_type;
          address = address;
          block_wait_time = block_wait_time;
          chain_node = node;
          connected = true;
        })
      ]

  -- `waitForSync` with a number of polls; `none` where it still waits after them.
  unfoldable pub wait_for_sync : ℕ → ChainNode rpc → Option (ChainNode rpc × Option ChainError)
  wait_for_sync zero node = none
  wait_for_sync (suc polls) node =
      let (node', answer) = get_info rpc node in
      let again = wait_for_sync polls node' in
      elim answer [
        | err e ↦ some (node', some e)
        | ok info ↦ if is_synced info then some (node', none) else again
      ]

  -- The listener of kaspa after the wait: an error makes it reconnect, whatever comes of that.
  unfoldable pub after_wait : PoolApi → ChainNode rpc × Option ChainError → PoolApi
  after_wait api (node, none) = record api { chain_node = node }
  after_wait api (node, some e) = record api { chain_node = (reconnect rpc node).0 }

  module _ {S : Type 0} (block_ready_cb : S → S) where
    -- The loop of `startBlockTemplateListener` for kaspa, over what ends its waits and the polls of each
    -- `waitForSync`: `none` where one of these still waits, and otherwise whether the loop returned.
    unfoldable pub template_loop : ℕ → PoolApi → S → List Wake → Option (PoolApi × S × Bool)
    template_loop polls api s [] = some (api, s, false)
    template_loop polls api s (wake ∷ wakes) = elim (wait_for_sync polls api.chain_node) [
      | none ↦ none
      | some waited ↦
          let api' = after_wait api waited in
          let later = template_loop polls api' (block_ready_cb s) wakes in
          elim wake [ cancelled ↦ some (api', s, true) | ready ↦ later | ticked ↦ later ]
    ]

  -- What `Start` starts beside the caller: the block listener, the thread of network statistics, and the
  -- loop of the upstream pool's client.
  pub data Goroutine : Type 0 where
    template_listener : Goroutine
    stats_loop : Goroutine
    upstream_loop : Goroutine

  -- `Start` with a number of polls for `waitForSync`, whose error is not looked at; `none` where it still
  -- waits after them.
  unfoldable pub start : ℕ → PoolApi → Option (PoolApi × List Goroutine)
  start polls api =
      let upstream = if is_aleo rpc api.chain_node then upstream_loop ∷ [] else [] in
      if is_kaspa rpc api.chain_node
      then elim (wait_for_sync polls api.chain_node) [
        | none ↦ none
        | some (node, result) ↦
            some (record api { chain_node = node }, template_listener ∷ stats_loop ∷ [])
      ]
      else some (api, upstream)

  -- `reconnect` of a pool whose node may be missing: it is created anew then.
  unfoldable pub reconnect_or_create :
      Bytes → Bytes → Option (ChainNode rpc) → Option (ChainNode rpc) × Option ReconnectError
  reconnect_or_create chain_type address (some node) =
      let (node', answer) = reconnect rpc node in
      elim answer [ ok done ↦ (some node', none) | err e ↦ (some node', some (not_closed e)) ]
  reconnect_or_create chain_type address none = elim (create_chain_node rpc chain_type address) [
    | err e ↦ (none, some (not_created e))
    | ok node ↦ (some node, none)
  ]

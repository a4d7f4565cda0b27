-- ===== src/Bridge/Serve.antt =====
-- `ListenAndServe` of src/poolstratum/stratum_server.go: the bridge of a configuration.
use kaspa_stratum_bridge.Base.{
  ℕ, ◌+◌, ◌*◌, ◌≤◌, ◌<◌, ◌≡◌, ◌≢◌, arith, length, Bool, Option, Result, ok, err,
}
use kaspa_stratum_bridge.Text.{Bytes}
use kaspa_stratum_bridge.Text.Digits.{parse_uint}
use kaspa_stratum_bridge.Text.Digits.Laws.{IsHex}
use kaspa_stratum_bridge.Model.{JsonRpcEvent}
use kaspa_stratum_bridge.Prom.Difficulty.{BigFloats}
use kaspa_stratum_bridge.Prom.Header.{Blake2b}
use kaspa_stratum_bridge.Gostratum.Worker.{Error}
use kaspa_stratum_bridge.ChainNode.Forward.{RpcClient}
use kaspa_stratum_bridge.Poolstratum.Nonce.{add_extranonce}
use kaspa_stratum_bridge.Poolstratum.Shares.{Kaspad}
use kaspa_stratum_bridge.Poolstratum.Listener.Extranonces.{space}
use kaspa_stratum_bridge.Poolstratum.Api.{PoolApi, new_pool_api}
use kaspa_stratum_bridge.Poolstratum.Server.{
  BridgeConfig, block_wait_of, min_diff_of, extranonce_size_of,
}
use kaspa_stratum_bridge.Bridge.{Setting, State, start}
use kaspa_stratum_bridge.Bridge.Reach.{Reach}
use kaspa_stratum_bridge.Bridge.Extranonces.{nonces_reached_differ}

-- The code that the repository uses and does not hold; `float_of` is `float64` of a `uint`.
pub record Libraries : Type 1 where
  pub rpc : RpcClient
  pub is_synced : rpc.Info → Bool
  pub kaspad : Kaspad
  pub blake2b : Blake2b
  pub floats : BigFloats
  pub decode_address : Bytes → Bool
  pub unmarshal_event : Bytes → Option JsonRpcEvent
  pub wraps_deadline : Error → Bool
  pub in_kas : ℕ → ℕ
  pub float_of : ℕ → ℕ

module _ (libraries : Libraries) where
  open libraries use {
    rpc, is_synced, kaspad, blake2b, floats, decode_address, unmarshal_event, wraps_deadline,
    in_kas, float_of,
  }

  -- The parts under the limits of the configuration.
  unfoldable pub setting_of : BridgeConfig → Setting
  setting_of cfg = record {
    kaspad = kaspad;
    blake2b = blake2b;
    floats = floats;
    decode_address = decode_address;
    unmarshal_event = unmarshal_event;
    wraps_deadline = wraps_deadline;
    in_kas = in_kas;
    chain_type = cfg.chain_type;
    min_share_diff = float_of (min_diff_of cfg);
  }

  -- `ListenAndServe` up to the listening: the error of `NewPoolAPI`, or the pool's view of its node and
  -- the state in which the stratum listener finds the parts.
  unfoldable pub assemble :
      (cfg : BridgeConfig) → Result Bytes (PoolApi rpc is_synced × State (setting_of cfg))
  assemble cfg =
      elim (new_pool_api rpc is_synced cfg.chain_type cfg.chain_rpc (block_wait_of cfg)) [
        | err e ↦ err e
        | ok api ↦ ok (api, start (setting_of cfg) (extranonce_size_of cfg))
      ]

  size_admitted :
      (cfg : BridgeConfig)
      → 0 < cfg.extranonce_size
      → (0 < extranonce_size_of cfg) × (extranonce_size_of cfg ≤ 3)
  unfolding extranonce_size_of
  size_admitted cfg given = ground arith

  -- What `ListenAndServe` makes of the answer of `NewPoolAPI`.
  abbrev with_pool :
      (cfg : BridgeConfig)
      → Result Bytes (PoolApi rpc is_synced)
      → Result Bytes (PoolApi rpc is_synced × State (setting_of cfg))
  with_pool cfg answer = elim answer [
    | err e ↦ err e
    | ok api ↦ ok (api, start (setting_of cfg) (extranonce_size_of cfg))
  ]

  with_pool-start :
      (cfg : BridgeConfig) (answer : Result Bytes (PoolApi rpc is_synced))
      (api : PoolApi rpc is_synced) (first : State (setting_of cfg))
      → with_pool cfg answer ≡ ok (api, first)
      → start (setting_of cfg) (extranonce_size_of cfg) ≡ first
  with_pool-start cfg (err e) api first h = cc
  with_pool-start cfg (ok made) api first h = cc

  assemble-start :
      (cfg : BridgeConfig) (api : PoolApi rpc is_synced) (first : State (setting_of cfg))
      → assemble cfg ≡ ok (api, first)
      → start (setting_of cfg) (extranonce_size_of cfg) ≡ first
  unfolding assemble
  assemble-start cfg api first h = with_pool-start cfg _ api first h

-- Under any configuration that asks for an extranonce, if `ListenAndServe` comes to its listening, then in
-- every state that the bridge reaches, two workers that were connected less than a round of the space of
-- extranonces apart never search the same nonce: whatever hexadecimal digits they send that fit behind
-- their extranonces, the nonces that are parsed differ. Whole calls take turns.
pub served_nonces_differ :
    (libraries : Libraries) (cfg : BridgeConfig) (api : PoolApi libraries.rpc libraries.is_synced)
    (first s : State (setting_of libraries cfg)) (p q : ℕ) (digits_p digits_q : Bytes)
    → 0 < cfg.extranonce_size
    → assemble libraries cfg ≡ ok (api, first)
    → Reach (setting_of libraries cfg) first s
    → p < q
    → q < p + space (extranonce_size_of cfg)
    → q < s.allocated
    → IsHex digits_p
    → IsHex digits_q
    → extranonce_size_of cfg * 2 + length digits_p ≤ 16
    → extranonce_size_of cfg * 2 + length digits_q ≤ 16
    → parse_uint 16 (add_extranonce (s.contexts p).extranonce digits_p)
      ≢ parse_uint 16 (add_extranonce (s.contexts q).extranonce digits_q)
served_nonces_differ libraries cfg api first s p q digits_p digits_q given served reach =
    let size = size_admitted libraries cfg given in
    nonces_reached_differ (setting_of libraries cfg) (extranonce_size_of cfg) p q s digits_p
      digits_q size.0 size.1 (rw (assemble-start libraries cfg api first served) reach)

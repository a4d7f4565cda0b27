-- ===== src/Poolstratum/Api/Sync.antt =====
-- The waits of src/poolstratum/api.go for a node that is synchronized.
use kaspa_stratum_bridge.Base.{
  ℕ, zero, suc, ◌<◌, ◌≡◌, ◌≢◌, refl, ap, ◌∙◌, arith, List, [], ◌∷◌, ◌++◌, All, length, Bool, true,
  false, Option, none, some, Result, ok, err, if◌then◌else◌,
}
use kaspa_stratum_bridge.ChainNode.AleoNode.Work.{times}
use kaspa_stratum_bridge.ChainNode.Forward.{RpcClient, ChainError, ChainNode, get_info}
use kaspa_stratum_bridge.Poolstratum.Api.{
  Wake, cancelled, ready, ticked, PoolApi, wait_for_sync, after_wait, template_loop,
}

module _ (rpc : RpcClient) (is_synced : rpc.Info → Bool) where
  open rpc use {Info}

  -- The node after a number of polls, and the answer to the next one.
  abbrev pub polled : ℕ → ChainNode rpc → ChainNode rpc
  polled zero node = node
  polled (suc n) node = polled n (get_info rpc node).0

  abbrev pub answer : ℕ → ChainNode rpc → Result ChainError Info
  answer n node = (get_info rpc (polled n node)).1

  -- An error or a synchronized node.
  abbrev pub is_final : Result ChainError Info → Bool
  is_final (err e) = true
  is_final (ok info) = is_synced info

  abbrev pub error_of : Result ChainError Info → Option ChainError
  error_of (err e) = some e
  error_of (ok info) = none

  -- `waitForSync` on the answer of a poll.
  abbrev on_answer :
      ChainNode rpc
      → Option (ChainNode rpc × Option ChainError)
      → Result ChainError Info
      → Option (ChainNode rpc × Option ChainError)
  on_answer node again given = elim given [
    | err e ↦ some (node, some e)
    | ok info ↦ if is_synced info then some (node, none) else again
  ]

  final_answer :
      (node : ChainNode rpc) (again : Option (ChainNode rpc × Option ChainError))
      (given : Result ChainError Info)
      → is_final given ≡ true
      → on_answer node again given ≡ some (node, error_of given)
  final_answer node again (err e) h = refl
  final_answer node again (ok info) h = rw h refl

  other_answer :
      (node : ChainNode rpc) (again : Option (ChainNode rpc × Option ChainError))
      (given : Result ChainError Info)
      → is_final given ≡ false
      → on_answer node again given ≡ again
  other_answer node again (err e) h = cc
  other_answer node again (ok info) h = rw h refl

  -- `waitForSync` returns as soon as an answer is an error or says that the node is synchronized, if the
  -- answers before it do not: right after that poll, with its error or with none, however many more
  -- polls it might make.
  pub wait_for_sync-returns :
      (n polls : ℕ) (node : ChainNode rpc)
      → n < polls
      → ((k : ℕ) → k < n → is_final (answer k node) ≡ false)
      → is_final (answer n node) ≡ true
      → wait_for_sync rpc is_synced polls node
        ≡ some (polled (suc n) node, error_of (answer n node))
  unfolding wait_for_sync
  wait_for_sync-returns n zero node enough before final = absurd (omega arith)
  wait_for_sync-returns zero (suc polls) node enough before final =
      final_answer _ _ (get_info rpc node).1 final
  wait_for_sync-returns (suc n) (suc polls) node enough before final =
      other_answer _ _ (get_info rpc node).1 (before 0 (omega arith))
      ∙ wait_for_sync-returns n polls (get_info rpc node).0 (omega arith)
          (λ k below. before (suc k) (omega arith)) final

  module _ {S : Type 0} (block_ready_cb : S → S) (polls : ℕ)
      (waits : (node : ChainNode rpc)
        → (r : ChainNode rpc × Option ChainError) × (wait_for_sync rpc is_synced polls node
            ≡ some r)) where
    abbrev loop : PoolApi rpc is_synced → S → List Wake → Option (PoolApi rpc is_synced × S × Bool)
    loop = template_loop rpc is_synced block_ready_cb polls

    -- The pool's state after a wait.
    abbrev waited : PoolApi rpc is_synced → PoolApi rpc is_synced
    waited api = after_wait rpc is_synced api (waits api.chain_node).0

    abbrev on_wake :
        PoolApi rpc is_synced
        → S
        → Wake
        → List Wake
        → Option (ChainNode rpc × Option ChainError)
        → Option (PoolApi rpc is_synced × S × Bool)
    on_wake api s wake wakes result = elim result [
      | none ↦ none
      | some r ↦
          let api' = after_wait rpc is_synced api r in
          let later = loop api' (block_ready_cb s) wakes in
          elim wake [ cancelled ↦ some (api', s, true) | ready ↦ later | ticked ↦ later ]
    ]

    loop-cons :
        (api : PoolApi rpc is_synced) (s : S) (wake : Wake) (wakes : List Wake)
        → loop api s (wake ∷ wakes) ≡ on_wake api s wake wakes (some (waits api.chain_node).0)
    unfolding template_loop
    loop-cons api s wake wakes = ap (on_wake api s wake wakes) (waits api.chain_node).1

    loop-cancelled :
        (api : PoolApi rpc is_synced) (s : S)
        → loop api s (cancelled ∷ []) ≡ some (waited api, s, true)
    loop-cancelled api s = loop-cons api s cancelled []

    loop-called :
        (api : PoolApi rpc is_synced) (s : S) (wake : Wake) (wakes : List Wake)
        → wake ≢ cancelled
        → loop api s (wake ∷ wakes) ≡ loop (waited api) (block_ready_cb s) wakes
    loop-called api s cancelled wakes other = absurd (other refl)
    loop-called api s ready wakes other = loop-cons api s ready wakes
    loop-called api s ticked wakes other = loop-cons api s ticked wakes

    -- If every wait ends within a number of polls, then the block listener calls back once for each new
    -- block and each tick until the context is cancelled, also while the node gives errors and is
    -- reconnected to, and then it returns.
    pub template_loop-callbacks :
        (api : PoolApi rpc is_synced) (s : S) (wakes : List Wake)
        → All (λ w. w ≢ cancelled) wakes
        → (end : PoolApi rpc is_synced) × (template_loop rpc is_synced block_ready_cb polls api s
              (wakes ++ cancelled ∷ [])
            ≡ some (end, times (length wakes) block_ready_cb s, true))
    template_loop-callbacks api s [] running = (_, loop-cancelled api s)
    template_loop-callbacks api s (wake ∷ wakes) (other, running) =
        let (end, later) = template_loop-callbacks (waited api) (block_ready_cb s) wakes running in
        (end, loop-called api s wake (wakes ++ cancelled ∷ []) other ∙ later)

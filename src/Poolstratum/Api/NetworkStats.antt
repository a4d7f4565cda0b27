-- ===== src/Poolstratum/Api/NetworkStats.antt =====
-- `startStatsThread` of src/poolstratum/api.go: the gauges of the network.
use kaspa_stratum_bridge.Base.{
  ℕ, zero, suc, ◌+◌, ◌<◌, arith, ◌≡◌, refl, ap, sym, ◌∙◌, List, [], ◌∷◌, ◌++◌, Option, none, some,
  Result, ok, err, replicate,
}
use kaspa_stratum_bridge.Text.{Bytes}
use kaspa_stratum_bridge.Prom.Gauges.{Gauges, record_network_stats}
use kaspa_stratum_bridge.ChainNode.Forward.{
  RpcClient, ChainError, ChainNode, get_block_dag_info, estimate_network_hashes,
}

-- What the thread reads of kaspad's answers, and the conversion of a uint64 to a float.
pub record StatsFields (rpc : RpcClient) : Type 0 where
  pub tip_hashes : rpc.DagInfo → List Bytes
  pub block_count : rpc.DagInfo → ℕ
  pub difficulty : rpc.DagInfo → ℕ
  pub hashes_per_second : rpc.NetworkHashes → ℕ
  pub to_float : ℕ → ℕ

-- What ends a wait of the thread.
pub data StatsWake : Type 0 where
  cancelled : StatsWake
  ticked : StatsWake

-- How the thread stands: it waits, it returned, or the index of the first tip was out of range.
pub data StatsEnd : Type 0 where
  waiting : StatsEnd
  returned : StatsEnd
  panicked : StatsEnd

module _ (rpc : RpcClient) (fields : StatsFields rpc) where
  open rpc use {DagInfo, NetworkHashes}
  open fields use {tip_hashes, block_count, difficulty, hashes_per_second, to_float}

  -- The node and the gauges; the errors are only logged.
  abbrev pub Watched : Type 0
  Watched = ChainNode rpc × Gauges

  unfoldable pub after_estimate :
      DagInfo → Gauges → ChainNode rpc × Result ChainError NetworkHashes → Watched
  after_estimate dag g (node, err e) = (node, g)
  after_estimate dag g (node, ok hashes) = (
    node,
    record_network_stats to_float (hashes_per_second hashes) (block_count dag) (difficulty dag) g,
  )

  -- `dagResponse.TipHashes[0]`; a window is 1000 blocks.
  unfoldable pub after_tips : DagInfo → Gauges → ChainNode rpc → List Bytes → Watched × StatsEnd
  after_tips dag g node [] = ((node, g), panicked)
  after_tips dag g node (tip ∷ tips) =
      (after_estimate dag g (estimate_network_hashes rpc tip 1_000 node), waiting)

  unfoldable pub after_dag_info :
      Gauges → ChainNode rpc × Result ChainError DagInfo → Watched × StatsEnd
  after_dag_info g (node, err e) = ((node, g), waiting)
  after_dag_info g (node, ok dag) = after_tips dag g node (tip_hashes dag)

  -- A tick.
  unfoldable pub stats_round : Watched → Watched × StatsEnd
  stats_round (node, g) = after_dag_info g (get_block_dag_info rpc node)

  unfoldable pub stats_thread : Watched → List StatsWake → Watched × StatsEnd
  stats_thread w [] = (w, waiting)
  stats_thread w (cancelled ∷ wakes) = (w, returned)
  stats_thread w (ticked ∷ wakes) =
      let (w', result) = stats_round w in
      elim result [
        | waiting ↦ stats_thread w' wakes
        | returned ↦ (w', returned)
        | panicked ↦ (w', panicked)
      ]

  -- The gauges of the network, apart from those of the balances.
  abbrev pub network : Gauges → ℕ × ℕ × ℕ
  network g = (g.network_hashrate, g.network_difficulty, g.network_block_count)

  -- The three numbers that a tick finds, if both questions are answered.
  unfoldable pub found : ChainNode rpc → Option (ℕ × ℕ × ℕ)
  found node = elim (get_block_dag_info rpc node).1 [
    | err e ↦ none
    | ok dag ↦ elim (tip_hashes dag) [
      | [] ↦ none
      | tip ∷ tips ↦
          elim (estimate_network_hashes rpc tip 1_000 (get_block_dag_info rpc node).0).1 [
            | err e ↦ none
            | ok hashes ↦
                some
                  (to_float (hashes_per_second hashes), difficulty dag, to_float (block_count dag))
          ]
    ]
  ]

  abbrev or_old : Option (ℕ × ℕ × ℕ) → ℕ × ℕ × ℕ → ℕ × ℕ × ℕ
  or_old none old = old
  or_old (some new) old = new

  estimated-network :
      (dag : DagInfo) (g : Gauges) (r : ChainNode rpc × Result ChainError NetworkHashes)
      → network (after_estimate dag g r).1
        ≡ or_old
            (elim r.1 [
              | err e ↦ none
              | ok hashes ↦
                  some (
                    to_float (hashes_per_second hashes),
                    difficulty dag,
                    to_float (block_count dag),
                  )
            ])
            (network g)
  unfolding after_estimate record_network_stats
  estimated-network dag g (node, err e) = refl
  estimated-network dag g (node, ok hashes) = refl

  -- What the answer to the question for the tips makes of a tick.
  tips-network :
      (g : Gauges) (dag : DagInfo) (node : ChainNode rpc) (tips : List Bytes)
      → network (after_tips dag g node tips).0.1
        ≡ or_old
            (elim tips [
              | [] ↦ none
              | tip ∷ others ↦ elim (estimate_network_hashes rpc tip 1_000 node).1 [
                | err e ↦ none
                | ok hashes ↦ some (
                  to_float (hashes_per_second hashes),
                  difficulty dag,
                  to_float (block_count dag),
                )
              ]
            ])
            (network g)
  unfolding after_tips
  tips-network g dag node [] = refl
  tips-network g dag node (tip ∷ tips) = estimated-network dag g _

  dag-network :
      (g : Gauges) (r : ChainNode rpc × Result ChainError DagInfo)
      → network (after_dag_info g r).0.1
        ≡ or_old
            (elim r.1 [
              | err e ↦ none
              | ok dag ↦ elim (tip_hashes dag) [
                | [] ↦ none
                | tip ∷ tips ↦ elim (estimate_network_hashes rpc tip 1_000 r.0).1 [
                  | err e ↦ none
                  | ok hashes ↦ some (
                    to_float (hashes_per_second hashes),
                    difficulty dag,
                    to_float (block_count dag),
                  )
                ]
              ]
            ])
            (network g)
  unfolding after_dag_info
  dag-network g (node, err e) = refl
  dag-network g (node, ok dag) = tips-network g dag node (tip_hashes dag)

  round-network : (w : Watched) → network (stats_round w).0.1 ≡ or_old (found w.0) (network w.1)
  unfolding stats_round found
  round-network (node, g) = dag-network g (get_block_dag_info rpc node)

  estimated-balances :
      (dag : DagInfo) (g : Gauges) (r : ChainNode rpc × Result ChainError NetworkHashes)
      → (after_estimate dag g r).1.balances ≡ g.balances
  unfolding after_estimate record_network_stats
  estimated-balances dag g (node, err e) = refl
  estimated-balances dag g (node, ok hashes) = refl

  tips-balances :
      (g : Gauges) (dag : DagInfo) (node : ChainNode rpc) (tips : List Bytes)
      → (after_tips dag g node tips).0.1.balances ≡ g.balances
  unfolding after_tips
  tips-balances g dag node [] = refl
  tips-balances g dag node (tip ∷ tips) = estimated-balances dag g _

  dag-balances :
      (g : Gauges) (r : ChainNode rpc × Result ChainError DagInfo)
      → (after_dag_info g r).0.1.balances ≡ g.balances
  unfolding after_dag_info
  dag-balances g (node, err e) = refl
  dag-balances g (node, ok dag) = tips-balances g dag node (tip_hashes dag)

  round-balances : (w : Watched) → (stats_round w).0.1.balances ≡ w.1.balances
  unfolding stats_round
  round-balances (node, g) = dag-balances g (get_block_dag_info rpc node)

  -- A number of ticks.
  abbrev pub rounds : ℕ → Watched → Watched
  rounds zero w = w
  rounds (suc n) w = rounds n (stats_round w).0

  abbrev pub ticks : ℕ → List StatsWake
  ticks n = replicate n ticked ++ cancelled ∷ []

  rounds-balances : (n : ℕ) (w : Watched) → (rounds n w).1.balances ≡ w.1.balances
  rounds-balances zero w = refl
  rounds-balances (suc n) w = rounds-balances n (stats_round w).0 ∙ round-balances w

  rounds-stale :
      (n : ℕ) (w : Watched)
      → ((j : ℕ) → j < n → found (rounds j w).0 ≡ none)
      → network (rounds n w).1 ≡ network w.1
  rounds-stale zero w failing = refl
  rounds-stale (suc n) w failing =
      rounds-stale n (stats_round w).0 (λ j below. failing (suc j) (omega arith))
      ∙ round-network w
      ∙ ap (λ o. or_old o (network w.1)) (failing 0 (omega arith))

  rounds-found :
      (k m : ℕ) (w : Watched) (new : ℕ × ℕ × ℕ)
      → found (rounds k w).0 ≡ some new
      → ((j : ℕ) → j < m → found (rounds (k + suc j) w).0 ≡ none)
      → network (rounds (k + suc m) w).1 ≡ new
  rounds-found zero m w new last failing =
      let shift : (j : ℕ) → suc j ≡ zero + suc j = λ j. omega arith in
      ap (λ n. network (rounds n w).1) (sym (shift m))
      ∙ rounds-stale m (stats_round w).0
          (λ j below. ap (λ n. found (rounds n w).0) (shift j) ∙ failing j below)
      ∙ round-network w
      ∙ ap (λ o. or_old o (network w.1)) last
  rounds-found (suc k) m w new last failing =
      let shift : (j : ℕ) → suc (k + suc j) ≡ suc k + suc j = λ j. omega arith in
      ap (λ n. network (rounds n w).1) (sym (shift m))
      ∙ rounds-found k m (stats_round w).0 new last
          (λ j below. ap (λ n. found (rounds n w).0) (shift j) ∙ failing j below)

  thread-rounds :
      (n : ℕ) (w : Watched)
      → ((j : ℕ) → j < n → (stats_round (rounds j w)).1 ≡ waiting)
      → stats_thread w (ticks n) ≡ (rounds n w, returned)
  unfolding stats_thread
  thread-rounds zero w calm = refl
  thread-rounds (suc n) w calm =
      rw (calm 0 (omega arith), stats_thread)
        (thread-rounds n (stats_round w).0 (λ j below. calm (suc j) (omega arith)))

  -- If no tick panics and the last tick at which kaspad answered both questions is the k-th of a row,
  -- then when the context is cancelled the thread returns, the three gauges of the network show what
  -- that tick found, however many later ticks failed, and the balances are as before.
  pub stats_thread-network :
      (k m : ℕ) (w : Watched) (new : ℕ × ℕ × ℕ)
      → ((j : ℕ) → j < k + suc m → (stats_round (rounds j w)).1 ≡ waiting)
      → found (rounds k w).0 ≡ some new
      → ((j : ℕ) → j < m → found (rounds (k + suc j) w).0 ≡ none)
      → let (w', result) = stats_thread w (ticks (k + suc m)) in
        (result ≡ returned) × (network w'.1 ≡ new) × (w'.1.balances ≡ w.1.balances)
  stats_thread-network k m w new calm last failing =
      rw (thread-rounds (k + suc m) w calm)
        (refl, rounds-found k m w new last failing, rounds-balances (k + suc m) w)

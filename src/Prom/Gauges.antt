-- ===== src/Prom/Gauges.antt =====
-- The gauges of src/prom/prom.go, which are set and not added to.
pub mod Balances
use kaspa_stratum_bridge.Base.{ℕ, List, [], ◌∷◌, Bool, false, if◌then◌else◌, ◌||◌}
use kaspa_stratum_bridge.Base.GoMap.{insert}
use kaspa_stratum_bridge.Text.{Bytes, bytes_eq, bytes_beq}

-- `balanceGauge` by wallet and the three gauges of the network; a value is the bit pattern of a float.
pub record Gauges : Type 0 where
  pub balances : List (Bytes × ℕ)
  pub network_hashrate : ℕ
  pub network_difficulty : ℕ
  pub network_block_count : ℕ

-- `_, exists := unique[address]`
unfoldable pub is_seen : Bytes → List Bytes → Bool
is_seen address [] = false
is_seen address (seen ∷ unique) = bytes_beq seen address || is_seen address unique

module _ (in_kas : ℕ → ℕ) where
  -- The loop of `RecordBalances` over addresses and balances; `in_kas` is
  -- `float64(balance) / 100000000`.
  unfoldable pub set_balances : List Bytes → List (Bytes × ℕ) → List (Bytes × ℕ) → List (Bytes × ℕ)
  set_balances unique [] gauge = gauge
  set_balances unique ((address, balance) ∷ entries) gauge =
      let passed = set_balances unique entries gauge in
      let set = set_balances (address ∷ unique) entries (insert address (in_kas balance) gauge) in
      if is_seen address unique then passed else set

  unfoldable pub record_balances : List (Bytes × ℕ) → Gauges → Gauges
  unfolding set_balances
  record_balances entries g = record g { balances = set_balances [] entries g.balances }

-- `RecordNetworkStats`, from the conversion of a uint64 to a float; the difficulty is one already.
unfoldable pub record_network_stats : (ℕ → ℕ) → ℕ → ℕ → ℕ → Gauges → Gauges
record_network_stats to_float hashrate block_count difficulty g = record g {
  network_hashrate = to_float hashrate;
  network_difficulty = difficulty;
  network_block_count = to_float block_count;
}

-- ===== src/Prom/Gauges/Balances.antt =====
-- The balances that `RecordBalances` of src/prom/prom.go leaves on the gauge.
use kaspa_stratum_bridge.Base.{
  ℕ, ◌≡◌, refl, ap, sym, ◌∙◌, List, [], ◌∷◌, Bool-cases, inl, inr, Option, some, if◌then◌else◌,
  arith,
}
use kaspa_stratum_bridge.Base.GoMap.{lookup, insert, lookup-insert}
use kaspa_stratum_bridge.Text.{Bytes, bytes_eq, bytes_beq, bytes_beq_iff}
use kaspa_stratum_bridge.Prom.Gauges.{Gauges, is_seen, set_balances, record_balances}

module _ (in_kas : ℕ → ℕ) where
  -- A wallet's gauge under the entries: the balance of the first one, or what it was.
  unfoldable pub first_balance : Bytes → List (Bytes × ℕ) → Option ℕ → Option ℕ
  first_balance wallet [] before = before
  first_balance wallet ((address, balance) ∷ entries) before =
      let others = first_balance wallet entries before in
      if bytes_beq address wallet then some (in_kas balance) else others

  -- The gauge of a wallet that is among the addresses that were set before stays.
  abbrev expected : List Bytes → List (Bytes × ℕ) → List (Bytes × ℕ) → Bytes → Option ℕ
  expected unique entries gauge wallet =
      if is_seen wallet unique
      then lookup wallet gauge
      else first_balance wallet entries (lookup wallet gauge)

  set_balances-lookup :
      (unique : List Bytes) (entries gauge : List (Bytes × ℕ)) (wallet : Bytes)
      → lookup wallet (set_balances in_kas unique entries gauge)
        ≡ expected unique entries gauge wallet
  unfolding set_balances first_balance is_seen
  set_balances-lookup unique [] gauge wallet = ground arith
  set_balances-lookup unique ((address, balance) ∷ entries) gauge wallet =
      let passed = set_balances-lookup unique entries gauge wallet in
      let set =
        set_balances-lookup (address ∷ unique) entries (insert address (in_kas balance) gauge)
          wallet in
      let written = lookup-insert address wallet (in_kas balance) gauge in
      elim (Bool-cases (bytes_beq address wallet)) [
        | inl same ↦
            let moved : is_seen wallet unique ≡ is_seen address unique =
              ap (λ a. is_seen a unique) (sym ((bytes_beq_iff address wallet).0 same)) in
            elim (Bool-cases (is_seen address unique)) [
              | inl seen ↦ rw (seen, moved ∙ seen) (passed ∙ rw (moved ∙ seen) refl)
              | inr fresh ↦ rw (fresh, moved ∙ fresh, same) (set ∙ rw same (written ∙ rw same refl))
            ]
        | inr other ↦ elim (Bool-cases (is_seen address unique)) [
          | inl seen ↦ rw (seen, other) passed
          | inr fresh ↦ rw (fresh, other) (set ∙ rw (other, written, other) refl)
        ]
      ]

  -- After `RecordBalances` the gauge of a wallet shows the balance of the first entry with that address, and
  -- what it showed before if there is none.
  pub record_balances-lookup :
      (entries : List (Bytes × ℕ)) (g : Gauges) (wallet : Bytes)
      → lookup wallet (record_balances in_kas entries g).balances
        ≡ first_balance wallet entries (lookup wallet g.balances)
  unfolding record_balances is_seen
  record_balances-lookup entries g wallet = set_balances-lookup [] entries g.balances wallet

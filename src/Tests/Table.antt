-- ===== src/Tests/Table.antt =====
-- The theorem of the printed statistics at a pool with two workers.
use mathlib.Core.List.{Perm}
use mathlib.Core.List.Perm
use kaspa_stratum_bridge.Base.{ℕ, ◌+◌, ◌/◌, ◌≡◌, refl, List, [], ◌∷◌}
use kaspa_stratum_bridge.Text.{Bytes, codes}
use kaspa_stratum_bridge.Text.Digits.{format_decimal, format_int, decimal_loop}
use kaspa_stratum_bridge.Text.Columns.{
  pad_left, pad_right, column, spaces, rune_count, take_runes, rune_width,
}
use kaspa_stratum_bridge.Text.Sort.{Ascending}
use kaspa_stratum_bridge.Poolstratum.Stats.{WorkStats, ShareHandler, zero_stats}
use kaspa_stratum_bridge.Poolstratum.Stats.Table.{
  Rates, stats_table, table_rows, lines_of, total_rate, rate_str, get_average_hashrate_ghs,
  record_at, line_of, count_columns, ratio_str, format_duration, uptime,
}
use kaspa_stratum_bridge.Poolstratum.Stats.Table.Rows.{stats_table-reordered}

-- Rates that are whole numbers.
abbrev whole_rates : Rates
whole_rates = record {
  add_float = λ a b. a + b;
  divide_float = λ a b. a / b;
  seconds = λ d. d / 1000000000;
  two_decimals = λ n. format_decimal n;
}

abbrev stats_of : Bytes → ℕ → WorkStats
stats_of name n = record zero_stats { device_name = name; shares_found = n; shares_diff = 100 }

abbrev two_workers : ShareHandler
two_workers = record {
  stats = (codes "rig", 0) ∷ (codes "pit", 1) ∷ [];
  store = stats_of (codes "rig") 2 ∷ stats_of (codes "pit") 3 ∷ [];
  overall = zero_stats;
  tip_blue_score = 0;
}

abbrev exchanged : List (Bytes × ℕ)
exchanged = (codes "pit", 1) ∷ (codes "rig", 0) ∷ []

stats_table-reordered_example :
    (stats_table whole_rates two_workers 20000000000 0 two_workers.stats
      ≡ stats_table whole_rates two_workers 20000000000 0 exchanged)
    × (Perm
          (table_rows whole_rates two_workers 20000000000 two_workers.stats)
          (lines_of whole_rates two_workers 20000000000 exchanged)
        × Ascending (table_rows whole_rates two_workers 20000000000 two_workers.stats))
unfolding rate_str total_rate get_average_hashrate_ghs record_at
stats_table-reordered_example =
    stats_table-reordered whole_rates two_workers 20000000000 0 two_workers.stats exchanged
      (Perm.swap (codes "pit", 1) (codes "rig", 0) []) refl

-- An hour, two minutes and five and a half seconds after the start.
lines_of_run :
    lines_of whole_rates two_workers 3725500000000 exchanged
    ≡ codes
        "                 | pit            |          0GH/s |          3/0/0 |            0 |      1h2m6s"
      ∷ codes
          "                 | rig            |          0GH/s |          2/0/0 |            0 |      1h2m6s"
      ∷ []
unfolding lines_of line_of count_columns pad_left pad_right column spaces rune_count take_runes
    rune_width ratio_str format_duration uptime rate_str get_average_hashrate_ghs record_at
    format_int format_decimal decimal_loop
lines_of_run = refl

-- ===== src/Poolstratum/Stats/Table.antt =====
-- The table that the pool prints every ten seconds (`startStatsThread`, src/poolstratum/share_handler.go).
-- One reading of the clock serves for a whole table, where the source reads it for each line.
pub mod Rows
use kaspa_stratum_bridge.Base.{
  ℕ, ◌+◌, ◌-◌, ◌/◌, ◌%◌, List, [], ◌∷◌, ◌++◌, none, some, map, get_elem?, ltb, if◌then◌else◌,
}
use kaspa_stratum_bridge.Base.Int.{signed64}
use kaspa_stratum_bridge.Text.{Bytes, codes}
use kaspa_stratum_bridge.Text.Digits.{format_decimal, format_int}
use kaspa_stratum_bridge.Text.Columns.{pad_left, pad_right, column}
use kaspa_stratum_bridge.Text.Sort.{sort_strings}
use kaspa_stratum_bridge.Poolstratum.Stats.{WorkStats, ShareHandler, zero_stats}

-- The floats of the table by their bit patterns: the sum, the quotient, the seconds of a duration in
-- nanoseconds, and `%0.2f`.
pub record Rates : Type 0 where
  pub add_float : ℕ → ℕ → ℕ
  pub divide_float : ℕ → ℕ → ℕ
  pub seconds : ℕ → ℕ
  pub two_decimals : ℕ → Bytes

-- `strings.Join(lines, "\n")`
unfoldable pub join_lines : List Bytes → Bytes
join_lines [] = []
join_lines (line ∷ []) = line
join_lines (line ∷ l ∷ lines) = line ++ (10 ∷ join_lines (l ∷ lines))

-- `time.Since(t).Round(time.Second)` in seconds, of two times in nanoseconds.
unfoldable pub uptime : ℕ → ℕ → ℕ
uptime t now = (now - t + 500000000) / 1000000000

-- The text of a duration of so many seconds.
unfoldable pub format_duration : ℕ → Bytes
format_duration s =
    let of_second = format_decimal (s % 60) ++ codes "s" in
    let of_minute = format_decimal (s / 60 % 60) ++ (codes "m" ++ of_second) in
    if ltb s 60
    then of_second
    else if ltb s 3600
    then of_minute
    else format_decimal (s / 3600) ++ (codes "h" ++ of_minute)

-- What a pointer of the map points to; no pointer lies outside of the store.
unfoldable pub record_at : List WorkStats → ℕ → WorkStats
record_at store p = elim (get_elem? store p) [ none ↦ zero_stats | some v ↦ v ]

-- `"%d/%d/%d"` of the accepted, stale and invalid shares.
unfoldable pub ratio_str : WorkStats → Bytes
ratio_str v =
    format_int (signed64 v.shares_found)
    ++ (codes "/"
        ++ (format_int (signed64 v.stale_shares)
            ++ (codes "/" ++ format_int (signed64 v.invalid_shares))))

-- `" %14.14s | %14.14s | %12d | %11s"`
unfoldable pub count_columns : Bytes → WorkStats → ℕ → Bytes
count_columns rate v time =
    codes " "
    ++ (column 14 rate
        ++ (codes " | "
            ++ (column 14 (ratio_str v)
                ++ (codes " | "
                    ++ (pad_left 12 (format_int (signed64 v.blocks_found))
                        ++ (codes " | " ++ pad_left 11 (format_duration time)))))))

-- The rows between their rules, and the totals below.
unfoldable pub table_frame : List Bytes → Bytes → Bytes
table_frame rows totals =
    codes
      "\n=================================================================================================\n"
    ++ (codes
          "     app name    |  worker name   |  avg hashrate  |   acc/stl/inv  |    blocks    |    uptime   \n"
        ++ (codes
              "-------------------------------------------------------------------------------------------------\n"
            ++ (join_lines rows
                ++ (codes
                      "\n-------------------------------------------------------------------------------------------------\n"
                    ++ (codes "                 |                |"
                        ++ (totals
                            ++ codes
                                "\n========================================================================== pool_bridge_v0.0.1 ===\n"))))))

module _ (rates : Rates) (sh : ShareHandler) (now : ℕ) where
  -- `GetAverageHashrateGHs`
  unfoldable pub get_average_hashrate_ghs : WorkStats → ℕ
  get_average_hashrate_ghs v = rates.divide_float v.shares_diff (rates.seconds (now - v.start_time))

  -- `"%0.2fGH/s"`
  unfoldable pub rate_str : ℕ → Bytes
  rate_str rate = rates.two_decimals rate ++ codes "GH/s"

  -- The line of a worker.
  unfoldable pub line_of : WorkStats → Bytes
  line_of v =
      codes " "
      ++ (pad_right 16 v.app_name_or_ver
          ++ (codes "| "
              ++ (pad_right 15 v.device_name
                  ++ (codes "|"
                      ++ count_columns (rate_str (get_average_hashrate_ghs v)) v
                          (uptime v.start_time now)))))

  -- The lines in the order in which `range` meets the entries of the map.
  unfoldable pub lines_of : List (Bytes × ℕ) → List Bytes
  lines_of = map (λ e. line_of (record_at sh.store e.1))

  -- `totalRate`, from the sum of the entries before.
  unfoldable pub total_rate : ℕ → List (Bytes × ℕ) → ℕ
  total_rate rate [] = rate
  total_rate rate ((k, p) ∷ es) =
      total_rate (rates.add_float rate (get_average_hashrate_ghs (record_at sh.store p))) es

  -- The lines as they are printed.
  unfoldable pub table_rows : List (Bytes × ℕ) → List Bytes
  table_rows es = sort_strings (lines_of es)

  -- One table; `start` is the time at which the thread started.
  unfoldable pub stats_table : ℕ → List (Bytes × ℕ) → Bytes
  stats_table start es =
      table_frame (table_rows es)
        (count_columns (rate_str (total_rate 0 es)) sh.overall (uptime start now))

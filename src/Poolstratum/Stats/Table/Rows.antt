-- ===== src/Poolstratum/Stats/Table/Rows.antt =====
-- The rows of the table and the order of the map (`startStatsThread`, src/poolstratum/share_handler.go).
use mathlib.Core.List.{Perm, Permᴰ}
use mathlib.Core.Path.{ap₂}
use mathlib.Core.Logic.{∥∥₁_map}
use kaspa_stratum_bridge.Base.{ℕ, ◌≡◌, ap, List, map}
use kaspa_stratum_bridge.Text.{Bytes}
use kaspa_stratum_bridge.Text.Sort.{
  Ascending, sort_strings_unique, sort_strings-Perm, sort_strings-Ascending,
}
use kaspa_stratum_bridge.Poolstratum.Stats.{ShareHandler}
use kaspa_stratum_bridge.Poolstratum.Stats.Table.{
  Rates, stats_table, table_rows, lines_of, total_rate, rate_str, table_frame, count_columns,
  uptime,
}

map-Permᴰ {ℓ ℓ'} :
    {A : Type ℓ} {B : Type ℓ'} (f : A → B) {xs ys : List A}
    → Permᴰ xs ys
    → Permᴰ (map f xs) (map f ys)
map-Permᴰ f Permᴰ.nil = Permᴰ.nil
map-Permᴰ f (Permᴰ.cons e d) = Permᴰ.cons (ap f e) (map-Permᴰ f d)
map-Permᴰ f (Permᴰ.swap d e) = Permᴰ.swap (ap f d) (ap f e)
map-Permᴰ f (Permᴰ.trans d e) = Permᴰ.trans (map-Permᴰ f d) (map-Permᴰ f e)

module _ (rates : Rates) (sh : ShareHandler) (now : ℕ) where
  lines_of-Perm :
      {es fs : List (Bytes × ℕ)}
      → Perm es fs
      → Perm (lines_of rates sh now es) (lines_of rates sh now fs)
  unfolding lines_of
  lines_of-Perm p = ∥∥₁_map p (map-Permᴰ _)

  -- However the iteration orders the entries of the map: the rows are the lines of all workers, each as
  -- often as the map has its entry, in ascending order of their bytes, and if the printed sum of the
  -- rates is the same then the whole table is the same.
  pub stats_table-reordered :
      (start : ℕ) (es fs : List (Bytes × ℕ))
      → Perm es fs
      → rate_str rates sh now (total_rate rates sh now 0 es)
        ≡ rate_str rates sh now (total_rate rates sh now 0 fs)
      → (stats_table rates sh now start es ≡ stats_table rates sh now start fs)
        × (Perm (table_rows rates sh now es) (lines_of rates sh now fs)
            × Ascending (table_rows rates sh now es))
  unfolding stats_table table_rows
  stats_table-reordered start es fs p e = (
    ap₂ table_frame (sort_strings_unique (lines_of-Perm p))
        (ap (λ rate. count_columns rate sh.overall (uptime start now)) e),
    (sort_strings-Perm (lines_of-Perm p), sort_strings-Ascending (lines_of rates sh now es)),
  )

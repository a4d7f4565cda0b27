-- ===== src/Poolstratum/Shares/Interleaved/Lookups.antt =====
-- What a lookup of the statistics (src/poolstratum/share_handler.go) leaves, whatever the overall counters
-- are at that moment.
use kaspa_stratum_bridge.Base.{
  ℕ, ◌%◌, ◌^◌, ◌≤◌, ◌<◌, ◌≡◌, refl, sym, ap, ◌∙◌, arith, List, Option, none, some, length,
}
use kaspa_stratum_bridge.Base.GoMap.{lookup}
use kaspa_stratum_bridge.Text.{bytes_eq}
use kaspa_stratum_bridge.Gostratum.Worker.{WorkerContext}
use kaspa_stratum_bridge.Prom.Metrics.{Metrics}
use kaspa_stratum_bridge.Poolstratum.Stats.{
  WorkStats, ShareHandler, zero_stats, rename_entry, create_entry, find_by_device, find_or_create,
  get_create_stats,
}
use kaspa_stratum_bridge.Poolstratum.Stats.Listed.{IsListed, names}
use kaspa_stratum_bridge.Poolstratum.Stats.Totals.{
  Tally, blocks, shares, stales, invalids, tally, total, Accounts,
}
use kaspa_stratum_bridge.Poolstratum.Stats.Entry.{get_create_stats-Entry}

-- The handler with other overall counters.
abbrev with_overall : WorkStats → ShareHandler → ShareHandler
with_overall o sh = record sh { overall = o }

found-overall :
    (o : WorkStats) (sh : ShareHandler) (m : Metrics) (sc : WorkerContext) (now : ℕ)
    (by_device by_remote : Option ℕ)
    → find_or_create (with_overall o sh) m sc now by_device by_remote ≡ (
        let (sh', p, m') = find_or_create sh m sc now by_device by_remote in
        (with_overall o sh', p, m'))
unfolding find_or_create rename_entry create_entry
found-overall o sh m sc now (some p) r = refl
found-overall o sh m sc now none (some p) = refl
found-overall o sh m sc now none none = refl

looked-overall :
    (o : WorkStats) (sh : ShareHandler) (m : Metrics) (sc : WorkerContext) (now : ℕ)
    → get_create_stats (with_overall o sh) m sc now
      ≡ (let (sh', p, m') = get_create_stats sh m sc now in (with_overall o sh', p, m'))
unfolding get_create_stats find_by_device
looked-overall o sh m sc now =
    rw (found-overall o sh m sc now (find_by_device sh sc) (lookup sc.remote_addr sh.stats)) refl

-- The map points to records under their devices and holds every record whose device has a name.
abbrev pub IsPointing : ShareHandler → Type 0
IsPointing sh = IsListed sh.stats (names sh.store)

pub record Looked (sh sh' : ShareHandler) (p : ℕ) : Type 0 where
  pub pointing : IsPointing sh'
  pub in_store : p < length sh'.store
  pub grows : length sh.store ≤ length sh'.store
  pub same_total : (t : Tally) → total t sh'.store % 2 ^ 64 ≡ total t sh.store % 2 ^ 64
  pub overall_kept : sh'.overall ≡ sh.overall

-- The overall counters that would make the accounts hold.
sums : List WorkStats → WorkStats
sums store = record zero_stats {
  blocks_found = total blocks store % 2 ^ 64;
  shares_found = total shares store % 2 ^ 64;
  stale_shares = total stales store % 2 ^ 64;
  invalid_shares = total invalids store % 2 ^ 64;
}

sums-tally : (store : List WorkStats) (t : Tally) → total t store % 2 ^ 64 ≡ tally t (sums store)
unfolding sums
sums-tally store blocks = refl
sums-tally store shares = refl
sums-tally store stales = refl
sums-tally store invalids = refl

pub get_create_stats-Looked :
    (sh : ShareHandler) (m : Metrics) (sc : WorkerContext) (now : ℕ)
    → IsPointing sh
    → let (sh', p, m') = get_create_stats sh m sc now in Looked sh sh' p
get_create_stats-Looked sh m sc now pointing =
    let o = sums sh.store in
    let summed = with_overall o sh in
    let r = get_create_stats sh m sc now in
    let e =
      get_create_stats-Entry summed m sc now
        (record { listed = pointing; balanced = sums-tally sh.store }) in
    let same = looked-overall o sh m sc now in
    let accounts : Accounts (with_overall o r.0) = rw⁻¹ (ap (λ x. x.0) same) e.accounts in
    record {
      pointing = accounts.listed;
      in_store = omega (arith, e.in_store, ap (λ x. x.1) same, ap (λ x. length x.0.store) same);
      grows = omega (arith, e.grows, ap (λ x. length x.0.store) same);
      same_total = λ t. accounts.balanced t ∙ sym (sums-tally sh.store t);
      overall_kept = ap (λ x. x.0.overall) (looked-overall sh.overall sh m sc now);
    }

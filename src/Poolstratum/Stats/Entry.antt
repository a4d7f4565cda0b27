-- ===== src/Poolstratum/Stats/Entry.antt =====
-- What a lookup of the statistics keeps (`getCreateStats`, src/poolstratum/share_handler.go).
use kaspa_stratum_bridge.Base.{
  ℕ, ◌%◌, ◌^◌, ◌≤◌, ◌<◌, ◌≡◌, refl, sym, ◌⊎◌, inl, inr, if◌then◌else◌, [], ◌∷◌, Option, none, some,
  arith, length, length-append,
}
use kaspa_stratum_bridge.Base.GoMap.{lookup}
use kaspa_stratum_bridge.Text.{Bytes, bytes_eq, is_empty}
use kaspa_stratum_bridge.Gostratum.Worker.{WorkerContext}
use kaspa_stratum_bridge.Prom.Metrics.{Metrics}
use kaspa_stratum_bridge.Poolstratum.Stats.{
  WorkStats, ShareHandler, rename_entry, create_entry, find_by_device, find_or_create,
  get_create_stats, new_stats, app_name_or_ver_of,
}
use kaspa_stratum_bridge.Poolstratum.Stats.Listed.{
  names, length-names, names-append, names-rename, lookup-lt, renamed-IsListed, created-IsListed,
}
use kaspa_stratum_bridge.Poolstratum.Stats.Totals.{
  Tally, blocks, shares, stales, invalids, tally, total, total-append, Accounts, Agree,
  modify-Accounts, modify-balanced, length-modify,
}

-- What a lookup of a worker's statistics leaves.
pub record Entry (sh sh' : ShareHandler) (p : ℕ) : Type 0 where
  pub accounts : Accounts sh'
  pub in_store : p < length sh'.store
  pub grows : length sh.store ≤ length sh'.store
  pub overall_kept : sh'.overall ≡ sh.overall

-- A pointer of the map points into the store.
lookup-in_store :
    (sh : ShareHandler) (k : Bytes) (p : ℕ)
    → Accounts sh
    → lookup k sh.stats ≡ some p
    → p < length sh.store
lookup-in_store sh k p a h =
    omega (arith, lookup-lt sh.stats (names sh.store) a.listed k p h, length-names sh.store)

find_by_device-lt :
    (sh : ShareHandler) (sc : WorkerContext) (p : ℕ)
    → Accounts sh
    → some p ≡ find_by_device sh sc
    → p < length sh.store
unfolding find_by_device
find_by_device-lt sh sc p a d = ground (arith, lookup-in_store sh sc.device_name p a)

-- A device under which nothing was found has no name or no entry.
find_by_device-none :
    (sh : ShareHandler) (sc : WorkerContext)
    → none ≡ find_by_device sh sc
    → (sc.device_name ≡ []) ⊎ (lookup sc.device_name sh.stats ≡ none)
unfolding find_by_device
find_by_device-none sh sc h = no_entry sc.device_name h
  where
    no_entry :
        (device : Bytes)
        → none ≡ (if is_empty device then none else lookup device sh.stats)
        → (device ≡ []) ⊎ (lookup device sh.stats ≡ none)
    no_entry [] e = inl refl
    no_entry (c ∷ device) e = inr (sym e)

rename_entry-Accounts :
    (sh : ShareHandler) (sc : WorkerContext) (p : ℕ)
    → Accounts sh
    → none ≡ find_by_device sh sc
    → lookup sc.remote_addr sh.stats ≡ some p
    → Accounts (rename_entry sh sc p)
unfolding rename_entry
rename_entry-Accounts sh sc p a unknown found = record {
  listed = rw (names-rename sc.device_name p sh.store) (
      renamed-IsListed sh.stats (names sh.store) a.listed sc.remote_addr sc.device_name p found
        (find_by_device-none sh sc unknown));
  balanced =
      modify-balanced sh p _ (λ s. s) keeps_all (lookup-in_store sh sc.remote_addr p a found) a;
}
  where
    keeps_all : Agree (λ s. record s { device_name = sc.device_name }) (λ s. s)
    keeps_all blocks = inl ((λ s. refl), (λ s. refl))
    keeps_all shares = inl ((λ s. refl), (λ s. refl))
    keeps_all stales = inl ((λ s. refl), (λ s. refl))
    keeps_all invalids = inl ((λ s. refl), (λ s. refl))

create_entry-Accounts :
    (sh : ShareHandler) (sc : WorkerContext) (now : ℕ)
    → Accounts sh
    → lookup sc.remote_addr sh.stats ≡ none
    → Accounts (create_entry sh sc now)
unfolding create_entry total
create_entry-Accounts sh sc now a missing = record {
  listed =
      rw (names-append sh.store (new_stats sc now), sym (length-names sh.store))
        (created-IsListed sh.stats (names sh.store) a.listed sc.remote_addr missing);
  balanced = balance;
}
  where
    balance : (t : Tally) → total t (create_entry sh sc now).store % 2 ^ 64 ≡ tally t sh.overall
    balance blocks =
        omega (arith, total-append blocks sh.store (new_stats sc now ∷ []), a.balanced blocks)
    balance shares =
        omega (arith, total-append shares sh.store (new_stats sc now ∷ []), a.balanced shares)
    balance stales =
        omega (arith, total-append stales sh.store (new_stats sc now ∷ []), a.balanced stales)
    balance invalids =
        omega (arith, total-append invalids sh.store (new_stats sc now ∷ []), a.balanced invalids)

length-rename_entry :
    (sh : ShareHandler) (sc : WorkerContext) (p : ℕ)
    → length (rename_entry sh sc p).store ≡ length sh.store
unfolding rename_entry
length-rename_entry sh sc p = length-modify _ p sh.store

find_or_create-Entry :
    (sh : ShareHandler) (m : Metrics) (sc : WorkerContext) (now : ℕ)
    (by_device by_remote : Option ℕ)
    → Accounts sh
    → by_device ≡ find_by_device sh sc
    → by_remote ≡ lookup sc.remote_addr sh.stats
    → let (sh', p, m') = find_or_create sh m sc now by_device by_remote in Entry sh sh' p
unfolding find_or_create find_by_device
find_or_create-Entry sh m sc now (some p) r a d e = record {
  accounts = a;
  in_store = find_by_device-lt sh sc p a d;
  grows = omega arith;
  overall_kept = refl;
}
find_or_create-Entry sh m sc now none (some p) a d e =
    let l = lookup-in_store sh sc.remote_addr p a (sym e) in
    record {
      accounts = rename_entry-Accounts sh sc p a d (sym e);
      in_store = omega (arith, l, length-rename_entry sh sc p);
      grows = omega (arith, length-rename_entry sh sc p);
      overall_kept = unfold rename_entry in refl;
    }
find_or_create-Entry sh m sc now none none a d e = record {
  accounts = create_entry-Accounts sh sc now a (sym e);
  in_store = unfold create_entry in (omega (arith, length-append sh.store (new_stats sc now ∷ [])));
  grows = unfold create_entry in (omega (arith, length-append sh.store (new_stats sc now ∷ [])));
  overall_kept = unfold create_entry in refl;
}

names-Agree : (name : Bytes) → Agree (λ s. record s { app_name_or_ver = name }) (λ s. s)
names-Agree name blocks = inl ((λ s. refl), (λ s. refl))
names-Agree name shares = inl ((λ s. refl), (λ s. refl))
names-Agree name stales = inl ((λ s. refl), (λ s. refl))
names-Agree name invalids = inl ((λ s. refl), (λ s. refl))

-- `getCreateStats` keeps the accounts and the overall counters, and returns a pointer into the store,
-- which does not shrink, if the accounts hold before.
pub get_create_stats-Entry :
    (sh : ShareHandler) (m : Metrics) (sc : WorkerContext) (now : ℕ)
    → Accounts sh
    → let (sh', p, m') = get_create_stats sh m sc now in Entry sh sh' p
unfolding get_create_stats
get_create_stats-Entry sh m sc now a =
    let found =
      find_or_create-Entry sh m sc now (find_by_device sh sc) (lookup sc.remote_addr sh.stats) a
        refl refl in
    let (sh', p, m') =
      find_or_create sh m sc now (find_by_device sh sc) (lookup sc.remote_addr sh.stats) in
    let name = λ (s : WorkStats). record s { app_name_or_ver = app_name_or_ver_of sc } in
    record {
      accounts =
          modify-Accounts sh' p name (λ s. s) (names-Agree (app_name_or_ver_of sc)) (λ s. refl)
            found.in_store found.accounts;
      in_store = omega (arith, found.in_store, length-modify name p sh'.store);
      grows = omega (arith, found.grows, length-modify name p sh'.store);
      overall_kept = found.overall_kept;
    }

-- ===== src/Poolstratum/Stats/Shown.antt =====
-- The sums over the rows of the map of statistics and over the records that are in no row
-- (src/poolstratum/share_handler.go).
use kaspa_stratum_bridge.Base.{
  ℕ, zero, suc, ◌+◌, ◌%◌, ◌^◌, ◌<◌, ◌≡◌, refl, ◌==◌, Bool, true, false, inl, inr, List, [], ◌∷◌,
  some, arith, length, get_elem?, if◌then◌else◌, Bool-cases,
}
use kaspa_stratum_bridge.Base.GoMap.{lookup}
use kaspa_stratum_bridge.Text.{Bytes, bytes_eq}
use kaspa_stratum_bridge.Poolstratum.Stats.{WorkStats, ShareHandler}
use kaspa_stratum_bridge.Poolstratum.Stats.Listed.{
  Distinct, IsListed, names, length-names, get_elem?-lt,
}
use kaspa_stratum_bridge.Poolstratum.Stats.Table.{record_at}
use kaspa_stratum_bridge.Poolstratum.Stats.Totals.{Tally, tally, total, Accounts}

-- Whether an entry points to a record.
unfoldable pub pointed : ℕ → List (Bytes × ℕ) → Bool
pointed p [] = false
pointed p ((k, q) ∷ m) = let later = pointed p m in if q == p then true else later

-- The sum over the rows of the map.
unfoldable pub row_total : Tally → List WorkStats → List (Bytes × ℕ) → ℕ
row_total t store [] = 0
row_total t store ((k, p) ∷ m) = tally t (record_at store p) + row_total t store m

-- The sums over the records from the i-th on that are in a row, and over those that are in none.
unfoldable pub listed_part : Tally → ℕ → List WorkStats → List (Bytes × ℕ) → ℕ
listed_part t i [] m = 0
listed_part t i (s ∷ store) m =
    (if pointed i m then tally t s else 0) + listed_part t (suc i) store m

unfoldable pub unlisted_part : Tally → ℕ → List WorkStats → List (Bytes × ℕ) → ℕ
unlisted_part t i [] m = 0
unlisted_part t i (s ∷ store) m =
    (if pointed i m then 0 else tally t s) + unlisted_part t (suc i) store m

parts_total :
    (t : Tally) (i : ℕ) (store : List WorkStats) (m : List (Bytes × ℕ))
    → total t store ≡ listed_part t i store m + unlisted_part t i store m
unfolding total listed_part unlisted_part
parts_total t i [] m = refl
parts_total t i (s ∷ store) m = ground (arith, parts_total t (suc i) store m)

listed_part-nothing : (t : Tally) (i : ℕ) (store : List WorkStats) → listed_part t i store [] ≡ 0
unfolding listed_part pointed
listed_part-nothing t i [] = refl
listed_part-nothing t i (s ∷ store) = omega (arith, listed_part-nothing t (suc i) store)

-- An entry for a record in front of the part.
listed_part-before :
    (t : Tally) (i p : ℕ) (k : Bytes) (store : List WorkStats) (m : List (Bytes × ℕ))
    → p < i
    → listed_part t i store ((k, p) ∷ m) ≡ listed_part t i store m
unfolding listed_part pointed
listed_part-before t i p k [] m h = refl
listed_part-before t i p k (s ∷ store) m h =
    ground (arith, listed_part-before t (suc i) p k store m (omega arith))

listed_part-entry :
    (t : Tally) (i p q : ℕ) (k : Bytes) (store : List WorkStats) (m : List (Bytes × ℕ))
    → p ≡ i + q
    → q < length store
    → pointed p m ≡ false
    → listed_part t i store ((k, p) ∷ m) ≡ tally t (record_at store q) + listed_part t i store m
unfolding listed_part pointed record_at
listed_part-entry t i p q k [] m e l h = absurd (omega arith)
listed_part-entry t i p zero k (s ∷ store) m e l h =
    ground (arith, listed_part-before t (suc i) p k store m (omega arith))
listed_part-entry t i p (suc q) k (s ∷ store) m e l h =
    let rest = listed_part-entry t (suc i) p q k store m (omega arith) (omega arith) h in
    ground (arith, rest)

-- Entries point to records, each to one of its own.
unfoldable Separate : ℕ → List (Bytes × ℕ) → Type 0
Separate n [] = Unit
Separate n ((k, p) ∷ m) = (p < n) × (pointed p m ≡ false) × Separate n m

row_total-listed :
    (t : Tally) (store : List WorkStats) (m : List (Bytes × ℕ))
    → Separate (length store) m
    → row_total t store m ≡ listed_part t 0 store m
unfolding row_total Separate
row_total-listed t store [] h = omega (arith, listed_part-nothing t 0 store)
row_total-listed t store ((k, p) ∷ m) h = omega (
  arith,
  listed_part-entry t 0 p p k store m (omega arith) h.0 h.1,
  row_total-listed t store m h.2,
)

-- An entry that points to a record is found under its key.
pointed-lookup :
    (p : ℕ) (m : List (Bytes × ℕ))
    → Distinct m
    → pointed p m ≡ true
    → (k : Bytes) × (lookup k m ≡ some p)
unfolding Distinct pointed lookup
pointed-lookup p [] d h = cc
pointed-lookup p ((j, q) ∷ m) d h = elim (Bool-cases (q == p)) [
  | inl e ↦ (j, ground (arith, bytes_eq.beq_iff j j))
  | inr e ↦
      let (k, found) = pointed-lookup p m d.1 (ground arith) in
      (k, ground (arith, bytes_eq.beq_iff j k))
]

entries-Separate :
    (ds : List Bytes) (m : List (Bytes × ℕ))
    → Distinct m
    → ((k : Bytes) (p : ℕ) → lookup k m ≡ some p → get_elem? ds p ≡ some k)
    → Separate (length ds) m
unfolding Distinct Separate lookup
entries-Separate ds [] d h = tt
entries-Separate ds ((j, q) ∷ m) d h =
    let mine : get_elem? ds q ≡ some j = h j q (ground (arith, bytes_eq.beq_iff j j)) in
    let rest : (k : Bytes) (p : ℕ) → lookup k m ≡ some p → get_elem? ds p ≡ some k =
      λ k p found. h k p (ground (arith, bytes_eq.beq_iff j k)) in
    (
      get_elem?-lt ds q j mine,
      (elim (Bool-cases (pointed q m)) [
        | inl e ↦
            let (k, found) = pointed-lookup q m d.1 e in absurd (ground (arith, rest k q found))
        | inr e ↦ e
      ]),
      entries-Separate ds m d.1 rest,
    )

-- What the rows of the map hold of a counter and what the records in no row hold of it, together.
abbrev pub shown : Tally → ShareHandler → ℕ
shown t sh = row_total t sh.store sh.stats + unlisted_part t 0 sh.store sh.stats

listed-shown :
    (t : Tally) (sh : ShareHandler)
    → IsListed sh.stats (names sh.store)
    → shown t sh ≡ total t sh.store
listed-shown t sh l =
    let separate : Separate (length sh.store) sh.stats =
      rw (length-names sh.store) at
        (entries-Separate (names sh.store) sh.stats l.single l.entries) in
    omega (arith, row_total-listed t sh.store sh.stats separate, parts_total t 0 sh.store sh.stats)

-- Where the accounts hold, the overall counters are the sums over the rows of the map and over the records
-- in no row.
pub Accounts-shown :
    (t : Tally) (sh : ShareHandler) → Accounts sh → shown t sh % 2 ^ 64 ≡ tally t sh.overall
Accounts-shown t sh a = omega (arith, listed-shown t sh a.listed, a.balanced t)

-- ===== src/Poolstratum/Stats/Totals.antt =====
-- The sums of the counters of all records that were made (src/poolstratum/share_handler.go).
use kaspa_stratum_bridge.Base.{
  ℕ, zero, suc, ◌+◌, ◌%◌, ◌^◌, ◌<◌, ◌≡◌, refl, ap, ◌⊎◌, inl, inr, List, [], ◌∷◌, ◌++◌, arith,
  length,
}
use kaspa_stratum_bridge.Text.{bytes_eq}
use kaspa_stratum_bridge.Poolstratum.Stats.{WorkStats, ShareHandler, add_one, modify}
use kaspa_stratum_bridge.Poolstratum.Stats.Listed.{IsListed, KeepsName, names, names-modify}

-- The four counters that the pool keeps for each worker and for all of them.
pub data Tally : Type 0 where
  blocks shares stales invalids : Tally

abbrev pub tally : Tally → WorkStats → ℕ
tally blocks s = s.blocks_found
tally shares s = s.shares_found
tally stales s = s.stale_shares
tally invalids s = s.invalid_shares

unfoldable pub total : Tally → List WorkStats → ℕ
total t [] = 0
total t (s ∷ store) = tally t s + total t store

abbrev pub Keeps : Tally → (WorkStats → WorkStats) → Type 0
Keeps t f = (s : WorkStats) → tally t (f s) ≡ tally t s

abbrev pub Adds : Tally → (WorkStats → WorkStats) → Type 0
Adds t f = (s : WorkStats) → tally t (f s) ≡ add_one (tally t s)

total-modify-Keeps :
    (t : Tally) (f : WorkStats → WorkStats) (p : ℕ) (store : List WorkStats)
    → Keeps t f
    → total t (modify p f store) ≡ total t store
unfolding total modify
total-modify-Keeps t f p [] h = refl
total-modify-Keeps t f zero (s ∷ store) h = omega (arith, h s)
total-modify-Keeps t f (suc p) (s ∷ store) h = omega (arith, total-modify-Keeps t f p store h)

total-modify-Adds :
    (t : Tally) (f : WorkStats → WorkStats) (p : ℕ) (store : List WorkStats)
    → Adds t f
    → p < length store
    → total t (modify p f store) % 2 ^ 64 ≡ (total t store + 1) % 2 ^ 64
unfolding total modify
total-modify-Adds t f p [] h l = absurd (omega arith)
total-modify-Adds t f zero (s ∷ store) h l = omega (arith, h s)
total-modify-Adds t f (suc p) (s ∷ store) h l =
    omega (arith, total-modify-Adds t f p store h (omega arith))

pub length-modify :
    (f : WorkStats → WorkStats) (p : ℕ) (store : List WorkStats)
    → length (modify p f store) ≡ length store
unfolding modify
length-modify f p [] = refl
length-modify f zero (s ∷ store) = refl
length-modify f (suc p) (s ∷ store) = ap suc (length-modify f p store)

pub total-append :
    (t : Tally) (xs ys : List WorkStats) → total t (xs ++ ys) ≡ total t xs + total t ys
unfolding total
total-append t [] ys = omega arith
total-append t (s ∷ xs) ys = omega (arith, total-append t xs ys)

-- The overall counters are the sums of the counters of all records that were made, modulo the width of
-- an int64; the map points to records under their devices, and holds every record whose device has a
-- name.
pub record Accounts (sh : ShareHandler) : Type 0 where
  pub listed : IsListed sh.stats (names sh.store)
  pub balanced : (t : Tally) → total t sh.store % 2 ^ 64 ≡ tally t sh.overall

-- The two functions agree on each counter: both keep it or both add one.
abbrev pub Agree : (WorkStats → WorkStats) → (WorkStats → WorkStats) → Type 0
Agree f g = (t : Tally) → (Keeps t f × Keeps t g) ⊎ (Adds t f × Adds t g)

-- A record and the overall counters change alike.
pub modify-balanced :
    (sh : ShareHandler) (p : ℕ) (f g : WorkStats → WorkStats)
    → Agree f g
    → p < length sh.store
    → Accounts sh
    → (t : Tally) → total t (modify p f sh.store) % 2 ^ 64 ≡ tally t (g sh.overall)
modify-balanced sh p f g agree l a t = elim (agree t) [
  | inl (kf, kg) ↦ omega (arith, total-modify-Keeps t f p sh.store kf, kg sh.overall, a.balanced t)
  | inr (af, ag) ↦ omega (arith, total-modify-Adds t f p sh.store af l, ag sh.overall, a.balanced t)
]

pub modify-Accounts :
    (sh : ShareHandler) (p : ℕ) (f g : WorkStats → WorkStats)
    → Agree f g
    → KeepsName f
    → p < length sh.store
    → Accounts sh
    → Accounts (record sh { store = modify p f sh.store; overall = g sh.overall })
modify-Accounts sh p f g agree named l a = record {
  listed = rw (names-modify f p sh.store named) a.listed;
  balanced = modify-balanced sh p f g agree l a;
}

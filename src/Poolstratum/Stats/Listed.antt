-- ===== src/Poolstratum/Stats/Listed.antt =====
-- Which records the map of the statistics holds (src/poolstratum/share_handler.go).
use kaspa_stratum_bridge.Base.{
  ℕ, zero, suc, ◌<◌, ◌≡◌, refl, ap, ◌⊎◌, List, [], ◌∷◌, ◌++◌, none, some, arith, length, get_elem?,
  set, ◌==◌, if◌then◌else◌,
}
use kaspa_stratum_bridge.Base.GoMap.{lookup, insert, delete, lookup-insert, lookup-delete}
use kaspa_stratum_bridge.Text.{Bytes, bytes_eq}
use kaspa_stratum_bridge.Poolstratum.Stats.{WorkStats, modify}

-- The devices of the records, in the order in which the records were made.
unfoldable pub names : List WorkStats → List Bytes
names [] = []
names (s ∷ store) = s.device_name ∷ names store

-- A key stands once in a map.
unfoldable pub Distinct : List (Bytes × ℕ) → Type 0
Distinct [] = Unit
Distinct ((k, p) ∷ m) = (lookup k m ≡ none) × Distinct m

insert-Distinct : (k : Bytes) (v : ℕ) (m : List (Bytes × ℕ)) → Distinct m → Distinct (insert k v m)
unfolding Distinct insert lookup
insert-Distinct k v [] d = (refl, tt)
insert-Distinct k v ((j, w) ∷ m) d = ground (
  arith,
  lookup-insert k j v m,
  bytes_eq.beq_iff j k,
  bytes_eq.beq_iff k j,
  insert-Distinct k v m d.1,
)

delete-Distinct : (k : Bytes) (m : List (Bytes × ℕ)) → Distinct m → Distinct (delete k m)
unfolding Distinct delete
delete-Distinct k [] d = tt
delete-Distinct k ((j, w) ∷ m) d = ground (arith, lookup-delete k j m, delete-Distinct k m d.1)

-- An entry of the map points to a record whose device is its key, and a record whose device has a name
-- stands in the map under that name: only a record without one can have left the map.
pub record IsListed (stats : List (Bytes × ℕ)) (devices : List Bytes) : Type 0 where
  pub single : Distinct stats
  pub entries : (k : Bytes) (p : ℕ) → lookup k stats ≡ some p → get_elem? devices p ≡ some k
  pub kept :
      (p : ℕ) (k : Bytes) → get_elem? devices p ≡ some k → (k ≡ []) ⊎ (lookup k stats ≡ some p)

pub length-names : (store : List WorkStats) → length (names store) ≡ length store
unfolding names
length-names [] = refl
length-names (s ∷ store) = ap suc (length-names store)

pub names-append :
    (store : List WorkStats) (s : WorkStats)
    → names (store ++ s ∷ []) ≡ names store ++ s.device_name ∷ []
unfolding names
names-append [] s = refl
names-append (x ∷ store) s = ap (λ l. x.device_name ∷ l) (names-append store s)

-- A change of a record that keeps its device.
abbrev pub KeepsName : (WorkStats → WorkStats) → Type 0
KeepsName f = (s : WorkStats) → (f s).device_name ≡ s.device_name

pub names-modify :
    (f : WorkStats → WorkStats) (p : ℕ) (store : List WorkStats)
    → KeepsName f
    → names (modify p f store) ≡ names store
unfolding names modify
names-modify f p [] h = refl
names-modify f zero (s ∷ store) h = ap (λ d. d ∷ names store) (h s)
names-modify f (suc p) (s ∷ store) h = ap (λ l. s.device_name ∷ l) (names-modify f p store h)

pub names-rename :
    (device : Bytes) (p : ℕ) (store : List WorkStats)
    → names (modify p (λ s. record s { device_name = device }) store) ≡ set (names store) p device
unfolding names modify
names-rename device p [] = refl
names-rename device zero (s ∷ store) = refl
names-rename device (suc p) (s ∷ store) = ap (λ l. s.device_name ∷ l) (names-rename device p store)

pub get_elem?-lt : (ds : List Bytes) (p : ℕ) (k : Bytes) → get_elem? ds p ≡ some k → p < length ds
get_elem?-lt [] p k h = cc
get_elem?-lt (d ∷ ds) zero k h = omega arith
get_elem?-lt (d ∷ ds) (suc p) k h = omega (arith, get_elem?-lt ds p k h)

get_elem?-set :
    (ds : List Bytes) (p q : ℕ) (d : Bytes)
    → p < length ds
    → get_elem? (set ds p d) q ≡ (if p == q then some d else get_elem? ds q)
get_elem?-set [] p q d h = absurd (omega arith)
get_elem?-set (x ∷ ds) zero zero d h = refl
get_elem?-set (x ∷ ds) zero (suc q) d h = ground arith
get_elem?-set (x ∷ ds) (suc p) zero d h = ground arith
get_elem?-set (x ∷ ds) (suc p) (suc q) d h = ground (arith, get_elem?-set ds p q d (omega arith))

get_elem?-append :
    (ds : List Bytes) (d : Bytes) (q : ℕ)
    → get_elem? (ds ++ d ∷ []) q ≡ (if q == length ds then some d else get_elem? ds q)
get_elem?-append [] d zero = refl
get_elem?-append [] d (suc q) = ground arith
get_elem?-append (x ∷ ds) d zero = ground arith
get_elem?-append (x ∷ ds) d (suc q) = ground (arith, get_elem?-append ds d q)

module _ (stats : List (Bytes × ℕ)) (ds : List Bytes) (listed : IsListed stats ds) where
  pub lookup-lt : (k : Bytes) (p : ℕ) → lookup k stats ≡ some p → p < length ds
  lookup-lt k p h = get_elem?-lt ds p k (listed.entries k p h)

  -- The entry of an address is moved to a device that has no entry, or to the empty one.
  pub renamed-IsListed :
      (remote device : Bytes) (p : ℕ)
      → lookup remote stats ≡ some p
      → (device ≡ []) ⊎ (lookup device stats ≡ none)
      → IsListed (insert device p (delete remote stats)) (set ds p device)
  renamed-IsListed remote device p found free = record {
    single = insert-Distinct device p _ (delete-Distinct remote stats listed.single);
    entries = λ k q h. ground (
      arith,
      found,
      free,
      h,
      lookup-insert device k p (delete remote stats),
      lookup-delete remote k stats,
      get_elem?-set ds p q device (lookup-lt remote p found),
      bytes_eq.beq_iff device k,
      bytes_eq.beq_iff remote k,
      listed.entries remote p found,
      listed.entries k q,
    );
    kept = λ q k h. ground (
      arith,
      found,
      free,
      h,
      lookup-insert device k p (delete remote stats),
      lookup-delete remote k stats,
      get_elem?-set ds p q device (lookup-lt remote p found),
      bytes_eq.beq_iff device k,
      bytes_eq.beq_iff remote k,
      listed.kept q k,
    );
  }

  -- A record is made under an address that has no entry.
  pub created-IsListed :
      (remote : Bytes)
      → lookup remote stats ≡ none
      → IsListed (insert remote (length ds) stats) (ds ++ remote ∷ [])
  created-IsListed remote missing = record {
    single = insert-Distinct remote (length ds) stats listed.single;
    entries = λ k q h. ground (
      arith,
      missing,
      h,
      lookup-insert remote k (length ds) stats,
      get_elem?-append ds remote q,
      bytes_eq.beq_iff remote k,
      listed.entries k q,
      lookup-lt k q,
    );
    kept = λ q k h. ground (
      arith,
      missing,
      h,
      lookup-insert remote k (length ds) stats,
      get_elem?-append ds remote q,
      bytes_eq.beq_iff remote k,
      listed.kept q k,
    );
  }

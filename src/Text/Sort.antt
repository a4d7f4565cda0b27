-- ===== src/Text/Sort.antt =====
-- `sort.Strings`: the order of texts by their bytes. A sorted row is determined by what it holds, so that
-- insertion stands for whatever way the library sorts.
use mathlib.Core.List.{Perm, Permᴰ}
use mathlib.Core.List as List
use mathlib.Core.List.Perm
use mathlib.Core.List.Permᴰ
use mathlib.Core.Path.{ap₂}
use mathlib.Core.Logic.{∥∥₁_elim}
use native.Mathlib.Nat.{ℕ_set}
use kaspa_stratum_bridge.Base.{
  ◌≡◌, refl, ap, ◌∙◌, arith, Bool, true, false, List, [], ◌∷◌, ltb, ◌==◌, if◌then◌else◌,
}
use kaspa_stratum_bridge.Text.{Bytes}

-- `s <= t`
unfoldable pub bytes_leb : Bytes → Bytes → Bool
bytes_leb [] t = true
bytes_leb (a ∷ s) [] = false
bytes_leb (a ∷ s) (b ∷ t) =
    let rest = bytes_leb s t in if ltb a b then true else if a == b then rest else false

unfoldable pub insert_sorted : Bytes → List Bytes → List Bytes
insert_sorted x [] = x ∷ []
insert_sorted x (y ∷ ys) =
    let later = y ∷ insert_sorted x ys in if bytes_leb x y then x ∷ y ∷ ys else later

unfoldable pub sort_strings : List Bytes → List Bytes
unfolding insert_sorted
sort_strings [] = []
sort_strings (x ∷ xs) = insert_sorted x (sort_strings xs)

leb_total : (s t : Bytes) → bytes_leb s t ≡ false → bytes_leb t s ≡ true
unfolding bytes_leb
leb_total [] [] h = cc
leb_total [] (b ∷ t) h = cc
leb_total (a ∷ s) [] h = refl
leb_total (a ∷ s) (b ∷ t) h = ground (arith, leb_total s t)

leb_antisym : (s t : Bytes) → bytes_leb s t ≡ true → bytes_leb t s ≡ true → s ≡ t
unfolding bytes_leb
leb_antisym [] [] h k = refl
leb_antisym [] (b ∷ t) h k = cc
leb_antisym (a ∷ s) [] h k = cc
leb_antisym (a ∷ s) (b ∷ t) h k = ground (arith, leb_antisym s t)

leb_trans : (s t u : Bytes) → bytes_leb s t ≡ true → bytes_leb t u ≡ true → bytes_leb s u ≡ true
unfolding bytes_leb
leb_trans [] t u h k = refl
leb_trans (a ∷ s) [] u h k = cc
leb_trans (a ∷ s) (b ∷ t) [] h k = cc
leb_trans (a ∷ s) (b ∷ t) (c ∷ u) h k = ground (arith, leb_trans s t u)

-- Two insertions may be swapped.
insert_sorted_comm :
    (a b : Bytes) (xs : List Bytes)
    → insert_sorted a (insert_sorted b xs) ≡ insert_sorted b (insert_sorted a xs)
unfolding insert_sorted
insert_sorted_comm a b [] = ground (arith, leb_total a b, leb_antisym a b)
insert_sorted_comm a b (y ∷ ys) = ground (
  arith,
  leb_total a b,
  leb_antisym a b,
  leb_trans a b y,
  leb_trans b a y,
  insert_sorted_comm a b ys,
)

-- `x <= y` of the first of the rest.
unfoldable pub First : Bytes → List Bytes → Type 0
First x [] = Unit
First x (y ∷ ys) = bytes_leb x y ≡ true

-- A sorted row.
unfoldable pub Ascending : List Bytes → Type 0
Ascending [] = Unit
Ascending (x ∷ xs) = First x xs × Ascending xs

insert_sorted-Permᴰ : (x : Bytes) (xs : List Bytes) → Permᴰ (insert_sorted x xs) (x ∷ xs)
unfolding insert_sorted
insert_sorted-Permᴰ x [] = Permᴰ.refl (x ∷ [])
insert_sorted-Permᴰ x (y ∷ ys) = by_order (insert_sorted-Permᴰ x ys) (bytes_leb x y)
  where
    by_order :
        Permᴰ (insert_sorted x ys) (x ∷ ys)
        → (b : Bool) → Permᴰ (if b then x ∷ y ∷ ys else y ∷ insert_sorted x ys) (x ∷ y ∷ ys)
    by_order d true = Permᴰ.refl (x ∷ y ∷ ys)
    by_order d false = Permᴰ.trans (Permᴰ.cons refl d) (Permᴰ.swap refl refl)

sort_strings-Permᴰ : (xs : List Bytes) → Permᴰ (sort_strings xs) xs
unfolding sort_strings
sort_strings-Permᴰ [] = Permᴰ.nil
sort_strings-Permᴰ (x ∷ xs) =
    Permᴰ.trans (insert_sorted-Permᴰ x (sort_strings xs)) (Permᴰ.cons refl (sort_strings-Permᴰ xs))

insert_sorted-First :
    (z x : Bytes) (xs : List Bytes)
    → bytes_leb z x ≡ true
    → First z xs
    → First z (insert_sorted x xs)
unfolding insert_sorted First
insert_sorted-First z x [] h f = h
insert_sorted-First z x (y ∷ ys) h f = by_order (bytes_leb x y)
  where
    by_order : (b : Bool) → First z (if b then x ∷ y ∷ ys else y ∷ insert_sorted x ys)
    by_order true = h
    by_order false = f

insert_sorted-Ascending :
    (x : Bytes) (xs : List Bytes) → Ascending xs → Ascending (insert_sorted x xs)
unfolding insert_sorted Ascending First
insert_sorted-Ascending x [] a = (tt, tt)
insert_sorted-Ascending x (y ∷ ys) a =
    by_order (insert_sorted-Ascending x ys a.1) (bytes_leb x y) refl
  where
    by_order :
        Ascending (insert_sorted x ys)
        → (b : Bool) → bytes_leb x y ≡ b
        → Ascending (if b then x ∷ y ∷ ys else y ∷ insert_sorted x ys)
    by_order r true e = (e, a)
    by_order r false e = (insert_sorted-First y x ys (leb_total x y e) a.0, r)

pub sort_strings-Ascending : (xs : List Bytes) → Ascending (sort_strings xs)
unfolding sort_strings Ascending
sort_strings-Ascending [] = tt
sort_strings-Ascending (x ∷ xs) =
    insert_sorted-Ascending x (sort_strings xs) (sort_strings-Ascending xs)

sort_strings-same : {xs ys : List Bytes} → Permᴰ xs ys → sort_strings xs ≡ sort_strings ys
unfolding sort_strings
sort_strings-same Permᴰ.nil = refl
sort_strings-same (Permᴰ.cons {a = a} e d) = ap₂ insert_sorted e (sort_strings-same d)
sort_strings-same (Permᴰ.swap {a = a} {b = b} {l = l} e f) =
    insert_sorted_comm a b (sort_strings l)
    ∙ ap₂ insert_sorted f (ap (λ c. insert_sorted c (sort_strings l)) e)
sort_strings-same (Permᴰ.trans d e) = sort_strings-same d ∙ sort_strings-same e

-- Two rows that hold the same texts are sorted to the same row.
pub sort_strings_unique : {xs ys : List Bytes} → Perm xs ys → sort_strings xs ≡ sort_strings ys
sort_strings_unique {xs} {ys} p =
    ∥∥₁_elim p (List.is_set (List.is_set ℕ_set) (sort_strings xs) (sort_strings ys))
      (λ d. sort_strings-same d)

-- The sorted row holds the texts that it was made of.
pub sort_strings-Perm : {xs ys : List Bytes} → Perm xs ys → Perm (sort_strings xs) ys
sort_strings-Perm {xs} p = Perm.trans ∣ sort_strings-Permᴰ xs ∣₁ p

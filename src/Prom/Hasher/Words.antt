-- ===== src/Prom/Hasher/Words.antt =====
-- The hash of 32 bytes as four words, and the reads of src/prom/hasher.go.
use mathlib.Core.List.{append_assoc, append-nil}
use kaspa_stratum_bridge.Base.{
  ℕ, zero, suc, ◌<◌, ◌≡◌, refl, sym, ap, ◌∙◌, List, [], ◌∷◌, ◌++◌, some, All, arith, length,
  length-append, length-take, length-drop, take, drop, take-append-drop, take-append, drop-append,
  regroup, ltb, false,
}
use kaspa_stratum_bridge.Text.{Bytes}
use kaspa_stratum_bridge.Text.Endian.{IsBytes}
use kaspa_stratum_bridge.Prom.Hasher.{uint64_at}

-- A header hash, cut into words of eight bytes.
pub record Words (input : Bytes) : Type 0 where
  pub a : Bytes
  pub b : Bytes
  pub c : Bytes
  pub d : Bytes
  pub sizes : (length a ≡ 8) × (length b ≡ 8) × (length c ≡ 8) × (length d ≡ 8)
  pub bytes : IsBytes a × IsBytes b × IsBytes c × IsBytes d
  pub joined : input ≡ a ++ (b ++ (c ++ d))

All-take {ℓ κ} : {A : Type ℓ} (P : A → Type κ) (n : ℕ) (xs : List A) → All P xs → All P (take n xs)
All-take P zero xs h = tt
All-take P (suc n) [] h = tt
All-take P (suc n) (x ∷ xs) h = (h.0, All-take P n xs h.1)

All-drop {ℓ κ} : {A : Type ℓ} (P : A → Type κ) (n : ℕ) (xs : List A) → All P xs → All P (drop n xs)
All-drop P zero xs h = h
All-drop P (suc n) [] h = tt
All-drop P (suc n) (x ∷ xs) h = All-drop P n xs h.1

pub split-Words : (input : Bytes) → length input ≡ 32 → IsBytes input → Words input
split-Words input l h =
    let p = λ (b : ℕ). b < 256 in
    let r₁ = drop 8 input in
    let r₂ = drop 8 r₁ in
    let r₃ = drop 8 r₂ in
    let l₁ : length r₁ ≡ 24 = omega (arith, length-drop 8 input) in
    let l₂ : length r₂ ≡ 16 = omega (arith, length-drop 8 r₁) in
    let l₃ : length r₃ ≡ 8 = omega (arith, length-drop 8 r₂) in
    let h₁ = All-drop p 8 input h in
    let h₂ = All-drop p 8 r₁ h₁ in
    record {
      a = take 8 input;
      b = take 8 r₁;
      c = take 8 r₂;
      d = r₃;
      sizes = (
        length-take 8 input (omega arith),
        length-take 8 r₁ (omega arith),
        length-take 8 r₂ (omega arith),
        l₃,
      );
      bytes = (All-take p 8 input h, All-take p 8 r₁ h₁, All-take p 8 r₂ h₂, All-drop p 8 r₂ h₂);
      joined = sym (
          ap (◌++◌ (take 8 input))
            (ap (◌++◌ (take 8 r₁)) (take-append-drop 8 r₂) ∙ take-append-drop 8 r₁)
          ∙ take-append-drop 8 input);
    }

drop_sized : (front s : Bytes) (n : ℕ) → length front ≡ n → drop n (front ++ s) ≡ s
drop_sized front s n h = ap (λ t. drop t (front ++ s)) (sym h) ∙ drop-append front s

take_sized : (front s : Bytes) (n : ℕ) → length front ≡ n → take n (front ++ s) ≡ front
take_sized front s n h = ap (λ t. take t (front ++ s)) (sym h) ∙ take-append front s

-- The word that stands behind a front of known length.
uint64_at_lem :
    (order : Bytes → ℕ) (front word rest : Bytes) (offset : ℕ)
    → length front ≡ offset
    → length word ≡ 8
    → uint64_at order (front ++ (word ++ rest)) offset ≡ some (order word)
unfolding uint64_at
uint64_at_lem order front word rest offset hf hw =
    let enough : ltb (length (word ++ rest)) 8 ≡ false = ground (arith, length-append word rest) in
    rw (drop_sized front (word ++ rest) offset hf, take_sized word rest 8 hw, enough)

-- The four reads that both functions make.
pub reads :
    (order : Bytes → ℕ) {input : Bytes} (w : Words input)
    → (uint64_at order input 0 ≡ some (order w.a))
      × (uint64_at order input 8 ≡ some (order w.b))
      × (uint64_at order input 16 ≡ some (order w.c))
      × (uint64_at order input 24 ≡ some (order w.d))
reads order w =
    let (la, lb, lc, ld) = w.sizes in
    let fourth : w.a ++ (w.b ++ (w.c ++ w.d)) ≡ (w.a ++ (w.b ++ w.c)) ++ (w.d ++ []) =
      sym (regroup w.a w.b w.c w.d) ∙ ap (◌++◌ (w.a ++ (w.b ++ w.c))) (sym (append-nil w.d)) in
    let front : length (w.a ++ (w.b ++ w.c)) ≡ 24 =
      omega (arith, length-append w.a (w.b ++ w.c), length-append w.b w.c) in
    rw w.joined (
      uint64_at_lem order [] w.a (w.b ++ (w.c ++ w.d)) 0 refl la,
      uint64_at_lem order w.a w.b (w.c ++ w.d) 8 la lb,
      rw (← append_assoc w.a w.b (w.c ++ w.d))
          (uint64_at_lem order (w.a ++ w.b) w.c w.d 16 (omega (arith, length-append w.a w.b)) lc),
      ap (λ s. uint64_at order s 24) fourth
          ∙ uint64_at_lem order (w.a ++ (w.b ++ w.c)) w.d [] 24 front ld,
    )

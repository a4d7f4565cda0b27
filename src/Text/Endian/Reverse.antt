-- ===== src/Text/Endian/Reverse.antt =====
-- The two byte orders are each other's reverse.
use mathlib.Core.List.{reverse, reverse-cons, reverse-reverse}
use native.Mathlib.Nat.{pow-suc}
use kaspa_stratum_bridge.Base.{
  ℕ, zero, suc, ◌+◌, ◌*◌, ◌/◌, ◌%◌, ◌^◌, ◌<◌, ◌≡◌, refl, sym, ap, ◌∙◌, List, [], ◌∷◌, ◌++◌,
  All-append, arith, length, length-append,
}
use kaspa_stratum_bridge.Text.Endian.{
  IsBytes, le_bytes, le_number, be_bytes, be_number_from, be_number, le_bytes-le_number,
  length-be_bytes, le_bytes-IsBytes,
}

be_bytes-reverse : (k n : ℕ) → be_bytes k n ≡ reverse (le_bytes k n)
unfolding be_bytes le_bytes
be_bytes-reverse zero n = refl
be_bytes-reverse (suc k) n =
    rw (reverse-cons (n % 256) (le_bytes k (n / 256)), be_bytes-reverse k (n / 256))

length-reverse {ℓ} : {A : Type ℓ} (s : List A) → length (reverse s) ≡ length s
length-reverse [] = refl
length-reverse (x ∷ s) =
    omega
      (arith, ap length (reverse-cons x s), length-append (reverse s) (x ∷ []), length-reverse s)

reverse-IsBytes : (s : List ℕ) → IsBytes s → IsBytes (reverse s)
reverse-IsBytes [] h = tt
reverse-IsBytes (b ∷ s) h =
    rw (reverse-cons b s)
      (All-append (λ b. b < 256) (reverse s) (b ∷ []) (reverse-IsBytes s h.1) (h.0, tt))

le_number-snoc : (s : List ℕ) (b : ℕ) → le_number (s ++ b ∷ []) ≡ le_number s + 256 ^ length s * b
unfolding le_number
le_number-snoc [] b = omega arith
le_number-snoc (c ∷ s) b =
    omega (arith, le_number-snoc s b, ap (λ (t : ℕ). t * b) (pow-suc 256 (length s)))

be_number_from-reverse :
    (n : ℕ) (s : List ℕ) → be_number_from n s ≡ n * 256 ^ length s + le_number (reverse s)
unfolding be_number_from le_number
be_number_from-reverse n [] = omega arith
be_number_from-reverse n (b ∷ s) = omega (
  arith,
  be_number_from-reverse (n * 256 + b) s,
  ap le_number (reverse-cons b s),
  le_number-snoc (reverse s) b,
  ap (λ (t : ℕ). 256 ^ t * b) (length-reverse s),
  ap (λ (t : ℕ). n * t) (pow-suc 256 (length s)),
)

le_number-lt : (s : List ℕ) → IsBytes s → le_number s < 256 ^ length s
unfolding le_number
le_number-lt [] h = omega arith
le_number-lt (b ∷ s) h = omega (arith, le_number-lt s h.1, pow-suc 256 (length s))

pub be_number-lt : (s : List ℕ) → IsBytes s → be_number s < 256 ^ length s
unfolding be_number
be_number-lt s h = omega (
  arith,
  be_number_from-reverse 0 s,
  le_number-lt (reverse s) (reverse-IsBytes s h),
  ap (λ (t : ℕ). 256 ^ t) (length-reverse s),
)

pub le_number_fits : (k : ℕ) (s : List ℕ) → length s ≡ k → IsBytes s → le_number s < 256 ^ k
le_number_fits k s l h = omega (arith, le_number-lt s h, ap (λ (t : ℕ). 256 ^ t) l)

pub le_bytes_sized : (k : ℕ) (s : List ℕ) → length s ≡ k → IsBytes s → le_bytes k (le_number s) ≡ s
le_bytes_sized k s l h = ap (λ t. le_bytes t (le_number s)) (sym l) ∙ le_bytes-le_number s h

-- Bytes read as a big-endian word are written back.
pub be_bytes-be_number :
    (k : ℕ) (s : List ℕ) → length s ≡ k → IsBytes s → be_bytes k (be_number s) ≡ s
unfolding be_number
be_bytes-be_number k s l h =
    let value : be_number_from 0 s ≡ le_number (reverse s) =
      omega (arith, be_number_from-reverse 0 s) in
    rw (value, be_bytes-reverse k (le_number (reverse s)))
      (ap reverse (le_bytes_sized k (reverse s) (length-reverse s ∙ l) (reverse-IsBytes s h))
        ∙ reverse-reverse s)

be_bytes-IsBytes : (k n : ℕ) → IsBytes (be_bytes k n)
be_bytes-IsBytes k n =
    rw (be_bytes-reverse k n) (reverse-IsBytes (le_bytes k n) (le_bytes-IsBytes k n))

-- A word written in one order, read in the other and written again is written in the other.
pub be_bytes_swap : (k n : ℕ) → be_bytes k (le_number (be_bytes k n)) ≡ le_bytes k n
be_bytes_swap k n =
    be_bytes-reverse k (le_number (be_bytes k n))
    ∙ ap reverse (
        le_bytes_sized k (be_bytes k n) (length-be_bytes k n) (be_bytes-IsBytes k n)
        ∙ be_bytes-reverse k n)
    ∙ reverse-reverse (le_bytes k n)

pub swapped-lt : (k n : ℕ) → le_number (be_bytes k n) < 256 ^ k
swapped-lt k n = le_number_fits k (be_bytes k n) (length-be_bytes k n) (be_bytes-IsBytes k n)

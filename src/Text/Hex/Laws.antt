-- ===== src/Text/Hex/Laws.antt =====
-- `%0*x` prints the fixed-width digits of a number that fits.
use mathlib.Core.List.{append_assoc, append-nil}
use kaspa_stratum_bridge.Base.{
  ℕ, zero, suc, ◌-◌, ◌/◌, ◌%◌, ◌^◌, ◌<◌, ◌≡◌, refl, sym, ap, ◌∙◌, inl, inr, List, [], ◌∷◌, ◌++◌,
  arith, length, length-append, length-replicate, replicate, ltb, lt→ltb, Bool-cases,
}
use kaspa_stratum_bridge.Text.Hex.{hex_digit, hex_loop, format_hex, hex_fixed}
use kaspa_stratum_bridge.Text.{pad_zeros}

pub length-hex_fixed : (k n : ℕ) → length (hex_fixed k n) ≡ k
unfolding hex_fixed
length-hex_fixed zero n = refl
length-hex_fixed (suc k) n = omega (
  arith,
  length-append (hex_fixed k (n / 16)) (hex_digit (n % 16) ∷ []),
  length-hex_fixed k (n / 16),
)

replicate-snoc {ℓ} :
    {A : Type ℓ} (k : ℕ) (a : A) (s : List A) → replicate k a ++ a ∷ s ≡ a ∷ replicate k a ++ s
replicate-snoc zero a s = refl
replicate-snoc (suc k) a s = ap (◌∷◌ a) (replicate-snoc k a s)

hex_fixed-zero : (k : ℕ) → hex_fixed k 0 ≡ replicate k b'0'
unfolding hex_fixed hex_digit
hex_fixed-zero zero = refl
hex_fixed-zero (suc k) =
    rw (hex_fixed-zero k) (replicate-snoc k b'0' [] ∙ ap (◌∷◌ b'0') (append-nil (replicate k b'0')))

-- A number of one digit in a field of `k + 1`.
hex_fixed_small :
    (k n : ℕ) (tail : List ℕ)
    → n < 16
    → replicate k b'0' ++ hex_digit n ∷ tail ≡ hex_fixed (suc k) n ++ tail
unfolding hex_fixed
hex_fixed_small k n tail h =
    let low : n % 16 ≡ n = omega arith in
    let high : n / 16 ≡ 0 = omega arith in
    rw (low, high, hex_fixed-zero k) (sym (append_assoc (replicate k b'0') (hex_digit n ∷ []) tail))

hex_fixed_snoc :
    (k n : ℕ) (tail : List ℕ)
    → hex_fixed k (n / 16) ++ hex_digit (n % 16) ∷ tail ≡ hex_fixed (suc k) n ++ tail
unfolding hex_fixed
hex_fixed_snoc k n tail = sym (append_assoc (hex_fixed k (n / 16)) (hex_digit (n % 16) ∷ []) tail)

hex_loop-hex_fixed :
    (fuel k n : ℕ) (tail : List ℕ)
    → k < fuel
    → n < 16 ^ suc k
    → (z : ℕ) × (replicate z b'0' ++ hex_loop fuel n tail ≡ hex_fixed (suc k) n ++ tail)
unfolding hex_loop
hex_loop-hex_fixed zero k n tail hf h = absurd (omega arith)
hex_loop-hex_fixed (suc fuel) zero n tail hf h =
    (0, rw (lt→ltb n 16 (omega arith)) (hex_fixed_small 0 n tail (omega arith)))
hex_loop-hex_fixed (suc fuel) (suc k) n tail hf h = elim (Bool-cases (ltb n 16)) [
  | inl small ↦ (suc k, rw small (hex_fixed_small (suc k) n tail (ground arith)))
  | inr large ↦
      let (z, e) =
        hex_loop-hex_fixed fuel k (n / 16) (hex_digit (n % 16) ∷ tail) (omega arith)
          (omega arith) in
      (z, rw large (e ∙ hex_fixed_snoc (suc k) n tail))
]

-- `%0*x` in a field that the number fits prints exactly the field's digits.
pub pad_zeros-format_hex :
    (k n : ℕ) → k < 16 → n < 16 ^ suc k → pad_zeros (suc k) (format_hex n) ≡ hex_fixed (suc k) n
unfolding pad_zeros format_hex
pad_zeros-format_hex k n hk h =
    let (z, e) = hex_loop-hex_fixed 16 k n [] hk h in
    let fits : suc k - length (hex_loop 16 n []) ≡ z = omega (
      arith,
      ap length e,
      length-append (replicate z b'0') (hex_loop 16 n []),
      length-append (hex_fixed (suc k) n) [],
      length-replicate {A = ℕ} z b'0',
      length-hex_fixed (suc k) n,
    ) in
    rw fits (e ∙ append-nil (hex_fixed (suc k) n))

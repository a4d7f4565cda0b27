-- ===== src/Text/Digits/Laws.antt =====
-- `ParseUint` in base 16 reads every text of at most 16 digits, and gives its value.
use native.Mathlib.Nat.{pow-suc, pow-le-pow_right, mul-le-mul_left, mul-le-mul_right}
use kaspa_stratum_bridge.Base.{
  ℕ, zero, suc, ◌+◌, ◌*◌, ◌/◌, ◌%◌, ◌^◌, ◌≤◌, ◌<◌, ◌≡◌, refl, ap, Bool, true, List, [], ◌∷◌, ◌++◌,
  ◌&&◌, ◌||◌, All, All-append, arith, length, replicate, some, ok, leb,
}
use kaspa_stratum_bridge.Text.Digits.{
  digit_value, add_digit, parse_digits, parse_uint, hex_value, number_from,
}
use kaspa_stratum_bridge.Text.Hex.{hex_digit, hex_fixed}

abbrev pub is_hex : ℕ → Bool
is_hex c = leb b'0' c && leb c b'9' || (leb b'a' c && leb c b'f' || leb b'A' c && leb c b'F')

-- A text of hexadecimal digits.
abbrev pub IsHex : List ℕ → Type 0
IsHex = All (λ c. is_hex c ≡ true)

pub hex_value-lt : (c : ℕ) → is_hex c ≡ true → hex_value c < 16
unfolding hex_value
hex_value-lt c h = ground arith

digit_value-hex : (c : ℕ) → is_hex c ≡ true → digit_value c ≡ some (hex_value c)
unfolding digit_value hex_value
digit_value-hex c h = ground arith

add_digit-hex :
    (n c : ℕ) → is_hex c ≡ true → n < 2 ^ 60 → add_digit 16 n c ≡ ok (n * 16 + hex_value c)
unfolding add_digit
add_digit-hex n c h hn = rw (digit_value-hex c h, add_digit) (ground (arith, hex_value-lt c h))

pub number_from-append :
    (n : ℕ) (s t : List ℕ) → number_from n (s ++ t) ≡ number_from (number_from n s) t
unfolding number_from
number_from-append n [] t = refl
number_from-append n (c ∷ s) t = number_from-append (n * 16 + hex_value c) s t

pow_pos : (k : ℕ) → 0 < 16 ^ k
pow_pos zero = omega arith
pow_pos (suc k) = omega (arith, pow_pos k)

-- One more digit stays within a field that is one digit shorter.
next-le : (n c k : ℕ) → is_hex c ≡ true → (n * 16 + hex_value c + 1) * 16 ^ k ≤ (n + 1) * 16 ^ suc k
next-le n c k h = omega (
  arith,
  mul-le-mul_right {m = n * 16 + hex_value c + 1} {n = (n + 1) * 16} (16 ^ k)
      (omega (arith, hex_value-lt c h)),
  ap (λ (t : ℕ). (n + 1) * t) (pow-suc 16 k),
)

pub number_from-lt : (n : ℕ) (s : List ℕ) → IsHex s → number_from n s < (n + 1) * 16 ^ length s
unfolding number_from
number_from-lt n [] h = omega arith
number_from-lt n (c ∷ s) h =
    omega (arith, number_from-lt (n * 16 + hex_value c) s h.1, next-le n c (length s) h.0)

fits_limit : (n k : ℕ) → (n + 1) * 16 ^ suc k ≤ 2 ^ 64 → n < 2 ^ 60
fits_limit n k h = omega (
  arith,
  mul-le-mul_left {m = 1} {n = 16 ^ k} (n + 1) (pow_pos k),
  ap (λ (t : ℕ). (n + 1) * t) (pow-suc 16 k),
)

pub parse_digits-hex :
    (n : ℕ) (s : List ℕ)
    → IsHex s
    → (n + 1) * 16 ^ length s ≤ 2 ^ 64
    → parse_digits 16 n s ≡ ok (number_from n s)
unfolding parse_digits number_from
parse_digits-hex n [] h hn = refl
parse_digits-hex n (c ∷ s) h hn =
    rw (add_digit-hex n c h.0 (fits_limit n (length s) hn), parse_digits)
      (parse_digits-hex (n * 16 + hex_value c) s h.1 (omega (arith, next-le n c (length s) h.0)))

pub parse_uint-hex :
    (c : ℕ) (s : List ℕ)
    → IsHex (c ∷ s)
    → length (c ∷ s) ≤ 16
    → parse_uint 16 (c ∷ s) ≡ ok (number_from 0 (c ∷ s))
unfolding parse_uint
parse_uint-hex c s h hl =
    parse_digits-hex 0 (c ∷ s) h
      (omega (arith, pow-le-pow_right {n = 16} (omega arith) {i = length (c ∷ s)} {j = 16} hl))

hex_digit-is_hex : (d : ℕ) → d < 16 → is_hex (hex_digit d) ≡ true
unfolding hex_digit
hex_digit-is_hex d h = ground arith

hex_value-hex_digit : (d : ℕ) → d < 16 → hex_value (hex_digit d) ≡ d
unfolding hex_value hex_digit
hex_value-hex_digit d h = ground arith

pub hex_fixed-IsHex : (k n : ℕ) → IsHex (hex_fixed k n)
unfolding hex_fixed
hex_fixed-IsHex zero n = tt
hex_fixed-IsHex (suc k) n =
    All-append (λ c. is_hex c ≡ true) (hex_fixed k (n / 16)) (hex_digit (n % 16) ∷ [])
      (hex_fixed-IsHex k (n / 16)) (hex_digit-is_hex (n % 16) (omega arith), tt)

-- The digits that `%0*x` prints are read back as the number.
pub number_from-hex_fixed :
    (m k n : ℕ) → n < 16 ^ k → number_from m (hex_fixed k n) ≡ m * 16 ^ k + n
unfolding hex_fixed number_from
number_from-hex_fixed m zero n h = omega arith
number_from-hex_fixed m (suc k) n h =
    rw (number_from-append m (hex_fixed k (n / 16)) (hex_digit (n % 16) ∷ [])) (
      omega (
        arith,
        number_from-hex_fixed m k (n / 16),
        hex_value-hex_digit (n % 16),
        ap (λ (t : ℕ). m * t) (pow-suc 16 k),
      ))

-- Zeros in front change nothing.
pub number_from-zeros :
    (z : ℕ) (s : List ℕ) → number_from 0 (replicate z b'0' ++ s) ≡ number_from 0 s
unfolding number_from hex_value
number_from-zeros zero s = refl
number_from-zeros (suc z) s = number_from-zeros z s

-- ===== src/Text/Digits/Decimal.antt =====
-- Decimal numbers as fmt prints them are read back by strconv.
use native.Mathlib.Nat.{pow-suc}
use kaspa_stratum_bridge.Base.{
  ℕ, zero, suc, ◌+◌, ◌*◌, ◌/◌, ◌%◌, ◌^◌, ◌<◌, ◌≤◌, ◌≡◌, refl, ap, ◌∙◌, inl, inr, Bool-cases, false,
  List, [], ◌∷◌, some, ok, arith, leb, ltb, ◌==◌,
}
use kaspa_stratum_bridge.Base.Int.{pos}
use kaspa_stratum_bridge.Text.Digits.{
  digit_value, add_digit, parse_digits, parse_uint, with_sign, parse_int, decimal_loop,
  format_decimal, format_int,
}

digit_value-decimal : (d : ℕ) → d < 10 → digit_value (d + 48) ≡ some d
unfolding digit_value
digit_value-decimal d h = ground arith

add_digit-decimal :
    (m d : ℕ) → d < 10 → m * 10 + d < 2 ^ 63 → add_digit 10 m (d + 48) ≡ ok (m * 10 + d)
unfolding add_digit
add_digit-decimal m d h l = rw (digit_value-decimal d h, add_digit) (ground arith)

read_digit :
    (m d : ℕ) (tail : List ℕ)
    → d < 10
    → m * 10 + d < 2 ^ 63
    → parse_digits 10 m ((d + 48) ∷ tail) ≡ parse_digits 10 (m * 10 + d) tail
unfolding parse_digits
read_digit m d tail h l = rw (add_digit-decimal m d h l, parse_digits) refl

-- Reading what was printed in front of a tail goes on with the number.
parse_digits-decimal :
    (fuel n : ℕ) (tail : List ℕ)
    → n < 10 ^ fuel
    → n < 2 ^ 63
    → parse_digits 10 0 (decimal_loop fuel n tail) ≡ parse_digits 10 n tail
unfolding parse_digits decimal_loop
parse_digits-decimal zero n tail h l = let zero_left : n ≡ 0 = omega arith in rw zero_left refl
parse_digits-decimal (suc fuel) n tail h l = elim (Bool-cases (ltb n 10)) [
  | inl small ↦ rw small (
      read_digit 0 n tail (ground arith) (omega arith)
      ∙ ap (λ k. parse_digits 10 k tail) (omega arith))
  | inr large ↦ rw large (
      parse_digits-decimal fuel (n / 10) ((n % 10 + 48) ∷ tail) (omega (arith, pow-suc 10 fuel))
        (omega arith)
      ∙ read_digit (n / 10) (n % 10) tail (omega arith) (omega arith)
      ∙ ap (λ k. parse_digits 10 k tail) (omega arith))
]

-- Printed digits are no signs.
abbrev StartsWithDigit : List ℕ → Type 0
StartsWithDigit s = (c : ℕ) × ((rest : List ℕ) × (s ≡ c ∷ rest) × (48 ≤ c))

decimal_loop-StartsWithDigit :
    (fuel n c : ℕ) (tail : List ℕ) → 48 ≤ c → StartsWithDigit (decimal_loop fuel n (c ∷ tail))
unfolding decimal_loop
decimal_loop-StartsWithDigit zero n c tail h = (c, (tail, refl, h))
decimal_loop-StartsWithDigit (suc fuel) n c tail h = elim (Bool-cases (ltb n 10)) [
  | inl small ↦ rw small (n + 48, (c ∷ tail, refl, omega arith))
  | inr large ↦
      rw large (decimal_loop-StartsWithDigit fuel (n / 10) (n % 10 + 48) (c ∷ tail) (omega arith))
]

format_decimal-StartsWithDigit : (n : ℕ) → StartsWithDigit (format_decimal n)
unfolding format_decimal decimal_loop
format_decimal-StartsWithDigit n = elim (Bool-cases (ltb n 10)) [
  | inl small ↦ rw small (n + 48, ([], refl, omega arith))
  | inr large ↦ rw large (decimal_loop-StartsWithDigit 19 (n / 10) (n % 10 + 48) [] (omega arith))
]

read_unsigned :
    (n c : ℕ) (rest : List ℕ)
    → n < 2 ^ 63
    → 48 ≤ c
    → parse_digits 10 0 (c ∷ rest) ≡ ok n
    → parse_int (c ∷ rest) ≡ ok (pos n)
unfolding parse_int parse_uint with_sign
read_unsigned n c rest l h e =
    let minus : (c == b'-') ≡ false = ground arith in
    let plus : (c == b'+') ≡ false = ground arith in
    let fits : leb (2 ^ 63) n ≡ false = ground arith in rw (minus, plus, e, with_sign, fits) refl

-- `ParseInt` reads what `%d` prints of a number that is not negative.
pub parse_int-format_int : (n : ℕ) → n < 2 ^ 63 → parse_int (format_int (pos n)) ≡ ok (pos n)
unfolding format_int
parse_int-format_int n l =
    let (c, (rest, e, h)) = format_decimal-StartsWithDigit n in
    let digits : parse_digits 10 0 (format_decimal n) ≡ ok n =
      unfold format_decimal parse_digits in (parse_digits-decimal 20 n [] (omega arith) l) in
    rw e (read_unsigned n c rest l h (rw⁻¹ e digits))

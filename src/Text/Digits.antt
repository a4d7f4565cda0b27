-- ===== src/Text/Digits.antt =====
-- The package `strconv`: `ParseUint` and `ParseInt` at 64 bits, and `%d`.
pub mod Laws
pub mod Decimal
use kaspa_stratum_bridge.Base.{
  ℕ, zero, suc, ◌+◌, ◌-◌, ◌*◌, ◌/◌, ◌%◌, ◌^◌, Bool, true, false, ◌&&◌, List, [], ◌∷◌, Option, none,
  some, Result, ok, err, ltb, leb, ◌==◌, if◌then◌else◌,
}
use kaspa_stratum_bridge.Base.Int.{ℤ, pos, negsuc, neg}

pub data ParseError : Type 0 where
  syntax_error range_error : ParseError

-- The value of a digit in the bases up to 36.
unfoldable pub digit_value : ℕ → Option ℕ
digit_value c =
    if leb b'0' c && leb c b'9'
    then some (c - 48)
    else if leb b'a' c && leb c b'z'
    then some (c - 87)
    else if leb b'A' c && leb c b'Z'
    then some (c - 55)
    else none

-- One round of `ParseUint`: the next digit, refused where the number would pass 64 bits.
unfoldable pub add_digit : ℕ → ℕ → ℕ → Result ParseError ℕ
add_digit base n c = elim (digit_value c) [
  | none ↦ err syntax_error
  | some d ↦
      if leb base d
      then err syntax_error
      else if leb ((2 ^ 64 - 1) / base + 1) n
      then err range_error
      else if leb (2 ^ 64) (n * base + d)
      then err range_error
      else ok (n * base + d)
]

unfoldable pub parse_digits : ℕ → ℕ → List ℕ → Result ParseError ℕ
parse_digits base n [] = ok n
parse_digits base n (c ∷ s) = elim (add_digit base n c) [
  | err e ↦ err e
  | ok m ↦ parse_digits base m s
]

-- `strconv.ParseUint(s, base, 64)`
unfoldable pub parse_uint : ℕ → List ℕ → Result ParseError ℕ
parse_uint base [] = err syntax_error
parse_uint base (c ∷ s) = parse_digits base 0 (c ∷ s)

-- The magnitude under a sign: 2 ^ 63 is in range below zero only.
unfoldable pub with_sign : Bool → Result ParseError ℕ → Result ParseError ℤ
with_sign negative (err e) = err e
with_sign true (ok n) = if ltb (2 ^ 63) n then err range_error else ok (neg n)
with_sign false (ok n) = if leb (2 ^ 63) n then err range_error else ok (pos n)

-- `strconv.ParseInt(s, 10, 0)`, where `int` has 64 bits.
unfoldable pub parse_int : List ℕ → Result ParseError ℤ
parse_int [] = err syntax_error
parse_int (c ∷ s) =
    if c == b'-'
    then with_sign true (parse_uint 10 s)
    else if c == b'+'
    then with_sign false (parse_uint 10 s)
    else with_sign false (parse_uint 10 (c ∷ s))

-- The decimal digits of a number with at most `fuel` digits, in front of `tail`.
unfoldable pub decimal_loop : ℕ → ℕ → List ℕ → List ℕ
decimal_loop zero n tail = tail
decimal_loop (suc fuel) n tail =
    let rest = decimal_loop fuel (n / 10) ((n % 10 + 48) ∷ tail) in
    if ltb n 10 then (n + 48) ∷ tail else rest

-- `%d` of a number below 2 ^ 64, which has at most 20 digits.
unfoldable pub format_decimal : ℕ → List ℕ
format_decimal n = decimal_loop 20 n []

-- `%d` of an `int`.
unfoldable pub format_int : ℤ → List ℕ
format_int (pos n) = format_decimal n
format_int (negsuc n) = b'-' ∷ format_decimal (suc n)

-- The value of a hexadecimal digit.
unfoldable pub hex_value : ℕ → ℕ
hex_value c = if leb c b'9' then c - 48 else if leb c b'F' then c - 55 else c - 87

-- The number that a text of hexadecimal digits writes, after the number read before it: what
-- `big.Int.SetString` reads in base 16.
unfoldable pub number_from : ℕ → List ℕ → ℕ
number_from n [] = n
number_from n (c ∷ s) = number_from (n * 16 + hex_value c) s

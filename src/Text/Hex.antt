-- ===== src/Text/Hex.antt =====
-- Hexadecimal text: `%x` with and without the flag `0`, and `hex.DecodeString` of `encoding/hex`.
pub mod Laws
pub mod Codec
use kaspa_stratum_bridge.Base.{
  ℕ, zero, suc, ◌+◌, ◌-◌, ◌*◌, ◌/◌, ◌%◌, List, [], ◌∷◌, ◌++◌, Option, none, some, ◌&&◌, ltb, leb,
  if◌then◌else◌,
}

unfoldable pub hex_digit : ℕ → ℕ
hex_digit d = if ltb d 10 then d + 48 else d + 87

-- The digits of a number with at most `fuel` of them, in front of `tail`.
unfoldable pub hex_loop : ℕ → ℕ → List ℕ → List ℕ
hex_loop zero n tail = tail
hex_loop (suc fuel) n tail =
    let rest = hex_loop fuel (n / 16) (hex_digit (n % 16) ∷ tail) in
    if ltb n 16 then hex_digit n ∷ tail else rest

-- `%x` of a number below 2 ^ 64, which has at most 16 digits.
unfoldable pub format_hex : ℕ → List ℕ
unfolding hex_loop
format_hex n = hex_loop 16 n []

-- `fromHexChar`
unfoldable pub nibble : ℕ → Option ℕ
nibble c =
    if leb b'0' c && leb c b'9'
    then some (c - 48)
    else if leb b'a' c && leb c b'f'
    then some (c - 87)
    else if leb b'A' c && leb c b'F'
    then some (c - 55)
    else none

-- The bytes that `hex.DecodeString` returns: those before the first pair that is no byte, and its
-- error is dropped by every caller.
unfoldable pub decode_hex : List ℕ → List ℕ
decode_hex [] = []
decode_hex (p ∷ []) = []
decode_hex (p ∷ q ∷ s) = elim (nibble p) [
  | none ↦ []
  | some a ↦ elim (nibble q) [ none ↦ [] | some b ↦ (a * 16 + b) ∷ decode_hex s ]
]

-- The lower-case digits of a list of bytes, as `%x` prints them.
unfoldable pub encode_hex : List ℕ → List ℕ
encode_hex [] = []
encode_hex (b ∷ s) = hex_digit (b / 16) ∷ hex_digit (b % 16) ∷ encode_hex s

-- The last `k` hexadecimal digits of a number.
unfoldable pub hex_fixed : ℕ → ℕ → List ℕ
hex_fixed zero n = []
hex_fixed (suc k) n = hex_fixed k (n / 16) ++ hex_digit (n % 16) ∷ []

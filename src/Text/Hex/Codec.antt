-- ===== src/Text/Hex/Codec.antt =====
-- `encoding/hex` there and back, and the digits of big-endian words.
use mathlib.Core.List.{append_assoc}
use kaspa_stratum_bridge.Base.{
  ℕ, zero, suc, ◌*◌, ◌/◌, ◌%◌, ◌<◌, ◌≡◌, refl, ap, List, [], ◌∷◌, ◌++◌, some, arith, length,
}
use kaspa_stratum_bridge.Text.Hex.{hex_digit, nibble, decode_hex, encode_hex, hex_fixed}
use kaspa_stratum_bridge.Text.Endian.{IsBytes, be_bytes}

nibble-hex_digit : (d : ℕ) → d < 16 → nibble (hex_digit d) ≡ some d
unfolding nibble hex_digit
nibble-hex_digit d h = ground arith

-- What `%x` prints of bytes, `hex.DecodeString` reads back.
pub decode_hex-encode_hex : (s : List ℕ) → IsBytes s → decode_hex (encode_hex s) ≡ s
unfolding decode_hex encode_hex
decode_hex-encode_hex [] h = refl
decode_hex-encode_hex (b ∷ s) h =
    ground
      (arith, nibble-hex_digit (b / 16), nibble-hex_digit (b % 16), decode_hex-encode_hex s h.1)

pub encode_hex-append : (s t : List ℕ) → encode_hex (s ++ t) ≡ encode_hex s ++ encode_hex t
unfolding encode_hex
encode_hex-append [] t = refl
encode_hex-append (b ∷ s) t =
    ap (λ r. hex_digit (b / 16) ∷ hex_digit (b % 16) ∷ r) (encode_hex-append s t)

pub length-encode_hex : (s : List ℕ) → length (encode_hex s) ≡ 2 * length s
unfolding encode_hex
length-encode_hex [] = refl
length-encode_hex (b ∷ s) = omega (arith, length-encode_hex s)

abbrev pub double : ℕ → ℕ
double zero = 0
double (suc k) = suc (suc (double k))

-- The digits of a word are those of its bytes, the high one first.
pub hex_fixed-be_bytes : (k n : ℕ) → hex_fixed (double k) n ≡ encode_hex (be_bytes k n)
unfolding hex_fixed encode_hex be_bytes
hex_fixed-be_bytes zero n = refl
hex_fixed-be_bytes (suc k) n =
    let shift : n / 16 / 16 ≡ n / 256 = omega arith in
    let high : n / 16 % 16 ≡ n % 256 / 16 = omega arith in
    let low : n % 16 ≡ n % 256 % 16 = omega arith in
    rw
      (
        encode_hex-append (be_bytes k (n / 256)) (n % 256 ∷ []),
        ← hex_fixed-be_bytes k (n / 256),
        shift,
        high,
        low,
      )
      (append_assoc (hex_fixed (double k) (n / 256)) (hex_digit (n % 256 / 16) ∷ [])
        (hex_digit (n % 256 % 16) ∷ []))

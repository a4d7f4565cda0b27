-- ===== src/Poolstratum/Nonce/Space.antt =====
-- The nonces of different extranonces (`TempKaspHandleSubmit`, src/poolstratum/share_handler.go).
use native.Mathlib.Nat.{pow-suc, pow-le-pow_right, mul-le-mul_right}
use kaspa_stratum_bridge.Base.{
  ℕ, zero, suc, ◌+◌, ◌-◌, ◌*◌, ◌^◌, ◌≤◌, ◌<◌, ◌≡◌, ◌≢◌, ◌⊎◌, inl, inr, refl, sym, ap, ◌∙◌, List, [],
  ◌∷◌, ◌++◌, All-append, arith, length, leb, replicate, length-append, length-replicate, ok, true,
  Bool-cases, Result, err,
}
use kaspa_stratum_bridge.Text.{Bytes, pad_zeros}
use kaspa_stratum_bridge.Text.Digits.{ParseError, hex_value, number_from, parse_uint}
use kaspa_stratum_bridge.Text.Digits.Laws.{
  is_hex, IsHex, number_from-append, number_from-lt, parse_uint-hex, hex_fixed-IsHex,
  number_from-hex_fixed, number_from-zeros,
}
use kaspa_stratum_bridge.Text.Hex.{hex_fixed}
use kaspa_stratum_bridge.Text.Hex.Laws.{length-hex_fixed}
use kaspa_stratum_bridge.Poolstratum.Nonce.{add_extranonce}

-- What stands in front moves up by the digits behind it.
number_from-shift : (n : ℕ) (s : List ℕ) → number_from n s ≡ n * 16 ^ length s + number_from 0 s
unfolding number_from
number_from-shift n [] = omega arith
number_from-shift n (c ∷ s) = omega (
  arith,
  number_from-shift (n * 16 + hex_value c) s,
  number_from-shift (0 * 16 + hex_value c) s,
  ap (λ (t : ℕ). n * t) (pow-suc 16 (length s)),
)

zeros-IsHex : (z : ℕ) → IsHex (replicate z b'0')
zeros-IsHex zero = tt
zeros-IsHex (suc z) = (refl, zeros-IsHex z)

-- The text that is parsed: 16 digits, the extranonce first.
add_extranonce-pads :
    (c : ℕ) (e s : Bytes)
    → length (c ∷ e) + length s ≤ 16
    → add_extranonce (c ∷ e) s ≡ (c ∷ e) ++ pad_zeros (16 - length (c ∷ e)) s
unfolding add_extranonce
add_extranonce-pads c e s h = ground arith

length-pad_zeros : (width : ℕ) (s : Bytes) → length s ≤ width → length (pad_zeros width s) ≡ width
unfolding pad_zeros
length-pad_zeros width s h = omega (
  arith,
  length-append (replicate (width - length s) b'0') s,
  length-replicate {A = ℕ} (width - length s) b'0',
)

pad_zeros-IsHex : (width : ℕ) (s : Bytes) → IsHex s → IsHex (pad_zeros width s)
unfolding pad_zeros
pad_zeros-IsHex width s h =
    All-append (λ c. is_hex c ≡ true) (replicate (width - length s) b'0') s
      (zeros-IsHex (width - length s)) h

number_from-pad_zeros :
    (width : ℕ) (s : Bytes) → number_from 0 (pad_zeros width s) ≡ number_from 0 s
unfolding pad_zeros
number_from-pad_zeros width s = number_from-zeros (width - length s) s

-- A share's nonce is the extranonce in the high digits of 64 bits and the miner's digits in the low
-- ones, if both are hexadecimal, the extranonce is not empty and they have at most 16 digits
-- together.
pub parse_uint-add_extranonce :
    (c : ℕ) (e s : Bytes)
    → IsHex (c ∷ e)
    → IsHex s
    → length (c ∷ e) + length s ≤ 16
    → parse_uint 16 (add_extranonce (c ∷ e) s)
      ≡ ok (number_from 0 (c ∷ e) * 16 ^ (16 - length (c ∷ e)) + number_from 0 s)
parse_uint-add_extranonce c e s he hs h =
    let width = 16 - length (c ∷ e) in
    let padded = pad_zeros width s in
    let size : length padded ≡ width = length-pad_zeros width s (omega (arith, h)) in
    rw
      (
        add_extranonce-pads c e s h,
        parse_uint-hex c (e ++ padded)
            (All-append (λ d. is_hex d ≡ true) (c ∷ e) padded he (pad_zeros-IsHex width s hs))
            (omega (arith, size, length-append (c ∷ e) padded)),
      )
      (ap ok (
        number_from-append 0 (c ∷ e) padded
        ∙ (number_from-shift (number_from 0 (c ∷ e)) padded
            ∙ (rw (size, number_from-pad_zeros width s) refl))))

-- The value, or 0 behind an error.
abbrev value_of : Result ParseError ℕ → ℕ
value_of (ok n) = n
value_of (err e) = 0

le_or_lt : (i j : ℕ) → (i ≤ j) ⊎ (j + 1 ≤ i)
le_or_lt i j = elim (Bool-cases (leb i j)) [
  | inl le ↦ inl (ground arith)
  | inr lt ↦ inr (ground arith)
]

-- Numbers with different high parts differ.
high_le : (i j a b size : ℕ) → b < size → i * size + a ≡ j * size + b → i ≤ j
high_le i j a b size hb e = elim (le_or_lt i j) [
  | inl le ↦ le
  | inr lt ↦ absurd (omega (arith, mul-le-mul_right {m = j + 1} {n = i} size lt))
]

-- Workers with different extranonces, as the bridge prints them with `k` digits, never submit the same
-- nonce, whatever hexadecimal digits they send, as long as these fit behind the extranonce.
pub nonces_differ :
    (k i j : ℕ) (s t : Bytes)
    → i < 16 ^ suc k
    → j < 16 ^ suc k
    → IsHex s
    → IsHex t
    → suc k + length s ≤ 16
    → suc k + length t ≤ 16
    → i ≢ j
    → parse_uint 16 (add_extranonce (hex_fixed (suc k) i) s)
      ≢ parse_uint 16 (add_extranonce (hex_fixed (suc k) j) t)
nonces_differ k i j s t hi hj hs ht ls lt differ e =
    let size = 16 ^ (16 - suc k) in
    let same = ap value_of (sym (fixed_nonce k i s hi hs ls) ∙ (e ∙ fixed_nonce k j t hj ht lt)) in
    let bound_s : number_from 0 s < size = below_field (16 - suc k) s hs (omega arith) in
    let bound_t : number_from 0 t < size = below_field (16 - suc k) t ht (omega arith) in
    differ (
      omega (
        arith,
        high_le i j (number_from 0 s) (number_from 0 t) size bound_t same,
        high_le j i (number_from 0 t) (number_from 0 s) size bound_s (sym same),
      ))
  where
    below_field :
        (width : ℕ) (s : Bytes) → IsHex s → length s ≤ width → number_from 0 s < 16 ^ width
    below_field width s h l = omega (
      arith,
      number_from-lt 0 s h,
      pow-le-pow_right {n = 16} (omega arith) {i = length s} {j = width} l,
    )

    -- The nonce behind an extranonce of `suc k` digits.
    fixed_nonce :
        (k i : ℕ) (s : Bytes)
        → i < 16 ^ suc k
        → IsHex s
        → suc k + length s ≤ 16
        → parse_uint 16 (add_extranonce (hex_fixed (suc k) i) s)
          ≡ ok (i * 16 ^ (16 - suc k) + number_from 0 s)
    fixed_nonce k i s hi hs l =
        go (hex_fixed (suc k) i) (length-hex_fixed (suc k) i) (hex_fixed-IsHex (suc k) i)
          (number_from-hex_fixed 0 (suc k) i hi)
      where
        go :
            (e : Bytes)
            → length e ≡ suc k
            → IsHex e
            → number_from 0 e ≡ 0 * 16 ^ suc k + i
            → parse_uint 16 (add_extranonce e s) ≡ ok (i * 16 ^ (16 - suc k) + number_from 0 s)
        go [] size he v = absurd (omega (arith, size))
        go (c ∷ e) size he v =
            parse_uint-add_extranonce c e s he hs (omega (arith, size, l))
            ∙ (rw size
                (ap (λ (n : ℕ). ok (n * 16 ^ (16 - suc k) + number_from 0 s)) (v ∙ omega arith)))

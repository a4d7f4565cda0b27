-- ===== src/Prom/Hasher/Jobs.antt =====
-- Both job forms are encodings of the whole header hash (src/prom/hasher.go).
use mathlib.Core.List.{append_assoc}
use kaspa_stratum_bridge.Base.{
  ℕ, ◌-◌, ◌^◌, ◌<◌, ◌≡◌, sym, ap, ◌∙◌, [], ◌∷◌, ◌++◌, some, arith, length,
}
use kaspa_stratum_bridge.Text.{Bytes, pad_zeros}
use kaspa_stratum_bridge.Text.Hex.{format_hex, encode_hex, hex_fixed}
use kaspa_stratum_bridge.Text.Hex.Laws.{pad_zeros-format_hex}
use kaspa_stratum_bridge.Text.Hex.Codec.{hex_fixed-be_bytes, encode_hex-append}
use kaspa_stratum_bridge.Text.Digits.{number_from}
use kaspa_stratum_bridge.Text.Digits.Laws.{number_from-hex_fixed, number_from-zeros}
use kaspa_stratum_bridge.Text.Endian.{IsBytes, le_bytes, le_number, be_bytes, be_number}
use kaspa_stratum_bridge.Text.Endian.Reverse.{
  be_bytes-be_number, be_bytes_swap, be_number-lt, swapped-lt, le_bytes_sized, le_number_fits,
}
use kaspa_stratum_bridge.Prom.Hasher.Words.{Words, split-Words, reads}
use kaspa_stratum_bridge.Prom.Hasher.{
  reprint, generate_job_header, format_word, generate_large_job_params,
}

number_from-format_hex : (n : ℕ) → n < 2 ^ 64 → number_from 0 (format_hex n) ≡ n
unfolding pad_zeros
number_from-format_hex n h =
    sym (number_from-zeros (16 - length (format_hex n)) (format_hex n))
    ∙ ap (number_from 0) (pad_zeros-format_hex 15 n (omega arith) h)
    ∙ let value : number_from 0 (hex_fixed 16 n) ≡ n =
        omega (arith, number_from-hex_fixed 0 16 n h) in
      value

-- The detour through text changes no word.
reprint_lem : (n : ℕ) → n < 2 ^ 64 → reprint n ≡ n
unfolding reprint
reprint_lem n h = omega (arith, number_from-format_hex n h)

format_word-be_bytes : (n : ℕ) → n < 2 ^ 64 → format_word n ≡ encode_hex (be_bytes 8 n)
unfolding format_word
format_word-be_bytes n h = pad_zeros-format_hex 15 n (omega arith) h ∙ hex_fixed-be_bytes 8 n

format_word-encode_hex :
    (s : Bytes) → length s ≡ 8 → IsBytes s → format_word (be_number s) ≡ encode_hex s
format_word-encode_hex s l h =
    format_word-be_bytes (be_number s) (omega (arith, be_number-lt s h, ap (λ (t : ℕ). 256 ^ t) l))
    ∙ ap encode_hex (be_bytes-be_number 8 s l h)

-- The digits of the words, one after the other, are those of the whole.
encode-Words :
    {input : Bytes} (w : Words input) (t : Bytes)
    → encode_hex w.a ++ (encode_hex w.b ++ (encode_hex w.c ++ (encode_hex w.d ++ encode_hex t)))
      ≡ encode_hex (input ++ t)
encode-Words w t = rw w.joined (simp (encode_hex-append, append_assoc))

-- `GenerateJobHeader` of a hash of 32 bytes returns four words, and their little-endian bytes are the
-- hash.
pub generate_job_header-le_bytes :
    (input : Bytes)
    → length input ≡ 32
    → IsBytes input
    → (a b c d : ℕ) × (generate_job_header input ≡ some (a ∷ b ∷ c ∷ d ∷ []))
      × (le_bytes 8 a ++ (le_bytes 8 b ++ (le_bytes 8 c ++ le_bytes 8 d)) ≡ input)
unfolding generate_job_header
generate_job_header-le_bytes input l h =
    let w = split-Words input l h in
    let (ra, rb, rc, rd) = reads le_number w in
    let (la, lb, lc, ld) = w.sizes in
    let (ha, hb, hc, hd) = w.bytes in
    (
      le_number w.a,
      le_number w.b,
      le_number w.c,
      le_number w.d,
      rw (
        ra,
        rb,
        rc,
        rd,
        reprint_lem (le_number w.a) (le_number_fits 8 w.a la ha),
        reprint_lem (le_number w.b) (le_number_fits 8 w.b lb hb),
        reprint_lem (le_number w.c) (le_number_fits 8 w.c lc hc),
        reprint_lem (le_number w.d) (le_number_fits 8 w.d ld hd),
      ),
      rw
          (
            le_bytes_sized 8 w.a la ha,
            le_bytes_sized 8 w.b lb hb,
            le_bytes_sized 8 w.c lc hc,
            le_bytes_sized 8 w.d ld hd,
          )
          (sym w.joined),
    )

-- `GenerateLargeJobParams` of a hash of 32 bytes: the digits of the hash, then those of the
-- timestamp's little-endian bytes.
pub generate_large_job_params-encode_hex :
    (input : Bytes) (timestamp : ℕ)
    → length input ≡ 32
    → IsBytes input
    → generate_large_job_params input timestamp ≡ some (encode_hex (input ++ le_bytes 8 timestamp))
unfolding generate_large_job_params
generate_large_job_params-encode_hex input timestamp l h =
    let w = split-Words input l h in
    let (ra, rb, rc, rd) = reads be_number w in
    let (la, lb, lc, ld) = w.sizes in
    let (ha, hb, hc, hd) = w.bytes in
    rw
      (
        ra,
        rb,
        rc,
        rd,
        format_word-encode_hex w.a la ha,
        format_word-encode_hex w.b lb hb,
        format_word-encode_hex w.c lc hc,
        format_word-encode_hex w.d ld hd,
        format_word-be_bytes (le_number (be_bytes 8 timestamp)) (swapped-lt 8 timestamp),
        be_bytes_swap 8 timestamp,
      )
      (ap some (encode-Words w (le_bytes 8 timestamp)))

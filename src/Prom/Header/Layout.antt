-- ===== src/Prom/Header/Layout.antt =====
-- The hasher's input (src/prom/hasher.go) as a serialization: what it determines of a header.
use mathlib.Core.List.{append_assoc}
use mathlib.Core.Path.{ap₂}
use kaspa_stratum_bridge.Base.{
  ℕ, ◌+◌, ◌%◌, ◌^◌, ◌<◌, ◌≡◌, refl, sym, ap, ◌∙◌, List, [], ◌∷◌, ◌++◌, All, arith, length, regroup,
}
use kaspa_stratum_bridge.Text.{Bytes}
use kaspa_stratum_bridge.Text.Hex.{encode_hex}
use kaspa_stratum_bridge.Text.Hex.Codec.{decode_hex-encode_hex}
use kaspa_stratum_bridge.Text.Endian.{IsBytes, le_bytes, length-le_bytes, le_bytes_inj}
use kaspa_stratum_bridge.Prom.Block.{RpcBlockHeader}
use kaspa_stratum_bridge.Prom.Header.{
  write64, write_hex_string, write_hashes, write_parents, pad_loop, pad_blue_work,
}

-- The padding loop ends by its test, with an even number of digits.
pub length-pad_blue_work : (bw : Bytes) → length (pad_blue_work bw) ≡ length bw + length bw % 2
unfolding pad_blue_work pad_loop
length-pad_blue_work bw = ground arith

pub append_inj {ℓ} :
    {A : Type ℓ} (a b : List A) {c d : List A}
    → length a ≡ length b
    → a ++ c ≡ b ++ d
    → (a ≡ b) × (c ≡ d)
append_inj [] [] l e = (refl, e)
append_inj [] (y ∷ b) l e = absurd (omega arith)
append_inj (x ∷ a) [] l e = absurd (omega arith)
append_inj (x ∷ a) (y ∷ b) {c} {d} l e =
    let tails : a ++ c ≡ b ++ d = cc in
    let heads : x ≡ y = cc in
    let (same, rest) = append_inj a b (omega arith) tails in (ap₂ (λ h r. h ∷ r) heads same, rest)

-- A hash as the node writes it: the lower-case digits of 32 bytes.
pub record IsHash (s : Bytes) : Type 0 where
  pub value : Bytes
  pub is_bytes : IsBytes value
  pub size : length value ≡ 32
  pub written : s ≡ encode_hex value

-- The numbers of a header fit their fields and its texts are hexadecimal.
pub record IsCanonical (h : RpcBlockHeader) : Type 0 where
  pub version_fits : h.version < 2 ^ 16
  pub parents_fit : length h.parents < 2 ^ 64
  pub parents_hashes : All (λ v. (length v < 2 ^ 64) × All IsHash v) h.parents
  pub merkle_hash : IsHash h.hash_merkle_root
  pub accepted_hash : IsHash h.accepted_id_merkle_root
  pub utxo_hash : IsHash h.utxo_commitment
  pub bits_fit : h.bits < 2 ^ 32
  pub daa_fits : h.daa_score < 2 ^ 64
  pub blue_fits : h.blue_score < 2 ^ 64
  pub work : Bytes
  pub work_bytes : IsBytes work
  pub work_fits : length work < 2 ^ 64
  pub work_written : pad_blue_work h.blue_work ≡ encode_hex work
  pub pruning_hash : IsHash h.pruning_point

pub le_bytes_read :
    (k m n : ℕ) {s t : Bytes}
    → m < 256 ^ k
    → n < 256 ^ k
    → le_bytes k m ++ s ≡ le_bytes k n ++ t
    → (m ≡ n) × (s ≡ t)
le_bytes_read k m n {s} {t} hm hn e =
    let (words, rest) =
      append_inj (le_bytes k m) (le_bytes k n) (length-le_bytes k m ∙ sym (length-le_bytes k n))
        e in
    (le_bytes_inj k m n hm hn words, rest)

pub write64_read :
    (m n : ℕ) {s t : Bytes}
    → m < 2 ^ 64
    → n < 2 ^ 64
    → write64 m ++ s ≡ write64 n ++ t
    → (m ≡ n) × (s ≡ t)
unfolding write64
write64_read m n {s} {t} hm hn e =
    let (same, rest) = le_bytes_read 8 (m % 2 ^ 64) (n % 2 ^ 64) (omega arith) (omega arith) e in
    (omega arith, rest)

pub write_hex_string-IsHash : {x : Bytes} (h : IsHash x) → write_hex_string x ≡ h.value
unfolding write_hex_string
write_hex_string-IsHash h = rw h.written (decode_hex-encode_hex h.value h.is_bytes)

pub hash_read :
    (x y : Bytes) {s t : Bytes}
    → IsHash x
    → IsHash y
    → write_hex_string x ++ s ≡ write_hex_string y ++ t
    → (x ≡ y) × (s ≡ t)
hash_read x y {s} {t} hx hy e =
    let (same, rest) =
      append_inj (write_hex_string x) (write_hex_string y)
        (rw (write_hex_string-IsHash hx, write_hex_string-IsHash hy) (hx.size ∙ sym hy.size)) e in
    (
      hx.written
          ∙ ap encode_hex (sym (write_hex_string-IsHash hx) ∙ same ∙ write_hex_string-IsHash hy)
          ∙ sym hy.written,
      rest,
    )

pub hashes_read :
    (xs ys : List Bytes) {s t : Bytes}
    → length xs ≡ length ys
    → All IsHash xs
    → All IsHash ys
    → write_hashes xs ++ s ≡ write_hashes ys ++ t
    → (xs ≡ ys) × (s ≡ t)
unfolding write_hashes
hashes_read [] [] l hx hy e = (refl, e)
hashes_read [] (y ∷ ys) l hx hy e = absurd (omega arith)
hashes_read (x ∷ xs) [] l hx hy e = absurd (omega arith)
hashes_read (x ∷ xs) (y ∷ ys) {s} {t} l hx hy e =
    let (first, e₁) = hash_read x y hx.0 hy.0 (
      sym (append_assoc (write_hex_string x) (write_hashes xs) s)
      ∙ e
      ∙ append_assoc (write_hex_string y) (write_hashes ys) t) in
    let (others, rest) = hashes_read xs ys (omega arith) hx.1 hy.1 e₁ in
    (ap₂ (λ h r. h ∷ r) first others, rest)

pub parents_read :
    (xs ys : List (List Bytes)) {s t : Bytes}
    → length xs ≡ length ys
    → All (λ v. (length v < 2 ^ 64) × All IsHash v) xs
    → All (λ v. (length v < 2 ^ 64) × All IsHash v) ys
    → write_parents xs ++ s ≡ write_parents ys ++ t
    → (xs ≡ ys) × (s ≡ t)
unfolding write_parents
parents_read [] [] l hx hy e = (refl, e)
parents_read [] (y ∷ ys) l hx hy e = absurd (omega arith)
parents_read (x ∷ xs) [] l hx hy e = absurd (omega arith)
parents_read (x ∷ xs) (y ∷ ys) {s} {t} l hx hy e =
    let (sizes, e₁) = write64_read (length x) (length y) hx.0.0 hy.0.0 (
      sym (regroup (write64 (length x)) (write_hashes x) (write_parents xs) s)
      ∙ e
      ∙ regroup (write64 (length y)) (write_hashes y) (write_parents ys) t) in
    let (level, e₂) = hashes_read x y sizes hx.0.1 hy.0.1 e₁ in
    let (others, rest) = parents_read xs ys (omega arith) hx.1 hy.1 e₂ in
    (ap₂ (λ v vs. v ∷ vs) level others, rest)

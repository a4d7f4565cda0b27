-- ===== src/Text/Endian.antt =====
-- The package `encoding/binary`: words as bytes in either order.
pub mod Reverse
use native.Mathlib.Nat.{pow-suc}
use kaspa_stratum_bridge.Base.{
  ℕ, zero, suc, ◌+◌, ◌*◌, ◌/◌, ◌%◌, ◌^◌, ◌<◌, ◌≡◌, refl, sym, ap, ◌∙◌, List, [], ◌∷◌, ◌++◌, All,
  arith, length, length-append,
}

-- `LittleEndian.PutUint`, of a word of `k` bytes.
unfoldable pub le_bytes : ℕ → ℕ → List ℕ
le_bytes zero n = []
le_bytes (suc k) n = n % 256 ∷ le_bytes k (n / 256)

-- `LittleEndian.Uint`
unfoldable pub le_number : List ℕ → ℕ
le_number [] = 0
le_number (b ∷ s) = b + 256 * le_number s

-- `BigEndian.PutUint`
unfoldable pub be_bytes : ℕ → ℕ → List ℕ
be_bytes zero n = []
be_bytes (suc k) n = be_bytes k (n / 256) ++ n % 256 ∷ []

-- `BigEndian.Uint`, after what was read before.
unfoldable pub be_number_from : ℕ → List ℕ → ℕ
be_number_from n [] = n
be_number_from n (b ∷ s) = be_number_from (n * 256 + b) s

unfoldable pub be_number : List ℕ → ℕ
unfolding be_number_from
be_number s = be_number_from 0 s

abbrev pub IsBytes : List ℕ → Type 0
IsBytes = All (λ b. b < 256)

pub le_number-le_bytes : (k n : ℕ) → n < 256 ^ k → le_number (le_bytes k n) ≡ n
unfolding le_number le_bytes
le_number-le_bytes zero n h = omega arith
le_number-le_bytes (suc k) n h = omega (arith, le_number-le_bytes k (n / 256))

pub le_bytes-le_number : (s : List ℕ) → IsBytes s → le_bytes (length s) (le_number s) ≡ s
unfolding le_number le_bytes
le_bytes-le_number [] h = refl
le_bytes-le_number (b ∷ s) h =
    let low : (b + 256 * le_number s) % 256 ≡ b = omega arith in
    let high : (b + 256 * le_number s) / 256 ≡ le_number s = omega arith in
    cc (low, high, le_bytes-le_number s h.1)

pub length-le_bytes : (k n : ℕ) → length (le_bytes k n) ≡ k
unfolding le_bytes
length-le_bytes zero n = refl
length-le_bytes (suc k) n = ap suc (length-le_bytes k (n / 256))

pub le_bytes-IsBytes : (k n : ℕ) → IsBytes (le_bytes k n)
unfolding le_bytes
le_bytes-IsBytes zero n = tt
le_bytes-IsBytes (suc k) n = (omega arith, le_bytes-IsBytes k (n / 256))

-- A word is read back from its bytes, whatever follows them.
pub le_bytes_inj : (k m n : ℕ) → m < 256 ^ k → n < 256 ^ k → le_bytes k m ≡ le_bytes k n → m ≡ n
le_bytes_inj k m n hm hn e =
    sym (le_number-le_bytes k m hm) ∙ ap le_number e ∙ le_number-le_bytes k n hn

be_number_from-append :
    (n : ℕ) (s t : List ℕ) → be_number_from n (s ++ t) ≡ be_number_from (be_number_from n s) t
unfolding be_number_from
be_number_from-append n [] t = refl
be_number_from-append n (b ∷ s) t = be_number_from-append (n * 256 + b) s t

pub length-be_bytes : (k n : ℕ) → length (be_bytes k n) ≡ k
unfolding be_bytes
length-be_bytes zero n = refl
length-be_bytes (suc k) n =
    omega (arith, length-append (be_bytes k (n / 256)) (n % 256 ∷ []), length-be_bytes k (n / 256))

be_number_from-be_bytes :
    (m k n : ℕ) → n < 256 ^ k → be_number_from m (be_bytes k n) ≡ m * 256 ^ k + n
unfolding be_bytes be_number_from
be_number_from-be_bytes m zero n h = omega arith
be_number_from-be_bytes m (suc k) n h =
    rw (be_number_from-append m (be_bytes k (n / 256)) (n % 256 ∷ []))
      (omega (arith, be_number_from-be_bytes m k (n / 256), ap (λ (t : ℕ). m * t) (pow-suc 256 k)))

pub be_number-be_bytes : (k n : ℕ) → n < 256 ^ k → be_number (be_bytes k n) ≡ n
unfolding be_number
be_number-be_bytes k n h = omega (arith, be_number_from-be_bytes 0 k n h)

-- ===== src/Prom/Hasher.antt =====
-- `GenerateJobHeader` and `GenerateLargeJobParams` of src/prom/hasher.go: the two forms in which a
-- job is sent.
pub mod Words
pub mod Jobs
use kaspa_stratum_bridge.Base.{
  ℕ, ◌%◌, ◌^◌, List, [], ◌∷◌, ◌++◌, Option, none, some, length, take, drop, ltb, if◌then◌else◌,
}
use kaspa_stratum_bridge.Text.{Bytes, pad_zeros}
use kaspa_stratum_bridge.Text.Hex.{format_hex}
use kaspa_stratum_bridge.Text.Digits.{number_from}
use kaspa_stratum_bridge.Text.Endian.{le_number, be_bytes, be_number}

infixl 5 ◌>>=◌
abbrev ◌>>=◌ : {A B : Type 0} → Option A → (A → Option B) → Option B
none >>= f = none
some a >>= f = f a

-- `order.Uint64(data[offset:])`, which panics where fewer than eight bytes are left.
unfoldable pub uint64_at : (Bytes → ℕ) → Bytes → ℕ → Option ℕ
uint64_at order input offset =
    let rest = drop offset input in if ltb (length rest) 8 then none else some (order (take 8 rest))

-- A word printed by `%x`, read by `big.Int.SetString` and cut to 64 bits.
unfoldable pub reprint : ℕ → ℕ
reprint v = number_from 0 (format_hex v) % 2 ^ 64

unfoldable pub generate_job_header : Bytes → Option (List ℕ)
generate_job_header header_data = do
  a ← uint64_at le_number header_data 0
  b ← uint64_at le_number header_data 8
  c ← uint64_at le_number header_data 16
  d ← uint64_at le_number header_data 24
  some (reprint a ∷ reprint b ∷ reprint c ∷ reprint d ∷ [])

-- `%016x`
unfoldable pub format_word : ℕ → Bytes
format_word n = pad_zeros 16 (format_hex n)

unfoldable pub generate_large_job_params : Bytes → ℕ → Option Bytes
generate_large_job_params header_data timestamp = do
  a ← uint64_at be_number header_data 0
  b ← uint64_at be_number header_data 8
  c ← uint64_at be_number header_data 16
  d ← uint64_at be_number header_data 24
  let e = le_number (be_bytes 8 timestamp)
  some (format_word a ++ (format_word b ++ (format_word c ++ (format_word d ++ format_word e))))

-- ===== src/Prom/Difficulty.antt =====
-- The difficulties of src/prom/hasher.go. A `float64` is its bit pattern; the arithmetic of
-- `big.Float` is a parameter.
pub mod Target
use kaspa_stratum_bridge.Base.{ℕ, ◌-◌, ◌*◌, ◌/◌, ◌%◌, ◌^◌, leb, if◌then◌else◌}

-- The operations of `math/big` on floats that the difficulties use.
pub record BigFloats : Type 1 where
  pub BigFloat : Type 0
  pub new_float : ℕ → BigFloat
  pub set_int : ℕ → BigFloat
  pub set_mant_exp : BigFloat → ℕ → BigFloat
  pub quo : BigFloat → BigFloat → BigFloat
  pub mul : BigFloat → BigFloat → BigFloat
  pub int : BigFloat → ℕ
  pub float64 : BigFloat → ℕ

pub record KaspaDiff : Type 0 where
  pub hash_value : ℕ
  pub diff_value : ℕ
  pub target_value : ℕ

-- The bit patterns of the float constants 2 ^ 224 (to which the literal rounds), 1 and 1e9.
abbrev pub max_target_bits : ℕ
max_target_bits = 0x4df0_0000_0000_0000

abbrev pub one_bits : ℕ
one_bits = 0x3ff0_0000_0000_0000

abbrev pub gig_bits : ℕ
gig_bits = 0x41cd_cd65_0000_0000

module _ (floats : BigFloats) where
  open floats use {BigFloat, new_float, set_int, set_mant_exp, quo, mul, int, float64}

  unfoldable pub max_target : BigFloat
  max_target = new_float max_target_bits

  unfoldable pub min_hash : BigFloat
  min_hash = quo (set_mant_exp (new_float one_bits) 256) max_target

  unfoldable pub big_gig : BigFloat
  big_gig = new_float gig_bits

  unfoldable pub diff_to_target : ℕ → ℕ
  diff_to_target diff = int (quo max_target (new_float diff))

  unfoldable pub diff_to_hash : ℕ → ℕ
  diff_to_hash diff = float64 (quo (mul min_hash (new_float diff)) big_gig)

  -- `SetDiffValue`
  unfoldable pub set_diff_value : KaspaDiff → ℕ → KaspaDiff
  set_diff_value k diff = record {
    diff_value = diff;
    target_value = diff_to_target diff;
    hash_value = diff_to_hash diff;
  }

  -- `BigDiffToLittle`
  unfoldable pub big_diff_to_little : ℕ → ℕ
  big_diff_to_little diff =
      float64 (quo (quo (set_int (2 * 2 ^ 254)) (set_int diff)) (set_int (2 ^ 31)))

-- `NewKaspaDiff`: every field has its zero value.
unfoldable pub new_kaspa_diff : KaspaDiff
new_kaspa_diff = record { hash_value = 0; diff_value = 0; target_value = 0 }

-- `CalculateTarget`: the mantissa is the low 24 bits, shifted by the high byte.
unfoldable pub calculate_target : ℕ → ℕ
calculate_target bits =
    let truncated = bits / 2 ^ 24 in
    let mantissa = bits % 2 ^ 24 in
    if leb truncated 3
    then mantissa / 2 ^ (8 * (3 - truncated))
    else mantissa * 2 ^ (8 * (truncated - 3))

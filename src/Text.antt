-- ===== src/Text.antt =====
-- Go strings and byte slices as lists of bytes, with the functions of the packages `strings` and
-- `bytes` that the bridge calls.
pub mod Digits
pub mod Sort
pub mod Columns
pub mod Hex
pub mod Endian
use Prim.Native.Char.{code}
use Prim.Native.String.{String}
use kaspa_stratum_bridge.Base.{
  ℕ, ◌-◌, ◌≡◌, ◌↔◌, Bool, true, false, ◌&&◌, ◌||◌, List, [], ◌∷◌, ◌++◌, arith, Eq, length,
  replicate, drop, if◌then◌else◌,
}
use kaspa_stratum_bridge.Base.{◌==◌}

abbrev pub Bytes : Type 0
Bytes = List ℕ

-- The bytes of an ASCII literal.
abbrev pub codes : String → Bytes
codes String.[] = []
codes (String.◌∷◌ c s) = code c ∷ codes s

unfoldable pub bytes_beq : Bytes → Bytes → Bool
bytes_beq [] [] = true
bytes_beq [] (b ∷ t) = false
bytes_beq (a ∷ s) [] = false
bytes_beq (a ∷ s) (b ∷ t) = (a == b) && bytes_beq s t

pub bytes_beq_iff : (s t : Bytes) → (bytes_beq s t ≡ true) ↔ (s ≡ t)
unfolding bytes_beq
bytes_beq_iff [] [] = ground arith
bytes_beq_iff [] (b ∷ t) = ground arith
bytes_beq_iff (a ∷ s) [] = ground arith
bytes_beq_iff (a ∷ s) (b ∷ t) = ground (arith, bytes_beq_iff s t)

instance abbrev pub bytes_eq : Eq Bytes
bytes_eq = record { beq = bytes_beq; beq_iff = bytes_beq_iff }

abbrev pub is_empty : Bytes → Bool
is_empty [] = true
is_empty (c ∷ s) = false

-- `strings.HasPrefix(s, prefix)`
unfoldable pub has_prefix : Bytes → Bytes → Bool
has_prefix s [] = true
has_prefix [] (b ∷ p) = false
has_prefix (a ∷ s) (b ∷ p) = (a == b) && has_prefix s p

-- `strings.Contains(s, sub)`
unfoldable pub contains : Bytes → Bytes → Bool
contains [] sub = has_prefix [] sub
contains (c ∷ s) sub = has_prefix (c ∷ s) sub || contains s sub

-- `strings.Replace(s, old, "", 1)`: the first occurrence is taken out.
unfoldable pub remove_first : Bytes → Bytes → Bytes
remove_first [] old = []
remove_first (c ∷ s) old =
    let rest = remove_first s old in
    if has_prefix (c ∷ s) old then drop (length old) (c ∷ s) else c ∷ rest

-- `bytes.ReplaceAll(s, "\x00", nil)`
unfoldable pub strip_nul : Bytes → Bytes
strip_nul [] = []
strip_nul (c ∷ s) = let rest = strip_nul s in if c == 0 then rest else c ∷ rest

-- The flag `0` with a width: `fmt` of Go 1.18 pads numbers and strings alike.
unfoldable pub pad_zeros : ℕ → Bytes → Bytes
pad_zeros width s = replicate (width - length s) b'0' ++ s

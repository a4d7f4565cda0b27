-- ===== src/Text/Columns.antt =====
-- The columns of `fmt.Sprintf`: a width counts the runes of a text, as `utf8.RuneCountInString` does, and
-- a byte that begins no rune counts for one.
use kaspa_stratum_bridge.Base.{
  ℕ, zero, suc, ◌+◌, ◌-◌, Bool, ◌&&◌, [], ◌∷◌, ◌++◌, leb, ◌==◌, if◌then◌else◌,
}
use kaspa_stratum_bridge.Text.{Bytes}

abbrev within : ℕ → ℕ → ℕ → Bool
within low high c = leb low c && leb c high

-- The second byte that may follow a first one of three or four bytes.
abbrev second : ℕ → ℕ → Bool
second b c =
    if b == 224
    then within 160 191 c
    else if b == 237
    then within 128 159 c
    else if b == 240
    then within 144 191 c
    else if b == 244
    then within 128 143 c
    else within 128 191 c

-- How many bytes the rune has that begins with a byte, in front of the rest of the text.
unfoldable pub rune_width : ℕ → Bytes → ℕ
rune_width b (c ∷ d ∷ e ∷ s) =
    if within 194 223 b && within 128 191 c
    then 2
    else if within 224 239 b && (second b c && within 128 191 d)
    then 3
    else if within 240 244 b && (second b c && (within 128 191 d && within 128 191 e))
    then 4
    else 1
rune_width b (c ∷ d ∷ []) =
    if within 194 223 b && within 128 191 c
    then 2
    else if within 224 239 b && (second b c && within 128 191 d)
    then 3
    else 1
rune_width b (c ∷ []) = if within 194 223 b && within 128 191 c then 2 else 1
rune_width b [] = 1

-- The runes that begin after so many bytes of the one before.
unfoldable pub rune_count : ℕ → Bytes → ℕ
rune_count k [] = 0
rune_count (suc k) (b ∷ s) = rune_count k s
rune_count zero (b ∷ s) = 1 + rune_count (rune_width b s - 1) s

-- At most so many runes of a text.
unfoldable pub take_runes : ℕ → ℕ → Bytes → Bytes
take_runes n k [] = []
take_runes n (suc k) (b ∷ s) = b ∷ take_runes n k s
take_runes zero zero (b ∷ s) = []
take_runes (suc n) zero (b ∷ s) = b ∷ take_runes n (rune_width b s - 1) s

unfoldable pub spaces : ℕ → Bytes
spaces zero = []
spaces (suc n) = b' ' ∷ spaces n

-- `%12s`
unfoldable pub pad_left : ℕ → Bytes → Bytes
pad_left w s = spaces (w - rune_count 0 s) ++ s

-- `%-16s`
unfoldable pub pad_right : ℕ → Bytes → Bytes
pad_right w s = s ++ spaces (w - rune_count 0 s)

-- `%14.14s`
unfoldable pub column : ℕ → Bytes → Bytes
column w s = pad_left w (take_runes w 0 s)

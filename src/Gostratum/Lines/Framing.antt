-- ===== src/Gostratum/Lines/Framing.antt =====
-- Messages that end in a newline, and what one read of src/gostratum/stratum_client.go makes of them.
use mathlib.Core.Path.{ap₂}
use mathlib.Core.List.{append-nil, append_assoc}
use kaspa_stratum_bridge.Base.{
  ℕ, zero, suc, ◌+◌, ◌-◌, ◌≤◌, ◌≡◌, ◌≢◌, refl, ap, ◌∙◌, List, [], ◌∷◌, ◌++◌, All, All-append, arith,
  length, length-append, replicate, take, if◌then◌else◌,
}
use kaspa_stratum_bridge.Text.{Bytes, is_empty, strip_nul}
use kaspa_stratum_bridge.Gostratum.Lines.{drop_cr, scan_from, scan_lines, fill_buffer, read_lines}

-- No newline, no carriage return and no zero, as in a JSON text.
abbrev pub IsPlain : Bytes → Type 0
IsPlain = All (λ c. (c ≢ b'\n') × (c ≢ 13) × (c ≢ 0))

-- Messages on the wire, each with its newline.
unfoldable pub framed : List Bytes → Bytes
framed [] = []
framed (l ∷ ls) = l ++ b'\n' ∷ framed ls

drop_cr-plain : (l : Bytes) → IsPlain l → drop_cr l ≡ l
unfolding drop_cr
drop_cr-plain [] h = refl
drop_cr-plain (c ∷ []) h = ground arith
drop_cr-plain (c ∷ d ∷ l) h = ap (◌∷◌ c) (drop_cr-plain (d ∷ l) h.1)

scan_from-line :
    (line l rest : Bytes)
    → IsPlain l
    → scan_from line (l ++ b'\n' ∷ rest) ≡ drop_cr (line ++ l) ∷ scan_from [] rest
unfolding scan_from
scan_from-line line [] rest h = rw (append-nil line) refl
scan_from-line line (c ∷ l) rest h =
    ground (arith, h.0, scan_from-line (line ++ c ∷ []) l rest h.1, append_assoc line (c ∷ []) l)

-- The line that a read leaves unfinished is a line all the same.
scan_from-unfinished :
    (line l : Bytes)
    → IsPlain l
    → scan_from line l ≡ (if is_empty (line ++ l) then [] else drop_cr (line ++ l) ∷ [])
unfolding scan_from
scan_from-unfinished line [] h = rw (append-nil line) refl
scan_from-unfinished line (c ∷ l) h =
    ground (arith, h.0, scan_from-unfinished (line ++ c ∷ []) l h.1, append_assoc line (c ∷ []) l)

scan_lines-framed : (ls : List Bytes) → All IsPlain ls → scan_lines (framed ls) ≡ ls
unfolding scan_lines framed
scan_lines-framed [] h = unfold scan_from in refl
scan_lines-framed (l ∷ ls) h =
    scan_from-line [] l (framed ls) h.0 ∙ ap₂ ◌∷◌ (drop_cr-plain l h.0) (scan_lines-framed ls h.1)

-- No zero is taken out of a text that has none.
strip_nul-keeps : (s : Bytes) → All (λ c. c ≢ 0) s → strip_nul s ≡ s
unfolding strip_nul
strip_nul-keeps [] h = refl
strip_nul-keeps (c ∷ s) h = ground (arith, h.0, strip_nul-keeps s h.1)

strip_nul-zeros : (s : Bytes) (n : ℕ) → strip_nul (s ++ replicate n 0) ≡ strip_nul s
unfolding strip_nul
strip_nul-zeros [] zero = refl
strip_nul-zeros [] (suc n) = strip_nul-zeros [] n
strip_nul-zeros (c ∷ s) n = ground (arith, strip_nul-zeros s n)

take_all : (n : ℕ) (s : Bytes) → length s ≤ n → take n s ≡ s
take_all zero [] h = refl
take_all zero (c ∷ s) h = absurd (omega arith)
take_all (suc n) [] h = refl
take_all (suc n) (c ∷ s) h = ap (◌∷◌ c) (take_all n s (omega arith))

-- A text that fits the buffer and has no zero comes through a read as it is.
read_lines-scan_lines :
    (size : ℕ) (s : Bytes) → length s ≤ size → All (λ c. c ≢ 0) s → read_lines size s ≡ scan_lines s
unfolding read_lines fill_buffer
read_lines-scan_lines size s l h =
    ap scan_lines
      (rw (take_all size s l) (strip_nul-zeros s (size - length s)) ∙ strip_nul-keeps s h)

plain_no_zero : (s : Bytes) → IsPlain s → All (λ c. c ≢ 0) s
plain_no_zero [] h = tt
plain_no_zero (c ∷ s) h = (h.0.2, plain_no_zero s h.1)

framed_no_zero : (ls : List Bytes) → All IsPlain ls → All (λ c. c ≢ 0) (framed ls)
unfolding framed
framed_no_zero [] h = tt
framed_no_zero (l ∷ ls) h =
    All-append (λ c. c ≢ 0) l (b'\n' ∷ framed ls) (plain_no_zero l h.0)
      ((λ e. cc), framed_no_zero ls h.1)

-- A read that holds whole messages, each with its newline, gives these messages, if they fit the
-- buffer and have no newline, carriage return or zero in them.
pub read_lines-framed :
    (size : ℕ) (ls : List Bytes)
    → All IsPlain ls
    → length (framed ls) ≤ size
    → read_lines size (framed ls) ≡ ls
read_lines-framed size ls h l =
    read_lines-scan_lines size (framed ls) l (framed_no_zero ls h) ∙ scan_lines-framed ls h

read_unfinished :
    (size c : ℕ) (l : Bytes)
    → IsPlain (c ∷ l)
    → length (c ∷ l) ≤ size
    → read_lines size (c ∷ l) ≡ (c ∷ l) ∷ []
read_unfinished size c l h fits =
    read_lines-scan_lines size (c ∷ l) fits (plain_no_zero (c ∷ l) h)
    ∙ unfold scan_lines in
      (scan_from-unfinished [] (c ∷ l) h) ∙ ap (λ t. t ∷ []) (drop_cr-plain (c ∷ l) h)

-- A message that reaches the bridge in two reads is taken for two messages, wherever it is cut behind
-- its first byte, and in one read for one: nothing is kept from one read for the next.
pub read_lines_split :
    (size c : ℕ) (a b : Bytes)
    → IsPlain (c ∷ a)
    → IsPlain b
    → length ((c ∷ a) ++ b ++ b'\n' ∷ []) ≤ size
    → (read_lines size (c ∷ a) ++ read_lines size (b ++ b'\n' ∷ []) ≡ (c ∷ a) ∷ b ∷ [])
      × (read_lines size (((c ∷ a) ++ b) ++ b'\n' ∷ []) ≡ ((c ∷ a) ++ b) ∷ [])
unfolding framed
read_lines_split size c a b ha hb fits =
    let whole : IsPlain ((c ∷ a) ++ b) =
      All-append (λ d. (d ≢ b'\n') × (d ≢ 13) × (d ≢ 0)) (c ∷ a) b ha hb in
    let sizes : length ((c ∷ a) ++ b ++ b'\n' ∷ []) ≡ suc (length a) + (length b + 1) = omega (
      arith,
      length-append (c ∷ a) b,
      length-append ((c ∷ a) ++ b) (b'\n' ∷ []),
      length-append b (b'\n' ∷ []),
    ) in
    (
      ap₂ ◌++◌ (read_unfinished size c a ha (omega arith))
          (read_lines-framed size (b ∷ []) (hb, tt) (omega (arith, length-append b (b'\n' ∷ [])))),
      read_lines-framed size (((c ∷ a) ++ b) ∷ []) (whole, tt)
          (omega (arith, length-append ((c ∷ a) ++ b) (b'\n' ∷ []), length-append (c ∷ a) b)),
    )

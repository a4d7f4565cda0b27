-- ===== src/Gostratum/Lines.antt =====
-- `readFromConnection` of src/gostratum/stratum_client.go: the lines of one read. `readResponse` and
-- `Listen` of src/chainnode/aleo/aleostratum/clientnode.go read the same way.
pub mod Framing
use kaspa_stratum_bridge.Base.{
  ℕ, ◌-◌, List, [], ◌∷◌, ◌++◌, length, replicate, take, ◌==◌, if◌then◌else◌,
}
use kaspa_stratum_bridge.Text.{Bytes, is_empty, strip_nul}

-- `bufio.ScanLines`: a carriage return before the end of a line is dropped.
unfoldable pub drop_cr : Bytes → Bytes
drop_cr [] = []
drop_cr (c ∷ []) = if c == 13 then [] else c ∷ []
drop_cr (c ∷ d ∷ s) = c ∷ drop_cr (d ∷ s)

-- The scanner, behind the part of the line that it has seen; an empty last line is none.
unfoldable pub scan_from : Bytes → Bytes → List Bytes
scan_from line [] = if is_empty line then [] else drop_cr line ∷ []
scan_from line (c ∷ s) =
    let ended = drop_cr line ∷ scan_from [] s in
    let longer = scan_from (line ++ c ∷ []) s in if c == b'\n' then ended else longer

unfoldable pub scan_lines : Bytes → List Bytes
scan_lines = scan_from []

-- What `connection.Read` leaves in a buffer of a size, all zeros before.
unfoldable pub fill_buffer : ℕ → Bytes → Bytes
fill_buffer size received = take size received ++ replicate (size - length received) 0

-- The lines of one read, with all zeros taken out of the buffer.
unfoldable pub read_lines : ℕ → Bytes → List Bytes
read_lines size received = scan_lines (strip_nul (fill_buffer size received))

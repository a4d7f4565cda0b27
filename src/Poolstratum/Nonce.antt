-- ===== src/Poolstratum/Nonce.antt =====
-- The nonce of a share (src/poolstratum/share_handler.go): the extranonce in front of what the miner
-- sent.
pub mod Space
use kaspa_stratum_bridge.Base.{◌+◌, ◌-◌, ◌++◌, leb, length, if◌then◌else◌}
use kaspa_stratum_bridge.Text.{Bytes, is_empty, pad_zeros}

-- `len(noncestr) <= 16 - len(extranonce)` in Go's integers; `%0*s` fills up with zeros.
unfoldable pub add_extranonce : Bytes → Bytes → Bytes
add_extranonce extranonce noncestr =
    if is_empty extranonce
    then noncestr
    else if leb (length noncestr + length extranonce) 16
    then extranonce ++ pad_zeros (16 - length extranonce) noncestr
    else noncestr

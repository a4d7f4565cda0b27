-- ===== src/ChainNode.antt =====
-- The package `chainnode` (src/chainnode).
pub mod Wallet
pub mod Notify
pub mod Aleo
pub mod AleoNode
pub mod Forward
use kaspa_stratum_bridge.Text.{Bytes, codes}

abbrev pub chain_type_aleo : Bytes
chain_type_aleo = codes "aleo"

abbrev pub chain_type_kaspa : Bytes
chain_type_kaspa = codes "kaspa"

-- ===== src/Prom/Block.antt =====
-- The fields of `appmessage.RPCBlock`, of the kaspad node, that the bridge reads.
use kaspa_stratum_bridge.Base.{ℕ, List}
use kaspa_stratum_bridge.Text.{Bytes}

pub record RpcBlockHeader : Type 0 where
  pub version : ℕ  -- uint32
  pub parents : List (List Bytes)
  pub hash_merkle_root : Bytes
  pub accepted_id_merkle_root : Bytes
  pub utxo_commitment : Bytes
  pub timestamp : ℕ  -- the bit pattern of an int64
  pub bits : ℕ  -- uint32
  pub nonce : ℕ  -- uint64
  pub daa_score : ℕ  -- uint64
  pub blue_score : ℕ  -- uint64
  pub blue_work : Bytes
  pub pruning_point : Bytes

pub record RpcBlock : Type 0 where
  pub header : RpcBlockHeader
  pub transactions : List Bytes

-- ===== src/Prom/Header.antt =====
-- `SerializeBlockHeader` of src/prom/hasher.go. BLAKE2b is a parameter.
pub mod Layout
pub mod Injective
use kaspa_stratum_bridge.Base.{
  ℕ, zero, suc, ◌+◌, ◌%◌, ◌^◌, List, [], ◌∷◌, ◌++◌, Result, ok, err, length, ltb, if◌then◌else◌,
}
use kaspa_stratum_bridge.Text.{Bytes, codes}
use kaspa_stratum_bridge.Text.Hex.{decode_hex}
use kaspa_stratum_bridge.Text.Endian.{le_bytes}
use kaspa_stratum_bridge.Prom.Block.{RpcBlock, RpcBlockHeader}

-- What `write16`, `write64` and `writeHexString` append to the hasher's input.
unfoldable pub write16 : ℕ → Bytes
write16 val = le_bytes 2 (val % 2 ^ 16)

unfoldable pub write64 : ℕ → Bytes
write64 val = le_bytes 8 (val % 2 ^ 64)

unfoldable pub write_hex_string : Bytes → Bytes
write_hex_string val = decode_hex val

-- The list loops of the parents.
unfoldable pub write_hashes : List Bytes → Bytes
write_hashes [] = []
write_hashes (hash ∷ hashes) = write_hex_string hash ++ write_hashes hashes

unfoldable pub write_parents : List (List Bytes) → Bytes
write_parents [] = []
write_parents (v ∷ parents) = write64 (length v) ++ (write_hashes v ++ write_parents parents)

-- The packed struct: no timestamp and no nonce.
unfoldable pub write_details : RpcBlockHeader → Bytes
write_details header =
    le_bytes 8 0
    ++ (le_bytes 4 header.bits
        ++ (le_bytes 8 0 ++ (le_bytes 8 header.daa_score ++ le_bytes 8 header.blue_score)))

-- The loop that puts zeros in front of the blue work until it has `padding` digits.
unfoldable pub pad_loop : ℕ → ℕ → Bytes → Bytes
pad_loop zero padding bw = bw
pad_loop (suc fuel) padding bw =
    let rest = pad_loop fuel padding (b'0' ∷ bw) in if ltb (length bw) padding then rest else bw

-- Two rounds are enough: the padding is at most one digit (`length-pad_blue_work`).
unfoldable pub pad_blue_work : Bytes → Bytes
pad_blue_work bw = pad_loop 2 (length bw + length bw % 2) bw

unfoldable pub write_blue_work : Bytes → Bytes
write_blue_work bw =
    let padded = pad_blue_work bw in write64 (length (decode_hex padded)) ++ write_hex_string padded

-- All that is written to the hasher.
unfoldable pub header_bytes : RpcBlockHeader → Bytes
header_bytes header =
    write16 (header.version % 2 ^ 16)
    ++ (write64 (length header.parents)
        ++ (write_parents header.parents
            ++ (write_hex_string header.hash_merkle_root
                ++ (write_hex_string header.accepted_id_merkle_root
                    ++ (write_hex_string header.utxo_commitment
                        ++ (write_details header
                            ++ (write_blue_work header.blue_work
                                ++ write_hex_string header.pruning_point)))))))

-- `blake2b.New(size, key)`: the sum over all that is written, or its error.
pub record Blake2b : Type 0 where
  pub new : ℕ → Bytes → Result Bytes (Bytes → Bytes)

module _ (blake2b : Blake2b) where
  unfoldable pub serialize_block_header : RpcBlock → Result Bytes Bytes
  serialize_block_header template = elim (blake2b.new 32 (codes "BlockHash")) [
    | err e ↦ err e
    | ok sum ↦ ok (sum (header_bytes template.header))
  ]

-- ===== src/Prom/Header/Injective.antt =====
-- The hasher's input determines the header that it was written from, but for the timestamp, the
-- nonce and leading zeros of the blue work (src/prom/hasher.go).
use mathlib.Core.List.{append_assoc}
use kaspa_stratum_bridge.Base.{
  ◌%◌, ◌^◌, ◌≡◌, ◌↔◌, sym, ap, ◌∙◌, ◌++◌, arith, [], length, length-append,
}
use kaspa_stratum_bridge.Text.{Bytes}
use kaspa_stratum_bridge.Text.Hex.{decode_hex, encode_hex}
use kaspa_stratum_bridge.Text.Hex.Codec.{decode_hex-encode_hex}
use kaspa_stratum_bridge.Text.Endian.{length-le_bytes, le_bytes_inj}
use kaspa_stratum_bridge.Prom.Block.{RpcBlockHeader}
use kaspa_stratum_bridge.Prom.Header.{
  write16, write64, write_hex_string, write_details, pad_blue_work, write_blue_work, header_bytes,
}
use kaspa_stratum_bridge.Prom.Header.Layout.{
  IsHash, IsCanonical, append_inj, le_bytes_read, write64_read, hash_read, parents_read,
}

-- Two headers that make the same job.
pub record SameTemplate (g h : RpcBlockHeader) : Type 0 where
  pub version : g.version ≡ h.version
  pub parents : g.parents ≡ h.parents
  pub hash_merkle_root : g.hash_merkle_root ≡ h.hash_merkle_root
  pub accepted_id_merkle_root : g.accepted_id_merkle_root ≡ h.accepted_id_merkle_root
  pub utxo_commitment : g.utxo_commitment ≡ h.utxo_commitment
  pub bits : g.bits ≡ h.bits
  pub daa_score : g.daa_score ≡ h.daa_score
  pub blue_score : g.blue_score ≡ h.blue_score
  pub blue_work : pad_blue_work g.blue_work ≡ pad_blue_work h.blue_work
  pub pruning_point : g.pruning_point ≡ h.pruning_point

length-write_details : (h : RpcBlockHeader) → length (write_details h) ≡ 36
unfolding write_details
length-write_details h = simp (length-append, length-le_bytes)

details_read :
    (g h : RpcBlockHeader) {s t : Bytes}
    → IsCanonical g
    → IsCanonical h
    → write_details g ++ s ≡ write_details h ++ t
    → (g.bits ≡ h.bits) × (g.daa_score ≡ h.daa_score) × (g.blue_score ≡ h.blue_score) × (s ≡ t)
unfolding write_details
details_read g h cg ch e =
    let (details, rest) =
      append_inj (write_details g) (write_details h)
        (length-write_details g ∙ sym (length-write_details h)) e in
    let (_, e₁) = le_bytes_read 8 0 0 (omega arith) (omega arith) details in
    let (bits, e₂) = le_bytes_read 4 g.bits h.bits cg.bits_fit ch.bits_fit e₁ in
    let (_, e₃) = le_bytes_read 8 0 0 (omega arith) (omega arith) e₂ in
    let (daa, e₄) = le_bytes_read 8 g.daa_score h.daa_score cg.daa_fits ch.daa_fits e₃ in
    (bits, daa, le_bytes_inj 8 g.blue_score h.blue_score cg.blue_fits ch.blue_fits e₄, rest)

-- The blue work is written behind its length, so no canonical length has to be known.
work_read :
    (g h : RpcBlockHeader) {s t : Bytes}
    → IsCanonical g
    → IsCanonical h
    → write_blue_work g.blue_work ++ s ≡ write_blue_work h.blue_work ++ t
    → (pad_blue_work g.blue_work ≡ pad_blue_work h.blue_work) × (s ≡ t)
unfolding write_blue_work write_hex_string
work_read g h {s} {t} cg ch e =
    let dg : decode_hex (pad_blue_work g.blue_work) ≡ cg.work =
      rw cg.work_written (decode_hex-encode_hex cg.work cg.work_bytes) in
    let dh : decode_hex (pad_blue_work h.blue_work) ≡ ch.work =
      rw ch.work_written (decode_hex-encode_hex ch.work ch.work_bytes) in
    let written : (write64 (length cg.work) ++ cg.work) ++ s
        ≡ (write64 (length ch.work) ++ ch.work) ++ t =
      cc (dg, dh, e) in
    let (sizes, e₁) = write64_read (length cg.work) (length ch.work) cg.work_fits ch.work_fits (
      sym (append_assoc (write64 (length cg.work)) cg.work s)
      ∙ written
      ∙ append_assoc (write64 (length ch.work)) ch.work t) in
    let (same, rest) = append_inj cg.work ch.work sizes e₁ in
    (cg.work_written ∙ ap encode_hex same ∙ sym ch.work_written, rest)

hash_same : (x y : Bytes) → IsHash x → IsHash y → write_hex_string x ≡ write_hex_string y → x ≡ y
hash_same x y hx hy e = (hash_read x y {s = []} {t = []} hx hy (ap (λ s. s ++ []) e)).0

header_bytes_inj :
    (g h : RpcBlockHeader)
    → IsCanonical g
    → IsCanonical h
    → header_bytes g ≡ header_bytes h
    → SameTemplate g h
unfolding header_bytes write16
header_bytes_inj g h cg ch e =
    let (version, e₁) =
      le_bytes_read 2 (g.version % 2 ^ 16 % 2 ^ 16) (h.version % 2 ^ 16 % 2 ^ 16) (omega arith)
        (omega arith) e in
    let (count, e₂) =
      write64_read (length g.parents) (length h.parents) cg.parents_fit ch.parents_fit e₁ in
    let (parents, e₃) =
      parents_read g.parents h.parents count cg.parents_hashes ch.parents_hashes e₂ in
    let (merkle, e₄) =
      hash_read g.hash_merkle_root h.hash_merkle_root cg.merkle_hash ch.merkle_hash e₃ in
    let (accepted, e₅) =
      hash_read g.accepted_id_merkle_root h.accepted_id_merkle_root cg.accepted_hash
        ch.accepted_hash e₄ in
    let (utxo, e₆) = hash_read g.utxo_commitment h.utxo_commitment cg.utxo_hash ch.utxo_hash e₅ in
    let (bits, daa, blue, e₇) = details_read g h cg ch e₆ in
    let (work, e₈) = work_read g h cg ch e₇ in
    record {
      version = omega (arith, version, cg.version_fits, ch.version_fits);
      parents = parents;
      hash_merkle_root = merkle;
      accepted_id_merkle_root = accepted;
      utxo_commitment = utxo;
      bits = bits;
      daa_score = daa;
      blue_score = blue;
      blue_work = work;
      pruning_point = hash_same g.pruning_point h.pruning_point cg.pruning_hash ch.pruning_hash e₈;
    }

header_bytes_same : (g h : RpcBlockHeader) → SameTemplate g h → header_bytes g ≡ header_bytes h
unfolding header_bytes write_details write_blue_work
header_bytes_same g h same = cc (
  same.version, same.parents, same.hash_merkle_root, same.accepted_id_merkle_root,
  same.utxo_commitment, same.bits, same.daa_score, same.blue_score, same.blue_work,
  same.pruning_point,
)

-- For headers whose numbers fit their fields and whose texts are hexadecimal, the input to the
-- hasher is the same exactly when the headers agree in all but the timestamp, the nonce and the
-- leading zero of the blue work.
pub header_bytes_iff :
    (g h : RpcBlockHeader)
    → IsCanonical g
    → IsCanonical h
    → (header_bytes g ≡ header_bytes h) ↔ SameTemplate g h
header_bytes_iff g h cg ch = (header_bytes_inj g h cg ch, header_bytes_same g h)

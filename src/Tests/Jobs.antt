-- ===== src/Tests/Jobs.antt =====
-- The theorems of the models of src/prom and src/chainnode at concrete jobs.
use kaspa_stratum_bridge.Base.{
  ℕ, ◌<◌, ◌*◌, ◌/◌, ◌%◌, ◌^◌, ◌≡◌, refl, ◌↔◌, arith, List, [], ◌∷◌, ◌++◌, some, ok, err, Bool, suc,
  zero, true, false, length, ltb, replicate, if◌then◌else◌,
}
use kaspa_stratum_bridge.Base.Int.{pos, rem}
use kaspa_stratum_bridge.Text.{Bytes, bytes_beq, codes}
use kaspa_stratum_bridge.Text.Hex.{encode_hex, hex_digit}
use kaspa_stratum_bridge.Text.Endian.{le_bytes, IsBytes}
use kaspa_stratum_bridge.Prom.Block.{RpcBlock}
use kaspa_stratum_bridge.Prom.MiningState.{get_job, maxjobs}
use kaspa_stratum_bridge.Prom.MiningState.Ring.{replay, latest_at, get_job-replay}
use kaspa_stratum_bridge.Prom.Difficulty.{calculate_target}
use kaspa_stratum_bridge.Prom.Difficulty.Target.{calculate_target-compact}
use kaspa_stratum_bridge.Prom.Header.{header_bytes, pad_blue_work, pad_loop}
use kaspa_stratum_bridge.Prom.Header.Layout.{IsCanonical, IsHash}
use kaspa_stratum_bridge.Prom.Header.Injective.{SameTemplate, header_bytes_iff}
use kaspa_stratum_bridge.Prom.Hasher.{generate_job_header}
use kaspa_stratum_bridge.Prom.Hasher.Jobs.{generate_job_header-le_bytes}
use kaspa_stratum_bridge.ChainNode.{chain_type_kaspa}
use kaspa_stratum_bridge.ChainNode.Wallet.{
  clean_wallet, coerced, with_prefix, wallet_regex_matches, slice_out_of_range,
  clean_wallet-coerced, clean_wallet_panics_iff,
}
use kaspa_stratum_bridge.Tests.{hash_of, header_at, block_at}

abbrev two_jobs : List RpcBlock
two_jobs = block_at 41 ∷ block_at 40 ∷ []

get_job-replay_example :
    get_job (replay 5 two_jobs) (pos 34) ≡ latest_at two_jobs (rem (pos 34) maxjobs)
get_job-replay_example = get_job-replay 5 two_jobs (pos 34) (omega arith)

abbrev bits_example : ℕ
bits_example = 0x1e7f_ffff

calculate_target-compact_example :
    calculate_target bits_example ≡ bits_example % 2 ^ 24 * 256 ^ (bits_example / 2 ^ 24) / 256 ^ 3
calculate_target-compact_example = calculate_target-compact bits_example

replicate-IsBytes : (n b : ℕ) → b < 256 → IsBytes (replicate n b)
replicate-IsBytes zero b h = tt
replicate-IsBytes (suc n) b h = (h, replicate-IsBytes n b h)

hash_of-IsHash : (b : ℕ) → b < 256 → IsHash (hash_of b)
hash_of-IsHash b h = record {
  value = replicate 32 b;
  is_bytes = replicate-IsBytes 32 b h;
  size = refl;
  written = refl;
}

header_at-IsCanonical :
    (nonce blue_score : ℕ) → blue_score < 2 ^ 64 → IsCanonical (header_at nonce blue_score)
unfolding pad_blue_work pad_loop encode_hex hex_digit
header_at-IsCanonical nonce blue_score h = record {
  version_fits = omega arith;
  parents_fit = omega arith;
  parents_hashes = ((omega arith, (hash_of-IsHash 7 (omega arith), tt)), tt);
  merkle_hash = hash_of-IsHash 1 (omega arith);
  accepted_hash = hash_of-IsHash 2 (omega arith);
  utxo_hash = hash_of-IsHash 3 (omega arith);
  bits_fit = omega arith;
  daa_fits = omega arith;
  blue_fits = h;
  work = 0x0a ∷ 0xbc ∷ [];
  work_bytes = (omega arith, (omega arith, tt));
  work_fits = omega arith;
  work_written = refl;
  pruning_hash = hash_of-IsHash 4 (omega arith);
}

header_bytes_iff_example :
    (header_bytes (header_at 3 40) ≡ header_bytes (header_at 8 40))
    ↔ SameTemplate (header_at 3 40) (header_at 8 40)
header_bytes_iff_example =
    header_bytes_iff (header_at 3 40) (header_at 8 40) (header_at-IsCanonical 3 40 (omega arith))
      (header_at-IsCanonical 8 40 (omega arith))

abbrev input_example : Bytes
input_example = replicate 32 0xab

generate_job_header-le_bytes_example :
    (a b c d : ℕ) × (generate_job_header input_example ≡ some (a ∷ b ∷ c ∷ d ∷ []))
    × (le_bytes 8 a ++ (le_bytes 8 b ++ (le_bytes 8 c ++ le_bytes 8 d)) ≡ input_example)
generate_job_header-le_bytes_example =
    generate_job_header-le_bytes input_example refl (replicate-IsBytes 32 0xab (omega arith))

-- No text is an address.
abbrev no_address : Bytes → Bool
no_address text = false

clean_wallet-coerced_example :
    clean_wallet no_address (codes "kaspa") (codes "qqq")
    ≡ some (
        if bytes_beq (codes "kaspa") chain_type_kaspa
        then coerced no_address (codes "qqq")
        else ok [])
clean_wallet-coerced_example = clean_wallet-coerced no_address (codes "kaspa") (codes "qqq")

clean_wallet_panics_iff_example :
    (clean_wallet no_address (codes "kaspa") (codes "qqq") ≡ some (err slice_out_of_range)) ↔ (
      (bytes_beq (codes "kaspa") chain_type_kaspa ≡ true)
      × (no_address (codes "qqq") ≡ false)
      × (no_address (with_prefix no_address (codes "qqq")) ≡ false)
      × (wallet_regex_matches (with_prefix no_address (codes "qqq")) ≡ true)
      × (ltb (length (with_prefix no_address (codes "qqq"))) 67 ≡ true))
clean_wallet_panics_iff_example = clean_wallet_panics_iff no_address (codes "kaspa") (codes "qqq")

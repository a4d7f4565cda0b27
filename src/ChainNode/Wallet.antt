-- ===== src/ChainNode/Wallet.antt =====
-- `CleanWallet` of src/chainnode/utils.go. `util.DecodeAddress` of kaspad is a parameter.
use kaspa_stratum_bridge.Base.{
  ℕ, zero, suc, ◌≡◌, refl, ◌↔◌, Bool, true, false, not, ◌&&◌, ◌||◌, [], ◌∷◌, ◌++◌, Option, none,
  some, Result, ok, err, arith, leb, ltb, length, take, drop, if◌then◌else◌,
}
use kaspa_stratum_bridge.Text.{Bytes, bytes_beq, codes, has_prefix}
use kaspa_stratum_bridge.ChainNode.{chain_type_kaspa}

abbrev pub kaspa_prefix : Bytes
kaspa_prefix = codes "kaspa:"

-- [a-z0-9]
abbrev is_word_char : ℕ → Bool
is_word_char c = leb b'a' c && leb c b'z' || leb b'0' c && leb c b'9'

abbrev begins_with_word : Bytes → Bool
begins_with_word [] = false
begins_with_word (c ∷ s) = is_word_char c

-- `walletRegex.MatchString`: "kaspa:[a-z0-9]+" somewhere in the text.
unfoldable pub wallet_regex_matches : Bytes → Bool
wallet_regex_matches [] = false
wallet_regex_matches (c ∷ s) =
    has_prefix (c ∷ s) kaspa_prefix && begins_with_word (drop 6 (c ∷ s)) || wallet_regex_matches s

pub data WalletFault : Type 0 where
  not_coercible : WalletFault
  slice_out_of_range : WalletFault  -- the panic of `in[0:67]`

unfoldable pub slice_67 : Bytes → Result WalletFault Bytes
slice_67 s = if ltb (length s) 67 then err slice_out_of_range else ok (take 67 s)

module _ (decode_address : Bytes → Bool) where
  -- `CleanWallet`, with a bound on its calls of itself; `none` if they pass the bound.
  unfoldable pub clean_wallet_calls : ℕ → Bytes → Bytes → Option (Result WalletFault Bytes)
  clean_wallet_calls zero chain_type text = none
  clean_wallet_calls (suc calls) chain_type text =
      let again = clean_wallet_calls calls chain_type (kaspa_prefix ++ text) in
      if bytes_beq chain_type chain_type_kaspa
      then (if decode_address text
          then some (ok text)
          else if not (has_prefix text kaspa_prefix)
          then again
          else if wallet_regex_matches text
          then some (slice_67 text)
          else some (err not_coercible))
      else some (ok [])

  -- Two calls are enough: the second text has the prefix (`clean_wallet-coerced`).
  unfoldable pub clean_wallet : Bytes → Bytes → Option (Result WalletFault Bytes)
  clean_wallet = clean_wallet_calls 2

  -- The text with the prefix put in front where it lacks.
  abbrev pub with_prefix : Bytes → Bytes
  with_prefix text = if has_prefix text kaspa_prefix then text else kaspa_prefix ++ text

  -- What `CleanWallet` answers for the chain `kaspa`, with no recursion.
  abbrev pub coerced : Bytes → Result WalletFault Bytes
  coerced text =
      if decode_address text
      then ok text
      else if decode_address (with_prefix text)
      then ok (with_prefix text)
      else if wallet_regex_matches (with_prefix text)
      then slice_67 (with_prefix text)
      else err not_coercible

  prefixed : (text : Bytes) → has_prefix (kaspa_prefix ++ text) kaspa_prefix ≡ true
  unfolding has_prefix
  prefixed text = refl

  -- `CleanWallet` always returns or panics, with at most one call of itself: the empty address for
  -- another chain than kaspa, and else the text, the prefixed text, its first 67 bytes or an error.
  pub clean_wallet-coerced :
      (chain_type text : Bytes)
      → clean_wallet chain_type text
        ≡ some (if bytes_beq chain_type chain_type_kaspa then coerced text else ok [])
  unfolding clean_wallet clean_wallet_calls
  clean_wallet-coerced chain_type text = ground (arith, prefixed text)

  -- It panics exactly for a text on the chain kaspa that is no address with or without the prefix, in
  -- which the pattern is found, and that is shorter with the prefix than 67 bytes.
  pub clean_wallet_panics_iff :
      (chain_type text : Bytes)
      → (clean_wallet chain_type text ≡ some (err slice_out_of_range)) ↔ (
          (bytes_beq chain_type chain_type_kaspa ≡ true)
          × (decode_address text ≡ false)
          × (decode_address (with_prefix text) ≡ false)
          × (wallet_regex_matches (with_prefix text) ≡ true)
          × (ltb (length (with_prefix text)) 67 ≡ true))
  unfolding slice_67
  clean_wallet_panics_iff chain_type text = ground (arith, clean_wallet-coerced chain_type text)

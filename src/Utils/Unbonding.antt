-- ===== src/Utils/Unbonding.antt =====
-- `VerifyUnbondingRequest` of internal/shared/utils/btc.go, with the parameters of the networks
-- package that it reads.
pub mod Checks
use staking_api_service.Base.{ℕ, ◌%◌, ◌^◌, String, Bool, true, false, ◌&&◌, List, [], ◌∷◌, eqb, ltb}
use staking_api_service.Base.Exec.{Result, ok}
use staking_api_service.Types.Errors.{GoError}
use staking_api_service.Model.{Uint64, sub64}
use staking_api_service.Utils.Bitcoin.{
  Btc, TxOut, ◌>>=◌, ◌>>◌, or_fail, guard, get_schnorr_pk_from_hex, get_covenant_pks_from_strings,
}

-- `parser.VersionedGlobalParams`
pub record VersionedGlobalParams : Type 0 where
  pub version : Uint64
  pub activation_height : Uint64
  pub staking_cap : Uint64
  pub cap_height : Uint64
  pub tag : String
  pub covenant_pks : List String
  pub covenant_quorum : Uint64
  pub unbonding_time : Uint64
  pub unbonding_fee : Uint64
  pub max_staking_amount : Uint64
  pub min_staking_amount : Uint64
  pub max_staking_time : Uint64
  pub min_staking_time : Uint64
  pub confirmation_depth : Uint64

-- what the request and the stored delegation say
pub record UnbondingRequest : Type 0 where
  pub staking_tx_hash_hex : String
  pub unbonding_tx_hash_hex : String
  pub unbonding_tx_hex : String
  pub staker_pk_hex : String
  pub finality_provider_pk_hex : String
  pub unbonding_sig_hex : String
  pub staking_time_lock : Uint64
  pub staking_output_index : Uint64
  pub staking_value : Uint64

abbrev pub uint32 : ℕ → ℕ
uint32 n = n % 2 ^ 32

abbrev pub uint16 : ℕ → ℕ
uint16 n = n % 2 ^ 16

-- `amount > 0` of an int64
abbrev pub is_positive : ℕ → Bool
is_positive amount = ltb 0 amount && ltb amount (2 ^ 63)

abbrev bytes_equal : List ℕ → List ℕ → Bool
bytes_equal [] [] = true
bytes_equal (x ∷ xs) (y ∷ ys) = eqb x y && bytes_equal xs ys
bytes_equal _ _ = false

unfoldable pub outputs_are_equal : TxOut → TxOut → Bool
outputs_are_equal a b = eqb a.value b.value && bytes_equal a.pk_script b.pk_script

module _ ⦃btc : Btc⦄ where
  unfoldable pub parse_unbonding_tx_hex : String → Result GoError btc.MsgTx
  parse_unbonding_tx_hex unbonding_tx_hex = do
    tx ← or_fail (btc.new_btc_tx_from_hex unbonding_tx_hex) "failed to decode unbonding tx from hex"
    or_fail (btc.check_pre_signed_unbonding_tx_sanity tx)
        "the unbonding tx is not a valid pre-signed unbonding tx"
    ok tx

  -- steps 4 and 5: the output and the signature
  unfoldable pub verify_output_and_signature :
      UnbondingRequest → VersionedGlobalParams → btc.MsgTx → Result GoError (Unit {0})
  verify_output_and_signature r params unbonding_tx = do
    covenant_pks ←
        or_fail (get_covenant_pks_from_strings params.covenant_pks)
          "failed to decode coveant public keys from strings"
    staker_pk ←
        or_fail (get_schnorr_pk_from_hex r.staker_pk_hex)
          "failed to decode staker public key from hex"
    fp_pk ←
        or_fail (get_schnorr_pk_from_hex r.finality_provider_pk_hex)
          "failed to decode finality provider public key from hex"
    let expected_value = sub64 r.staking_value params.unbonding_fee
    guard (is_positive expected_value) "staking output value is too low"
    unbonding_output ←
        or_fail
          (btc.build_unbonding_info staker_pk (fp_pk ∷ []) covenant_pks
            (uint32 params.covenant_quorum) (uint16 params.unbonding_time) expected_value)
          "failed to build unbonding info"
    guard (outputs_are_equal unbonding_output (btc.first_out unbonding_tx))
        "unbonding output does not match expected output"
    staking_info ←
        or_fail
          (btc.build_staking_info staker_pk (fp_pk ∷ []) covenant_pks
            (uint32 params.covenant_quorum) (uint16 r.staking_time_lock) r.staking_value)
          "failed to build staking info"
    sig_bytes ←
        or_fail (btc.decode_string r.unbonding_sig_hex)
          "failed to decode unbonding signature from hex"
    script ←
        or_fail (btc.unbonding_path_spend_info staking_info)
          "failed to build unbonding path spend info"
    or_fail
        (btc.verify_transaction_sig_with_output unbonding_tx (btc.staking_output staking_info)
          script staker_pk sig_bytes)
        "invalid unbonding signature"

  unfoldable pub verify_unbonding_request :
      UnbondingRequest → VersionedGlobalParams → Result GoError (Unit {0})
  verify_unbonding_request r params = do
    unbonding_tx ← or_fail (parse_unbonding_tx_hex r.unbonding_tx_hex) "invalid unbonding tx hex"
    unbonding_tx_hash ←
        or_fail (btc.new_hash_from_str r.unbonding_tx_hash_hex)
          "failed to decode unbonding tx hash from hex"
    guard (btc.is_equal (btc.tx_hash unbonding_tx) unbonding_tx_hash)
        "unbonding_tx_hash_hex must match the hash calculated from the provided unbonding tx"
    staking_tx_hash ←
        or_fail (btc.new_hash_from_str r.staking_tx_hash_hex)
          "failed to decode staking tx hash from hex"
    guard (btc.is_equal (btc.previous_hash unbonding_tx) staking_tx_hash)
        "the unbonding tx input must match the previous staking tx hash"
    guard (eqb (btc.previous_index unbonding_tx) r.staking_output_index)
        "the unbonding tx input must match the previous staking tx output index"
    verify_output_and_signature r params unbonding_tx

-- ===== src/Tests/UnbondingTests.antt =====
-- Utils/Unbonding and Service/Params at concrete inputs
use staking_api_service.Base.{ℕ, ◌-◌, ◌<◌, ◌≡◌, refl, [], ◌∷◌, arith}
use staking_api_service.Base.Exec.{ok}
use staking_api_service.Model.{sub64}
use staking_api_service.Utils.Bitcoin.{get_covenant_pks_from_strings, get_schnorr_pk_from_hex}
use staking_api_service.Utils.Unbonding.{
  VersionedGlobalParams, UnbondingRequest, verify_unbonding_request, parse_unbonding_tx_hex,
  verify_output_and_signature, outputs_are_equal,
}
use staking_api_service.Utils.Unbonding.Checks.{
  Spends, PaysOut, verify_unbonding_request-ok, verify_unbonding_request-amount,
}
use staking_api_service.Service.Params.{Config, length, get_versioned_global_params_by_height}
use staking_api_service.Service.Params.Search.{Latest, get_versioned_global_params_by_height-Latest}
use staking_api_service.Tests.Memory.{toy_btc}

abbrev params : ℕ → ℕ → VersionedGlobalParams
params version activation_height = record {
  version = version;
  activation_height = activation_height;
  staking_cap = 1000;
  cap_height = 0;
  tag = "tag";
  covenant_pks = "02covenant" ∷ [];
  covenant_quorum = 1;
  unbonding_time = 5;
  unbonding_fee = 10;
  max_staking_amount = 1000;
  min_staking_amount = 1;
  max_staking_time = 100;
  min_staking_time = 1;
  confirmation_depth = 6;
}

abbrev request : UnbondingRequest
request = record {
  staking_tx_hash_hex = "staking";
  unbonding_tx_hash_hex = "tx";
  unbonding_tx_hex = "tx";
  staker_pk_hex = "staker";
  finality_provider_pk_hex = "provider";
  unbonding_sig_hex = "signature";
  staking_time_lock = 50;
  staking_output_index = 0;
  staking_value = 100;
}

abbrev config : Config
config = record { logical_shard_count = 2; versions = params 0 5 ∷ params 1 10 ∷ params 2 20 ∷ [] }

verified : verify_unbonding_request ⦃btc = toy_btc⦄ request (params 0 5) ≡ ok tt
unfolding verify_unbonding_request parse_unbonding_tx_hex verify_output_and_signature
    get_covenant_pks_from_strings get_schnorr_pk_from_hex outputs_are_equal
verified = refl

verify_unbonding_request-ok_example :
    (tx : toy_btc.MsgTx) × Spends ⦃btc = toy_btc⦄ request tx
    × PaysOut ⦃btc = toy_btc⦄ request (params 0 5) tx
verify_unbonding_request-ok_example =
    verify_unbonding_request-ok ⦃btc = toy_btc⦄ request (params 0 5) verified

verify_unbonding_request-amount_example : (10 < 100) × (sub64 100 10 ≡ 100 - 10)
verify_unbonding_request-amount_example =
    verify_unbonding_request-amount ⦃btc = toy_btc⦄ request (params 0 5) (omega arith) (omega arith)
      verified

get_versioned_global_params_by_height-Latest_example :
    Latest config.versions 15
      (length config.versions)
      (get_versioned_global_params_by_height config 15)
get_versioned_global_params_by_height-Latest_example =
    get_versioned_global_params_by_height-Latest config 15

-- ===== src/Tests/PayloadTests.antt =====
-- Api/Accepted.antt at a signature that parses, and at one that does not
use staking_api_service.Base.{ℕ, List, ◌≡◌, refl}
use staking_api_service.Base.Exec.{Result, ok, err}
use staking_api_service.Types.Errors.{GoError, Error, text}
use staking_api_service.Types.Errors.Status
use staking_api_service.Api.{is_valid_tx_hash}
use staking_api_service.Api.Unbonding.{
  is_valid_tx_hex, is_valid_signature_format, validate_payload,
  parse_unbond_delegation_request_payload, handle_unbond_delegation,
}
use staking_api_service.Api.Accepted.{
  Payload, WellFormed, parse_unbond_delegation_request_payload-ok, handle_unbond_delegation-Refused,
}
use staking_api_service.Service.PublicKeys.{bad}
use staking_api_service.Tests.Memory.{memory, empty_world, toy_btc, toy_config}

abbrev payload : Payload
payload = record {
  staking_tx_hash_hex = "staking";
  unbonding_tx_hash_hex = "unbonding";
  unbonding_tx_hex = "unbonding";
  staker_signed_signature_hex = "signature";
}

abbrev body : Result GoError Payload
body = ok payload

abbrev parsed : List ℕ → Result GoError (Unit {0})
parsed bytes = ok tt

abbrev malformed : List ℕ → Result GoError (Unit {0})
malformed bytes = err (text "malformed signature")

accepted : parse_unbond_delegation_request_payload ⦃btc = toy_btc⦄ parsed body ≡ ok payload
unfolding parse_unbond_delegation_request_payload validate_payload is_valid_tx_hash is_valid_tx_hex
    is_valid_signature_format
accepted = refl

parse_unbond_delegation_request_payload-ok_example :
    (body ≡ ok payload) × WellFormed ⦃btc = toy_btc⦄ parsed payload
parse_unbond_delegation_request_payload-ok_example =
    parse_unbond_delegation_request_payload-ok ⦃btc = toy_btc⦄ parsed body payload accepted

abbrev refusal : Error
refusal = bad "invalid staker signed signature hex"

refused : parse_unbond_delegation_request_payload ⦃btc = toy_btc⦄ malformed body ≡ err refusal
unfolding parse_unbond_delegation_request_payload validate_payload is_valid_tx_hash is_valid_tx_hex
    is_valid_signature_format
refused = refl

handle_unbond_delegation-Refused_example :
    (handle_unbond_delegation ⦃btc = toy_btc⦄ malformed ⦃driver = memory⦄ toy_config body
        empty_world
      ≡ (err refusal, empty_world))
    × (refusal.status_code ≡ Status.bad_request)
handle_unbond_delegation-Refused_example =
    handle_unbond_delegation-Refused ⦃btc = toy_btc⦄ malformed ⦃driver = memory⦄ toy_config body
      refusal refused empty_world

-- ===== src/Api/Unbonding.antt =====
-- internal/v1/api/handlers/unbonding.go and delegation.go, and the checks they use of
-- internal/shared/utils/validation.go. `parse_signature` is `schnorr.ParseSignature`, and the decoded
-- body of a request is what `encoding/json` returns for it.
use staking_api_service.Base.{ℕ, String, Bool, true, false, not, none, List, if◌then◌else◌}
use staking_api_service.Base.Exec.{pure, lift, ◌>>=◌, ◌>>◌, Result, ok, err}
use staking_api_service.Types.Errors.{GoError, Error}
use staking_api_service.Types.Errors.Status
use staking_api_service.Model.{Int64}
use staking_api_service.Driver.{Driver}
use staking_api_service.Utils.Bitcoin.{Btc}
use staking_api_service.Service.Params.{Config}
use staking_api_service.Service.Delegations.{Service, get_delegation}
use staking_api_service.Service.PublicKeys.{bad}
use staking_api_service.Service.Unbonding.{is_eligible_for_unbonding_request, unbond_delegation}
use staking_api_service.Service.Views.{DelegationPublic, from_delegation_document}
use staking_api_service.Api.{Query, is_valid_tx_hash, parse_tx_hash_query}
use staking_api_service.Api.Handlers.{HttpResult, new_result}

pub record UnbondDelegationRequestPayload : Type 0 where
  pub staking_tx_hash_hex : String
  pub unbonding_tx_hash_hex : String
  pub unbonding_tx_hex : String
  pub staker_signed_signature_hex : String

abbrev pub succeeds : {A : Type 0} → Result GoError A → Bool
succeeds (ok a) = true
succeeds (err e) = false

-- `&handler.Result{Status: status}`
abbrev pub only_status : ℕ → HttpResult (Unit {0})
only_status status = record { content = tt; next_key = none; status = status }

module _ ⦃btc : Btc⦄ where
  unfoldable pub is_valid_tx_hex : String → Bool
  is_valid_tx_hex tx_hex = succeeds (btc.new_btc_tx_from_hex tx_hex)

  unfoldable pub get_unbonding_eligibility :
      ⦃driver : Driver⦄ → Query → Service driver (HttpResult (Unit {0}))
  get_unbonding_eligibility request = do
    hash ← lift (parse_tx_hash_query request "staking_tx_hash_hex")
    is_eligible_for_unbonding_request hash
    pure (only_status Status.ok)

module _ ⦃btc : Btc⦄ (parse_signature : List ℕ → Result GoError (Unit {0})) where
  abbrev parses : Result GoError (List ℕ) → Bool
  parses (ok bytes) = succeeds (parse_signature bytes)
  parses (err e) = false

  unfoldable pub is_valid_signature_format : String → Bool
  is_valid_signature_format sig_hex = parses (btc.decode_string sig_hex)

  unfoldable pub validate_payload :
      UnbondDelegationRequestPayload → Result Error UnbondDelegationRequestPayload
  validate_payload payload =
      if not (is_valid_tx_hash payload.staking_tx_hash_hex)
      then err (bad "invalid staking transaction hash")
      else if not (is_valid_tx_hash payload.unbonding_tx_hash_hex)
      then err (bad "invalid unbonding transaction hash")
      else if not (is_valid_tx_hex payload.unbonding_tx_hex)
      then err (bad "invalid unbonding transaction hex")
      else if not (is_valid_signature_format payload.staker_signed_signature_hex)
      then err (bad "invalid staker signed signature hex")
      else ok payload

  unfoldable pub parse_unbond_delegation_request_payload :
      Result GoError UnbondDelegationRequestPayload → Result Error UnbondDelegationRequestPayload
  unfolding validate_payload
  parse_unbond_delegation_request_payload (err e) = err (bad "invalid request payload")
  parse_unbond_delegation_request_payload (ok payload) = validate_payload payload

  unfoldable pub handle_unbond_delegation :
      ⦃driver : Driver⦄
      → Config
      → Result GoError UnbondDelegationRequestPayload
      → Service driver (HttpResult (Unit {0}))
  handle_unbond_delegation cfg body = do
    payload ← lift (parse_unbond_delegation_request_payload body)
    unbond_delegation cfg payload.staking_tx_hash_hex payload.unbonding_tx_hash_hex
        payload.unbonding_tx_hex payload.staker_signed_signature_hex
    pure (only_status Status.accepted)

module _ (iso : Int64 → String) ⦃btc : Btc⦄ ⦃driver : Driver⦄ where
  unfoldable pub get_delegation_by_tx_hash : Query → Service driver (HttpResult DelegationPublic)
  get_delegation_by_tx_hash request = do
    staking_tx_hash ← lift (parse_tx_hash_query request "staking_tx_hash_hex")
    delegation ← get_delegation staking_tx_hash
    pure (new_result (from_delegation_document iso delegation))

-- ===== src/Api/Accepted.antt =====
-- The unbonding requests that the endpoint refuses, and those that it passes on.
use staking_api_service.Base.{
  ℕ, String, Bool, true, false, not, ◌≡◌, refl, sym, ◌∙◌, ap, subst, List, if◌then◌else◌,
}
use staking_api_service.Base.Exec.{◌>>=◌, lift, Result, ok, err}
use staking_api_service.Types.Errors.{GoError, Error, new_error_with_msg}
use staking_api_service.Types.Errors.Status
use staking_api_service.Driver.{Driver, World}
use staking_api_service.Driver.Leads.{err-ok}
use staking_api_service.Utils.Bitcoin.{Btc}
use staking_api_service.Service.Params.{Config}
use staking_api_service.Service.PublicKeys.{bad}
use staking_api_service.Api.{is_valid_tx_hash}
use staking_api_service.Api.Unbonding.{
  UnbondDelegationRequestPayload, is_valid_tx_hex, is_valid_signature_format, validate_payload,
  parse_unbond_delegation_request_payload, handle_unbond_delegation,
}
use staking_api_service.Api.Checked.{if-ok}

abbrev pub Payload : Type 0
Payload = UnbondDelegationRequestPayload

not-false : (b : Bool) → not b ≡ false → b ≡ true
not-false true h = refl
not-false false h = sym h

payload_or : Payload → Result Error Payload → Payload
payload_or d (ok p) = p
payload_or d (err e) = d

status_of : Result Error Payload → ℕ
status_of (ok p) = Status.bad_request
status_of (err e) = e.status_code

refused_if :
    (b : Bool) (message : String) (r : Result Error Payload)
    → status_of r ≡ Status.bad_request
    → status_of (if b then err (bad message) else r) ≡ Status.bad_request
unfolding status_of new_error_with_msg
refused_if true message r h = refl
refused_if false message r h = h

module _ ⦃btc : Btc⦄ (parse_signature : List ℕ → Result GoError (Unit {0})) where
  -- the four fields have the formats that the endpoint asks for
  abbrev pub WellFormed : Payload → Type 0
  WellFormed p =
      (is_valid_tx_hash p.staking_tx_hash_hex ≡ true)
      × (is_valid_tx_hash p.unbonding_tx_hash_hex ≡ true)
      × (is_valid_tx_hex p.unbonding_tx_hex ≡ true)
      × (is_valid_signature_format parse_signature p.staker_signed_signature_hex ≡ true)

  validate_payload-ok :
      (d p : Payload) → validate_payload parse_signature d ≡ ok p → (d ≡ p) × WellFormed d
  unfolding validate_payload payload_or
  validate_payload-ok d p h =
      let signed = is_valid_signature_format parse_signature d.staker_signed_signature_hex in
      let last = if not signed then err (bad "invalid staker signed signature hex") else ok d in
      let third =
        if not (is_valid_tx_hex d.unbonding_tx_hex)
        then err (bad "invalid unbonding transaction hex")
        else last in
      let second =
        if not (is_valid_tx_hash d.unbonding_tx_hash_hex)
        then err (bad "invalid unbonding transaction hash")
        else third in
      let (a, h1) =
        if-ok (not (is_valid_tx_hash d.staking_tx_hash_hex))
          (bad "invalid staking transaction hash") second p h in
      let (b, h2) =
        if-ok (not (is_valid_tx_hash d.unbonding_tx_hash_hex))
          (bad "invalid unbonding transaction hash") third p h1 in
      let (c, h3) =
        if-ok (not (is_valid_tx_hex d.unbonding_tx_hex)) (bad "invalid unbonding transaction hex")
          last p h2 in
      let (e, h4) = if-ok (not signed) (bad "invalid staker signed signature hex") (ok d) p h3 in
      (
        ap (payload_or d) h4,
        (
          not-false (is_valid_tx_hash d.staking_tx_hash_hex) a,
          not-false (is_valid_tx_hash d.unbonding_tx_hash_hex) b,
          not-false (is_valid_tx_hex d.unbonding_tx_hex) c,
          not-false signed e,
        ),
      )

  -- A payload that is accepted is the decoded body, its two hashes are valid transaction hashes, its
  -- transaction decodes and its signature has the format of a signature.
  pub parse_unbond_delegation_request_payload-ok :
      (body : Result GoError Payload) (payload : Payload)
      → parse_unbond_delegation_request_payload parse_signature body ≡ ok payload
      → (body ≡ ok payload) × WellFormed payload
  unfolding parse_unbond_delegation_request_payload
  parse_unbond_delegation_request_payload-ok (err e) p h = absurd (err-ok h)
  parse_unbond_delegation_request_payload-ok (ok d) p h =
      let (same, formed) = validate_payload-ok d p h in (ap ok same, subst WellFormed same formed)

  refused-bad_request :
      (body : Result GoError Payload)
      → status_of (parse_unbond_delegation_request_payload parse_signature body)
        ≡ Status.bad_request
  unfolding status_of parse_unbond_delegation_request_payload validate_payload new_error_with_msg
  refused-bad_request (err e) = refl
  refused-bad_request (ok d) = refused_if (not (is_valid_tx_hash d.staking_tx_hash_hex)) _ _ (
      refused_if (not (is_valid_tx_hash d.unbonding_tx_hash_hex)) _ _ (
        refused_if (not (is_valid_tx_hex d.unbonding_tx_hex)) _ _ (
          refused_if (not (is_valid_signature_format parse_signature d.staker_signed_signature_hex))
            _ _ refl)))

  -- A body that is refused is answered with that error, whose status is 400, and nothing is called:
  -- the database and the queues stay as they are.
  pub handle_unbond_delegation-Refused :
      ⦃driver : Driver⦄ (cfg : Config) (body : Result GoError Payload) (e : Error)
      → parse_unbond_delegation_request_payload parse_signature body ≡ err e
      → (w : World driver.mongo)
      → (handle_unbond_delegation parse_signature cfg body w ≡ (err e, w))
        × (e.status_code ≡ Status.bad_request)
  unfolding handle_unbond_delegation ◌>>=◌ lift status_of
  handle_unbond_delegation-Refused cfg body e h w =
      (rw h refl, ap status_of (sym h) ∙ refused-bad_request body)

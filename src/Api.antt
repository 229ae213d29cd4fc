-- ===== src/Api.antt =====
-- The parsing of requests in internal/shared/api/handlers/handler/handler.go and the handlers of
-- internal/v1/api/handlers that read. The values of a query parameter, as `net/url` finds them, are a
-- function of its name.
pub mod Accepted
pub mod Checked
pub mod Handlers
pub mod Unbonding
use Prim.Native.Char.{code}
use Prim.Native.String.{[] as nothing, ◌∷◌ as char_and, ◌++◌ as str_append, len}
use staking_api_service.Base.{
  ℕ, zero, suc, ◌%◌, String, Bool, true, false, not, Option, none, some, List, [], ◌∷◌, ◌==◌, ◌||◌,
  ◌&&◌, eqb, leb, ltb, if◌then◌else◌,
}
use staking_api_service.Base.Exec.{Result, ok, err}
use staking_api_service.Types.Errors.{GoError, Error, bad_request, new_error_with_msg, text}
use staking_api_service.Types.Errors.Status
use staking_api_service.Types.States.{DelegationState, from_string_to_delegation_state}
use staking_api_service.Utils.Bitcoin.{Btc, get_schnorr_pk_from_hex}
use staking_api_service.Reads.{length}
use staking_api_service.Service.PublicKeys.{
  DecodedAddress, SupportedBtcAddressType, bad, check_btc_address_type,
}

abbrev pub Query : Type 0
Query = String → List String

-- `r.URL.Query().Get(name)`
abbrev pub get : Query → String → String
get query name = elim (query name) [ [] ↦ "" | value ∷ values ↦ value ]

-- the Go error's text is replaced by a fixed one
abbrev checked : {A B : Type 0} → Result GoError A → String → B → Result Error B
checked (ok a) message b = ok b
checked (err e) message b = err (bad message)

unfoldable pub parse_public_key_query :
    ⦃btc : Btc⦄ → Query → (query_name : String) → (is_optional : Bool) → Result Error String
unfolding get_schnorr_pk_from_hex
parse_public_key_query query query_name is_optional =
    let pk_hex = get query query_name in
    if pk_hex == ""
    then (if is_optional then ok "" else err (bad (str_append query_name " is required")))
    else checked (get_schnorr_pk_from_hex pk_hex) (str_append "invalid " query_name) pk_hex

unfoldable pub is_valid_tx_hash : ⦃btc : Btc⦄ → String → Bool
is_valid_tx_hash ⦃btc⦄ tx_hash = elim (btc.new_hash_from_str tx_hash) [
  | ok h ↦ true
  | err e ↦ false
]

unfoldable pub parse_tx_hash_query :
    ⦃btc : Btc⦄ → Query → (query_name : String) → Result Error String
unfolding is_valid_tx_hash
parse_tx_hash_query query query_name =
    let tx_hash_hex = get query query_name in
    if tx_hash_hex == ""
    then err (bad (str_append query_name " is required"))
    else if is_valid_tx_hash tx_hash_hex
    then ok tx_hash_hex
    else err (bad (str_append "invalid " query_name))

abbrev some_state : Result GoError DelegationState → Result Error (Option DelegationState)
some_state (ok state) = ok (some state)
some_state (err e) = err (bad "invalid delegation state")

-- no state is the empty text
unfoldable pub parse_state_filter_query :
    Query → (query_name : String) → Result Error (Option DelegationState)
parse_state_filter_query query query_name =
    let state = get query query_name in
    if state == "" then ok none else some_state (from_string_to_delegation_state state)

-- the regular expression of printable ASCII characters, at a text that is not empty
unfoldable pub is_printable : String → Bool
is_printable nothing = true
is_printable (char_and c s) = leb 32 (code c) && leb (code c) 126 && is_printable s

abbrev pub max_search_query_length : ℕ
max_search_query_length = 64

unfoldable pub parse_fp_search_query :
    Query → (query_name : String) → (is_optional : Bool) → Result Error String
unfolding is_printable
parse_fp_search_query query query_name is_optional =
    let str = get query query_name in
    if str == ""
    then (if is_optional then ok "" else err (bad (str_append query_name " is required")))
    else if ltb (len str) 1 || ltb max_search_query_length (len str)
    then err (bad "search query must be between 1 and 64 characters")
    else if is_printable str
    then ok str
    else err (bad (str_append query_name " contains invalid characters"))

module _ (decode_address : String → Result GoError DecodedAddress) where
  unfoldable pub parse_btc_address_query : Query → (query_name : String) → Result Error String
  parse_btc_address_query query query_name =
      let address = get query query_name in
      if address == ""
      then err (bad (str_append query_name " is required"))
      else checked (check_btc_address_type decode_address address) "invalid btc address" address

  abbrev pub first_failure :
      Result GoError SupportedBtcAddressType → Result Error (Unit {0}) → Result Error (Unit {0})
  first_failure (ok t) rest = rest
  first_failure (err e) rest = err (bad "invalid btc address")

  -- the loop that validates the addresses
  unfoldable pub validate_addresses : List String → Result Error (Unit {0})
  validate_addresses [] = ok tt
  validate_addresses (address ∷ addresses) =
      first_failure (check_btc_address_type decode_address address) (validate_addresses addresses)

  abbrev pub if_valid : Result Error (Unit {0}) → List String → Result Error (List String)
  if_valid (ok t) addresses = ok addresses
  if_valid (err e) addresses = err e

  unfoldable pub parse_btc_addresses_query :
      Query → (query_name : String) → (limit : ℕ) → Result Error (List String)
  unfolding validate_addresses
  parse_btc_addresses_query query query_name limit =
      let addresses = query query_name in
      if eqb (length addresses) 0
      then err (bad (str_append query_name " is required"))
      else if ltb limit (length addresses)
      then err (bad "too many values")
      else if_valid (validate_addresses addresses) addresses

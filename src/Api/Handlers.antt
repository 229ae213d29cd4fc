-- ===== src/Api/Handlers.antt =====
-- The pagination key of a request, and the handlers of delegations, finality providers and public keys in
-- internal/v1/api/handlers. `decode_std` is the standard encoding of `encoding/base64`.
use Prim.Native.Char.{code}
use Prim.Native.String.{[] as nothing, ◌∷◌ as char_and, len}
use staking_api_service.Base.{
  ℕ, zero, suc, ◌%◌, String, Bool, true, false, Option, none, some, List, [], ◌∷◌, ◌==◌, ◌||◌, ◌&&◌,
  eqb, leb, if◌then◌else◌,
}
use staking_api_service.Base.Exec.{Result, ok, err}
use staking_api_service.Types.Errors.{GoError, Error}
use staking_api_service.Types.Errors.Status
use staking_api_service.Model.{Int64, DelegationDocument, StatsDocument, PkAddressMapping}
use staking_api_service.Utils.Bitcoin.{Btc}
use staking_api_service.Reads.{Source, Json, Base64, Bytes}
use staking_api_service.Reads.Delegations.{DelegationByStakerPagination}
use staking_api_service.Reads.Stats.{FinalityProviderStatsPagination}
use staking_api_service.Service.PublicKeys.{
  DecodedAddress, Keys, bad, get_staker_public_keys_by_addresses,
}
use staking_api_service.Service.Views.{DelegationPublic, delegations_by_staker_pk}
use staking_api_service.Service.FinalityProviders.{
  FinalityProviderDetails, FpDetailsPublic, get_finality_provider, get_finality_providers,
}
use staking_api_service.Api.{
  Query, get, parse_public_key_query, parse_state_filter_query, parse_btc_addresses_query,
}

-- `Result` of the handler package, with the page token of `NewResultWithPagination`
pub record HttpResult (A : Type 0) : Type 0 where
  pub content : A
  pub next_key : Option String
  pub status : ℕ

unfoldable pub new_result_with_pagination : {A : Type 0} → A → String → HttpResult A
new_result_with_pagination content page_token = record {
  content = content;
  next_key = some page_token;
  status = Status.ok;
}

unfoldable pub new_result : {A : Type 0} → A → HttpResult A
new_result content = record { content = content; next_key = none; status = Status.ok }

infixl 5 ◌>>=◌
-- `if err != nil { return nil, err }` between results of services
abbrev pub ◌>>=◌ : {A B : Type 0} → Result Error A → (A → Result Error B) → Result Error B
ok a >>= f = f a
err e >>= f = err e

abbrev in_range : ℕ → ℕ → ℕ → Bool
in_range low n high = leb low n && leb n high

-- `[a-zA-Z0-9+/]`
abbrev is_base64_char : ℕ → Bool
is_base64_char n = in_range 97 n 122 || in_range 65 n 90 || in_range 48 n 57 || eqb n 43 || eqb n 47

-- `={0,2}$`
abbrev padding : ℕ → String → Bool
padding n nothing = true
padding zero (char_and c s) = false
padding (suc n) (char_and c s) = eqb (code c) 61 && padding n s

abbrev matches_base64 : String → Bool
matches_base64 nothing = true
matches_base64 (char_and c s) =
    let rest = matches_base64 s in
    if is_base64_char (code c) then rest else padding 2 (char_and c s)

abbrev decodes : Result GoError Bytes → Bool
decodes (ok bytes) = true
decodes (err e) = false

module _ (decode_std : String → Result GoError Bytes) where
  unfoldable pub is_base64_encoded : String → Bool
  is_base64_encoded s = eqb (len s % 4) 0 && matches_base64 s && decodes (decode_std s)

  unfoldable pub parse_pagination_query : Query → Result Error String
  unfolding is_base64_encoded
  parse_pagination_query query =
      let page_key = get query "pagination_key" in
      if page_key == ""
      then ok ""
      else if is_base64_encoded page_key
      then ok page_key
      else err (bad "invalid pagination key format")

  unfoldable pub get_staker_delegations :
      (iso : Int64 → String)
      → ⦃btc : Btc⦄ ⦃base64 : Base64⦄ ⦃by_staker : Json DelegationByStakerPagination⦄
      → Source DelegationDocument
      → (max_pagination_limit : ℕ) → Query
      → Result Error (HttpResult (List DelegationPublic))
  get_staker_delegations iso source max_pagination_limit request = do
    staker_btc_pk ← parse_public_key_query request "staker_btc_pk" false
    pagination_key ← parse_pagination_query request
    state_filter ← parse_state_filter_query request "state"
    page ←
        delegations_by_staker_pk iso source max_pagination_limit staker_btc_pk state_filter
          pagination_key
    ok (new_result_with_pagination page.0 page.1)

  abbrev as_list : Option FpDetailsPublic → List FpDetailsPublic
  as_list none = []
  as_list (some fp) = fp ∷ []

  unfoldable pub handle_get_finality_providers :
      ⦃btc : Btc⦄ ⦃base64 : Base64⦄ ⦃by_tvl : Json FinalityProviderStatsPagination⦄
      → Source StatsDocument
      → (max_pagination_limit : ℕ) → List FinalityProviderDetails
      → Query
      → Result Error (HttpResult (List FpDetailsPublic))
  unfolding parse_pagination_query new_result new_result_with_pagination
  handle_get_finality_providers source max_pagination_limit finality_providers request = do
    fp_pk ← parse_public_key_query request "fp_btc_pk" true
    if fp_pk == ""
        then (do
          pagination_key ← parse_pagination_query request
          page ←
              get_finality_providers source max_pagination_limit finality_providers pagination_key
          ok (new_result_with_pagination page.0 page.1))
        else (do
          fp ← get_finality_provider source finality_providers fp_pk
          ok (new_result (as_list fp)))

abbrev pub max_num_pk_lookup_addresses : ℕ
max_num_pk_lookup_addresses = 10

unfoldable pub get_pub_keys :
    (String → Result GoError DecodedAddress)
    → Source PkAddressMapping
    → Query
    → Result Error (HttpResult Keys)
unfolding new_result
get_pub_keys decode_address source request = do
  addresses ← parse_btc_addresses_query decode_address request "address" max_num_pk_lookup_addresses
  address_to_pk_mapping ← get_staker_public_keys_by_addresses decode_address source addresses
  ok (new_result address_to_pk_mapping)

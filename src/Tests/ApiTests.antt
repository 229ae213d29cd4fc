-- ===== src/Tests/ApiTests.antt =====
-- Service/PublicKeys/Sound.antt and Api/Checked.antt at one address
use mathlib.Core.List.{Memᴰ}
use staking_api_service.Base.{◌<◌, ◌≤◌, String, ◌≡◌, refl, none, some, [], ◌∷◌, ◌==◌, if◌then◌else◌}
use staking_api_service.Base.Exec.{Result, ok}
use staking_api_service.Types.Errors.{GoError}
use staking_api_service.Model.{PkAddressMapping}
use staking_api_service.Reads.{find_unsorted}
use staking_api_service.Service.PublicKeys.{
  DecodedAddress, address_taproot, Keys, keys_of, put_taproot, split_addresses,
  check_btc_address_type, find_pk_mappings_by_taproot_address, get_staker_public_keys_by_addresses,
}
use staking_api_service.Service.PublicKeys.Sound.{Owns, get_staker_public_keys_by_addresses-Sound}
use staking_api_service.Api.{Query, validate_addresses, parse_btc_addresses_query}
use staking_api_service.Api.Checked.{Supported, parse_btc_addresses_query-ok}
use staking_api_service.Tests.Collections.{stored}

abbrev mapping : PkAddressMapping
mapping = record { pk_hex = "pk"; taproot = "t"; native_segwit_even = "e"; native_segwit_odd = "o" }

abbrev decode : String → Result GoError DecodedAddress
decode s = ok address_taproot

abbrev keys : Keys
keys a = if "t" == a then some "pk" else none

answered : get_staker_public_keys_by_addresses decode (stored (mapping ∷ [])) ("t" ∷ []) ≡ ok keys
unfolding get_staker_public_keys_by_addresses keys_of put_taproot split_addresses
    check_btc_address_type find_pk_mappings_by_taproot_address find_unsorted
answered = refl

get_staker_public_keys_by_addresses-Sound_example : Owns (mapping ∷ []) "t" "pk"
get_staker_public_keys_by_addresses-Sound_example =
    get_staker_public_keys_by_addresses-Sound (stored (mapping ∷ [])) decode ("t" ∷ []) keys
      answered "t" "pk" refl

abbrev query : Query
query name = if name == "address" then "t" ∷ "u" ∷ [] else []

accepted : parse_btc_addresses_query decode query "address" 10 ≡ ok ("t" ∷ "u" ∷ [])
unfolding parse_btc_addresses_query validate_addresses check_btc_address_type
accepted = refl

parse_btc_addresses_query-ok_example :
    ("t" ∷ "u" ∷ [] ≡ query "address")
    × (0 < 2)
    × (2 ≤ 10)
    × ((address : String) → Memᴰ address ("t" ∷ "u" ∷ []) → Supported decode address)
parse_btc_addresses_query-ok_example =
    parse_btc_addresses_query-ok decode query "address" 10 ("t" ∷ "u" ∷ []) accepted

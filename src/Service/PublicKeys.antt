-- ===== src/Service/PublicKeys.antt =====
-- `GetStakerPublicKeysByAddresses` of internal/v1/service/staker.go, with the reads of
-- internal/shared/db/client/pk_address_mapping.go and `CheckBtcAddressType` of internal/shared/utils/btc.go.
-- A map of Go is a function; `decode_address` is `btcutil.DecodeAddress` and the type of its result.
pub mod Sound
use staking_api_service.Base.{
  String, Bool, true, false, not, Option, none, some, List, [], ◌∷◌, ◌==◌, ◌||◌, if◌then◌else◌,
}
use staking_api_service.Base.Exec.{Result, ok, err}
use staking_api_service.Types.Errors.{
  GoError, Error, text, bad_request, new_error_with_msg, new_internal_service_error,
}
use staking_api_service.Types.Errors.Status
use staking_api_service.Model.{PkAddressMapping}
use staking_api_service.Utils.Bitcoin.{◌>>=◌}
use staking_api_service.Reads.{Source, find_unsorted}
use staking_api_service.Reads.Stats.{is_one_of}

pub data DecodedAddress : Type 0 where
  address_witness_pub_key_hash address_taproot other_address : DecodedAddress

pub data SupportedBtcAddressType : Type 0 where
  taproot native_segwit : SupportedBtcAddressType

abbrev pub supported : Result GoError DecodedAddress → Result GoError SupportedBtcAddressType
supported (err e) = err (text "can not decode btc address")
supported (ok address_witness_pub_key_hash) = ok native_segwit
supported (ok address_taproot) = ok taproot
supported (ok other_address) = err (text "unsupported btc address type")

unfoldable pub find_pk_mappings_by_taproot_address :
    Source PkAddressMapping → List String → Result GoError (List PkAddressMapping)
unfolding find_unsorted
find_pk_mappings_by_taproot_address source taproot_addresses =
    find_unsorted source (λ m. is_one_of taproot_addresses m.taproot)

unfoldable pub find_pk_mappings_by_native_segwit_address :
    Source PkAddressMapping → List String → Result GoError (List PkAddressMapping)
unfolding find_unsorted
find_pk_mappings_by_native_segwit_address source native_segwit_addresses =
    find_unsorted source (λ m.
      is_one_of native_segwit_addresses m.native_segwit_even
      || is_one_of native_segwit_addresses m.native_segwit_odd)

unfoldable pub find_public_key_by_native_segwit_address : String → List PkAddressMapping → String
find_public_key_by_native_segwit_address address [] = ""
find_public_key_by_native_segwit_address address (mapping ∷ mappings) =
    let rest = find_public_key_by_native_segwit_address address mappings in
    if mapping.native_segwit_even == address || mapping.native_segwit_odd == address
    then mapping.pk_hex
    else rest

abbrev pub Keys : Type 0
Keys = String → Option String

abbrev pub put : String → String → Keys → Keys
put address pk_hex keys a = if address == a then some pk_hex else keys a

-- the loop over the mappings that were found
unfoldable pub put_taproot : List PkAddressMapping → Keys → Keys
put_taproot [] keys = keys
put_taproot (mapping ∷ mappings) keys =
    put_taproot mappings (put mapping.taproot mapping.pk_hex keys)

-- the loop over the native segwit addresses
unfoldable pub put_native_segwit : List String → List PkAddressMapping → Keys → Keys
unfolding find_public_key_by_native_segwit_address
put_native_segwit [] mappings keys = keys
put_native_segwit (address ∷ addresses) mappings keys =
    let pk_hex = find_public_key_by_native_segwit_address address mappings in
    put_native_segwit addresses mappings (if pk_hex == "" then keys else put address pk_hex keys)

pub record Addresses : Type 0 where
  pub taproot_addresses : List String
  pub native_segwit_addresses : List String

abbrev add_address : SupportedBtcAddressType → String → Addresses → Addresses
add_address taproot addr a = record a { taproot_addresses = addr ∷ a.taproot_addresses }
add_address native_segwit addr a = record a {
  native_segwit_addresses = addr ∷ a.native_segwit_addresses;
}

abbrev pub bad : String → Error
bad message = new_error_with_msg Status.bad_request bad_request message

abbrev split_next :
    Result GoError SupportedBtcAddressType
    → String
    → Result Error Addresses
    → Result Error Addresses
split_next (err e) addr rest = err (bad "invalid btc address")
split_next (ok t) addr (err e) = err e
split_next (ok t) addr (ok a) = ok (add_address t addr a)

abbrev pub found_or_internal :
    Result GoError (List PkAddressMapping)
    → (List PkAddressMapping → Result Error Keys)
    → Result Error Keys
found_or_internal (ok mappings) f = f mappings
found_or_internal (err e) f = err (new_internal_service_error e)

abbrev pub no_address : List String → Bool
no_address [] = true
no_address (a ∷ l) = false

-- the lookups, once the addresses are split
unfoldable pub keys_of : Source PkAddressMapping → Addresses → Result Error Keys
unfolding put_taproot put_native_segwit find_pk_mappings_by_taproot_address
    find_pk_mappings_by_native_segwit_address
keys_of source a =
    let native_segwit_keys : (Keys → Result Error Keys) = λ keys.
      if no_address a.native_segwit_addresses
      then ok keys
      else found_or_internal
          (find_pk_mappings_by_native_segwit_address source a.native_segwit_addresses)
          (λ mappings. ok (put_native_segwit a.native_segwit_addresses mappings keys)) in
    if no_address a.taproot_addresses
    then native_segwit_keys (λ address. none)
    else found_or_internal (find_pk_mappings_by_taproot_address source a.taproot_addresses)
        (λ mappings. native_segwit_keys (put_taproot mappings (λ address. none)))

abbrev pub split_ok : Result Error Addresses → (Addresses → Result Error Keys) → Result Error Keys
split_ok (ok a) f = f a
split_ok (err e) f = err e

module _ (decode_address : String → Result GoError DecodedAddress) where
  unfoldable pub check_btc_address_type : String → Result GoError SupportedBtcAddressType
  check_btc_address_type btc_address = supported (decode_address btc_address)

  unfoldable pub split_addresses : List String → Result Error Addresses
  unfolding check_btc_address_type
  split_addresses [] = ok (record { taproot_addresses = []; native_segwit_addresses = [] })
  split_addresses (addr ∷ addresses) =
      split_next (check_btc_address_type addr) addr (split_addresses addresses)

  unfoldable pub get_staker_public_keys_by_addresses :
      Source PkAddressMapping → List String → Result Error Keys
  unfolding split_addresses keys_of
  get_staker_public_keys_by_addresses source addresses =
      split_ok (split_addresses addresses) (keys_of source)

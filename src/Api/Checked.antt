-- ===== src/Api/Checked.antt =====
-- What holds of the parameters of a request that are accepted.
use Prim.Native.String.{◌++◌ as str_append}
use mathlib.Core.List.{Memᴰ}
use staking_api_service.Base.{
  ℕ, ◌≤◌, ◌<◌, String, Bool, true, false, ◌≡◌, refl, sym, ◌∙◌, ap, subst, List, [], ◌∷◌, eqb, ltb,
  arith, if◌then◌else◌,
}
use staking_api_service.Base.Exec.{Result, ok, err}
use staking_api_service.Types.Errors.{GoError, Error}
use staking_api_service.Driver.Leads.{err-ok}
use staking_api_service.Reads.{length}
use staking_api_service.Service.PublicKeys.{
  DecodedAddress, SupportedBtcAddressType, bad, check_btc_address_type,
}
use staking_api_service.Api.{
  Query, first_failure, validate_addresses, if_valid, parse_btc_addresses_query,
}

pub if-ok :
    {A : Type 0} (b : Bool) (e : Error) (r : Result Error A) (a : A)
    → (if b then err e else r) ≡ ok a
    → (b ≡ false) × (r ≡ ok a)
if-ok true e r a h = absurd (err-ok h)
if-ok false e r a h = (refl, h)

list_or : Result Error (List String) → List String → List String
list_or (ok l) d = l
list_or (err e) d = d

module _ (decode_address : String → Result GoError DecodedAddress) where
  -- the address is of a supported type
  abbrev pub Supported : String → Type 0
  Supported address =
      (t : SupportedBtcAddressType) × (check_btc_address_type decode_address address ≡ ok t)

  validate_addresses-ok :
      (addresses : List String)
      → validate_addresses decode_address addresses ≡ ok tt
      → (address : String) → Memᴰ address addresses
      → Supported address
  unfolding validate_addresses
  validate_addresses-ok [] h a m = elim m [ ]
  validate_addresses-ok (x ∷ l) h a m = elim m [
    | Memᴰ.head e ↦
        let (t, k) = (first_ok (check_btc_address_type decode_address x) h).0 in
        (t, ap (check_btc_address_type decode_address) e ∙ k)
    | Memᴰ.tail n ↦
        validate_addresses-ok l (first_ok (check_btc_address_type decode_address x) h).1 a n
  ]
    where
      first_ok :
          (r : Result GoError SupportedBtcAddressType)
          → first_failure decode_address r (validate_addresses decode_address l) ≡ ok tt
          → ((t : SupportedBtcAddressType) × (r ≡ ok t))
            × (validate_addresses decode_address l ≡ ok tt)
      first_ok (ok t) k = ((t, refl), k)
      first_ok (err e) k = absurd (err-ok k)

  if_valid-ok :
      (r : Result Error (Unit {0})) (addresses l : List String)
      → if_valid decode_address r addresses ≡ ok l
      → (r ≡ ok tt) × (addresses ≡ l)
  unfolding list_or
  if_valid-ok (ok t) addresses l h = (refl, ap (λ r. list_or r l) h)
  if_valid-ok (err e) addresses l h = absurd (err-ok h)

  -- The addresses of a request that are accepted are all those of the parameter; there is one at
  -- least and not more than the limit, and each decodes to an address of a supported type.
  pub parse_btc_addresses_query-ok :
      (query : Query) (query_name : String) (limit : ℕ) (addresses : List String)
      → parse_btc_addresses_query decode_address query query_name limit ≡ ok addresses
      → (addresses ≡ query query_name)
        × (0 < length addresses)
        × (length addresses ≤ limit)
        × ((address : String) → Memᴰ address addresses → Supported address)
  unfolding parse_btc_addresses_query
  parse_btc_addresses_query-ok query query_name limit addresses h =
      let values = query query_name in
      let valid = validate_addresses decode_address values in
      let (present, k) =
        if-ok (eqb (length values) 0) (bad (str_append query_name " is required"))
          (if ltb limit (length values)
            then err (bad "too many values")
            else if_valid decode_address valid values)
          addresses h in
      let (few, l) =
        if-ok (ltb limit (length values)) (bad "too many values")
          (if_valid decode_address valid values) addresses k in
      let (v, same) = if_valid-ok valid values addresses l in
      (
        sym same,
        subst (λ a. 0 < length a) same (positive (length values) present),
        subst (λ a. length a ≤ limit) same (at_most (length values) few),
        subst (λ a. (address : String) → Memᴰ address a → Supported address) same
            (validate_addresses-ok values v),
      )
    where
      positive : (n : ℕ) → eqb n 0 ≡ false → 0 < n
      positive n h = ground (arith, h)

      at_most : (n : ℕ) → ltb limit n ≡ false → n ≤ limit
      at_most n h = ground (arith, h)

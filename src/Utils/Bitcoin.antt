-- ===== src/Utils/Bitcoin.antt =====
-- The addresses of internal/shared/utils/btc.go over the bitcoin libraries, which are a parameter.
use staking_api_service.Base.{ℕ, suc, String, Bool, true, false, List, [], ◌∷◌, eqb}
use staking_api_service.Base.Exec.{Result, ok, err}
use staking_api_service.Types.Errors.{GoError, text}

-- `wire.TxOut`
pub record TxOut : Type 0 where
  pub value : ℕ
  pub pk_script : List ℕ

-- What the program calls of btcd, of babylon's packages and of encoding/hex. The fields of a
-- transaction that the program reads are those of its first input and its first output.
pub record Btc : Type 1 where
  pub PublicKey : Type 0
  pub MsgTx : Type 0
  pub Hash : Type 0
  pub Address : Type 0
  pub StakingInfo : Type 0
  pub decode_string : String → Result GoError (List ℕ)
  pub parse_schnorr_pub_key : List ℕ → Result GoError PublicKey
  pub parse_pub_key : List ℕ → Result GoError PublicKey
  pub pub_key_to_p2tr : PublicKey → Result GoError Address
  pub pub_key_to_p2wpkh : PublicKey → Result GoError Address
  pub encode_address : Address → String
  pub new_btc_tx_from_hex : String → Result GoError MsgTx
  pub check_pre_signed_unbonding_tx_sanity : MsgTx → Result GoError (Unit {0})
  pub new_hash_from_str : String → Result GoError Hash
  pub tx_hash : MsgTx → Hash
  pub is_equal : Hash → Hash → Bool
  pub previous_hash : MsgTx → Hash
  pub previous_index : MsgTx → ℕ
  pub first_out : MsgTx → TxOut
  pub build_unbonding_info :
      PublicKey → List PublicKey → List PublicKey → ℕ → ℕ → ℕ → Result GoError TxOut
  pub build_staking_info :
      PublicKey → List PublicKey → List PublicKey → ℕ → ℕ → ℕ → Result GoError StakingInfo
  pub staking_output : StakingInfo → TxOut
  pub unbonding_path_spend_info : StakingInfo → Result GoError (List ℕ)
  pub verify_transaction_sig_with_output :
      MsgTx → TxOut → List ℕ → PublicKey → List ℕ → Result GoError (Unit {0})

infixl 5 ◌>>=◌ ◌>>◌
-- `a, err := m; if err != nil { return err }; f`
abbrev pub ◌>>=◌ : {A B : Type 0} → Result GoError A → (A → Result GoError B) → Result GoError B
ok a >>= f = f a
err e >>= f = err e

abbrev pub ◌>>◌ : {B : Type 0} → Result GoError (Unit {0}) → Result GoError B → Result GoError B
m >> n = m >>= λ _. n

-- The texts of the errors are fixed here; in Go some of them cite the values.
abbrev pub or_fail : {A : Type 0} → Result GoError A → String → Result GoError A
or_fail (ok a) message = ok a
or_fail (err e) message = err (text message)

abbrev pub guard : Bool → String → Result GoError (Unit {0})
guard true message = ok tt
guard false message = err (text message)

pub record SupportedAddress : Type 0 where
  pub taproot : String
  pub native_segwit_even : String
  pub native_segwit_odd : String

abbrev pub length : List ℕ → ℕ
length [] = 0
length (x ∷ xs) = suc (length xs)

module _ ⦃btc : Btc⦄ where
  pub record PublicKeyWithCoordinates : Type 0 where
    pub odd : btc.PublicKey
    pub even : btc.PublicKey

  unfoldable pub get_schnorr_pk_from_hex : String → Result GoError btc.PublicKey
  get_schnorr_pk_from_hex pk_hex = do
    bytes ← btc.decode_string pk_hex
    btc.parse_schnorr_pub_key bytes

  unfoldable pub get_covenant_pks_from_strings : List String → Result GoError (List btc.PublicKey)
  get_covenant_pks_from_strings [] = ok []
  get_covenant_pks_from_strings (pk_str ∷ pk_strings) = do
    bytes ← btc.decode_string pk_str
    pk ← btc.parse_pub_key bytes
    pks ← get_covenant_pks_from_strings pk_strings
    ok (pk ∷ pks)

  unfoldable pub get_pk_with_coordinates_bytes : String → Result GoError PublicKeyWithCoordinates
  get_pk_with_coordinates_bytes pk_hex = do
    bytes ← btc.decode_string pk_hex
    guard (eqb (length bytes) 32) "invalid public key length, expected 32 bytes"
    odd ← btc.parse_pub_key (3 ∷ bytes)
    even ← btc.parse_pub_key (2 ∷ bytes)
    ok (record { odd = odd; even = even })

  unfoldable pub derive_addresses_from_no_coord_pk : String → Result GoError SupportedAddress
  unfolding get_schnorr_pk_from_hex get_pk_with_coordinates_bytes
  derive_addresses_from_no_coord_pk pk_hex = do
    pk ← get_schnorr_pk_from_hex pk_hex
    taproot ← btc.pub_key_to_p2tr pk
    both ← get_pk_with_coordinates_bytes pk_hex
    odd ← btc.pub_key_to_p2wpkh both.odd
    even ← btc.pub_key_to_p2wpkh both.even
    ok (record {
      taproot = btc.encode_address taproot;
      native_segwit_even = btc.encode_address even;
      native_segwit_odd = btc.encode_address odd;
    })

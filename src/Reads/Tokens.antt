-- ===== src/Reads/Tokens.antt =====
-- A pagination token is decoded to what it was made of.
use staking_api_service.Base.{
  String, ◌≡◌, ◌≢◌, refl, sym, ◌∙◌, ap, arith, false, inl, inr, Bool-cases, eq_iff, ◌==◌,
}
use staking_api_service.Base.Exec.{Result, ok, err}
use staking_api_service.Types.Errors.{GoError}
use staking_api_service.Reads.{Bytes, Json, Base64, get_pagination_token, decode_pagination_token}

one_value : (r : Result GoError (Bytes)) (a b : Bytes) → r ≡ ok a → r ≡ ok b → a ≡ b
one_value r a b h k = cc (h, k)

module _ {T : Type 0} ⦃base64 : Base64⦄ ⦃json : Json T⦄ where
  not_empty :
      (d : T) (bytes : Bytes) → json.marshal d ≡ ok bytes → base64.encode_to_string bytes ≢ ""
  not_empty d bytes h e =
      let none_left =
        one_value (base64.decode_string (base64.encode_to_string bytes)) bytes ""
          (base64.decode-encode bytes) (ap base64.decode_string e ∙ base64.decode_empty) in
      let failed : ok d ≡ err json.unmarshal_empty.0 =
        sym (json.unmarshal-marshal d bytes h)
        ∙ ap json.unmarshal none_left
        ∙ json.unmarshal_empty.1 in
      ground (arith, failed)

  -- Every value has a token, it is not the empty text (which asks for the first page), and decoding it
  -- gives the value back.
  pub decode_pagination_token-get_pagination_token :
      (d : T)
      → (token : String) × (get_pagination_token d ≡ ok token)
        × (token ≢ "")
        × (decode_pagination_token {T = T} token ≡ ok d)
  unfolding get_pagination_token decode_pagination_token
  decode_pagination_token-get_pagination_token d =
      let (bytes, h) = json.marshals d in
      (
        base64.encode_to_string bytes,
        rw (h) refl,
        not_empty d bytes h,
        rw (base64.decode-encode bytes) (json.unmarshal-marshal d bytes h),
      )

pub nonempty_test : (t : String) → t ≢ "" → (t == "") ≡ false
nonempty_test t h = elim (Bool-cases (t == "")) [
  | inl e ↦ absurd (h ((eq_iff t "").0 e))
  | inr e ↦ e
]

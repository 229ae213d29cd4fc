-- ===== src/Tests/Sources.antt =====
-- A collection in memory, and stand-ins for JSON and base64.
use Prim.Native.Char.{code}
use Prim.Native.String.{[], ◌∷◌}
use staking_api_service.Base.{
  ℕ, zero, suc, ◌+◌, String, eqb, ◌≡◌, refl, sym, ◌∙◌, ap, arith, if◌then◌else◌,
}
use staking_api_service.Base.Exec.{Result, ok, err}
use staking_api_service.Types.Errors.{GoError, text}
use staking_api_service.Reads.{Json, Base64}
use staking_api_service.Reads.Delegations.{DelegationScanPagination, DelegationByStakerPagination}
use staking_api_service.Reads.Stats.{FinalityProviderStatsPagination, StakerStatsByStakerPagination}

abbrev pub plain : Base64
plain = record {
  encode_to_string = λ b. b;
  decode_string = λ s. ok s;
  decode_empty = refl;
  decode-encode = λ b. refl;
}

-- a number, as that many letters a and one other, and a text
abbrev pub write : ℕ → String → String
write zero s = "." ∷ s
write (suc n) s = "a" ∷ write n s

abbrev pub read : ℕ → String → Result GoError (ℕ × String)
read acc [] = err (text "unexpected end of JSON input")
read acc (c ∷ s) = let rest = read (suc acc) s in if eqb (code c) 97 then rest else ok (acc, s)

pub read-write : (n acc : ℕ) (s : String) → read acc (write n s) ≡ ok (n + acc, s)
read-write zero acc s = λ i. ok (plus acc i, s)
  where
    plus : (n : ℕ) → n ≡ 0 + n
    plus n = omega arith
read-write (suc n) acc s = read-write n (suc acc) s ∙ (λ i. ok (move n acc i, s))
  where
    move : (n acc : ℕ) → n + suc acc ≡ suc n + acc
    move n acc = omega arith

abbrev pub map_ok : {A B : Type 0} → (A → B) → Result GoError A → Result GoError B
map_ok f (ok a) = ok (f a)
map_ok f (err e) = err e

abbrev pub and_then : {A B : Type 0} → Result GoError A → (A → Result GoError B) → Result GoError B
and_then (ok a) f = f a
and_then (err e) f = err e

-- a type of tokens that is a number and a text
abbrev pub json_of :
    {T : Type 0} (number : T → ℕ) (word : T → String) (make : ℕ × String → T)
    → ((t : T) → make (number t + 0, word t) ≡ t)
    → Json T
json_of number word make back = record {
  marshal = λ t. ok (write (number t) (word t));
  unmarshal = λ s. map_ok make (read 0 s);
  marshals = λ t. (write (number t) (word t), refl);
  unmarshal_empty = (text "unexpected end of JSON input", refl);
  unmarshal-marshal = λ t bytes h.
      sym (ap (λ r. and_then r (λ b. map_ok make (read 0 b))) h)
      ∙ ap (map_ok make) (read-write (number t) 0 (word t))
      ∙ (λ i. ok (back t i));
}

zero_more : (n : ℕ) → n + 0 ≡ n
zero_more n = omega arith

abbrev pub scan_json : Json DelegationScanPagination
scan_json =
    json_of (λ t. 0) (λ t. t.staking_tx_hash_hex) (λ p. record { staking_tx_hash_hex = p.1 })
      (λ t. refl)

pub by_staker_json : Json DelegationByStakerPagination
by_staker_json =
    json_of (λ t. t.staking_start_height) (λ t. t.staking_tx_hash_hex)
      (λ p. record { staking_tx_hash_hex = p.1; staking_start_height = p.0 })
      (λ t i. record t { staking_start_height = zero_more t.staking_start_height i })

pub provider_json : Json FinalityProviderStatsPagination
provider_json =
    json_of (λ t. t.active_tvl) (λ t. t.finality_provider_pk_hex)
      (λ p. record { finality_provider_pk_hex = p.1; active_tvl = p.0 })
      (λ t i. record t { active_tvl = zero_more t.active_tvl i })

pub staker_json : Json StakerStatsByStakerPagination
staker_json =
    json_of (λ t. t.active_tvl) (λ t. t.staker_pk_hex)
      (λ p. record { staker_pk_hex = p.1; active_tvl = p.0 })
      (λ t i. record t { active_tvl = zero_more t.active_tvl i })

-- ===== src/Service/PublicKeys/Sound.antt =====
-- The public keys that are returned belong to their addresses.
use mathlib.Core.List.{Memᴰ}
use staking_api_service.Base.{
  String, Bool, true, false, ◌≡◌, refl, sym, ◌∙◌, ap, subst, Option, none, some, List, [], ◌∷◌,
  ◌==◌, ◌||◌, ◌⊎◌, inl, inr, eq_iff, Bool-cases, arith, if◌then◌else◌,
}
use staking_api_service.Base.Exec.{Result, ok, err}
use staking_api_service.Types.Errors.{GoError, Error}
use staking_api_service.Model.{PkAddressMapping}
use staking_api_service.Driver.{or_else}
use staking_api_service.Driver.Leads.{err-ok}
use staking_api_service.Reads.{Source, find_unsorted, found}
use staking_api_service.Service.PublicKeys.{
  DecodedAddress, Addresses, Keys, put, put_taproot, put_native_segwit, keys_of, split_addresses,
  found_or_internal, no_address, split_ok, find_public_key_by_native_segwit_address,
  find_pk_mappings_by_taproot_address, find_pk_mappings_by_native_segwit_address,
  get_staker_public_keys_by_addresses,
}

-- a stored mapping of the address to the key
pub record Owns (docs : List PkAddressMapping) (address pk : String) : Type 0 where
  pub mapping : PkAddressMapping
  pub stored : Memᴰ mapping docs
  pub key : mapping.pk_hex ≡ pk
  pub owned :
      (mapping.taproot ≡ address)
      ⊎ (mapping.native_segwit_even ≡ address)
      ⊎ (mapping.native_segwit_odd ≡ address)

module _ (docs : List PkAddressMapping) where
  abbrev pub Sound : Keys → Type 0
  Sound keys = (a pk : String) → keys a ≡ some pk → Owns docs a pk

  put-Sound :
      (address pk : String) (keys : Keys)
      → Owns docs address pk
      → Sound keys
      → Sound (put address pk keys)
  put-Sound address pk keys o s a q h = elim (Bool-cases (address == a)) [
    | inl e ↦
        let here : some pk ≡ some q = sym (put_here e) ∙ h in
        subst (λ x. Owns docs x q) ((eq_iff address a).0 e)
          (subst (Owns docs address) (ap (λ x. or_else x pk) here) o)
    | inr e ↦ s a q (sym (put_there e) ∙ h)
  ]
    where
      put_here : (address == a) ≡ true → put address pk keys a ≡ some pk
      put_here e = rw (e) refl

      put_there : (address == a) ≡ false → put address pk keys a ≡ keys a
      put_there e = rw (e) refl

  taproot-Sound :
      (l : List PkAddressMapping) (keys : Keys)
      → ((m : PkAddressMapping) → Memᴰ m l → Memᴰ m docs)
      → Sound keys
      → Sound (put_taproot l keys)
  unfolding put_taproot
  taproot-Sound [] keys all s = s
  taproot-Sound (m ∷ l) keys all s =
      taproot-Sound l (put m.taproot m.pk_hex keys) (λ x n. all x (Memᴰ.tail n))
        (put-Sound m.taproot m.pk_hex keys
          (record { mapping = m; stored = all m (Memᴰ.head refl); key = refl; owned = inl refl }) s)

  found-Owns :
      (address : String) (l : List PkAddressMapping)
      → ((m : PkAddressMapping) → Memᴰ m l → Memᴰ m docs)
      → (find_public_key_by_native_segwit_address address l == "") ≡ false
      → Owns docs address (find_public_key_by_native_segwit_address address l)
  unfolding find_public_key_by_native_segwit_address
  found-Owns address [] all h = ground (arith, h)
  found-Owns address (m ∷ l) all h =
      split (m.native_segwit_even == address || m.native_segwit_odd == address) refl h
        (found-Owns address l (λ x n. all x (Memᴰ.tail n)))
    where
      rest : String
      rest = find_public_key_by_native_segwit_address address l

      one_of :
          (m.native_segwit_even == address || m.native_segwit_odd == address) ≡ true
          → (m.native_segwit_even ≡ address) ⊎ (m.native_segwit_odd ≡ address)
      one_of t = elim (Bool-cases (m.native_segwit_even == address)) [
        | inl e ↦ inl ((eq_iff m.native_segwit_even address).0 e)
        | inr e ↦ inr ((eq_iff m.native_segwit_odd address).0 (ground (arith, t, e)))
      ]

      split :
          (b : Bool)
          → (m.native_segwit_even == address || m.native_segwit_odd == address) ≡ b
          → ((if b then m.pk_hex else rest) == "") ≡ false
          → ((rest == "") ≡ false → Owns docs address rest)
          → Owns docs address (if b then m.pk_hex else rest)
      split true t k before = record {
        mapping = m;
        stored = all m (Memᴰ.head refl);
        key = refl;
        owned = inr (one_of t);
      }
      split false t k before = before k

  native-Sound :
      (addresses : List String) (l : List PkAddressMapping) (keys : Keys)
      → ((m : PkAddressMapping) → Memᴰ m l → Memᴰ m docs)
      → Sound keys
      → Sound (put_native_segwit addresses l keys)
  unfolding put_native_segwit
  native-Sound [] l keys all s = s
  native-Sound (address ∷ addresses) l keys all s =
      native-Sound addresses l _ all (split (pk == "") refl)
    where
      pk : String
      pk = find_public_key_by_native_segwit_address address l

      split : (b : Bool) → (pk == "") ≡ b → Sound (if b then keys else put address pk keys)
      split true h = s
      split false h = put-Sound address pk keys (found-Owns address l all h) s

  -- what holds of the keys of a result
  record SoundResult (r : Result Error Keys) : Type 0 where
    sound : (keys : Keys) → r ≡ ok keys → Sound keys

  ok-Sound : (keys : Keys) → Sound keys → SoundResult (ok keys)
  ok-Sound keys s = record { sound = λ k h. subst Sound (ap (λ r. keys_or r keys) h) s }
    where
      keys_or : Result Error Keys → Keys → Keys
      keys_or (ok k) d = k
      keys_or (err e) d = d

  err-Sound : (e : Error) → SoundResult (err e)
  err-Sound e = record { sound = λ k h. absurd (err-ok h) }

  found-Sound :
      (r : Result GoError (List PkAddressMapping)) (f : List PkAddressMapping → Result Error Keys)
      → ((l : List PkAddressMapping) → r ≡ ok l → SoundResult (f l))
      → SoundResult (found_or_internal r f)
  found-Sound (ok l) f h = h l refl
  found-Sound (err e) f h = err-Sound _

  if-Sound :
      (b : Bool) (r s : Result Error Keys)
      → SoundResult r
      → SoundResult s
      → SoundResult (if b then r else s)
  if-Sound true r s h k = h
  if-Sound false r s h k = k

rows_or : Result GoError (List PkAddressMapping) → List PkAddressMapping → List PkAddressMapping
rows_or (ok l) d = l
rows_or (err e) d = d

module _ (source : Source PkAddressMapping) where
  -- what a read finds is stored
  found-Stored :
      (p : PkAddressMapping → Bool) (l : List PkAddressMapping)
      → find_unsorted source p ≡ ok l
      → (m : PkAddressMapping) → Memᴰ m l
      → Memᴰ m source.docs
  unfolding find_unsorted rows_or
  found-Stored p l h m n = split source.failure h
    where
      split : (o : Option GoError) → found o (source.unsorted p) ≡ ok l → Memᴰ m source.docs
      split none k =
          ((source.unsorted-mem p m).0 (subst (Memᴰ m) (sym (ap (λ r. rows_or r l) k)) n)).0
      split (some e) k = absurd (err-ok k)

  native_keys-Sound :
      (a : List String) (keys : Keys)
      → Sound source.docs keys
      → SoundResult source.docs (
          if no_address a
          then ok keys
          else found_or_internal
              (find_pk_mappings_by_native_segwit_address source a)
              (λ mappings. ok (put_native_segwit a mappings keys)))
  unfolding find_pk_mappings_by_native_segwit_address
  native_keys-Sound a keys s = if-Sound source.docs _ _ _ (ok-Sound source.docs keys s) (
      found-Sound source.docs _ _
        (λ l h. ok-Sound source.docs _ (native-Sound source.docs a l keys (found-Stored _ l h) s)))

  keys_of-Sound : (a : Addresses) → SoundResult source.docs (keys_of source a)
  unfolding keys_of find_pk_mappings_by_taproot_address
  keys_of-Sound a =
      if-Sound source.docs _ _ _ (native_keys-Sound a.native_segwit_addresses _ nothing) (
        found-Sound source.docs _ _ (λ l h.
          native_keys-Sound a.native_segwit_addresses _
            (taproot-Sound source.docs l _ (found-Stored _ l h) nothing)))
    where
      nothing : Sound source.docs (λ address. none)
      nothing a pk h = ground (arith, h)

  -- Each public key that is returned for an address has a stored mapping, in which the address is the
  -- taproot address or one of the native segwit addresses of that key.
  pub get_staker_public_keys_by_addresses-Sound :
      (decode_address : String → Result GoError DecodedAddress) (addresses : List String)
      (keys : Keys)
      → get_staker_public_keys_by_addresses decode_address source addresses ≡ ok keys
      → (address pk : String) → keys address ≡ some pk
      → Owns source.docs address pk
  unfolding get_staker_public_keys_by_addresses
  get_staker_public_keys_by_addresses-Sound decode_address addresses keys h =
      (split (split_addresses decode_address addresses)).sound keys h
    where
      split : (r : Result Error Addresses) → SoundResult source.docs (split_ok r (keys_of source))
      split (ok a) = keys_of-Sound a
      split (err e) = err-Sound source.docs e

-- ===== src/Scripts/Insertion.antt =====
-- The insertion of an address mapping, done or refused.
use mathlib.Core.Option.{some-injective}
use staking_api_service.Base.{
  String, Bool, true, false, ◌≢◌, ◌==◌, ◌≡◌, refl, sym, ◌∙◌, ap, subst, Option, some, ◌⊎◌, inl, inr,
  Bool-cases, eq_iff, if◌then◌else◌,
}
use staking_api_service.Base.Exec.{ok}
use staking_api_service.Model.{PkAddressMapping}
use staking_api_service.Driver.{Driver, Visible, SharesAddress}
use staking_api_service.Utils.Bitcoin.{Btc, SupportedAddress, derive_addresses_from_no_coord_pk}

module _ ⦃driver : Driver⦄ where
  open driver use {mongo}

  unfoldable pub mapping_at : Visible mongo → String → Option PkAddressMapping
  mapping_at v pk = mongo.pk_address_mappings.view v.db.pk_address_mappings pk

  abbrev pub mapping_of : String → SupportedAddress → PkAddressMapping
  mapping_of pk a = record {
    pk_hex = pk;
    taproot = a.taproot;
    native_segwit_even = a.native_segwit_even;
    native_segwit_odd = a.native_segwit_odd;
  }

  module _ ⦃btc : Btc⦄ where
    -- the mapping of the key's addresses
    abbrev pub Derived : String → PkAddressMapping → Type 0
    Derived pk m =
        (a : SupportedAddress) × (derive_addresses_from_no_coord_pk pk ≡ ok a)
        × (m ≡ mapping_of pk a)

    -- another mapping, stored under its own key, has one of the mapping's addresses
    abbrev pub Taken : PkAddressMapping → Visible mongo → Type 0
    Taken d v =
        (k : String) × (m : PkAddressMapping) × (mapping_at v k ≡ some m) × SharesAddress d m

    -- The key has a mapping, the one that it had or the one of its addresses; or it was kept out by
    -- a mapping that has one of its addresses.
    pub record Saved (pk : String) (u v : Visible mongo) : Type 0 where
      pub addresses : SupportedAddress
      pub derived : derive_addresses_from_no_coord_pk pk ≡ ok addresses
      pub stored :
          ((m : PkAddressMapping) × (mapping_at v pk ≡ some m)
            × ((mapping_at u pk ≡ some m) ⊎ Derived pk m))
          ⊎ Taken (mapping_of pk addresses) v

    -- No mapping is changed, and each new one is the one of its key's addresses.
    pub record Extends (u v : Visible mongo) : Type 0 where
      pub kept :
          (k : String) (m : PkAddressMapping) → mapping_at u k ≡ some m → mapping_at v k ≡ some m
      pub new :
          (k : String) (m : PkAddressMapping)
          → mapping_at v k ≡ some m
          → (mapping_at u k ≡ some m) ⊎ Derived k m

    pub Extends-refl : (u : Visible mongo) → Extends u u
    Extends-refl u = record { kept = λ k m h. h; new = λ k m h. inl h }

    earlier :
        (u v : Visible mongo) (k : String) (m : PkAddressMapping)
        → Extends u v
        → (mapping_at v k ≡ some m) ⊎ Derived k m
        → (mapping_at u k ≡ some m) ⊎ Derived k m
    earlier u v k m e (inl h) = e.new k m h
    earlier u v k m e (inr d) = inr d

    pub Extends-trans : (u v w : Visible mongo) → Extends u v → Extends v w → Extends u w
    Extends-trans u v w a b = record {
      kept = λ k m h. b.kept k m (a.kept k m h);
      new = λ k m h. earlier u v k m a (b.new k m h);
    }

    pub Saved-later :
        (pk : String) (u v w : Visible mongo) → Saved pk u v → Extends v w → Saved pk u w
    Saved-later pk u v w s e = record {
      addresses = s.addresses;
      derived = s.derived;
      stored = elim s.stored [
        | inl (m, at, from) ↦ inl (m, e.kept pk m at, from)
        | inr (k, m, at, shares) ↦ inr (k, m, e.kept k m at, shares)
      ];
    }

    pub Saved-earlier :
        (pk : String) (u v w : Visible mongo) → Extends u v → Saved pk v w → Saved pk u w
    Saved-earlier pk u v w e s = record {
      addresses = s.addresses;
      derived = s.derived;
      stored = elim s.stored [
        | inl (m, at, from) ↦ inl (m, at, earlier u v pk m e from)
        | inr taken ↦ inr taken
      ];
    }

    module _ (pk : String) (a : SupportedAddress) (h : derive_addresses_from_no_coord_pk pk ≡ ok a)
        (v : Visible mongo) where
      abbrev pub insertion : Bool × mongo.pk_address_mappings.State
      insertion = mongo.pk_address_mappings.insert_one (mapping_of pk a) v.db.pk_address_mappings

      abbrev pub after : Visible mongo
      after = record v { db = record v.db { pk_address_mappings = insertion.1 } }

      stored_at :
          insertion.0 ≡ true
          → (j : String)
          → mapping_at after j ≡ (if pk == j then some (mapping_of pk a) else mapping_at v j)
      unfolding mapping_at
      stored_at done =
          mongo.pk_address_mappings.view-inserted (mapping_of pk a) v.db.pk_address_mappings done

      unchanged : insertion.0 ≡ false → (j : String) → mapping_at after j ≡ mapping_at v j
      unfolding mapping_at
      unchanged refused j =
          ap (λ s. mongo.pk_address_mappings.view s j)
            (mongo.pk_address_mappings.refused-same (mapping_of pk a) v.db.pk_address_mappings
              refused)

      was_absent : insertion.0 ≡ true → (m : PkAddressMapping) → mapping_at v pk ≢ some m
      unfolding mapping_at
      was_absent done m e =
          mongo.pk_address_mappings.inserted-free (mapping_of pk a) v.db.pk_address_mappings done
            (pk, m, e, inl refl)

      placed :
          (k : String) (m : PkAddressMapping) (b : Bool)
          → (b ≡ true → pk ≡ k)
          → (if b then some (mapping_of pk a) else mapping_at v k) ≡ some m
          → (mapping_at v k ≡ some m) ⊎ Derived k m
      placed k m true same e =
          inr (subst (λ x. Derived x m) (same refl) (a, h, sym (some-injective _ m e)))
      placed k m false same e = inl e

      inserted-Extends : insertion.0 ≡ true → Extends v after
      inserted-Extends done = record {
        kept = λ k m e. elim (Bool-cases (pk == k)) [
          | inl same ↦ absurd (was_absent done m (ap (mapping_at v) ((eq_iff pk k).0 same) ∙ e))
          | inr other ↦ stored_at done k ∙ rw other e
        ];
        new = λ k m e. placed k m (pk == k) (λ t. (eq_iff pk k).0 t) (sym (stored_at done k) ∙ e);
      }

      seen :
          (k : String) (m : PkAddressMapping)
          → mongo.pk_address_mappings.view v.db.pk_address_mappings k ≡ some m
          → mapping_at v k ≡ some m
      unfolding mapping_at
      seen k m e = e

      refused-stored :
          insertion.0 ≡ false
          → ((m : PkAddressMapping) × (mapping_at after pk ≡ some m)
              × ((mapping_at v pk ≡ some m) ⊎ Derived pk m))
            ⊎ Taken (mapping_of pk a) after
      refused-stored refused =
          let (k, m, at, out) =
            mongo.pk_address_mappings.refused-KeptOut (mapping_of pk a) v.db.pk_address_mappings
              refused in
          elim out [
            | inl same ↦
                let there : mapping_at v pk ≡ some m =
                  subst (λ x. mapping_at v x ≡ some m) same (seen k m at) in
                inl (m, unchanged refused pk ∙ there, inl there)
            | inr shares ↦ inr (k, m, unchanged refused k ∙ seen k m at, shares)
          ]

      pub after-One : (Saved pk v after) × Extends v after
      unfolding mapping_at
      after-One = elim (Bool-cases insertion.0) [
        | inl done ↦ (
          record {
            addresses = a;
            derived = h;
            stored = inl (
              mapping_of pk a,
              stored_at done pk ∙ rw ((eq_iff pk pk).1 refl) refl,
              inr (a, h, refl),
            );
          },
          inserted-Extends done,
        )
        | inr refused ↦ (
          record { addresses = a; derived = h; stored = refused-stored refused },
          record {
            kept = λ k m e. unchanged refused k ∙ e;
            new = λ k m e. inl (sym (unchanged refused k) ∙ e);
          },
        )
      ]

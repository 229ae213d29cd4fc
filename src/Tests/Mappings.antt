-- ===== src/Tests/Mappings.antt =====
-- A collection of address mappings in memory, with its unique indexes.
use mathlib.Core.List.{Memᴰ}
use mathlib.Core.Option.{some-injective}
use staking_api_service.Base.{
  String, Bool, true, false, ◌||◌, ◌==◌, eq_iff, ◌≡◌, refl, sym, ◌∙◌, ap, subst, ◌⊎◌, inl, inr,
  Option, none, some, List, [], ◌∷◌, if◌then◌else◌, arith,
}
use staking_api_service.Model.{PkAddressMapping}
use staking_api_service.Driver.{MappingCollection, SharesAddress, KeptOut}

abbrev pub under : List PkAddressMapping → String → Option PkAddressMapping
under [] k = none
under (m ∷ l) k = let rest = under l k in if m.pk_hex == k then some m else rest

abbrev same_address : PkAddressMapping → PkAddressMapping → Bool
same_address d m =
    d.taproot == m.taproot
    || (d.native_segwit_odd == m.native_segwit_odd || d.native_segwit_even == m.native_segwit_even)

abbrev clashes : PkAddressMapping → PkAddressMapping → Bool
clashes d m = d.pk_hex == m.pk_hex || same_address d m

abbrev clashes? : PkAddressMapping → Option PkAddressMapping → Bool
clashes? d none = false
clashes? d (some m) = clashes d m

-- the mappings that are found, looked up by the keys of the list
abbrev forbidden : PkAddressMapping → List PkAddressMapping → List PkAddressMapping → Bool
forbidden d s [] = false
forbidden d s (x ∷ l) = clashes? d (under s x.pk_hex) || forbidden d s l

abbrev outcome : PkAddressMapping → List PkAddressMapping → Bool → Bool × List PkAddressMapping
outcome d s b = if b then (false, s) else (true, d ∷ s)

abbrev pub insert : PkAddressMapping → List PkAddressMapping → Bool × List PkAddressMapping
insert d s = outcome d s (forbidden d s s)

or-cases : (a b : Bool) → (a || b) ≡ true → (a ≡ true) ⊎ (b ≡ true)
or-cases true b h = inl refl
or-cases false b h = inr h

or-left : (a b : Bool) → a ≡ true → (a || b) ≡ true
or-left a b h = rw h refl

or-right : (a b : Bool) → b ≡ true → (a || b) ≡ true
or-right true b h = refl
or-right false b h = h

picked :
    {A : Type 0} (b : Bool) (x m : A) (o : Option A)
    → (if b then some x else o) ≡ some m
    → ((b ≡ true) × (x ≡ m)) ⊎ (o ≡ some m)
picked true x m o h = inl (refl, some-injective x m h)
picked false x m o h = inr h

under-Mem :
    (s : List PkAddressMapping) (k : String) (m : PkAddressMapping)
    → under s k ≡ some m
    → Memᴰ m s × (m.pk_hex ≡ k)
under-Mem [] k m h = ground (arith, h)
under-Mem (x ∷ s) k m h = elim (picked (x.pk_hex == k) x m (under s k) h) [
  | inl (e, same) ↦ (Memᴰ.head (sym same), subst (λ y. y.pk_hex ≡ k) same ((eq_iff x.pk_hex k).0 e))
  | inr e ↦ let (n, same) = under-Mem s k m e in (Memᴰ.tail n, same)
]

shares : (d m : PkAddressMapping) → same_address d m ≡ true → SharesAddress d m
shares d m h = elim (or-cases (d.taproot == m.taproot) _ h) [
  | inl e ↦ inl ((eq_iff d.taproot m.taproot).0 e)
  | inr f ↦ elim (or-cases (d.native_segwit_odd == m.native_segwit_odd) _ f) [
    | inl e ↦ inr (inl ((eq_iff d.native_segwit_odd m.native_segwit_odd).0 e))
    | inr g ↦ inr (inr ((eq_iff d.native_segwit_even m.native_segwit_even).0 g))
  ]
]

shared : (d m : PkAddressMapping) → SharesAddress d m → same_address d m ≡ true
shared d m (inl e) = or-left _ _ ((eq_iff d.taproot m.taproot).1 e)
shared d m (inr (inl e)) =
    or-right _ _ (or-left _ _ ((eq_iff d.native_segwit_odd m.native_segwit_odd).1 e))
shared d m (inr (inr e)) =
    or-right _ _ (or-right _ _ ((eq_iff d.native_segwit_even m.native_segwit_even).1 e))

clashes-keeps_out :
    (d m : PkAddressMapping) (k : String)
    → m.pk_hex ≡ k
    → clashes d m ≡ true
    → (k ≡ d.pk_hex) ⊎ SharesAddress d m
clashes-keeps_out d m k same h = elim (or-cases (d.pk_hex == m.pk_hex) _ h) [
  | inl e ↦ inl (sym ((eq_iff d.pk_hex m.pk_hex).0 e ∙ same))
  | inr f ↦ inr (shares d m f)
]

keeps_out-clashes :
    (d m : PkAddressMapping) (k : String)
    → m.pk_hex ≡ k
    → (k ≡ d.pk_hex) ⊎ SharesAddress d m
    → clashes d m ≡ true
keeps_out-clashes d m k same (inl e) = or-left _ _ ((eq_iff d.pk_hex m.pk_hex).1 (sym (same ∙ e)))
keeps_out-clashes d m k same (inr f) = or-right _ _ (shared d m f)

clashes?-KeptOut :
    (d : PkAddressMapping) (s : List PkAddressMapping) (k : String) (o : Option PkAddressMapping)
    → under s k ≡ o
    → clashes? d o ≡ true
    → KeptOut d (under s)
clashes?-KeptOut d s k none e h = ground (arith, h)
clashes?-KeptOut d s k (some m) e h = (k, m, e, clashes-keeps_out d m k (under-Mem s k m e).1 h)

pub forbidden-KeptOut :
    (d : PkAddressMapping) (s l : List PkAddressMapping)
    → forbidden d s l ≡ true
    → KeptOut d (under s)
forbidden-KeptOut d s [] h = ground (arith, h)
forbidden-KeptOut d s (x ∷ l) h = elim (or-cases (clashes? d (under s x.pk_hex)) _ h) [
  | inl e ↦ clashes?-KeptOut d s x.pk_hex (under s x.pk_hex) refl e
  | inr f ↦ forbidden-KeptOut d s l f
]

Mem-forbidden :
    (d : PkAddressMapping) (s l : List PkAddressMapping) (k : String) (m : PkAddressMapping)
    → under s k ≡ some m
    → m.pk_hex ≡ k
    → Memᴰ m l
    → clashes d m ≡ true
    → forbidden d s l ≡ true
Mem-forbidden d s [] k m e same n h = elim n [ ]
Mem-forbidden d s (x ∷ l) k m e same (Memᴰ.head f) h = or-left _ (forbidden d s l) (
    subst (λ o. clashes? d o ≡ true) (sym (ap (under s) (sym (ap (λ y. y.pk_hex) f) ∙ same) ∙ e)) h)
Mem-forbidden d s (x ∷ l) k m e same (Memᴰ.tail n) h =
    or-right (clashes? d (under s x.pk_hex)) _ (Mem-forbidden d s l k m e same n h)

KeptOut-forbidden :
    (d : PkAddressMapping) (s : List PkAddressMapping)
    → KeptOut d (under s)
    → forbidden d s s ≡ true
KeptOut-forbidden d s (k, m, e, out) =
    let (n, same) = under-Mem s k m e in
    Mem-forbidden d s s k m e same n (keeps_out-clashes d m k same out)

module _ (d : PkAddressMapping) (s : List PkAddressMapping) where
  pub insert-true : (insert d s).0 ≡ true → (forbidden d s s ≡ false) × (insert d s ≡ (true, d ∷ s))
  insert-true = by (forbidden d s s)
    where
      by : (b : Bool) → (outcome d s b).0 ≡ true → (b ≡ false) × (outcome d s b ≡ (true, d ∷ s))
      by true h = absurd (ground (arith, h))
      by false h = (refl, refl)

  pub insert-false : (insert d s).0 ≡ false → (forbidden d s s ≡ true) × (insert d s ≡ (false, s))
  insert-false = by (forbidden d s s)
    where
      by : (b : Bool) → (outcome d s b).0 ≡ false → (b ≡ true) × (outcome d s b ≡ (false, s))
      by true h = (refl, refl)
      by false h = absurd (ground (arith, h))

pub insert-free :
    (d : PkAddressMapping) (s : List PkAddressMapping)
    → (insert d s).0 ≡ true
    → ¬ KeptOut d (under s)
insert-free d s h out = ground (arith, sym (insert-true d s h).0 ∙ KeptOut-forbidden d s out)

abbrev pub mappings : MappingCollection
mappings = record {
  State = List PkAddressMapping;
  view = under;
  insert_one = insert;
  inserted-free = insert-free;
  view-inserted = λ d s h j. ap (λ r. under r.1 j) (insert-true d s h).1;
  refused-KeptOut = λ d s h. forbidden-KeptOut d s s (insert-false d s h).0;
  refused-same = λ d s h. ap (λ r. r.1) (insert-false d s h).1;
}

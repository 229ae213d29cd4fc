-- ===== src/Service/FinalityProviders/Listed.antt =====
-- Who is listed on the pages of `GetFinalityProviders`.
use mathlib.Core.List.{Memᴰ}
use staking_api_service.Base.{
  ℕ, ◌<◌, String, true, false, ◌==◌, ◌≡◌, refl, sym, ◌∙◌, ap, subst, Option, none, some, List, [],
  ◌∷◌, ◌++◌, map, eq_iff, Bool-cases, ◌⊎◌, inl, inr, arith,
}
use staking_api_service.Model.{StatsDocument}
use staking_api_service.Reads.{Source, Json, Base64}
use staking_api_service.Reads.Stats.{
  FinalityProviderStatsPagination, by_active_tvl, find_finality_provider_stats,
}
use staking_api_service.Reads.Stats.Walks.{DistinctTvl, by_active_tvl-StrictOrder, comparable}
use staking_api_service.Service.FinalityProviders.{
  FinalityProviderDetails, FpDetailsPublic, FpParamsPublic, without_stats, with_stats, is_empty,
  fp_params_map, has_stats, not_in_use, get_finality_providers_from_global_params,
  get_finality_providers, providers_page,
}
use staking_api_service.Service.FinalityProviders.Walk.{
  Walked, shown, registered, unused, from_start,
}

mem-left : {A : Type 0} (x : A) (a b : List A) → Memᴰ x a → Memᴰ x (a ++ b)
mem-left x [] b m = elim m [ ]
mem-left x (y ∷ a) b (Memᴰ.head e) = Memᴰ.head e
mem-left x (y ∷ a) b (Memᴰ.tail m) = Memᴰ.tail (mem-left x a b m)

mem-right : {A : Type 0} (x : A) (a b : List A) → Memᴰ x b → Memᴰ x (a ++ b)
mem-right x [] b m = m
mem-right x (y ∷ a) b m = Memᴰ.tail (mem-right x a b m)

mem-map : {A B : Type 0} (f : A → B) (x : A) (l : List A) → Memᴰ x l → Memᴰ (f x) (map f l)
mem-map f x [] m = elim m [ ]
mem-map f x (y ∷ l) (Memᴰ.head e) = Memᴰ.head (ap f e)
mem-map f x (y ∷ l) (Memᴰ.tail m) = Memᴰ.tail (mem-map f x l m)

-- a registered provider has statistics or is not in use
found_or_unused :
    (stats : List StatsDocument) (l : List FpParamsPublic) (fp : FpParamsPublic)
    → Memᴰ fp l
    → (has_stats stats fp.btc_pk ≡ true) ⊎ Memᴰ (without_stats fp) (not_in_use stats l)
unfolding not_in_use
found_or_unused stats [] fp m = elim m [ ]
found_or_unused stats (x ∷ l) fp (Memᴰ.head e) = elim (Bool-cases (has_stats stats x.btc_pk)) [
  | inl h ↦ inl (subst (λ y. has_stats stats y.btc_pk ≡ true) (sym e) h)
  | inr h ↦ inr (rw (h) (Memᴰ.head (ap without_stats e)))
]
found_or_unused stats (x ∷ l) fp (Memᴰ.tail m) = elim (found_or_unused stats l fp m) [
  | inl h ↦ inl h
  | inr n ↦ elim (Bool-cases (has_stats stats x.btc_pk)) [
    | inl h ↦ inr (rw (h) n)
    | inr h ↦ inr (rw (h) (Memᴰ.tail n))
  ]
]

has_stats-mem :
    (stats : List StatsDocument) (pk : String)
    → has_stats stats pk ≡ true
    → (d : StatsDocument) × Memᴰ d stats × (d.id ≡ pk)
unfolding has_stats
has_stats-mem (x ∷ l) pk h = elim (Bool-cases (x.id == pk)) [
  | inl e ↦ (x, Memᴰ.head refl, (eq_iff x.id pk).0 e)
  | inr e ↦ let (d, m, same) = has_stats-mem l pk (ground (arith, h, e)) in (d, Memᴰ.tail m, same)
]
has_stats-mem [] pk h = ground (arith, h)

-- what is shown under a key
abbrev pub Listed : String → List FpDetailsPublic → Type 0
Listed pk items = (d : FpDetailsPublic) × Memᴰ d items × (d.btc_pk ≡ pk)

module _ (source : Source StatsDocument) (distinct : DistinctTvl source.docs)
    (fp_params : List FpParamsPublic) where
  stored-Listed :
      (d : StatsDocument)
      → Memᴰ d source.docs
      → Memᴰ (shown fp_params d) (
          map (shown fp_params) (source.rows (λ d. true) by_active_tvl)
          ++ (unused fp_params source))
  unfolding by_active_tvl-StrictOrder
  stored-Listed d m = mem-left (shown fp_params d) _ (unused fp_params source) (
      mem-map (shown fp_params) d _ (
        (source.rows-mem (λ d. true) by_active_tvl-StrictOrder (comparable source distinct) d).1
          (m, refl)))

  shown_pk : (d : StatsDocument) → (shown fp_params d).btc_pk ≡ d.id
  unfolding fp_params_map
  shown_pk d = split (fp_params_map fp_params d.id)
    where
      split : (o : Option FpParamsPublic) → (with_stats d o).btc_pk ≡ d.id
      split none = refl
      split (some fp) = refl

  registered-Listed :
      (fp : FpParamsPublic)
      → Memᴰ fp fp_params
      → Listed fp.btc_pk (
          map (shown fp_params) (source.rows (λ d. true) by_active_tvl)
          ++ (unused fp_params source))
  registered-Listed fp m = elim (found_or_unused (registered fp_params source) fp_params fp m) [
    | inl h ↦
        let (d, n, same) = has_stats-mem (registered fp_params source) fp.btc_pk h in
        let stored = ((source.unsorted-mem _ d).0 n).0 in
        (shown fp_params d, stored-Listed d stored, shown_pk d ∙ same)
    | inr n ↦ (without_stats fp, mem-right (without_stats fp) _ (unused fp_params source) n, refl)
  ]

module _ (source : Source StatsDocument) (distinct : DistinctTvl source.docs) (limit : ℕ)
    (positive : 0 < limit) (up : source.failure ≡ none) ⦃base64 : Base64⦄
    ⦃by_tvl : Json FinalityProviderStatsPagination⦄
    (finality_providers : List FinalityProviderDetails)
    (configured : is_empty (get_finality_providers_from_global_params finality_providers)
      ≡ false) where
  abbrev pub fp_params : List FpParamsPublic
  fp_params = get_finality_providers_from_global_params finality_providers

  abbrev pub listing : List FpDetailsPublic
  listing = map (shown fp_params) (source.rows (λ d. true) by_active_tvl) ++ unused fp_params source

  same :
      (token : String)
      → get_finality_providers source limit finality_providers token
        ≡ providers_page source fp_params token (find_finality_provider_stats source limit token)
  unfolding get_finality_providers
  same token = rw (configured) refl

  -- The pages of the finality providers, from the first one to the one without token, have together the
  -- providers with statistics, those with the greatest active TVL first, and then the registered
  -- ones without statistics; so every provider with statistics is on a page, with its numbers, and so is every
  -- registered one. No two statistics have the same active TVL, the limit is positive, some
  -- provider is registered, and the collection can be read and is not changed meanwhile.
  pub get_finality_providers-Walked :
      Walked (get_finality_providers source limit finality_providers) "" listing
      × ((d : StatsDocument) → Memᴰ d source.docs → Memᴰ (shown fp_params d) listing)
      × ((fp : FpParamsPublic) → Memᴰ fp fp_params → Listed fp.btc_pk listing)
  get_finality_providers-Walked = (
    subst (λ list. Walked list "" listing) (λ i token. sym (same token) i)
        (from_start source distinct limit positive up fp_params),
    stored-Listed source distinct fp_params,
    registered-Listed source distinct fp_params,
  )

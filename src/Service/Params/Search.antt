-- ===== src/Service/Params/Search.antt =====
-- Which version `GetVersionedGlobalParamsByHeight` of internal/v1/service/params.go finds.
use staking_api_service.Base.{
  ℕ, zero, suc, ◌≤◌, ◌<◌, ◌≡◌, refl, ap, ◌∙◌, subst, sym, Option, none, some, List, leb, leb→le,
  arith, Bool-cases, inl, inr, ◌⊎◌, false,
}
use staking_api_service.Model.{Uint64}
use staking_api_service.Utils.Unbonding.{VersionedGlobalParams}
use staking_api_service.Service.Params.{
  Config, get_elem?, length, pick, search_versions, get_versioned_global_params_by_height,
}

-- of the versions at the indices from `i` below `n`, none is active at the height
abbrev pub Later : List VersionedGlobalParams → Uint64 → ℕ → ℕ → Type 0
Later versions height i n =
    (j : ℕ) (u : VersionedGlobalParams)
    → i ≤ j
    → j < n
    → get_elem? versions j ≡ some u
    → height < u.activation_height

-- the active version with the highest index below `n`
pub data Latest (versions : List VersionedGlobalParams) (height : Uint64) (n : ℕ)
    : Option VersionedGlobalParams → Type 0 where
  latest :
      (v : VersionedGlobalParams) (i : ℕ)
      → i < n
      → get_elem? versions i ≡ some v
      → v.activation_height ≤ height
      → Later versions height (suc i) n
      → Latest versions height n (some v)
  no_version : Later versions height 0 n → Latest versions height n none

module _ (versions : List VersionedGlobalParams) (height : Uint64) where
  Later-step :
      (i n : ℕ)
      → Later versions height i n
      → ((u : VersionedGlobalParams) → get_elem? versions n ≡ some u → height < u.activation_height)
      → Later versions height i (suc n)
  Later-step i n h k j u low high found = elim (lt_or_eq j n high) [
    | inl below ↦ h j u low below found
    | inr same ↦ k u (subst (λ x. get_elem? versions x ≡ some u) same found)
  ]
    where
      lt_or_eq : (a b : ℕ) → a < suc b → (a < b) ⊎ (a ≡ b)
      lt_or_eq a b h = ground arith

  Latest-step :
      (n : ℕ) (r : Option VersionedGlobalParams)
      → Latest versions height n r
      → ((u : VersionedGlobalParams) → get_elem? versions n ≡ some u → height < u.activation_height)
      → Latest versions height (suc n) r
  Latest-step n r (latest v i low found active later) k =
      latest v i (omega arith) found active (Later-step (suc i) n later k)
  Latest-step n r (no_version later) k = no_version (Later-step 0 n later k)

  height_of : Option VersionedGlobalParams → Uint64
  height_of none = 0
  height_of (some v) = v.activation_height

  not_yet :
      (v u : VersionedGlobalParams)
      → leb v.activation_height height ≡ false
      → some v ≡ some u
      → height < u.activation_height
  unfolding height_of
  not_yet v u h same =
      let e : v.activation_height ≡ u.activation_height = ap height_of same in
      subst (λ a. height < a) e (above v.activation_height h)
    where
      above : (a : ℕ) → leb a height ≡ false → height < a
      above a h = ground arith

  pick-Latest :
      (n : ℕ) (o : Option VersionedGlobalParams) (r : Option VersionedGlobalParams)
      → get_elem? versions n ≡ o
      → Latest versions height n r
      → Latest versions height (suc n) (pick o height r)
  pick-Latest n none r q l = Latest-step n r l (λ u p. ground (arith, p, q))
  pick-Latest n (some v) r q l = elim (Bool-cases (leb v.activation_height height)) [
    | inl active ↦
        rw active (latest v n (omega arith) q (leb→le _ _ active) (λ j u low high p. omega arith))
    | inr later ↦ rw later (Latest-step n r l (λ u p. not_yet v u later (sym q ∙ p)))
  ]

  search-Latest : (n : ℕ) → Latest versions height n (search_versions versions height n)
  unfolding search_versions
  search-Latest zero = no_version (λ j u low high p. omega arith)
  search-Latest (suc n) = pick-Latest n (get_elem? versions n) _ refl (search-Latest n)

-- The version found for a height is the one with the highest index among those whose activation height
-- is at most the height; none is found only if there is no such version.
pub get_versioned_global_params_by_height-Latest :
    (cfg : Config) (height : Uint64)
    → Latest cfg.versions height
        (length cfg.versions)
        (get_versioned_global_params_by_height cfg height)
unfolding get_versioned_global_params_by_height
get_versioned_global_params_by_height-Latest cfg height =
    search-Latest cfg.versions height (length cfg.versions)

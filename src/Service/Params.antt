-- ===== src/Service/Params.antt =====
-- internal/v1/service/params.go, and the configuration that the services read.
pub mod Search
use staking_api_service.Base.{ℕ, zero, suc, Option, none, some, List, [], ◌∷◌, leb, if◌then◌else◌}
use staking_api_service.Model.{Uint64}
use staking_api_service.Utils.Unbonding.{VersionedGlobalParams}

-- `logical-shard-count` of the configuration, and `Params.Versions`
pub record Config : Type 0 where
  pub logical_shard_count : ℕ
  pub versions : List VersionedGlobalParams

abbrev pub get_elem? {ℓ} : {A : Type ℓ} → List A → ℕ → Option A
get_elem? [] i = none
get_elem? (x ∷ xs) zero = some x
get_elem? (x ∷ xs) (suc i) = get_elem? xs i

abbrev pub length {ℓ} : {A : Type ℓ} → List A → ℕ
length [] = 0
length (x ∷ xs) = suc (length xs)

abbrev pick :
    Option VersionedGlobalParams
    → Uint64
    → Option VersionedGlobalParams
    → Option VersionedGlobalParams
pick none height rest = rest
pick (some v) height rest = if leb v.activation_height height then some v else rest

-- The loop `for i := n - 1; i >= 0; i--`: `n` is the number of indices that are left.
unfoldable pub search_versions :
    List VersionedGlobalParams → Uint64 → ℕ → Option VersionedGlobalParams
search_versions versions height zero = none
search_versions versions height (suc i) =
    let rest = search_versions versions height i in pick (get_elem? versions i) height rest

unfoldable pub get_versioned_global_params_by_height :
    Config → Uint64 → Option VersionedGlobalParams
unfolding search_versions
get_versioned_global_params_by_height cfg height =
    search_versions cfg.versions height (length cfg.versions)

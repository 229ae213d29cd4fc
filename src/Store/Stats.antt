-- ===== src/Store/Stats.antt =====
-- internal/v1/db/client/stats.go: the statistics of finality providers, stakers and the whole.
pub mod Sprint
pub mod Shards
pub mod Digits
pub mod Total
pub mod Overall
pub mod Sums
use staking_api_service.Base.{
  ℕ, zero, suc, ◌%◌, String, Bool, true, false, Option, some, none, List, [], ◌∷◌, ◌++◌, eqb,
  if◌then◌else◌,
}
use staking_api_service.Base.Exec.{Exec, ok, err, pure, fail, gets, try, ◌>>=◌, ◌>>◌}
use staking_api_service.Types.Errors.{GoError, external, document_not_found, is_no_documents}
use staking_api_service.Types.States.{to_string, active, unbonded}
use staking_api_service.Model.{Uint64, Int64, add64, neg64, StatsDocument, OverallStatsDocument}
use staking_api_service.Driver.{Driver, World, Work, call, or_else}
use staking_api_service.Store.Access.{Client, decode, query, command, start_session}
use staking_api_service.Store.StatsLock.{
  LockField, overall, staker, finality_provider, update_stats_lock_by_field_name,
}
use Sprint.{sprint}

-- The numbers of a `$inc`; a field that the map does not name has 0.
pub record Increment : Type 0 where
  pub active_tvl : Int64
  pub total_tvl : Int64
  pub active_delegations : Int64
  pub total_delegations : Int64

unfoldable pub active_increment : Uint64 → Increment
active_increment amount = record {
  active_tvl = amount;
  total_tvl = amount;
  active_delegations = 1;
  total_delegations = 1;
}

unfoldable pub unbonded_decrement : Uint64 → Increment
unbonded_decrement amount = record {
  active_tvl = neg64 amount;
  total_tvl = 0;
  active_delegations = neg64 1;
  total_delegations = 0;
}

-- a document that an upsert creates has the key and no other field, which Go decodes to 0
abbrev pub no_stats : String → StatsDocument
no_stats id = record {
  id = id;
  active_tvl = 0;
  total_tvl = 0;
  active_delegations = 0;
  total_delegations = 0;
}

abbrev pub no_overall_stats : String → OverallStatsDocument
no_overall_stats id = record {
  id = id;
  active_tvl = 0;
  total_tvl = 0;
  active_delegations = 0;
  total_delegations = 0;
  total_stakers = 0;
}

unfoldable pub inc : String → Increment → Option StatsDocument → StatsDocument
inc id i o =
    let d = or_else o (no_stats id) in
    record d {
      active_tvl = add64 d.active_tvl i.active_tvl;
      total_tvl = add64 d.total_tvl i.total_tvl;
      active_delegations = add64 d.active_delegations i.active_delegations;
      total_delegations = add64 d.total_delegations i.total_delegations;
    }

unfoldable pub inc_overall :
    String → Increment → Uint64 → Option OverallStatsDocument → OverallStatsDocument
inc_overall id i stakers o =
    let d = or_else o (no_overall_stats id) in
    record d {
      active_tvl = add64 d.active_tvl i.active_tvl;
      total_tvl = add64 d.total_tvl i.total_tvl;
      active_delegations = add64 d.active_delegations i.active_delegations;
      total_delegations = add64 d.total_delegations i.total_delegations;
      total_stakers = add64 d.total_stakers stakers;
    }

module _ ⦃driver : Driver⦄ where
  open driver use {mongo}

  unfoldable pub upsert_finality_provider_stats : String → Increment → Client driver (Unit {0})
  unfolding inc
  upsert_finality_provider_stats pk i = call (
      command (λ db. (
        tt,
        record db {
          finality_provider_stats =
              mongo.finality_provider_stats.upsert_one pk (inc pk i) db.finality_provider_stats;
        },
      )))

  unfoldable pub upsert_staker_stats : String → Increment → Client driver (Unit {0})
  unfolding inc
  upsert_staker_stats pk i = call (
      command (λ db. (
        tt,
        record db { staker_stats = mongo.staker_stats.upsert_one pk (inc pk i) db.staker_stats },
      )))

  unfoldable pub upsert_overall_stats : String → Increment → Uint64 → Client driver (Unit {0})
  unfolding inc_overall
  upsert_overall_stats shard i stakers = call (
      command (λ db. (
        tt,
        record db {
          overall_stats =
              mongo.overall_stats.upsert_one shard (inc_overall shard i stakers) db.overall_stats;
        },
      )))

  unfoldable pub update_finality_provider_stats_work :
      (state hash fp_pk : String) → Increment → Work driver.mongo
  update_finality_provider_stats_work state hash fp_pk upsert_update =
      update_stats_lock_by_field_name hash state finality_provider
      >> upsert_finality_provider_stats fp_pk upsert_update

  unfoldable pub update_finality_provider_stats :
      (state hash fp_pk : String) → Increment → Client driver (Unit {0})
  update_finality_provider_stats state hash fp_pk upsert_update =
      start_session driver
      >> driver.with_transaction
          (update_finality_provider_stats_work state hash fp_pk upsert_update)

  unfoldable pub increment_finality_provider_stats :
      (hash fp_pk : String) → Uint64 → Client driver (Unit {0})
  unfolding update_finality_provider_stats
  increment_finality_provider_stats hash fp_pk amount =
      update_finality_provider_stats (to_string active) hash fp_pk (active_increment amount)

  unfoldable pub subtract_finality_provider_stats :
      (hash fp_pk : String) → Uint64 → Client driver (Unit {0})
  unfolding update_finality_provider_stats
  subtract_finality_provider_stats hash fp_pk amount =
      update_finality_provider_stats (to_string unbonded) hash fp_pk (unbonded_decrement amount)

  unfoldable pub update_staker_stats_work :
      (state hash staker_pk : String) → Increment → Work driver.mongo
  update_staker_stats_work state hash staker_pk upsert_update =
      update_stats_lock_by_field_name hash state staker
      >> upsert_staker_stats staker_pk upsert_update

  unfoldable pub update_staker_stats :
      (state hash staker_pk : String) → Increment → Client driver (Unit {0})
  update_staker_stats state hash staker_pk upsert_update =
      start_session driver
      >> driver.with_transaction (update_staker_stats_work state hash staker_pk upsert_update)

  unfoldable pub increment_staker_stats :
      (hash staker_pk : String) → Uint64 → Client driver (Unit {0})
  unfolding update_staker_stats
  increment_staker_stats hash staker_pk amount =
      update_staker_stats (to_string active) hash staker_pk (active_increment amount)

  unfoldable pub subtract_staker_stats :
      (hash staker_pk : String) → Uint64 → Client driver (Unit {0})
  unfolding update_staker_stats
  subtract_staker_stats hash staker_pk amount =
      update_staker_stats (to_string unbonded) hash staker_pk (unbonded_decrement amount)

  unfoldable pub find_staker_stats : String → Client driver StatsDocument
  find_staker_stats staker_pk = do
    found ← call (query (λ db. mongo.staker_stats.find_one staker_pk (λ d. true) db.staker_stats))
    decode found

  unfoldable pub get_staker_stats : String → Client driver StatsDocument
  unfolding find_staker_stats
  get_staker_stats staker_pk =
      try (find_staker_stats staker_pk)
        (λ e.
          fail (
            if is_no_documents e then document_not_found staker_pk "Staker stats not found" else e))
        pure

  abbrev pub draw : ℕ → List ℕ → Client driver String
  draw shard_count [] w = (err (external "rand: no data"), w)
  draw shard_count (n ∷ rest) w = (ok (sprint (n % shard_count)), record w { random = rest })

  -- `rand.Int` yields a number below the shard count, which is positive.
  unfoldable pub generate_overall_stats_id : ℕ → Client driver String
  generate_overall_stats_id shard_count w = draw shard_count w.random w

  unfoldable pub set_captured : Bool → Client driver (Unit {0})
  set_captured b w = (ok tt, record w { captured = b })

  -- the callback; `captured` says whether `total_stakers` is in the map of increments
  unfoldable pub increment_overall_stats_work :
      ℕ → (hash staker_pk : String) → Uint64 → Work driver.mongo
  increment_overall_stats_work shard_count hash staker_pk amount = do
    update_stats_lock_by_field_name hash (to_string active) overall
    stats ← find_staker_stats staker_pk
    (if eqb stats.total_delegations 1 then set_captured true else pure tt)
    shard ← generate_overall_stats_id shard_count
    new_staker ← gets (λ w. w.captured)
    upsert_overall_stats shard (active_increment amount) (if new_staker then 1 else 0)

  unfoldable pub increment_overall_stats :
      ℕ → (hash staker_pk : String) → Uint64 → Client driver (Unit {0})
  increment_overall_stats shard_count hash staker_pk amount = do
    start_session driver
    set_captured false
    driver.with_transaction (increment_overall_stats_work shard_count hash staker_pk amount)

  unfoldable pub subtract_overall_stats_work : ℕ → String → Uint64 → Work driver.mongo
  subtract_overall_stats_work shard_count hash amount = do
    update_stats_lock_by_field_name hash (to_string unbonded) overall
    shard ← generate_overall_stats_id shard_count
    upsert_overall_stats shard (unbonded_decrement amount) 0

  -- The staker's key is an argument in Go too, and is not used.
  unfoldable pub subtract_overall_stats :
      ℕ → (hash staker_pk : String) → Uint64 → Client driver (Unit {0})
  subtract_overall_stats shard_count hash staker_pk amount =
      start_session driver
      >> driver.with_transaction (subtract_overall_stats_work shard_count hash amount)

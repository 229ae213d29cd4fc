-- ===== src/Store/V2Stats.antt =====
-- internal/v2/db/client/stats.go: the statistics of version 2, and their lock.
pub mod Overall
pub mod Unchanged
pub mod Frozen
use staking_api_service.Base.{
  ℕ, ◌^◌, String, Bool, true, false, Option, some, none, List, [], ◌∷◌, ◌&&◌, eqb, ltb,
  if◌then◌else◌,
}
use staking_api_service.Base.Exec.{ok, pure, fail, gets, try, ◌>>=◌, ◌>>◌}
use staking_api_service.Types.Errors.{external, document_not_found, is_no_documents}
use staking_api_service.Types.States.{to_string, active, unbonded}
use staking_api_service.Model.{
  Uint64, add64, neg64, StatsDocument, V2StatsLockDocument, V2OverallStatsDocument,
  V2StakerStatsDocument,
}
use staking_api_service.Driver.{Driver, Work, call, or_else}
use staking_api_service.Store.Access.{Client, decode, query, command, start_session}
use staking_api_service.Store.StatsLock.{
  LockField, overall, staker, finality_provider, construct_stats_lock_id,
}
use staking_api_service.Store.Stats.{
  Increment, active_increment, unbonded_decrement, inc, generate_overall_stats_id, set_captured,
}

unfoldable pub new_v2_stats_lock_document :
    String → (overall_stats staker_stats finality_provider_stats : Bool) → V2StatsLockDocument
new_v2_stats_lock_document id overall_stats staker_stats finality_provider_stats = record {
  id = id;
  overall_stats = overall_stats;
  staker_stats = staker_stats;
  finality_provider_stats = finality_provider_stats;
  v2_overall_stats = none;
  v2_staker_stats = none;
  v2_finality_provider_stats = none;
}

-- the field that a query names, "v2_overall_stats", "v2_staker_stats" or "v2_finality_provider_stats"
abbrev pub v2_field : LockField → V2StatsLockDocument → Option Bool
v2_field overall d = d.v2_overall_stats
v2_field staker d = d.v2_staker_stats
v2_field finality_provider d = d.v2_finality_provider_stats

-- `{fieldName: false}`, which a document without the field does not match
abbrev pub is_stored_false : Option Bool → Bool
is_stored_false (some false) = true
is_stored_false _ = false

abbrev pub v2_lock : LockField → V2StatsLockDocument → V2StatsLockDocument
v2_lock overall d = record d { v2_overall_stats = some true }
v2_lock staker d = record d { v2_staker_stats = some true }
v2_lock finality_provider d = record d { v2_finality_provider_stats = some true }

-- what the `$inc` of the overall statistics has beside `Increment`
pub record Heads : Type 0 where
  pub active_stakers : Uint64
  pub total_stakers : Uint64
  pub active_finality_providers : Uint64
  pub total_finality_providers : Uint64

abbrev pub no_v2_overall_stats : String → V2OverallStatsDocument
no_v2_overall_stats id = record {
  id = id;
  active_tvl = 0;
  total_tvl = 0;
  active_delegations = 0;
  total_delegations = 0;
  active_stakers = 0;
  total_stakers = 0;
  active_finality_providers = 0;
  total_finality_providers = 0;
}

unfoldable pub inc_v2_overall :
    String → Increment → Heads → Option V2OverallStatsDocument → V2OverallStatsDocument
inc_v2_overall id i h o =
    let d = or_else o (no_v2_overall_stats id) in
    record {
      id = d.id;
      active_tvl = add64 d.active_tvl i.active_tvl;
      total_tvl = add64 d.total_tvl i.total_tvl;
      active_delegations = add64 d.active_delegations i.active_delegations;
      total_delegations = add64 d.total_delegations i.total_delegations;
      active_stakers = add64 d.active_stakers h.active_stakers;
      total_stakers = add64 d.total_stakers h.total_stakers;
      active_finality_providers = add64 d.active_finality_providers h.active_finality_providers;
      total_finality_providers = add64 d.total_finality_providers h.total_finality_providers;
    }

abbrev pub when : Bool → Uint64 → Uint64
when b n = if b then n else 0

module _ ⦃driver : Driver⦄ where
  open driver use {mongo}

  unfoldable pub v2_get_or_create_stats_lock :
      (hash tx_type : String) → Client driver V2StatsLockDocument
  unfolding construct_stats_lock_id new_v2_stats_lock_document
  v2_get_or_create_stats_lock hash tx_type =
      let id = construct_stats_lock_id hash tx_type in
      let fresh = new_v2_stats_lock_document id false false false in
      call (
        command (λ db.
          let s = mongo.v2_stats_lock.upsert_one id (λ o. or_else o fresh) db.v2_stats_lock in
          (
            or_else (mongo.v2_stats_lock.find_one id (λ d. true) s) fresh,
            record db { v2_stats_lock = s },
          )))

  unfoldable pub v2_lock_once : String → LockField → Client driver Bool
  v2_lock_once id field = call (
      command (λ db.
        let (matched, s) =
          mongo.v2_stats_lock.update_one id (λ d. is_stored_false (v2_field field d))
            (v2_lock field) db.v2_stats_lock in
        (matched, record db { v2_stats_lock = s })))

  unfoldable pub v2_update_stats_lock_by_field_name :
      (hash state : String) → LockField → Client driver (Unit {0})
  unfolding v2_lock_once construct_stats_lock_id
  v2_update_stats_lock_by_field_name hash state field = do
    matched ← v2_lock_once (construct_stats_lock_id hash state) field
    if matched
        then pure tt
        else fail (document_not_found hash "document already processed or does not exist")

  unfoldable pub upsert_v2_provider : String → Increment → Client driver (Unit {0})
  unfolding inc
  upsert_v2_provider pk i = call (
      command (λ db. (
        tt,
        record db {
          v2_finality_provider_stats =
              mongo.v2_finality_provider_stats.upsert_one pk (inc pk i)
                db.v2_finality_provider_stats;
        },
      )))

  unfoldable pub upsert_v2_staker : String → Increment → Client driver (Unit {0})
  unfolding inc
  upsert_v2_staker pk i = call (
      command (λ db. (
        tt,
        record db {
          v2_staker_stats = mongo.v2_staker_stats.upsert_one pk (inc pk i) db.v2_staker_stats;
        },
      )))

  unfoldable pub upsert_v2_overall : String → Increment → Heads → Client driver (Unit {0})
  unfolding inc_v2_overall
  upsert_v2_overall shard i h = call (
      command (λ db. (
        tt,
        record db {
          v2_overall_stats =
              mongo.v2_overall_stats.upsert_one shard (inc_v2_overall shard i h)
                db.v2_overall_stats;
        },
      )))

  unfoldable pub v2_update_finality_provider_stats_work :
      (state hash fp_pk : String) → Increment → Work driver.mongo
  v2_update_finality_provider_stats_work state hash fp_pk upsert_update =
      v2_update_stats_lock_by_field_name hash state finality_provider
      >> upsert_v2_provider fp_pk upsert_update

  unfoldable pub v2_update_finality_provider_stats :
      (state hash fp_pk : String) → Increment → Client driver (Unit {0})
  v2_update_finality_provider_stats state hash fp_pk upsert_update =
      start_session driver
      >> driver.with_transaction
          (v2_update_finality_provider_stats_work state hash fp_pk upsert_update)

  unfoldable pub v2_increment_finality_provider_stats :
      (hash fp_pk : String) → Uint64 → Client driver (Unit {0})
  unfolding v2_update_finality_provider_stats
  v2_increment_finality_provider_stats hash fp_pk amount =
      v2_update_finality_provider_stats (to_string active) hash fp_pk (active_increment amount)

  unfoldable pub v2_subtract_finality_provider_stats :
      (hash fp_pk : String) → Uint64 → Client driver (Unit {0})
  unfolding v2_update_finality_provider_stats
  v2_subtract_finality_provider_stats hash fp_pk amount =
      v2_update_finality_provider_stats (to_string unbonded) hash fp_pk (unbonded_decrement amount)

  unfoldable pub v2_update_staker_stats_work :
      (state hash staker_pk : String) → Increment → Work driver.mongo
  v2_update_staker_stats_work state hash staker_pk upsert_update =
      v2_update_stats_lock_by_field_name hash state staker
      >> upsert_v2_staker staker_pk upsert_update

  unfoldable pub v2_update_staker_stats :
      (state hash staker_pk : String) → Increment → Client driver (Unit {0})
  v2_update_staker_stats state hash staker_pk upsert_update =
      start_session driver
      >> driver.with_transaction (v2_update_staker_stats_work state hash staker_pk upsert_update)

  unfoldable pub v2_increment_staker_stats :
      (hash staker_pk : String) → Uint64 → Client driver (Unit {0})
  unfolding v2_update_staker_stats
  v2_increment_staker_stats hash staker_pk amount =
      v2_update_staker_stats (to_string active) hash staker_pk (active_increment amount)

  unfoldable pub v2_subtract_staker_stats :
      (hash staker_pk : String) → Uint64 → Client driver (Unit {0})
  unfolding v2_update_staker_stats
  v2_subtract_staker_stats hash staker_pk amount =
      v2_update_staker_stats (to_string unbonded) hash staker_pk (unbonded_decrement amount)

  -- `Decode` of a stored document: no operation writes the other fields, and a count that is no
  -- uint32 is an error.
  unfoldable pub decode_v2_staker_stats : StatsDocument → Client driver V2StakerStatsDocument
  decode_v2_staker_stats d =
      if ltb d.active_delegations (2 ^ 32)
      then pure (record {
        staker_pk_hex = d.id;
        active_tvl = d.active_tvl;
        withdrawable_tvl = 0;
        slashed_tvl = 0;
        active_delegations = d.active_delegations;
        withdrawable_delegations = 0;
        slashed_delegations = 0;
      })
      else fail (external "active_delegations overflows uint32")

  unfoldable pub find_v2_staker_stats : String → Client driver V2StakerStatsDocument
  unfolding decode_v2_staker_stats
  find_v2_staker_stats staker_pk = do
    found ←
        call (query (λ db. mongo.v2_staker_stats.find_one staker_pk (λ d. true) db.v2_staker_stats))
    d ← decode found
    decode_v2_staker_stats d

  unfoldable pub find_v2_provider_stats : String → Client driver StatsDocument
  find_v2_provider_stats fp_pk = do
    found ← call (
        query (λ db.
          mongo.v2_finality_provider_stats.find_one fp_pk (λ d. true)
            db.v2_finality_provider_stats))
    decode found

  unfoldable pub v2_get_staker_stats : String → Client driver V2StakerStatsDocument
  unfolding find_v2_staker_stats
  v2_get_staker_stats staker_pk =
      try (find_v2_staker_stats staker_pk)
        (λ e.
          fail (
            if is_no_documents e then document_not_found staker_pk "Staker stats not found" else e))
        pure

  unfoldable pub set_captured_providers : Bool → Client driver (Unit {0})
  set_captured_providers b w = (ok tt, record w { captured_providers = b })

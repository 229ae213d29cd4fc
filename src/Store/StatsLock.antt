-- ===== src/Store/StatsLock.antt =====
-- The stats lock of internal/v1/db/client/stats.go.
use Prim.Native.String.{◌++◌}
use staking_api_service.Base.{String, Bool, true, false, not, if◌then◌else◌}
use staking_api_service.Base.Exec.{pure, fail, ◌>>=◌}
use staking_api_service.Types.Errors.{document_not_found}
use staking_api_service.Model.{StatsLockDocument}
use staking_api_service.Driver.{Driver, call, or_else}
use staking_api_service.Store.Access.{Client, command}

unfoldable pub construct_stats_lock_id : (hash state : String) → String
construct_stats_lock_id hash state = hash ++ (":" ++ state)

unfoldable pub new_stats_lock_document :
    String → (overall_stats staker_stats finality_provider_stats : Bool) → StatsLockDocument
new_stats_lock_document id overall_stats staker_stats finality_provider_stats = record {
  id = id;
  overall_stats = overall_stats;
  staker_stats = staker_stats;
  finality_provider_stats = finality_provider_stats;
}

-- the field names that `updateStatsLockByFieldName` is called with
pub data LockField : Type 0 where
  overall staker finality_provider : LockField

abbrev pub is_locked : LockField → StatsLockDocument → Bool
is_locked overall d = d.overall_stats
is_locked staker d = d.staker_stats
is_locked finality_provider d = d.finality_provider_stats

abbrev pub lock : LockField → StatsLockDocument → StatsLockDocument
lock overall d = record d { overall_stats = true }
lock staker d = record d { staker_stats = true }
lock finality_provider d = record d { finality_provider_stats = true }

module _ ⦃driver : Driver⦄ where
  open driver use {mongo}

  -- The upsert only inserts, and what is stored after it comes back.
  unfoldable pub get_or_create_stats_lock :
      (hash tx_type : String) → Client driver StatsLockDocument
  unfolding construct_stats_lock_id new_stats_lock_document
  get_or_create_stats_lock hash tx_type =
      let id = construct_stats_lock_id hash tx_type in
      let fresh = new_stats_lock_document id false false false in
      call (
        command (λ db.
          let s = mongo.stats_lock.upsert_one id (λ o. or_else o fresh) db.stats_lock in
          (
            or_else (mongo.stats_lock.find_one id (λ d. true) s) fresh,
            record db { stats_lock = s },
          )))

  unfoldable pub lock_once : String → LockField → Client driver Bool
  lock_once id field = call (
      command (λ db.
        let (matched, s) =
          mongo.stats_lock.update_one id (λ d. not (is_locked field d)) (lock field)
            db.stats_lock in
        (matched, record db { stats_lock = s })))

  unfoldable pub update_stats_lock_by_field_name :
      (hash state : String) → LockField → Client driver (Unit {0})
  unfolding lock_once construct_stats_lock_id
  update_stats_lock_by_field_name hash state field = do
    matched ← lock_once (construct_stats_lock_id hash state) field
    if matched
        then pure tt
        else fail (document_not_found hash "document already processed or does not exist")

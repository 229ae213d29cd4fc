-- ===== src/Tests/SumsTests.antt =====
-- Store/Stats/Sums.antt at a delegation that is counted in and out
use staking_api_service.Base.{◌<◌, false, ◌≡◌, ◌==◌, refl, none, some, [], if◌then◌else◌, arith}
use staking_api_service.Base.Exec.{Result, ok, err, try, pure, gets, fail, ◌>>=◌}
use staking_api_service.Types.Errors.{GoError}
use staking_api_service.Types.States.{to_string}
use staking_api_service.Model.{Uint64, OverallStatsDocument}
use staking_api_service.Driver.{World, call}
use staking_api_service.Store.Access.{start_session}
use staking_api_service.Store.StatsLock.{
  new_stats_lock_document, construct_stats_lock_id, lock_once, update_stats_lock_by_field_name,
}
use staking_api_service.Store.Stats.{
  active_increment, unbonded_decrement, no_stats, no_overall_stats, inc_overall,
  upsert_overall_stats, find_staker_stats, generate_overall_stats_id, set_captured,
  increment_overall_stats_work, increment_overall_stats, subtract_overall_stats_work,
  subtract_overall_stats,
}
use staking_api_service.Store.Stats.Sprint.{sprint}
use staking_api_service.Store.Stats.Shards.{get_overall_stats}
use staking_api_service.Store.Stats.Overall.{OneAtMost}
use staking_api_service.Store.Stats.Sums.{
  increment_overall_stats-get_overall_stats, subtract_overall_stats-get_overall_stats,
}
use staking_api_service.Tests.Memory.{memory, empty_world}

-- the locks of a delegation are there, and its staker
abbrev ready : World memory.mongo
ready = record empty_world {
  visible = record (empty_world.visible) {
    db = record (empty_world.visible.db) {
      stats_lock = λ j.
          if "h:active" == j
          then some (new_stats_lock_document "h:active" false false false)
          else if "h:unbonded" == j
          then some (new_stats_lock_document "h:unbonded" false false false)
          else none;
      staker_stats = λ j.
          if "staker" == j
          then some (record (no_stats "staker") { total_delegations = 1 })
          else none;
    };
  };
}

two : 0 < 2
two = omega arith

abbrev counted_in : Result GoError (Unit {0}) × World memory.mongo
counted_in = increment_overall_stats ⦃driver = memory⦄ 2 "h" "staker" 100 ready

abbrev counted_out : Result GoError (Unit {0}) × World memory.mongo
counted_out = subtract_overall_stats ⦃driver = memory⦄ 2 "h" "staker" 100 ready

-- the sum that a run reads
abbrev read_or : {A : Type 0} → A → Result GoError A → A
read_or a (ok b) = b
read_or a (err e) = a

abbrev sum : World memory.mongo → OverallStatsDocument
sum w = read_or (no_overall_stats "") (get_overall_stats ⦃driver = memory⦄ 2 w).0

reads :
    (w : World memory.mongo)
    → w.fates ≡ []
    → (get_overall_stats ⦃driver = memory⦄ 2 w).0 ≡ ok (sum w)
unfolding get_overall_stats call
reads w h = rw (h) refl

done_in : counted_in.0 ≡ ok tt
unfolding increment_overall_stats increment_overall_stats_work start_session set_captured
    update_stats_lock_by_field_name lock_once construct_stats_lock_id find_staker_stats
    generate_overall_stats_id sprint upsert_overall_stats call try pure fail gets ◌>>=◌ to_string
    new_stats_lock_document
done_in = refl

quiet_in : counted_in.1.fates ≡ []
unfolding increment_overall_stats increment_overall_stats_work start_session set_captured
    update_stats_lock_by_field_name lock_once construct_stats_lock_id find_staker_stats
    generate_overall_stats_id sprint upsert_overall_stats call try pure fail gets ◌>>=◌ to_string
    new_stats_lock_document
quiet_in = refl

done_out : counted_out.0 ≡ ok tt
unfolding subtract_overall_stats subtract_overall_stats_work start_session
    update_stats_lock_by_field_name lock_once construct_stats_lock_id generate_overall_stats_id
    sprint upsert_overall_stats call try pure fail ◌>>=◌ to_string new_stats_lock_document
done_out = refl

quiet_out : counted_out.1.fates ≡ []
unfolding subtract_overall_stats subtract_overall_stats_work start_session
    update_stats_lock_by_field_name lock_once construct_stats_lock_id generate_overall_stats_id
    sprint upsert_overall_stats call try pure fail ◌>>=◌ to_string new_stats_lock_document
quiet_out = refl

increment_overall_stats-get_overall_stats_example :
    (k : Uint64) × OneAtMost k
    × (sum counted_in.1 ≡ inc_overall "" (active_increment 100) k (some (sum ready)))
increment_overall_stats-get_overall_stats_example =
    increment_overall_stats-get_overall_stats ⦃driver = memory⦄ 2 two "h" "staker" 100 ready
      (sum ready) (sum counted_in.1) (reads ready refl) done_in (reads counted_in.1 quiet_in)

subtract_overall_stats-get_overall_stats_example :
    sum counted_out.1 ≡ inc_overall "" (unbonded_decrement 100) 0 (some (sum ready))
subtract_overall_stats-get_overall_stats_example =
    subtract_overall_stats-get_overall_stats ⦃driver = memory⦄ 2 two "h" "staker" 100 ready
      (sum ready) (sum counted_out.1) (reads ready refl) done_out (reads counted_out.1 quiet_out)

-- ===== src/Store/Stats/Sums.antt =====
-- `GetOverallStats` before and after a delegation is counted.
use staking_api_service.Base.{ℕ, ◌<◌, String, ◌≡◌, sym, ◌∙◌, subst, some}
use staking_api_service.Base.Exec.{ok}
use staking_api_service.Model.{Uint64, OverallStatsDocument}
use staking_api_service.Driver.{Driver, World}
use staking_api_service.Store.Stats.{
  Increment, active_increment, unbonded_decrement, inc_overall, increment_overall_stats,
  subtract_overall_stats,
}
use staking_api_service.Store.Stats.Shards.{get_overall_stats}
use staking_api_service.Store.Stats.Overall.{
  get_overall_stats-Leads, Changed, OneAtMost, increment-Changed, subtract-Changed,
}

module _ ⦃driver : Driver⦄ (shards : ℕ) (positive : 0 < shards) where
  open driver use {mongo}

  -- the sum that is read is the total
  read_change :
      (i : Increment) (p : Uint64 → Type 0) (w w' : World mongo) (d d' : OverallStatsDocument)
      → (get_overall_stats shards w).0 ≡ ok d
      → Changed shards i p w.visible w'.visible
      → (get_overall_stats shards w').0 ≡ ok d'
      → (k : Uint64) × p k × (d' ≡ inc_overall "" i k (some d))
  read_change i p w w' d d' before (k, q, change) after = (
    k,
    q,
    sym (((get_overall_stats-Leads shards).at w' d' after).1)
        ∙ change
        ∙ (λ j. inc_overall "" i k (some (((get_overall_stats-Leads shards).at w d before).1 j))),
  )

  -- If the overall statistics are incremented without an error, whichever shard is drawn, then the
  -- sums that are read before and after differ by the amount and one delegation, active and in
  -- total, and by at most one staker (all modulo 2 ^ 64). The number of shards is positive.
  pub increment_overall_stats-get_overall_stats :
      (hash staker_pk : String) (amount : Uint64) (w : World mongo) (d d' : OverallStatsDocument)
      → (get_overall_stats shards w).0 ≡ ok d
      → (increment_overall_stats shards hash staker_pk amount w).0 ≡ ok tt
      → (get_overall_stats shards (increment_overall_stats shards hash staker_pk amount w).1).0
        ≡ ok d'
      → (k : Uint64) × OneAtMost k × (d' ≡ inc_overall "" (active_increment amount) k (some d))
  increment_overall_stats-get_overall_stats hash staker_pk amount w d d' before done after =
      read_change (active_increment amount) _ w _ d d' before
        ((increment-Changed shards positive hash staker_pk amount).at w tt done) after

  -- If the overall statistics are decremented without an error, whichever shard is drawn, then the
  -- sums that are read before and after differ by minus the amount and minus one active
  -- delegation, modulo 2 ^ 64, and the other numbers are the same. The number of shards is positive.
  pub subtract_overall_stats-get_overall_stats :
      (hash staker_pk : String) (amount : Uint64) (w : World mongo) (d d' : OverallStatsDocument)
      → (get_overall_stats shards w).0 ≡ ok d
      → (subtract_overall_stats shards hash staker_pk amount w).0 ≡ ok tt
      → (get_overall_stats shards (subtract_overall_stats shards hash staker_pk amount w).1).0
        ≡ ok d'
      → d' ≡ inc_overall "" (unbonded_decrement amount) 0 (some d)
  subtract_overall_stats-get_overall_stats hash staker_pk amount w d d' before done after =
      let (k, zero_stakers, change) =
        read_change (unbonded_decrement amount) _ w _ d d' before
          ((subtract-Changed shards positive hash staker_pk amount).at w tt done) after in
      subst (λ k. d' ≡ inc_overall "" (unbonded_decrement amount) k (some d)) zero_stakers change

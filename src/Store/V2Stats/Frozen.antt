-- ===== src/Store/V2Stats/Frozen.antt =====
-- Any sequence of operations on the v2 statistics.
use staking_api_service.Base.{
  String, Bool, true, false, ◌≢◌, refl, subst, sym, Option, some, none, List, [], ◌∷◌, ◌==◌,
  if◌then◌else◌,
}
use staking_api_service.Base.Exec.{ok}
use staking_api_service.Model.{V2StatsLockDocument}
use staking_api_service.Driver.{Driver, World, or_else}
use staking_api_service.Driver.Keeps.{Keeps, Keeps-call, keeps_rules}
use staking_api_service.Store.Access.{start_session}
use staking_api_service.Store.StatsLock.{
  overall, staker, finality_provider, construct_stats_lock_id,
}
use staking_api_service.Store.Stats.{set_captured}
use staking_api_service.Store.V2Stats.{
  new_v2_stats_lock_document, v2_get_or_create_stats_lock, v2_update_finality_provider_stats_work,
  v2_update_finality_provider_stats, v2_increment_finality_provider_stats,
  v2_subtract_finality_provider_stats, v2_update_staker_stats_work, v2_update_staker_stats,
  v2_increment_staker_stats, v2_subtract_staker_stats, set_captured_providers,
}
use staking_api_service.Store.V2Stats.Overall.{
  v2_increment_overall_stats, v2_increment_overall_stats_work, v2_subtract_overall_stats,
  v2_subtract_overall_stats_work,
}
use staking_api_service.Store.V2Stats.Unchanged.{
  AsMade, LocksAsMade, SameStats, v2_lock_at, stuck, work-Never, KeepsOk-of_Never, V2Update,
  increment_overall, subtract_overall, increment_provider, subtract_provider, increment_staker,
  subtract_staker, update, update-Never,
}

-- an update, or the creation of a lock
pub data V2Task : Type 0 where
  stats_lock : (hash tx_type : String) → V2Task
  stats_update : V2Update → V2Task

module _ ⦃driver : Driver⦄ where
  open driver use {mongo}

  made-AsMade :
      (o : Option V2StatsLockDocument) (id : String)
      → AsMade o
      → AsMade (some (or_else o (new_v2_stats_lock_document id false false false)))
  unfolding new_v2_stats_lock_document
  made-AsMade none id h overall = refl
  made-AsMade none id h staker = refl
  made-AsMade none id h finality_provider = refl
  made-AsMade (some d) id h f = h f

  if-AsMade :
      (b : Bool) (x y : Option V2StatsLockDocument)
      → AsMade x
      → AsMade y
      → AsMade (if b then x else y)
  if-AsMade true x y h k = h
  if-AsMade false x y h k = k

  stats_lock-Keeps :
      (hash tx_type : String) → Keeps stuck (v2_get_or_create_stats_lock hash tx_type)
  unfolding v2_get_or_create_stats_lock
  stats_lock-Keeps hash tx_type = Keeps-call _ (record {
    at = λ w made. (
      (λ id. subst AsMade (sym (mongo.v2_stats_lock.view-upsert_one _ _ w.db.v2_stats_lock id)) (
          if-AsMade (lock_id == id) (some (or_else (v2_lock_at w.visible lock_id) fresh))
            (v2_lock_at w.visible id)
            (made-AsMade (v2_lock_at w.visible lock_id) lock_id (made lock_id)) (made id))),
      record { overall_stats = refl; staker_stats = refl; provider_stats = refl },
    );
  })
    where
      lock_id : String
      lock_id = construct_stats_lock_id hash tx_type

      fresh : V2StatsLockDocument
      fresh = new_v2_stats_lock_document lock_id false false false

  session-Keeps : Keeps stuck (start_session driver)
  unfolding start_session
  session-Keeps = search keeps_rules

  captured-Keeps : (b : Bool) → Keeps stuck (set_captured b)
  unfolding set_captured
  captured-Keeps b = record { at = λ w. stuck.reflexive w.visible }

  providers-Keeps : (b : Bool) → Keeps stuck (set_captured_providers b)
  unfolding set_captured_providers
  providers-Keeps b = record { at = λ w. stuck.reflexive w.visible }

  update-Keeps : (u : V2Update) → Keeps stuck (update u)
  unfolding update v2_increment_overall_stats v2_increment_overall_stats_work
      v2_subtract_overall_stats v2_subtract_overall_stats_work v2_increment_finality_provider_stats
      v2_subtract_finality_provider_stats v2_update_finality_provider_stats
      v2_update_finality_provider_stats_work v2_increment_staker_stats v2_subtract_staker_stats
      v2_update_staker_stats v2_update_staker_stats_work
  update-Keeps (increment_overall n hash staker_pk fp_pk amount) =
      search
        (
          keeps_rules,
          session-Keeps,
          captured-Keeps,
          providers-Keeps,
          KeepsOk-of_Never (work-Never hash _ overall _),
        )
        depth 9
  update-Keeps (subtract_overall n hash staker_pk amount) =
      search
        (
          keeps_rules,
          session-Keeps,
          captured-Keeps,
          providers-Keeps,
          KeepsOk-of_Never (work-Never hash _ overall _),
        )
        depth 9
  update-Keeps (increment_provider hash pk amount) =
      search (keeps_rules, session-Keeps, KeepsOk-of_Never (work-Never hash _ finality_provider _))
        depth 7
  update-Keeps (subtract_provider hash pk amount) =
      search (keeps_rules, session-Keeps, KeepsOk-of_Never (work-Never hash _ finality_provider _))
        depth 7
  update-Keeps (increment_staker hash pk amount) =
      search (keeps_rules, session-Keeps, KeepsOk-of_Never (work-Never hash _ staker _)) depth 7
  update-Keeps (subtract_staker hash pk amount) =
      search (keeps_rules, session-Keeps, KeepsOk-of_Never (work-Never hash _ staker _)) depth 7

  unfoldable pub run : List V2Task → World mongo → World mongo
  run [] w = w
  run (stats_lock hash tx_type ∷ l) w = run l (v2_get_or_create_stats_lock hash tx_type w).1
  run (stats_update u ∷ l) w = run l (update u w).1

  run-stuck : (l : List V2Task) (w : World mongo) → stuck.Rel w.visible (run l w).visible
  unfolding run
  run-stuck [] w = stuck.reflexive w.visible
  run-stuck (stats_lock hash tx_type ∷ l) w =
      stuck.transitive _ _ _ ((stats_lock-Keeps hash tx_type).at w)
        (run-stuck l (v2_get_or_create_stats_lock hash tx_type w).1)
  run-stuck (stats_update u ∷ l) w =
      stuck.transitive _ _ _ ((update-Keeps u).at w) (run-stuck l (update u w).1)

  -- From a database whose v2 lock documents are as the program makes them (none, for one), any
  -- sequence of lock creations and updates of the v2 statistics, whatever becomes of their calls, leaves all three
  -- collections of v2 statistics as they were, and an update that follows does not return without an
  -- error: the field names of the lock queries are not those of the documents.
  pub run-SameStats :
      (l : List V2Task) (u : V2Update) (w : World mongo)
      → LocksAsMade w.visible
      → SameStats w.visible (run l w).visible × ((update u (run l w)).0 ≢ ok tt)
  run-SameStats l u w made =
      let (still, same) = run-stuck l w made in
      (same, λ h. (update-Never u).at (run l w) tt h still)

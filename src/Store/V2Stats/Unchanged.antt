-- ===== src/Store/V2Stats/Unchanged.antt =====
-- No operation of the v2 statistics changes them: the lock that each of them takes first is looked for
-- under a field that no lock document has.
use staking_api_service.Base.{
  ℕ, String, Bool, true, false, ◌≡◌, refl, sym, ◌∙◌, subst, Option, some, none, arith,
}
use staking_api_service.Base.Exec.{Result, ok, ◌>>◌}
use staking_api_service.Types.Errors.{GoError}
use staking_api_service.Model.{Uint64, V2StatsLockDocument}
use staking_api_service.Driver.{
  Driver, Visible, World, Work, Transacted, aborted, committed, is_some, keep_if,
}
use staking_api_service.Driver.Keeps.{Preorder, KeepsOk}
use staking_api_service.Driver.Leads.{
  Leads, Leads-call, Leads-bind, Leads-pure, Leads-fail, Leads-if, err-ok,
}
use staking_api_service.Store.Access.{Client, start_session}
use staking_api_service.Store.Access.Effects.{Leads-command}
use staking_api_service.Store.StatsLock.{
  LockField, overall, staker, finality_provider, construct_stats_lock_id,
}
use staking_api_service.Store.Stats.{set_captured}
use staking_api_service.Store.V2Stats.{
  v2_field, is_stored_false, v2_lock_once, v2_update_stats_lock_by_field_name,
  v2_update_finality_provider_stats_work, v2_update_finality_provider_stats,
  v2_increment_finality_provider_stats, v2_subtract_finality_provider_stats,
  v2_update_staker_stats_work, v2_update_staker_stats, v2_increment_staker_stats,
  v2_subtract_staker_stats, set_captured_providers,
}
use staking_api_service.Store.V2Stats.Overall.{
  v2_increment_overall_stats, v2_increment_overall_stats_work, v2_subtract_overall_stats,
  v2_subtract_overall_stats_work,
}

-- a lock document as the program makes it
abbrev pub AsMade : Option V2StatsLockDocument → Type 0
AsMade none = Unit {0}
AsMade (some d) = (f : LockField) → v2_field f d ≡ none

module _ ⦃driver : Driver⦄ where
  open driver use {mongo}

  abbrev pub v2_lock_at : Visible mongo → String → Option V2StatsLockDocument
  v2_lock_at v id = mongo.v2_stats_lock.view v.db.v2_stats_lock id

  -- every lock document is as the program makes it
  abbrev pub LocksAsMade : Visible mongo → Type 0
  LocksAsMade v = (id : String) → AsMade (v2_lock_at v id)

  -- the three collections of statistics are the same
  pub record SameStats (u v : Visible mongo) : Type 0 where
    pub overall_stats : v.db.v2_overall_stats ≡ u.db.v2_overall_stats
    pub staker_stats : v.db.v2_staker_stats ≡ u.db.v2_staker_stats
    pub provider_stats : v.db.v2_finality_provider_stats ≡ u.db.v2_finality_provider_stats

  abbrev pub Stuck : Visible mongo → Visible mongo → Type 0
  Stuck u v = LocksAsMade u → LocksAsMade v × SameStats u v

  abbrev pub stuck : Preorder (Visible mongo)
  stuck = record {
    Rel = Stuck;
    reflexive =
        λ v h. (h, record { overall_stats = refl; staker_stats = refl; provider_stats = refl });
    transitive = λ u v w f g h.
        let (k, a) = f h in
        let (l, b) = g k in
        (
          l,
          record {
            overall_stats = b.overall_stats ∙ a.overall_stats;
            staker_stats = b.staker_stats ∙ a.staker_stats;
            provider_stats = b.provider_stats ∙ a.provider_stats;
          },
        );
  }

  not_matched :
      (f : LockField) (o : Option V2StatsLockDocument)
      → AsMade o
      → is_some (keep_if (λ d. is_stored_false (v2_field f d)) o) ≡ false
  not_matched f none h = refl
  not_matched f (some d) h = rw (h f) refl

  -- the lock is never taken
  locked-Never :
      (hash state : String) (f : LockField)
      → Leads (λ t u v. LocksAsMade u → ⊥) (v2_update_stats_lock_by_field_name hash state f)
  unfolding v2_update_stats_lock_by_field_name v2_lock_once construct_stats_lock_id
  locked-Never hash state f =
      Leads-bind {R = λ b u v. LocksAsMade u → b ≡ false} {S = λ b t u v. b ≡ true}
        (λ b t u v w r s made. ground (arith, r made, s))
        (Leads-call (
          Leads-command _ (λ v made.
            mongo.v2_stats_lock.update_one_matched _ _ _ v.db.v2_stats_lock
            ∙ not_matched f _ (made _))))
        (λ b. Leads-if b (λ h. Leads-pure tt (λ v. h)) (λ h. Leads-fail _))

  -- work that takes a lock first never succeeds
  pub work-Never :
      (hash state : String) (f : LockField) (rest : Work mongo)
      → Leads (λ t u v. LocksAsMade u → ⊥) (v2_update_stats_lock_by_field_name hash state f >> rest)
  work-Never hash state f rest =
      Leads-bind {S = λ a t u v. Unit {0}} (λ t s u v w r q. r) (locked-Never hash state f)
        (λ t. record { at = λ w a h. tt })

  transaction-Never :
      (work : Work mongo)
      → Leads (λ t u v. LocksAsMade u → ⊥) work
      → Leads (λ t u v. LocksAsMade u → ⊥) (driver.with_transaction work)
  transaction-Never work l = record { at = λ w a h made. split w (driver.transacted work w) h made }
    where
      split :
          (w : World mongo) {r : Result GoError (Unit {0}) × World mongo}
          → Transacted work w r
          → r.0 ≡ ok tt
          → LocksAsMade w.visible
          → ⊥
      split w (aborted e w' same) h made = err-ok h
      split w (committed v r same done) h made = l.at v tt done (subst LocksAsMade (sym same) made)

  -- before the transaction
  after-Never :
      {c d : Client driver (Unit {0})}
      → Leads (λ t u v. v ≡ u) c
      → Leads (λ t u v. LocksAsMade u → ⊥) d
      → Leads (λ t u v. LocksAsMade u → ⊥) (c >> d)
  after-Never before l =
      Leads-bind (λ t s u v w same never made. never (subst LocksAsMade (sym same) made)) before
        (λ t. l)

  session-Leads : Leads (λ t u v. v ≡ u) (start_session driver)
  unfolding start_session
  session-Leads = Leads-call (Leads-pure tt (λ v. refl))

  captured-Leads : (b : Bool) → Leads (λ t u v. v ≡ u) (set_captured b)
  unfolding set_captured
  captured-Leads b = record { at = λ w a h. refl }

  providers-Leads : (b : Bool) → Leads (λ t u v. v ≡ u) (set_captured_providers b)
  unfolding set_captured_providers
  providers-Leads b = record { at = λ w a h. refl }

  pub KeepsOk-of_Never :
      {c : Client driver (Unit {0})} → Leads (λ t u v. LocksAsMade u → ⊥) c → KeepsOk stuck c
  KeepsOk-of_Never l = record { at = λ w a h made. absurd (l.at w a h made) }

-- the operations that change a statistic
pub data V2Update : Type 0 where
  increment_overall : (shard_count : ℕ) (hash staker_pk fp_pk : String) → Uint64 → V2Update
  subtract_overall : (shard_count : ℕ) (hash staker_pk : String) → Uint64 → V2Update
  increment_provider subtract_provider increment_staker subtract_staker :
      (hash pk : String) → Uint64 → V2Update

module _ ⦃driver : Driver⦄ where
  unfoldable pub update : V2Update → Client driver (Unit {0})
  update (increment_overall n hash staker_pk fp_pk amount) =
      v2_increment_overall_stats n hash staker_pk fp_pk amount
  update (subtract_overall n hash staker_pk amount) =
      v2_subtract_overall_stats n hash staker_pk amount
  update (increment_provider hash pk amount) = v2_increment_finality_provider_stats hash pk amount
  update (subtract_provider hash pk amount) = v2_subtract_finality_provider_stats hash pk amount
  update (increment_staker hash pk amount) = v2_increment_staker_stats hash pk amount
  update (subtract_staker hash pk amount) = v2_subtract_staker_stats hash pk amount

  pub update-Never : (u : V2Update) → Leads (λ t u v. LocksAsMade u → ⊥) (update u)
  unfolding update v2_increment_overall_stats v2_increment_overall_stats_work
      v2_subtract_overall_stats v2_subtract_overall_stats_work v2_increment_finality_provider_stats
      v2_subtract_finality_provider_stats v2_update_finality_provider_stats
      v2_update_finality_provider_stats_work v2_increment_staker_stats v2_subtract_staker_stats
      v2_update_staker_stats v2_update_staker_stats_work
  update-Never (increment_overall n hash staker_pk fp_pk amount) = after-Never session-Leads (
      after-Never (captured-Leads false)
        (after-Never (providers-Leads false) (transaction-Never _ (work-Never hash _ overall _))))
  update-Never (subtract_overall n hash staker_pk amount) = after-Never session-Leads (
      after-Never (captured-Leads false)
        (after-Never (providers-Leads false) (transaction-Never _ (work-Never hash _ overall _))))
  update-Never (increment_provider hash pk amount) =
      after-Never session-Leads (transaction-Never _ (work-Never hash _ finality_provider _))
  update-Never (subtract_provider hash pk amount) =
      after-Never session-Leads (transaction-Never _ (work-Never hash _ finality_provider _))
  update-Never (increment_staker hash pk amount) =
      after-Never session-Leads (transaction-Never _ (work-Never hash _ staker _))
  update-Never (subtract_staker hash pk amount) =
      after-Never session-Leads (transaction-Never _ (work-Never hash _ staker _))

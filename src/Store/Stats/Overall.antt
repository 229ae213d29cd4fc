-- ===== src/Store/Stats/Overall.antt =====
-- What the operations on the overall statistics do to the sum over the shards.
use mathlib.Core.List.{Memᴰ}
use native.Mathlib.Nat.{mod-lt}
use staking_api_service.Base.{
  ℕ, ◌<◌, ◌%◌, String, Bool, true, false, ◌≡◌, refl, sym, ◌∙◌, ap, subst, Option, none, some, List,
  [], ◌∷◌, ◌⊎◌, inl, inr, if◌then◌else◌,
}
use staking_api_service.Base.Exec.{Result, ok, gets, ◌>>=◌}
use staking_api_service.Types.Errors.{GoError}
use staking_api_service.Model.{Uint64, StatsDocument, OverallStatsDocument}
use staking_api_service.Driver.{
  Driver, Visible, World, Work, Transacted, aborted, committed, keep_if,
}
use staking_api_service.Driver.Keeps.{
  Preorder, Keeps, Keeps-call, Keeps-bind, Keeps-fail, Keeps-pure, Keeps-if, keeps_rules,
}
use staking_api_service.Driver.Leads.{Leads, Leads-call, Leads-bind, Leads-weaken, err-ok, OfValue}
use staking_api_service.Store.Access.{Client, decode, start_session}
use staking_api_service.Store.Access.Effects.{Leads-command, Leads-query}
use staking_api_service.Store.StatsLock.{lock_once, update_stats_lock_by_field_name, overall}
use staking_api_service.Store.Stats.{
  Increment, active_increment, unbonded_decrement, inc_overall, upsert_overall_stats, set_captured,
  draw, find_staker_stats, generate_overall_stats_id, increment_overall_stats_work,
  increment_overall_stats, subtract_overall_stats_work, subtract_overall_stats,
}
use staking_api_service.Store.Stats.Shards.{shards_id, sum_found, get_overall_stats}
use staking_api_service.Store.Stats.Total.{shard-Mem, sum-changed}

-- A staker is counted, or not.
abbrev pub OneAtMost : Uint64 → Type 0
OneAtMost k = (k ≡ 0) ⊎ (k ≡ 1)

one_if : (b : Bool) → OneAtMost (if b then 1 else 0)
one_if true = inr refl
one_if false = inl refl

module _ ⦃driver : Driver⦄ (shards : ℕ) where
  open driver use {mongo}

  -- the sum over the shards of what is stored
  unfoldable pub total : Visible mongo → OverallStatsDocument
  total v = sum_found (mongo.overall_stats.view v.db.overall_stats) (shards_id shards)

  -- `get_overall_stats` returns the sum
  pub get_overall_stats-Leads : Leads (λ d u v. (v ≡ u) × (total u ≡ d)) (get_overall_stats shards)
  unfolding get_overall_stats total
  get_overall_stats-Leads =
      Leads-weaken (Leads-call (Leads-query _))
        (λ a u v r. (r.0, (λ i. sum_found (λ id. found u id i) (shards_id shards)) ∙ r.1))
    where
      keep_true : (o : Option OverallStatsDocument) → keep_if (λ d. true) o ≡ o
      keep_true none = refl
      keep_true (some d) = refl

      found :
          (u : Visible mongo) (id : String)
          → mongo.overall_stats.view u.db.overall_stats id
            ≡ mongo.overall_stats.find_one id (λ d. true) u.db.overall_stats
      found u id =
          sym (keep_true _)
          ∙ sym (mongo.overall_stats.find_one_lem id (λ d. true) u.db.overall_stats)

  abbrev same_shards : Preorder (Visible mongo)
  same_shards = record {
    Rel = λ u v. v.db.overall_stats ≡ u.db.overall_stats;
    reflexive = λ v. refl;
    transitive = λ u v w h k. k ∙ h;
  }

  Leads-of_Keeps :
      {A : Type 0} {c : Client driver A}
      → Keeps same_shards c
      → Leads (λ a u v. v.db.overall_stats ≡ u.db.overall_stats) c
  Leads-of_Keeps k = record { at = λ w a h. k.at w }

  -- The sum changes by an increment, and by some number of stakers that a predicate allows.
  abbrev pub Changed : Increment → (Uint64 → Type 0) → Visible mongo → Visible mongo → Type 0
  Changed i stakers u v = (k : Uint64) × stakers k × (total v ≡ inc_overall "" i k (some (total u)))

  once-Keeps : (id : String) → Keeps same_shards (lock_once id overall)
  unfolding lock_once
  once-Keeps id = Keeps-call _ (record { at = λ w. refl })

  lock-Keeps :
      (hash state : String) → Keeps same_shards (update_stats_lock_by_field_name hash state overall)
  unfolding update_stats_lock_by_field_name
  lock-Keeps hash state = search (keeps_rules, once-Keeps)

  find-Keeps : (pk : String) → Keeps same_shards (find_staker_stats pk)
  unfolding find_staker_stats
  find-Keeps pk = Keeps-bind _ _ (Keeps-call _ (record { at = λ w. refl })) decoded
    where
      decoded : (o : Option StatsDocument) → Keeps same_shards (decode o)
      decoded none = Keeps-fail _
      decoded (some d) = Keeps-pure d

  captured-Keeps : (b : Bool) → Keeps same_shards (set_captured b)
  unfolding set_captured
  captured-Keeps b = record { at = λ w. refl }

  -- a shard is drawn
  drawn :
      0 < shards
      → Leads (λ s u v. (v ≡ u) × Memᴰ s (shards_id shards)) (generate_overall_stats_id shards)
  unfolding generate_overall_stats_id
  drawn positive = record { at = λ w s h. split w.random w s h }
    where
      split :
          (l : List ℕ) (w : World mongo) (s : String)
          → (draw shards l w).0 ≡ ok s
          → ((draw shards l w).1.visible ≡ w.visible) × Memᴰ s (shards_id shards)
      split [] w s h = absurd (err-ok h)
      split (n ∷ l) w s h = (
        refl,
        subst (OfValue (λ x. Memᴰ x (shards_id shards))) h
            (shard-Mem shards (n % shards) (mod-lt n positive)),
      )

  upsert-Changed :
      (s : String) (i : Increment) (k : Uint64)
      → Leads
          (λ t u v. Memᴰ s (shards_id shards) → total v ≡ inc_overall "" i k (some (total u)))
          (upsert_overall_stats s i k)
  unfolding upsert_overall_stats total
  upsert-Changed s i k = Leads-call (
      Leads-command _ (λ v m.
        sum-changed i k (mongo.overall_stats.view v.db.overall_stats) _ s
          (mongo.overall_stats.view-upsert_one s (inc_overall s i k) v.db.overall_stats) shards m))

  module _ (i : Increment) (p : Uint64 → Type 0) where
    -- what leaves the shards as they are, and then a change
    before_change :
        {A : Type 0} {c : Client driver A} {f : A → Client driver (Unit {0})}
        → Leads (λ a u v. v.db.overall_stats ≡ u.db.overall_stats) c
        → ((a : A) → Leads (λ t. Changed i p) (f a))
        → Leads (λ t. Changed i p) (c >>= f)
    unfolding total
    before_change before after =
        Leads-bind
          (λ a t u v w same change. (
            change.0,
            change.1,
            change.2
                ∙ ap
                    (λ s.
                      inc_overall "" i change.0
                        (some (sum_found (mongo.overall_stats.view s) (shards_id shards))))
                    same,
          ))
          before after

    transaction-Changed :
        (work : Work mongo)
        → Leads (λ t. Changed i p) work
        → Leads (λ t. Changed i p) (driver.with_transaction work)
    transaction-Changed work l = record { at = λ w a h. split w (driver.transacted work w) h }
      where
        split :
            (w : World mongo) {r : Result GoError (Unit {0}) × World mongo}
            → Transacted work w r
            → r.0 ≡ ok tt
            → Changed i p w.visible r.1.visible
        split w (aborted e w' same) h = absurd (err-ok h)
        split w (committed v r same done) h =
            subst (λ u. Changed i p u (work v).1.visible) same (l.at v tt done)

    -- a shard is drawn, and an increment with some stakers is made
    draw_and_change :
        0 < shards
        → (f : String → Client driver (Unit {0}))
        → ((s : String) → Leads (λ t u v. Memᴰ s (shards_id shards) → Changed i p u v) (f s))
        → Leads (λ t. Changed i p) (generate_overall_stats_id shards >>= f)
    draw_and_change positive f l =
        Leads-bind (λ s t u v w r change. subst (λ x. Changed i p x w) r.0 (change r.1))
          (drawn positive) l

  upsert-one :
      (s : String) (i : Increment) (b : Bool)
      → Leads
          (λ t u v. Memᴰ s (shards_id shards) → Changed i OneAtMost u v)
          (upsert_overall_stats s i (if b then 1 else 0))
  upsert-one s i b =
      Leads-weaken (upsert-Changed s i (if b then 1 else 0))
        (λ t u v h m. ((if b then 1 else 0), one_if b, h m))

  Leads-gets : {A : Type 0} (f : World mongo → A) → Leads {E = GoError} (λ a u v. v ≡ u) (gets f)
  unfolding gets
  Leads-gets f = record { at = λ w a h. refl }

  session-Keeps : Keeps same_shards (start_session driver)
  unfolding start_session
  session-Keeps = search keeps_rules

  pub increment-Changed :
      0 < shards
      → (hash staker_pk : String) (amount : Uint64)
      → Leads
          (λ t. Changed (active_increment amount) OneAtMost)
          (increment_overall_stats shards hash staker_pk amount)
  unfolding increment_overall_stats increment_overall_stats_work
  increment-Changed positive hash staker_pk amount =
      before_change (active_increment amount) (OneAtMost) (Leads-of_Keeps session-Keeps) (λ t.
        before_change (active_increment amount) (OneAtMost) (Leads-of_Keeps (captured-Keeps false))
          (λ t. transaction-Changed (active_increment amount) (OneAtMost) _ (
            before_change (active_increment amount) (OneAtMost) (Leads-of_Keeps (lock-Keeps hash _))
              (λ t.
                before_change (active_increment amount) (OneAtMost)
                  (Leads-of_Keeps (find-Keeps staker_pk))
                  (λ stats.
                    before_change (active_increment amount) (OneAtMost)
                      (Leads-of_Keeps (Keeps-if _ _ _ (captured-Keeps true) (Keeps-pure tt)))
                      (λ t. draw_and_change (active_increment amount) (OneAtMost) positive _ (λ s.
                        Leads-bind {R = λ b u v. v ≡ u}
                          (λ b t u v w same l.
                            subst
                              (λ x.
                                Memᴰ s (shards_id shards)
                                → Changed (active_increment amount) OneAtMost x w)
                              same l)
                          (Leads-gets (λ w. w.captured))
                          (upsert-one s (active_increment amount)))))))))

  pub subtract-Changed :
      0 < shards
      → (hash staker_pk : String) (amount : Uint64)
      → Leads
          (λ t. Changed (unbonded_decrement amount) (λ k. k ≡ 0))
          (subtract_overall_stats shards hash staker_pk amount)
  unfolding subtract_overall_stats subtract_overall_stats_work
  subtract-Changed positive hash staker_pk amount =
      before_change (unbonded_decrement amount) (λ k. k ≡ 0) (Leads-of_Keeps session-Keeps)
        (λ t.
          transaction-Changed (unbonded_decrement amount) (λ k. k ≡ 0) _
            (before_change (unbonded_decrement amount) (λ k. k ≡ 0)
              (Leads-of_Keeps (lock-Keeps hash _))
              (λ t.
                draw_and_change (unbonded_decrement amount) (λ k. k ≡ 0) positive _
                  (λ s.
                    Leads-weaken (upsert-Changed s (unbonded_decrement amount) 0)
                      (λ t u v h m. (0, refl, h m))))))

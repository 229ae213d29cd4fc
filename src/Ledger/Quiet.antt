-- ===== src/Ledger/Quiet.antt =====
-- The operations that post nothing in the books.
use staking_api_service.Base.{
  Bool-cases, inl, inr, subst, ℕ, String, ◌≡◌, refl, sym, ap, ◌==◌, if◌then◌else◌, eq_iff, false,
  List, [], ◌∷◌, Option, some, none,
}
use staking_api_service.Base.Exec.{Exec}
use staking_api_service.Types.Errors.{GoError}
use staking_api_service.Model.{StatsLockDocument}
use staking_api_service.Driver.{Driver, call, World, Visible, Db, or_else}
use staking_api_service.Driver.Keeps.{Keeps, Keeps-bind, Keeps-call, keeps_rules}
use staking_api_service.Store.Access.{query, decode}
use staking_api_service.Store.StatsLock.{
  LockField, overall, staker, finality_provider, get_or_create_stats_lock, construct_stats_lock_id,
  new_stats_lock_document,
}
use staking_api_service.Store.BtcInfos.{find_btc_info, insert_btc_info, update_btc_info}
use staking_api_service.Store.Delegations.{
  insert_delegation, find_one_delegation, update_one_delegation,
}
use staking_api_service.Store.Unbonding.{insert_unbonding}
use staking_api_service.Store.Stats.{
  find_staker_stats, generate_overall_stats_id, set_captured, draw,
}
use staking_api_service.Store.Timelock.{save_time_lock_expire_check}
use staking_api_service.Store.Others.{insert_mapping, save_unprocessable_message}
use staking_api_service.Queue.Events.{send}
use staking_api_service.Tasks.Calls.{CallKeeps}
use staking_api_service.Tasks.DelegationCalls.{DelegationCalls}
use staking_api_service.Ledger.Books.{
  Side, providers, stakers, books, flag, field, stats, flags, Posts-Unchanged, posts,
}

module _ ⦃driver : Driver⦄ (s : Side) where
  open driver use {mongo}

  -- What leaves the locks and both collections alone posts nothing.
  quiet :
      {E A : Type 0} (c : Exec (World mongo) E A)
      → ((w : World mongo) → w.db.stats_lock ≡ (c w).1.db.stats_lock)
      → ((w : World mongo) → w.db.finality_provider_stats ≡ (c w).1.db.finality_provider_stats)
      → ((w : World mongo) → w.db.staker_stats ≡ (c w).1.db.staker_stats)
      → Keeps (posts mongo s) c
  quiet c locks p q = record {
    at = λ w. Posts-Unchanged (record {
      flags = λ k. ap (λ l. flag (field s) (mongo.stats_lock.view l k)) (locks w);
      docs = documents s w;
    });
  }
    where
      documents :
          (t : Side) (w : World mongo) (k : String)
          → stats t w.visible k ≡ stats t (c w).1.visible k
      documents providers w k = ap (λ l. mongo.finality_provider_stats.view l k) (p w)
      documents stakers w k = ap (λ l. mongo.staker_stats.view l k) (q w)

  pub quiet_call :
      {A : Type 0} (c : Exec (World mongo) GoError A)
      → ((w : World mongo) → w.db.stats_lock ≡ (c w).1.db.stats_lock)
      → ((w : World mongo) → w.db.finality_provider_stats ≡ (c w).1.db.finality_provider_stats)
      → ((w : World mongo) → w.db.staker_stats ≡ (c w).1.db.staker_stats)
      → Keeps (posts mongo s) (call c)
  quiet_call c locks p q = Keeps-call c (quiet c locks p q)

  quiet_query : {A : Type 0} (f : Db mongo → A) → Keeps (posts mongo s) (query f)
  quiet_query f = quiet (query f) (λ w. refl) (λ w. refl) (λ w. refl)

  quiet_decode : {A : Type 0} (o : Option A) → Keeps (posts mongo s) (decode o)
  quiet_decode none = search keeps_rules
  quiet_decode (some a) = search keeps_rules

  quiet_draw : (n : ℕ) (r : List ℕ) → Keeps (posts mongo s) (draw n r)
  quiet_draw n [] = quiet (draw n []) (λ w. refl) (λ w. refl) (λ w. refl)
  quiet_draw n (x ∷ r) = quiet (draw n (x ∷ r)) (λ w. refl) (λ w. refl) (λ w. refl)

  -- A new lock has no flag set.
  created : (id : String) (w : World mongo) → Visible mongo
  created id w =
      let fresh = new_stats_lock_document id false false false in
      record (w.visible) {
        db = record (w.db) {
          stats_lock = mongo.stats_lock.upsert_one id (λ o. or_else o fresh) w.db.stats_lock;
        };
      }

  flag-created :
      (f : LockField) (id : String) (o : Option StatsLockDocument)
      → flag f (some (or_else o (new_stats_lock_document id false false false))) ≡ flag f o
  unfolding new_stats_lock_document
  flag-created overall id none = refl
  flag-created staker id none = refl
  flag-created finality_provider id none = refl
  flag-created f id (some d) = refl

  pub flag-at :
      (view : String → Option StatsLockDocument) (o : Option StatsLockDocument) (f : LockField)
      (id k : String)
      → flag f o ≡ flag f (view id)
      → flag f (view k) ≡ flag f (if id == k then o else view k)
  flag-at view o f id k h = elim (Bool-cases (id == k)) [
    | inl same ↦ rw same (subst (λ i. flag f (view i) ≡ flag f o) ((eq_iff id k).0 same) (sym h))
    | inr other ↦ rw other refl
  ]

  flags-created :
      (id : String) (w : World mongo) (k : String) → flags s w.visible k ≡ flags s (created id w) k
  unfolding created
  flags-created id w k = rw mongo.stats_lock.view-upsert_one (
      flag-at (mongo.stats_lock.view w.db.stats_lock) _ (field s) id k
        (flag-created (field s) id _))

  stats-created :
      (t : Side) (id : String) (w : World mongo) (k : String)
      → stats t w.visible k ≡ stats t (created id w) k
  unfolding created
  stats-created providers id w k = refl
  stats-created stakers id w k = refl

  create_lock :
      (hash tx_type : String) → Keeps (posts mongo s) (get_or_create_stats_lock hash tx_type)
  unfolding get_or_create_stats_lock created
  create_lock hash tx_type = Keeps-call _ (record {
    at = λ w.
        Posts-Unchanged {v = books s (created (construct_stats_lock_id hash tx_type) w)}
          (record { flags = flags-created _ w; docs = stats-created s _ w });
  })

  pub calls : CallKeeps (posts mongo s)
  unfolding find_staker_stats generate_overall_stats_id set_captured find_btc_info insert_btc_info
      update_btc_info save_time_lock_expire_check insert_mapping save_unprocessable_message send
  calls = record {
    stats_lock = create_lock;
    shard = λ n. record { at = λ w. (quiet_draw n w.random).at w };
    captured = λ b. quiet (set_captured b) (λ w. refl) (λ w. refl) (λ w. refl);
    find_staker = λ pk. Keeps-bind _ _ (Keeps-call _ (quiet_query _)) quiet_decode;
    find_info = Keeps-bind _ _ (Keeps-call _ (quiet_query _)) quiet_decode;
    insert_info = λ i. quiet_call _ (λ w. refl) (λ w. refl) (λ w. refl);
    update_info = λ i. quiet_call _ (λ w. refl) (λ w. refl) (λ w. refl);
    expire_check = λ h e t. quiet_call _ (λ w. refl) (λ w. refl) (λ w. refl);
    mapping = λ d. quiet_call _ (λ w. refl) (λ w. refl) (λ w. refl);
    unprocessable = λ b r. quiet_call _ (λ w. refl) (λ w. refl) (λ w. refl);
    send_event = λ e. quiet_call _ (λ w. refl) (λ w. refl) (λ w. refl);
  }

  pub delegation_calls : DelegationCalls (posts mongo s)
  unfolding insert_delegation find_one_delegation update_one_delegation insert_unbonding
  delegation_calls = record {
    insert = λ d. quiet_call _ (λ w. refl) (λ w. refl) (λ w. refl);
    find = λ h p. Keeps-bind _ _ (Keeps-call _ (quiet_query _)) quiet_decode;
    update = λ h p f. quiet_call _ (λ w. refl) (λ w. refl) (λ w. refl);
    insert_unbonding_tx = λ u. quiet_call _ (λ w. refl) (λ w. refl) (λ w. refl);
  }

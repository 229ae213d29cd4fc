-- ===== src/Queue/Registration.antt =====
-- What `ActiveStakingHandler` of internal/v1/queue/handler/active_staking.go has done when it returns
-- no error.
use staking_api_service.Base.{
  ◌≡◌, refl, subst, sym, ap, ◌∙◌, String, Bool, true, false, ◌∷◌, Option, none, some, ◌==◌,
  if◌then◌else◌, arith, ◌⊎◌, inl, inr,
}
use staking_api_service.Base.Exec.{ok}
use staking_api_service.Types.Errors.{is_duplicate_key_error, is_not_found_error}
use staking_api_service.Types.States.{active_tx_type, tx_type_to_string, StakingTxType}
use staking_api_service.Model.{DelegationDocument, Uint64, Int64, add64}
use staking_api_service.Driver.{Driver, World, Visible, StatsEvent, is_some, is_none, keep_if}
use staking_api_service.Driver.Leads.{
  Leads, Leads-call, Leads-bind, Leads-if, Leads-pure, Leads-fail, Leads-weaken,
}
use staking_api_service.Driver.Raises.{Leads-rethrow, Leads-try}
use staking_api_service.Store.Access.Effects.{Leads-command}
use staking_api_service.Store.Delegations.{active_document}
use staking_api_service.Store.Delegations.Outcomes.{
  delegation_at, find_delegation-Found, find_delegation-Missing, Stored, save_active-Stored,
  save_active-duplicate,
}
use staking_api_service.Store.Timelock.{new_time_lock_document, save_time_lock_expire_check}
use staking_api_service.Service.Delegations.{is_delegation_present, save_active_staking}
use staking_api_service.Service.Timelock.{process_expire_check}
use staking_api_service.Queue.Events.{ActiveStakingEvent, EventFormat, send, emit_stats_event}
use staking_api_service.Queue.Handlers.{active_stats_event, handle_active_staking}

module _ ⦃driver : Driver⦄ where
  open driver use {mongo}

  is_delegation_present-Leads :
      (hash : String)
      → Leads (λ b u v. (v ≡ u) × (b ≡ is_some (delegation_at u hash))) (is_delegation_present hash)
  unfolding is_delegation_present
  is_delegation_present-Leads hash =
      Leads-try {S = λ d b u v. (v ≡ u) × (b ≡ true)}
        {S' = λ e b u v. (v ≡ u) × (b ≡ false) × (is_not_found_error e ≡ true)}
        (λ d b u v w q r. (r.0 ∙ q.0, r.1 ∙ sym (there _ q.1)))
        (λ e b u v w q r. (r.0 ∙ (q r.2).0, r.1 ∙ sym (ap is_some (q r.2).1)))
        (find_delegation-Found hash) (find_delegation-Missing hash)
        (λ e. Leads-if _ (λ h. Leads-pure false (λ v. (refl, refl, h))) (λ h. Leads-fail _))
        (λ d. Leads-pure true (λ v. (refl, refl)))
    where
      there :
          (o : Option DelegationDocument) {d : DelegationDocument}
          → keep_if (λ d. true) o ≡ some d
          → is_some o ≡ true
      there none h = ground (arith, h)
      there (some d) h = refl

  announce-Leads :
      (event : StatsEvent)
      → Leads (λ _ u v. v ≡ record u { sent = event ∷ u.sent }) (emit_stats_event event)
  unfolding emit_stats_event send
  announce-Leads event = Leads-rethrow _ (Leads-call (record { at = λ w a h. refl }))

  -- a time lock is added, and nothing else changes
  record TimeLocked (hash : String) (height : Uint64) (tx_type : StakingTxType)
      (u v : Visible mongo) : Type 0 where
    sent : v.sent ≡ u.sent
    delegations : v.db.delegations ≡ u.db.delegations
    added :
        mongo.timelock.all v.db.timelock
        ≡ new_time_lock_document hash height (tx_type_to_string tx_type)
          ∷ mongo.timelock.all u.db.timelock

  time_lock-Leads :
      (hash : String) (start timelock : Uint64) (t : StakingTxType)
      → Leads
          (λ _. TimeLocked hash (add64 start timelock) t)
          (process_expire_check hash start timelock t)
  unfolding process_expire_check save_time_lock_expire_check
  time_lock-Leads hash start timelock t = Leads-rethrow _ (
      Leads-call (
        Leads-command _ (λ v. record {
          sent = refl;
          delegations = refl;
          added = mongo.timelock.all-insert_one _ _;
        })))

  save_active_staking-Leads :
      (hash staker_pk fp_pk : String) (value start_height : Uint64) (timestamp : Int64)
      (time_lock output_index : Uint64) (tx_hex : String) (overflow : Bool)
      → Leads
          (λ _ u v.
            is_some (delegation_at u hash) ≡ false
            → Stored
                (active_document hash staker_pk fp_pk tx_hex value start_height time_lock
                  output_index timestamp overflow)
                u
                v)
          (save_active_staking hash staker_pk fp_pk value start_height timestamp time_lock
            output_index tx_hex overflow)
  unfolding save_active_staking
  save_active_staking-Leads hash staker_pk fp_pk value start_height timestamp time_lock output_index
        tx_hex overflow =
      Leads-try {S = λ a b u v. u ≡ v} {S' = λ e b u v. is_duplicate_key_error e ≡ true}
        (λ a b u v w r same free. subst (Stored _ u) same r)
        (λ e b u v w q dup free. absurd (taken _ (q dup) free))
        (save_active-Stored _ _ _ _ _ _ _ _ _ _) (save_active-duplicate _ _ _ _ _ _ _ _ _ _)
        (λ e. Leads-if _ (λ h. Leads-pure tt (λ v. h)) (λ h. Leads-fail _))
        (λ a. Leads-pure a (λ v. refl))
    where
      taken : (o : Option DelegationDocument) → is_none o ≡ false → is_some o ≡ false → ⊥
      taken none h k = ground (arith, h)
      taken (some d) h k = ground (arith, k)

  module _ (format : EventFormat) (e : ActiveStakingEvent) where
    -- the document of the event
    abbrev pub event_document : DelegationDocument
    event_document =
        active_document e.staking_tx_hash_hex e.staker_pk_hex e.finality_provider_pk_hex
          e.staking_tx_hex e.staking_value e.staking_start_height e.staking_time_lock
          e.staking_output_index e.staking_start_timestamp e.is_overflow

    -- the delegation of the event has been announced, given a time lock and stored
    pub record Registered (u v : Visible mongo) : Type 0 where
      pub announced : v.sent ≡ active_stats_event format e ∷ u.sent
      pub time_locked :
          mongo.timelock.all v.db.timelock
          ≡ new_time_lock_document e.staking_tx_hash_hex
              (add64 e.staking_start_height e.staking_time_lock)
              (tx_type_to_string active_tx_type)
            ∷ mongo.timelock.all u.db.timelock
      pub stored :
          (k : String)
          → delegation_at v k
            ≡ (if e.staking_tx_hash_hex == k then some event_document else delegation_at u k)

    register :
        (u t v : Visible mongo)
        → TimeLocked e.staking_tx_hash_hex
            (add64 e.staking_start_height e.staking_time_lock)
            active_tx_type
            (record u { sent = active_stats_event format e ∷ u.sent })
            t
        → (is_some (delegation_at t e.staking_tx_hash_hex) ≡ false → Stored event_document t v)
        → is_some (delegation_at u e.staking_tx_hash_hex) ≡ false
        → Registered u v
    unfolding active_document
    register u t v l s absent =
        let same = λ (k : String). ap (λ x. mongo.delegations.view x k) l.delegations in
        let stored = s (ap is_some (same e.staking_tx_hash_hex) ∙ absent) in
        record {
          announced = stored.sent ∙ l.sent;
          time_locked = ap mongo.timelock.all stored.timelock ∙ l.added;
          stored = λ k.
              subst
                (λ o.
                  delegation_at v k
                  ≡ (if e.staking_tx_hash_hex == k then some event_document else o))
                (same k) (stored.delegations k);
        }

    handle-Leads :
        Leads
          (λ _ u v.
            ((is_some (delegation_at u e.staking_tx_hash_hex) ≡ true) × (v ≡ u))
            ⊎ ((is_some (delegation_at u e.staking_tx_hash_hex) ≡ false) × Registered u v))
          (handle_active_staking format e)
    unfolding handle_active_staking
    handle-Leads =
        Leads-bind
          {S = λ b _ u v.
            ((b ≡ true) × (v ≡ u))
            ⊎ ((b ≡ false)
                × (is_some (delegation_at u e.staking_tx_hash_hex) ≡ false → Registered u v))}
          (λ b _ u v w q r. decided b u v w q r) (is_delegation_present-Leads e.staking_tx_hash_hex)
          (λ b.
            Leads-if b (λ h. Leads-pure tt (λ v. inl (h, refl)))
              (λ h.
                Leads-weaken
                  (Leads-bind (λ _ _ u v w q r. r u q)
                    (announce-Leads (active_stats_event format e))
                    (λ _.
                      Leads-bind
                        {T = λ _ t w.
                          (u : Visible mongo)
                          → t ≡ record u { sent = active_stats_event format e ∷ u.sent }
                          → is_some (delegation_at u e.staking_tx_hash_hex) ≡ false
                          → Registered u w}
                        (λ _ _ t v w l s u q.
                          register u v w
                            (subst
                              (λ x.
                                TimeLocked e.staking_tx_hash_hex
                                  (add64 e.staking_start_height e.staking_time_lock) active_tx_type
                                  x v)
                              q l)
                            s)
                        (time_lock-Leads _ _ _ _)
                        (λ _. save_active_staking-Leads _ _ _ _ _ _ _ _ _ _)))
                  (λ _ u v r. inr (h, r))))
      where
        decided :
            (b : Bool) (u v w : Visible mongo)
            → (v ≡ u) × (b ≡ is_some (delegation_at u e.staking_tx_hash_hex))
            → ((b ≡ true) × (w ≡ v))
              ⊎ ((b ≡ false)
                  × (is_some (delegation_at v e.staking_tx_hash_hex) ≡ false → Registered v w))
            → ((is_some (delegation_at u e.staking_tx_hash_hex) ≡ true) × (w ≡ u))
              ⊎ ((is_some (delegation_at u e.staking_tx_hash_hex) ≡ false) × Registered u w)
        decided b u v w q (inl r) = inl (sym q.1 ∙ r.0, r.1 ∙ q.0)
        decided b u v w q (inr r) =
            let absent = sym q.1 ∙ r.0 in
            inr (
              absent,
              subst (λ x. Registered x w) q.0
                  (r.1 (ap (λ x. is_some (delegation_at x e.staking_tx_hash_hex)) q.0 ∙ absent)),
            )

    -- If the handler returns no error, then either the delegation was there already and nothing has
    -- changed, or it was not, and its event is the newest on the stats queue, its time lock (start
    -- height plus time lock, in machine words) is the newest in the collection, and its document, active,
    -- is stored, with all other delegations as they were.
    pub handle_active_staking-Registered :
        (w : World mongo)
        → (handle_active_staking format e w).0 ≡ ok tt
        → let v = (handle_active_staking format e w).1.visible in
          ((is_some (delegation_at w.visible e.staking_tx_hash_hex) ≡ true) × (v ≡ w.visible))
          ⊎ ((is_some (delegation_at w.visible e.staking_tx_hash_hex) ≡ false)
              × Registered w.visible v)
    handle_active_staking-Registered w h = handle-Leads.at w tt h

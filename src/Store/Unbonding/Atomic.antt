-- ===== src/Store/Unbonding/Atomic.antt =====
-- `SaveUnbondingTx` of internal/v1/db/client/unbonding.go does both of its writes or none.
use staking_api_service.Base.{
  ◌≡◌, refl, sym, ◌∙◌, ap, subst, String, Bool, true, Option, none, some, if◌then◌else◌, arith,
  ◌==◌, ◌⊎◌, inl, inr, Bool-cases,
}
use staking_api_service.Base.Exec.{Result, err, pure, fail, try, resume, ◌>>=◌}
use staking_api_service.Types.Errors.{GoError}
use staking_api_service.Types.States.{DelegationState, active, unbonding_requested, state_eq}
use staking_api_service.Model.{DelegationDocument, UnbondingDocument}
use staking_api_service.Driver.{
  Driver, World, Visible, Transacted, aborted, committed, keep_if, change_if, is_none, or_else,
}
use staking_api_service.Driver.Keeps.{Idle, idle_ok, idle_err, call-Idle}
use staking_api_service.Driver.Leads.{
  Leads, Leads-call, Leads-bind, Leads-if, Leads-pure, Leads-fail,
}
use staking_api_service.Driver.Raises.{Leads-try}
use staking_api_service.Store.Access.{start_session}
use staking_api_service.Store.Access.Effects.{Leads-command}
use staking_api_service.Store.Delegations.{update_one_delegation}
use staking_api_service.Store.Delegations.Outcomes.{delegation_at, Found, find_one_delegation-Found}
use staking_api_service.Store.Unbonding.{
  unbonding_document, is_active, insert_unbonding, save_unbonding_tx_work, save_unbonding_tx,
}

keep_if-some :
    {A : Type 0} (p : A → Bool) (o : Option A) {a : A}
    → keep_if p o ≡ some a
    → (o ≡ some a) × (p a ≡ true)
keep_if-some p none h = absurd (ground (arith, h))
keep_if-some p (some b) {a} h = elim (Bool-cases (p b)) [
  | inl fits ↦
      let e : some b ≡ some a = subst (λ c. (if c then some b else none) ≡ some a) fits h in
      (e, subst (λ x. p x ≡ true) (ground (arith, e)) fits)
  | inr other ↦ absurd (none-some (subst (λ c. (if c then some b else none) ≡ some a) other h))
]
  where
    none-some : {B : Type 0} {b : B} → none ≡ some b → ⊥
    none-some q = ground (arith, q)

change_if-some :
    {A : Type 0} (p : A → Bool) (f : A → A) (o : Option A) {a : A}
    → o ≡ some a
    → p a ≡ true
    → change_if p f o ≡ some (f a)
change_if-some p f o {a} h fits = rw h (rw fits refl)

state_eq-active : (s : DelegationState) → state_eq s active ≡ true → s ≡ active
state_eq-active active h = refl
state_eq-active _ h = absurd (ground arith)

module _ ⦃driver : Driver⦄ where
  open driver use {mongo}

  abbrev pub unbonding_at : Visible mongo → String → Option UnbondingDocument
  unbonding_at v k = mongo.unbonding.view v.db.unbonding k

  -- the delegation was active and is now requested to unbond, and its unbonding document is stored
  -- under a key that was free
  pub record Requested (hash tx_hash tx_hex signature : String) (u v : Visible mongo) : Type 0 where
    pub delegation : DelegationDocument
    pub was_stored : delegation_at u hash ≡ some delegation
    pub was_active : delegation.state ≡ active
    pub delegations :
        (k : String)
        → delegation_at v k ≡ (
            if hash == k
            then some (record delegation { state = unbonding_requested })
            else delegation_at u k)
    pub free : unbonding_at u tx_hash ≡ none
    pub unbonding :
        (k : String)
        → unbonding_at v k ≡ (
            if tx_hash == k
            then some (unbonding_document hash tx_hash tx_hex signature delegation)
            else unbonding_at u k)

  abbrev Updated :
      String
      → (DelegationDocument → Bool)
      → (DelegationDocument → DelegationDocument)
      → Bool
      → Visible mongo
      → Visible mongo
      → Type 0
  Updated hash p f b u v =
      (v.db.unbonding ≡ u.db.unbonding)
      × ((k : String)
          → delegation_at v k
            ≡ (if hash == k then change_if p f (delegation_at u hash) else delegation_at u k))

  update_one-Updated :
      (hash : String) (p : DelegationDocument → Bool) (f : DelegationDocument → DelegationDocument)
      → Leads (Updated hash p f) (update_one_delegation hash p f)
  unfolding update_one_delegation
  update_one-Updated hash p f =
      Leads-call (Leads-command _ (λ v. (refl, mongo.delegations.view-update_one _ _ _ _)))

  abbrev Added : UnbondingDocument → Bool → Visible mongo → Visible mongo → Type 0
  Added x b u v =
      (b ≡ is_none (unbonding_at u x.unbonding_tx_hash_hex))
      × (v.db.delegations ≡ u.db.delegations)
      × ((k : String)
          → unbonding_at v k ≡ (
              if x.unbonding_tx_hash_hex == k
              then some (or_else (unbonding_at u x.unbonding_tx_hash_hex) x)
              else unbonding_at u k))

  insert_unbonding-Added : (x : UnbondingDocument) → Leads (Added x) (insert_unbonding x)
  unfolding insert_unbonding
  insert_unbonding-Added x = Leads-call (
      Leads-command _
        (λ v. (mongo.unbonding.insert_one_done _ _ _, refl, mongo.unbonding.view-insert_one _ _ _)))

  was_free : (o : Option UnbondingDocument) → true ≡ is_none o → o ≡ none
  was_free none h = refl
  was_free (some d) h = absurd (ground (arith, h))

  -- a document is added where there was none
  record Saved (x : UnbondingDocument) (u v : Visible mongo) : Type 0 where
    free : unbonding_at u x.unbonding_tx_hash_hex ≡ none
    same : v.db.delegations ≡ u.db.delegations
    added :
        (k : String)
        → unbonding_at v k ≡ (if x.unbonding_tx_hash_hex == k then some x else unbonding_at u k)

  Saved-Added : (x : UnbondingDocument) (u v : Visible mongo) → Added x true u v → Saved x u v
  Saved-Added x u v a =
      let free = was_free _ a.0 in
      record {
        free = free;
        same = a.1;
        added = λ k.
            subst
              (λ o.
                unbonding_at v k
                ≡ (if x.unbonding_tx_hash_hex == k then some (or_else o x) else unbonding_at u k))
              free (a.2 k);
      }

  -- the callback puts its steps together
  requested :
      (hash tx_hash tx_hex signature : String) (d : DelegationDocument) (u v w : Visible mongo)
      → keep_if is_active (delegation_at u hash) ≡ some d
      → Updated hash is_active (λ d. record d { state = unbonding_requested }) true u v
      → Saved (unbonding_document hash tx_hash tx_hex signature d) v w
      → Requested hash tx_hash tx_hex signature u w
  unfolding unbonding_document
  requested hash tx_hash tx_hex signature d u v w found up saved =
      let (stored, fits) = keep_if-some is_active (delegation_at u hash) found in
      record {
        delegation = d;
        was_stored = stored;
        was_active = state_eq-active d.state fits;
        delegations = λ k.
            ap (λ s. mongo.delegations.view s k) saved.same
            ∙ subst (λ o. delegation_at v k ≡ (if hash == k then o else delegation_at u k))
                (change_if-some is_active _ (delegation_at u hash) stored fits) (up.1 k);
        free = sym (ap (λ s. mongo.unbonding.view s tx_hash) up.0) ∙ saved.free;
        unbonding = λ k.
            subst
              (λ s. unbonding_at w k ≡ (
                if tx_hash == k
                then some (unbonding_document hash tx_hash tx_hex signature d)
                else mongo.unbonding.view s k))
              up.0 (saved.added k);
      }

  insert-Saved :
      (x : UnbondingDocument) (e : GoError)
      → Leads (λ _. Saved x) (insert_unbonding x >>= λ b. if b then pure tt else fail e)
  insert-Saved x e =
      Leads-bind {S = λ b _ u v. (b ≡ true) × (u ≡ v)}
        (λ b _ u v w a same.
          subst (Saved x u) same.1 (Saved-Added x u v (subst (λ c. Added x c u v) same.0 a)))
        (insert_unbonding-Added x)
        (λ b. Leads-if b (λ h. Leads-pure tt (λ v. (h, refl))) (λ h. Leads-fail _))

  work-Requested :
      (hash tx_hash tx_hex signature : String)
      → Leads
          (λ _. Requested hash tx_hash tx_hex signature)
          (save_unbonding_tx_work hash tx_hash tx_hex signature)
  unfolding save_unbonding_tx_work
  work-Requested hash tx_hash tx_hex signature =
      Leads-try {Q = λ e u v. Unit {0}}
        {S = λ d _ v w.
          (u : Visible mongo)
          → Found is_active hash d u v
          → Requested hash tx_hash tx_hex signature u w}
        {S' = λ e _ u v. ⊥} (λ d _ u v w found r. r u found) (λ e _ u v w q r. absurd r)
        (find_one_delegation-Found hash is_active) (record { at = λ w e h. tt }) (λ e. Leads-fail _)
        (λ d.
          Leads-bind {R = Updated hash is_active (λ d. record d { state = unbonding_requested })}
            {S = λ b _ v w. Saved (unbonding_document hash tx_hash tx_hex signature d) v w}
            (λ b _ t v w up saved u found.
              requested hash tx_hash tx_hex signature d u v w found.1
                (subst
                  (λ x.
                    Updated hash is_active (λ d. record d { state = unbonding_requested }) b x v)
                  found.0 up)
                saved)
            (update_one-Updated hash is_active _)
            (λ b. Leads-if b (λ h. insert-Saved _ _) (λ h. Leads-fail _)))

  -- what is seen of a run: nothing, and an error, or the whole request
  abbrev AllOrNothing :
      (hash tx_hash tx_hex signature : String)
      → Visible mongo
      → Result GoError (Unit {0}) × World mongo
      → Type 0
  AllOrNothing hash tx_hash tx_hex signature u r =
      ((e : GoError) × (r.0 ≡ err e) × (r.1.visible ≡ u))
      ⊎ Requested hash tx_hash tx_hex signature u r.1.visible

  module _ (hash tx_hash tx_hex signature : String) where
    with_transaction-AllOrNothing :
        (u : Visible mongo) (w : World mongo) {r : Result GoError (Unit {0}) × World mongo}
        → w.visible ≡ u
        → Transacted (save_unbonding_tx_work hash tx_hash tx_hex signature) w r
        → AllOrNothing hash tx_hash tx_hex signature u r
    with_transaction-AllOrNothing u w start (aborted e w' same) = inl (e, refl, same ∙ start)
    with_transaction-AllOrNothing u w start (committed v r same done) = inr (
        subst
          (λ x.
            Requested hash tx_hash tx_hex signature x
              (save_unbonding_tx_work hash tx_hash tx_hex signature v).1.visible)
          (same ∙ start) ((work-Requested hash tx_hash tx_hex signature).at v tt done))

    start_session-AllOrNothing :
        (w : World mongo) {r : Result GoError (Unit {0}) × World mongo}
        → Idle w r
        → AllOrNothing hash tx_hash tx_hex signature w.visible (
            resume r.0
              (λ _. driver.with_transaction (save_unbonding_tx_work hash tx_hash tx_hex signature))
              fail
              r.1)
    unfolding fail
    start_session-AllOrNothing w (idle_ok v same) =
        with_transaction-AllOrNothing w.visible v same (driver.transacted _ v)
    start_session-AllOrNothing w (idle_err e v same) = inl (e, refl, same)

    -- Whatever the network does and however often the transaction is tried, one of these holds after
    -- the call: an error came back and nothing has changed; or the delegation was active and its state is
    -- now unbonding requested, with the rest of it and all other delegations as they were, and the unbonding
    -- document made from it is stored under its transaction hash, which was free, with all others as they were.
    pub save_unbonding_tx-AllOrNothing :
        (w : World mongo)
        → let r = save_unbonding_tx hash tx_hash tx_hex signature w in
          ((e : GoError) × (r.0 ≡ err e) × (r.1.visible ≡ w.visible))
          ⊎ Requested hash tx_hash tx_hex signature w.visible r.1.visible
    unfolding save_unbonding_tx start_session ◌>>=◌ try
    save_unbonding_tx-AllOrNothing w = start_session-AllOrNothing w (call-Idle w)

-- ===== src/Store/Delegations/Outcomes.antt =====
-- What the lookups and the insertion of internal/v1/db/client/delegation.go lead to, with and
-- without an error.
use staking_api_service.Base.{
  ◌≡◌, refl, sym, ◌∙◌, ap, subst, String, Bool, true, false, Option, none, some, if◌then◌else◌,
  arith, ◌==◌,
}
use staking_api_service.Types.Errors.{
  GoError, document_not_found, is_no_documents, is_not_found_error, is_duplicate_key_error,
}
use staking_api_service.Model.{DelegationDocument, Uint64, Int64}
use staking_api_service.Driver.{Driver, Visible, keep_if, is_none, or_else}
use staking_api_service.Driver.Leads.{
  Leads, Leads-call, Leads-bind, Leads-if, Leads-pure, Leads-fail,
}
use staking_api_service.Driver.Raises.{
  Raises, Raises-call, Raises-bind, Raises-try, Raises-if, Raises-pure, Raises-fail, Leads-try,
}
use staking_api_service.Store.Access.Effects.{
  Leads-query, Raises-query, Leads-command, Raises-command, Leads-decode, Raises-decode,
}
use staking_api_service.Store.Delegations.{
  active_document, insert_delegation, save_active_staking_delegation, find_one_delegation,
  find_delegation_by_tx_hash_hex,
}

module _ ⦃driver : Driver⦄ where
  open driver use {mongo}

  abbrev pub delegation_at : Visible mongo → String → Option DelegationDocument
  delegation_at v k = mongo.delegations.view v.db.delegations k

  abbrev pub Found :
      (DelegationDocument → Bool)
      → String
      → DelegationDocument
      → Visible mongo
      → Visible mongo
      → Type 0
  Found p hash d u v = (v ≡ u) × (keep_if p (delegation_at u hash) ≡ some d)

  -- the document is missing if the error says so
  abbrev Missing :
      (GoError → Bool)
      → (DelegationDocument → Bool)
      → String
      → GoError
      → Visible mongo
      → Visible mongo
      → Type 0
  Missing says p hash e u v = says e ≡ true → (v ≡ u) × (keep_if p (delegation_at u hash) ≡ none)

  pub find_one_delegation-Found :
      (hash : String) (p : DelegationDocument → Bool)
      → Leads (Found p hash) (find_one_delegation hash p)
  unfolding find_one_delegation
  find_one_delegation-Found hash p =
      Leads-bind
        (λ o d u v w q r. (r.0 ∙ q.0, sym (mongo.delegations.find_one_lem hash p _) ∙ q.1 ∙ r.1))
        (Leads-call (Leads-query _)) (λ o. Leads-decode o)

  find_one_delegation-Missing :
      (hash : String) (p : DelegationDocument → Bool)
      → Raises
          (λ e u v. (is_not_found_error e ≡ false) × Missing is_no_documents p hash e u v)
          (find_one_delegation hash p)
  unfolding find_one_delegation is_not_found_error is_no_documents
  find_one_delegation-Missing hash p =
      Raises-bind
        (λ o e u v w q r. (
          ap is_not_found_error r.2,
          λ h. (r.0 ∙ q.0, sym (mongo.delegations.find_one_lem hash p _) ∙ q.1 ∙ r.1),
        ))
        (Leads-call (Leads-query _))
        (Raises-call _ (λ s u v. (refl, λ h. ground (arith, h))) (Raises-query _))
        (λ o. Raises-decode o)

  pub find_delegation-Found :
      (hash : String) → Leads (Found (λ d. true) hash) (find_delegation_by_tx_hash_hex hash)
  unfolding find_delegation_by_tx_hash_hex
  find_delegation-Found hash =
      Leads-try {S = λ d b u v. (v ≡ u) × (d ≡ b)} {S' = λ e b u v. ⊥}
        (λ d b u v w q r. (r.0 ∙ q.0, q.1 ∙ ap some r.1)) (λ e b u v w q r. absurd r)
        (find_one_delegation-Found hash (λ d. true)) (find_one_delegation-Missing hash (λ d. true))
        (λ e. Leads-fail _) (λ d. Leads-pure d (λ v. (refl, refl)))

  renamed :
      (hash : String) (e : GoError)
      → is_not_found_error e ≡ false
      → is_not_found_error
          (if is_no_documents e then document_not_found hash "Delegation not found" else e)
        ≡ true
      → is_no_documents e ≡ true
  unfolding is_not_found_error is_no_documents
  renamed hash e k h = ground (arith, k, h)

  keep_all : (o : Option DelegationDocument) → keep_if (λ d. true) o ≡ none → o ≡ none
  keep_all none h = refl
  keep_all (some d) h = h

  pub find_delegation-Missing :
      (hash : String)
      → Raises
          (λ e u v. is_not_found_error e ≡ true → (v ≡ u) × (delegation_at u hash ≡ none))
          (find_delegation_by_tx_hash_hex hash)
  unfolding find_delegation_by_tx_hash_hex
  find_delegation-Missing hash =
      Raises-try {S = λ d b u v. ⊥}
        {S' = λ e b u v.
          (v ≡ u)
          × (b ≡ (if is_no_documents e then document_not_found hash "Delegation not found" else e))}
        (λ d b u v w q r. absurd r)
        (λ e b u v w q r h.
          let found = q.1 (renamed hash e q.0 (sym (ap is_not_found_error r.1) ∙ h)) in
          (r.0 ∙ found.0, keep_all _ found.1))
        (find_one_delegation-Found hash (λ d. true)) (find_one_delegation-Missing hash (λ d. true))
        (λ e. Raises-fail _ (λ v. (refl, refl))) (λ d. Raises-pure d)

  -- An insertion says whether the key was free.
  abbrev pub Inserted : DelegationDocument → Bool → Visible mongo → Visible mongo → Type 0
  Inserted d b u v =
      (b ≡ is_none (delegation_at u d.staking_tx_hash_hex))
      × (v.sent ≡ u.sent)
      × (v.db.timelock ≡ u.db.timelock)
      × ((k : String)
          → delegation_at v k ≡ (
              if d.staking_tx_hash_hex == k
              then some (or_else (delegation_at u d.staking_tx_hash_hex) d)
              else delegation_at u k))

  insert_delegation-Inserted : (d : DelegationDocument) → Leads (Inserted d) (insert_delegation d)
  unfolding insert_delegation
  insert_delegation-Inserted d = Leads-call (
      Leads-command _ (λ v. (
        mongo.delegations.insert_one_done _ _ _,
        refl,
        refl,
        mongo.delegations.view-insert_one _ _ _,
      )))

  -- a document is stored where there was none
  pub record Stored (d : DelegationDocument) (u v : Visible mongo) : Type 0 where
    pub sent : v.sent ≡ u.sent
    pub timelock : v.db.timelock ≡ u.db.timelock
    pub delegations :
        (k : String)
        → delegation_at v k ≡ (if d.staking_tx_hash_hex == k then some d else delegation_at u k)

  Stored-Inserted :
      (d : DelegationDocument) (u v : Visible mongo)
      → Inserted d true u v
      → delegation_at u d.staking_tx_hash_hex ≡ none
      → Stored d u v
  Stored-Inserted d u v i free = record {
    sent = i.1;
    timelock = i.2;
    delegations = λ k.
        subst
          (λ o.
            delegation_at v k
            ≡ (if d.staking_tx_hash_hex == k then some (or_else o d) else delegation_at u k))
          free (i.3 k);
  }

  was_free : (o : Option DelegationDocument) → true ≡ is_none o → o ≡ none
  was_free none h = refl
  was_free (some d) h = absurd (ground (arith, h))

  pub save_active-Stored :
      (hash staker_pk fp_pk tx_hex : String) (amount start_height timelock output_index : Uint64)
      (start : Int64) (overflow : Bool)
      → Leads
          (λ _. Stored (
            active_document hash staker_pk fp_pk tx_hex amount start_height timelock output_index
              start overflow))
          (save_active_staking_delegation hash staker_pk fp_pk tx_hex amount start_height timelock
            output_index start overflow)
  unfolding save_active_staking_delegation active_document
  save_active-Stored hash staker_pk fp_pk tx_hex amount start_height timelock output_index start
        overflow =
      let d =
        active_document hash staker_pk fp_pk tx_hex amount start_height timelock output_index start
          overflow in
      Leads-bind {S = λ b a u v. (b ≡ true) × (u ≡ v)}
        (λ b a u v w i same.
          let j : Inserted d true u v = subst (λ x. Inserted d x u v) same.0 i in
          subst (Stored d u) same.1 (Stored-Inserted d u v j (was_free _ j.0)))
        (insert_delegation-Inserted d)
        (λ b. Leads-if b (λ h. Leads-pure tt (λ v. (h, refl))) (λ h. Leads-fail _))

  pub save_active-duplicate :
      (hash staker_pk fp_pk tx_hex : String) (amount start_height timelock output_index : Uint64)
      (start : Int64) (overflow : Bool)
      → Raises
          (λ e u v. is_duplicate_key_error e ≡ true → is_none (delegation_at u hash) ≡ false)
          (save_active_staking_delegation hash staker_pk fp_pk tx_hex amount start_height timelock
            output_index start overflow)
  unfolding save_active_staking_delegation active_document is_duplicate_key_error insert_delegation
  save_active-duplicate hash staker_pk fp_pk tx_hex amount start_height timelock output_index start
        overflow =
      let d =
        active_document hash staker_pk fp_pk tx_hex amount start_height timelock output_index start
          overflow in
      Raises-bind {R = Inserted d} {S = λ b e u v. b ≡ false} (λ b e u v w i same h. sym i.0 ∙ same)
        (insert_delegation-Inserted d)
        (Raises-call _ (λ s u v h. ground (arith, h)) (Raises-command _))
        (λ b. Raises-if b (λ h. Raises-pure tt) (λ h. Raises-fail _ (λ v. h)))

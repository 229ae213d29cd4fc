-- ===== src/Store/BtcInfos/Latest.antt =====
-- `UpsertLatestBtcInfo` of internal/v1/db/client/btc_info.go keeps the info of the greatest height.
use staking_api_service.Base.{
  ◌≡◌, refl, sym, ◌∙◌, ap, Bool, true, false, Option, none, some, if◌then◌else◌, arith, ltb, ◌⊎◌,
  inl, inr,
}
use staking_api_service.Base.Exec.{Result, err, pure, fail, try, resume, ◌>>=◌}
use staking_api_service.Types.Errors.{GoError, is_no_documents}
use staking_api_service.Model.{BtcInfo, Uint64, latest_btc_info_id}
use staking_api_service.Driver.{
  Driver, World, Visible, Transacted, aborted, committed, keep_if, change_if, or_else,
}
use staking_api_service.Driver.Keeps.{Idle, idle_ok, idle_err, call-Idle}
use staking_api_service.Driver.Leads.{
  Leads, Leads-call, Leads-bind, Leads-if, Leads-pure, Leads-fail, Leads-weaken,
}
use staking_api_service.Driver.Raises.{Raises, Raises-call, Raises-bind, Leads-try}
use staking_api_service.Store.Access.{start_session}
use staking_api_service.Store.Access.Effects.{
  Leads-query, Raises-query, Leads-command, Leads-decode, Raises-decode,
}
use staking_api_service.Store.BtcInfos.{
  find_btc_info, insert_btc_info, update_btc_info, latest_info, insert_new,
  upsert_latest_btc_info_work, upsert_latest_btc_info,
}

-- what is stored once an info has been offered: the stored one, unless it is lower or missing
abbrev pub newest : BtcInfo → Option BtcInfo → BtcInfo
newest info none = info
newest info (some old) = if ltb old.btc_height info.btc_height then info else old

module _ ⦃driver : Driver⦄ where
  open driver use {mongo}

  abbrev pub stored_info : Visible mongo → Option BtcInfo
  stored_info v = mongo.btc_info.view v.db.btc_info latest_btc_info_id

  found_all : (o : Option BtcInfo) → keep_if (λ d. true) o ≡ o
  found_all none = refl
  found_all (some d) = refl

  found_lem :
      (u : Visible mongo)
      → mongo.btc_info.find_one latest_btc_info_id (λ d. true) u.db.btc_info ≡ stored_info u
  found_lem u = mongo.btc_info.find_one_lem _ _ _ ∙ found_all (stored_info u)

  find-Leads : Leads (λ d u v. (v ≡ u) × (stored_info u ≡ some d)) find_btc_info
  unfolding find_btc_info
  find-Leads =
      Leads-bind (λ o d u v w q r. (r.0 ∙ q.0, sym (found_lem u) ∙ q.1 ∙ r.1))
        (Leads-call (Leads-query _)) (λ o. Leads-decode o)

  find-Raises :
      Raises (λ e u v. is_no_documents e ≡ true → (v ≡ u) × (stored_info u ≡ none)) find_btc_info
  unfolding find_btc_info is_no_documents
  find-Raises =
      Raises-bind (λ o e u v w q r h. (r.0 ∙ q.0, sym (found_lem u) ∙ q.1 ∙ r.1))
        (Leads-call (Leads-query _)) (Raises-call _ (λ s u v h. ground (arith, h)) (Raises-query _))
        (λ o. Raises-decode o)

  insert-Leads :
      (info : BtcInfo)
      → Leads (λ _ u v. stored_info u ≡ none → stored_info v ≡ some info) (insert_new info)
  unfolding insert_new insert_btc_info
  insert-Leads info =
      Leads-bind {R = λ _ u v. stored_info u ≡ none → stored_info v ≡ some info}
        {S = λ _ _ u v. u ≡ v} (λ _ _ u v w r same free. ap stored_info (sym same) ∙ r free)
        (Leads-call (
          Leads-command _ (λ v free.
            mongo.btc_info.view-insert_one _ _ _ _ ∙ ap (λ o. some (or_else o info)) free)))
        (λ b. Leads-if b (λ h. Leads-pure tt (λ v. refl)) (λ h. Leads-fail _))

  update-Leads :
      (info : BtcInfo)
      → Leads
          (λ _ u v. (d : BtcInfo) → stored_info u ≡ some d → stored_info v ≡ some info)
          (update_btc_info info)
  unfolding update_btc_info
  update-Leads info = Leads-call (
      Leads-command _ (λ v d there.
        mongo.btc_info.view-update_one _ _ _ _ _ ∙ ap (change_if (λ d. true) (λ d. info)) there))

  replace-Leads :
      (b : Bool) (info : BtcInfo)
      → Leads
          (λ _ u v.
            (d : BtcInfo) → stored_info u ≡ some d → stored_info v ≡ some (if b then info else d))
          (if b then (update_btc_info info >>= λ _. pure tt) else pure tt)
  replace-Leads true info =
      Leads-bind {S = λ _ _ u v. u ≡ v}
        (λ _ _ u v w r same d there. ap stored_info (sym same) ∙ r d there) (update-Leads info)
        (λ _. Leads-pure tt (λ v. refl))
  replace-Leads false info = Leads-pure tt (λ v d there. there)

  work-Leads :
      (height confirmed unconfirmed : Uint64)
      → Leads
          (λ _ u v.
            stored_info v
            ≡ some (newest (latest_info height confirmed unconfirmed) (stored_info u)))
          (upsert_latest_btc_info_work height confirmed unconfirmed)
  unfolding upsert_latest_btc_info_work
  work-Leads height confirmed unconfirmed =
      let info = latest_info height confirmed unconfirmed in
      Leads-try
        {S = λ d _ u v.
          stored_info u ≡ some d
          → stored_info v ≡ some (if ltb d.btc_height height then info else d)}
        {S' = λ e _ u v.
          (is_no_documents e ≡ true) × (stored_info u ≡ none → stored_info v ≡ some info)}
        (λ d _ u v w q r. r (ap stored_info q.0 ∙ q.1) ∙ ap (λ o. some (newest info o)) (sym q.1))
        (λ e _ u v w q r.
          let (same, free) = q r.0 in
          r.1 (ap stored_info same ∙ free) ∙ ap (λ o. some (newest info o)) (sym free))
        find-Leads find-Raises
        (λ e.
          Leads-if _ (λ h. Leads-weaken (insert-Leads info) (λ _ u v r. (h, r)))
            (λ h. Leads-fail _))
        (λ d. Leads-weaken (replace-Leads _ info) (λ _ u v r there. r d there))

  -- what is seen of a run: nothing, and an error, or the newest info
  abbrev Upserted : BtcInfo → Visible mongo → Result GoError (Unit {0}) × World mongo → Type 0
  Upserted info u r =
      ((e : GoError) × (r.0 ≡ err e) × (r.1.visible ≡ u))
      ⊎ (stored_info r.1.visible ≡ some (newest info (stored_info u)))

  module _ (height confirmed unconfirmed : Uint64) where
    with_transaction-Upserted :
        (u : Visible mongo) (w : World mongo) {r : Result GoError (Unit {0}) × World mongo}
        → w.visible ≡ u
        → Transacted (upsert_latest_btc_info_work height confirmed unconfirmed) w r
        → Upserted (latest_info height confirmed unconfirmed) u r
    with_transaction-Upserted u w start (aborted e w' same) = inl (e, refl, same ∙ start)
    with_transaction-Upserted u w start (committed v r same done) = inr (
        (work-Leads height confirmed unconfirmed).at v tt done
        ∙ ap (λ x. some (newest (latest_info height confirmed unconfirmed) (stored_info x)))
            (same ∙ start))

    start_session-Upserted :
        (w : World mongo) {r : Result GoError (Unit {0}) × World mongo}
        → Idle w r
        → Upserted (latest_info height confirmed unconfirmed) w.visible (
            resume r.0
              (λ _.
                driver.with_transaction (upsert_latest_btc_info_work height confirmed unconfirmed))
              fail
              r.1)
    unfolding fail
    start_session-Upserted w (idle_ok v same) =
        with_transaction-Upserted w.visible v same (driver.transacted _ v)
    start_session-Upserted w (idle_err e v same) = inl (e, refl, same)

    -- Whatever the network does and however often the transaction is tried, either an error came back and
    -- nothing has changed, or what is stored is the newest: the given info, if none was stored or the
    -- stored height was less than the given one, and else the info that was stored.
    pub upsert_latest_btc_info-Upserted :
        (w : World mongo)
        → let r = upsert_latest_btc_info height confirmed unconfirmed w in
          ((e : GoError) × (r.0 ≡ err e) × (r.1.visible ≡ w.visible))
          ⊎ (stored_info r.1.visible
              ≡ some (newest (latest_info height confirmed unconfirmed) (stored_info w.visible)))
    unfolding upsert_latest_btc_info start_session ◌>>=◌ try
    upsert_latest_btc_info-Upserted w = start_session-Upserted w (call-Idle w)

-- ===== src/Scripts/Saved.antt =====
-- What the backfill saves.
use mathlib.Core.List.{Memᴰ}
use staking_api_service.Base.{
  ℕ, ◌<◌, true, ◌≡◌, refl, sym, ◌∙◌, ap, subst, none, List, [], ◌∷◌, ◌↔◌,
}
use staking_api_service.Base.Exec.{ok}
use staking_api_service.Model.{DelegationDocument}
use staking_api_service.Driver.{Driver, Visible, World}
use staking_api_service.Driver.Leads.{Leads, Leads-call, Leads-bind, Leads-pure}
use staking_api_service.Driver.Raises.{Leads-rethrow, Leads-lift}
use staking_api_service.Store.Access.Effects.{Leads-command}
use staking_api_service.Store.Others.{insert_mapping, insert_pk_address_mappings}
use staking_api_service.Utils.Bitcoin.{Btc, SupportedAddress, derive_addresses_from_no_coord_pk}
use staking_api_service.Reads.{Source, Json, Base64, length, for_each}
use staking_api_service.Reads.Order.{Ascending}
use staking_api_service.Reads.Pages.{for_pages-visits}
use staking_api_service.Reads.Delegations.{
  DelegationScanPagination, by_id, build_delegation_scan_pagination_token,
  scan_delegations_paginated,
}
use staking_api_service.Reads.Delegations.Walks.{
  UniqueIds, Serves-scan, by_id-StrictOrder, by_id-Comparable,
}
use staking_api_service.Scripts.Backfill.{
  save_addresses, backfill_delegation, backfill_pubkey_addresses_mappings,
}
use staking_api_service.Scripts.Insertion.{
  Saved, Extends, Extends-refl, Extends-trans, Saved-later, Saved-earlier, after-One,
}

module _ ⦃driver : Driver⦄ where
  open driver use {mongo}

  module _ ⦃btc : Btc⦄ where
    record Backfilled (l : List DelegationDocument) (u v : Visible mongo) : Type 0 where
      pub saved : (d : DelegationDocument) → Memᴰ d l → Saved d.staker_pk_hex u v
      pub extends : Extends u v

    One : DelegationDocument → Visible mongo → Visible mongo → Type 0
    One d u v = Saved d.staker_pk_hex u v × Extends u v

    join :
        (d : DelegationDocument) (l : List DelegationDocument) (u v w : Visible mongo)
        → One d u v
        → Backfilled l v w
        → Backfilled (d ∷ l) u w
    unfolding One
    join d l u v w one rest = record {
      saved = λ z m. elim m [
        | Memᴰ.head e ↦
            subst (λ x. Saved x.staker_pk_hex u w) (sym e)
              (Saved-later d.staker_pk_hex u v w one.0 rest.extends)
        | Memᴰ.tail n ↦ Saved-earlier z.staker_pk_hex u v w one.1 (rest.saved z n)
      ];
      extends = Extends-trans u v w one.1 rest.extends;
    }

    insert-One :
        (d : DelegationDocument) (a : SupportedAddress)
        → derive_addresses_from_no_coord_pk d.staker_pk_hex ≡ ok a
        → Leads (λ t. One d) (save_addresses d.staker_pk_hex a)
    unfolding save_addresses insert_pk_address_mappings insert_mapping One
    insert-One d a h = Leads-rethrow _ (
        Leads-bind {S = λ b t u v. u ≡ v} (λ b t u v w r same. subst (One d u) same r)
          (Leads-call (Leads-command _ (λ v. after-One d.staker_pk_hex a h v)))
          (λ b. Leads-pure tt (λ v. refl)))

    backfill_delegation-One : (d : DelegationDocument) → Leads (λ t. One d) (backfill_delegation d)
    unfolding backfill_delegation
    backfill_delegation-One d =
        Leads-lift (derive_addresses_from_no_coord_pk d.staker_pk_hex) _ (insert-One d)

    for_each-Backfilled :
        (l : List DelegationDocument) → Leads (λ t. Backfilled l) (for_each l backfill_delegation)
    unfolding for_each
    for_each-Backfilled [] =
        Leads-pure tt (λ v. record { saved = λ d m. elim m [ ]; extends = Extends-refl v })
    for_each-Backfilled (d ∷ l) =
        Leads-bind (λ t s u v w. join d l u v w) (backfill_delegation-One d)
          (λ t. for_each-Backfilled l)

    module _ ⦃base64 : Base64⦄ ⦃scan : Json DelegationScanPagination⦄
        (source : Source DelegationDocument) (unique : UniqueIds source.docs) (limit : ℕ)
        (positive : 0 < limit) (up : source.failure ≡ none) where
      -- The backfill is the loop over all stored delegations, each once, in the order of their ids, if it
      -- may read one page more than there are delegations: it ends, and no page is skipped or read
      -- twice. The ids of the stored delegations are distinct, the limit is positive, and the collection is not changed
      -- meanwhile; reads succeed.
      pub backfill_pubkey_addresses_mappings-for_each :
          (n : ℕ) (w : World mongo)
          → length (source.rows (λ d. true) by_id) < n
          → (backfill_pubkey_addresses_mappings n source limit w
              ≡ for_each (source.rows (λ d. true) by_id) backfill_delegation w)
            × Ascending by_id (source.rows (λ d. true) by_id)
            × ((d : DelegationDocument)
                → Memᴰ d (source.rows (λ d. true) by_id) ↔ Memᴰ d source.docs)
      unfolding backfill_pubkey_addresses_mappings
      backfill_pubkey_addresses_mappings-for_each n w enough =
          let comparable = by_id-Comparable source.docs unique (λ d. true) in
          (
            for_pages-visits limit build_delegation_scan_pagination_token
                (scan_delegations_paginated source limit) (source.rows (λ d. true) by_id)
                backfill_delegation positive (Serves-scan source unique limit up) n enough w,
            source.rows-Ascending (λ d. true) by_id-StrictOrder comparable,
            λ d.
                let mem = source.rows-mem (λ d. true) by_id-StrictOrder comparable d in
                ((λ m. (mem.0 m).0), (λ m. mem.1 (m, refl))),
          )

      -- If the backfill returns without an error, whatever becomes of its calls, then for every stored
      -- delegation the staker's key yields addresses, and the key has an address mapping (the one that was
      -- there, or the one of those addresses) or another stored mapping has one of the addresses.
      -- No stored mapping is changed, and each new one has the addresses of its key. (The ids of
      -- the delegations are distinct, the limit is positive, reads succeed, the backfill may read one page
      -- more than there are delegations, and their collection does not change.)
      pub backfill_pubkey_addresses_mappings-Saved :
          (n : ℕ) (w : World mongo)
          → length (source.rows (λ d. true) by_id) < n
          → (backfill_pubkey_addresses_mappings n source limit w).0 ≡ ok tt
          → (d : DelegationDocument) → Memᴰ d source.docs
          → Saved d.staker_pk_hex w.visible
              (backfill_pubkey_addresses_mappings n source limit w).1.visible
            × Extends w.visible (backfill_pubkey_addresses_mappings n source limit w).1.visible
      backfill_pubkey_addresses_mappings-Saved n w enough h d m =
          let (same, sorted, mem) = backfill_pubkey_addresses_mappings-for_each n w enough in
          let all =
            (for_each-Backfilled (source.rows (λ d. true) by_id)).at w tt
              (ap (λ r. r.0) (sym same) ∙ h) in
          subst (λ r. Saved d.staker_pk_hex w.visible r.1.visible × Extends w.visible r.1.visible)
            (sym same) (all.saved d ((mem d).1 m), all.extends)

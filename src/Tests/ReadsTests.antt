-- ===== src/Tests/ReadsTests.antt =====
-- Reads at two delegations of one staker, with one document on a page
use mathlib.Core.List.{Memᴰ}
use staking_api_service.Base.{
  ◌<◌, String, true, false, ◌≡◌, ◌≢◌, ◌↔◌, ◌==◌, eq_iff, refl, sym, ◌∙◌, ap, none, some, [], ◌∷◌,
  arith,
}
use staking_api_service.Base.Exec.{Result, ok, try, lift, pure, ◌>>=◌}
use staking_api_service.Types.Errors.{GoError}
use staking_api_service.Types.States.{active, contains}
use staking_api_service.Model.{DelegationDocument}
use staking_api_service.Driver.{World, call}
use staking_api_service.Reads.{Source, length, for_each}
use staking_api_service.Reads.Order.{Ascending}
use staking_api_service.Reads.Delegations.{
  DelegationFilter, by_start_height, by_id, build_additional_delegation_filter,
  find_delegations_by_staker_pk,
}
use staking_api_service.Reads.Delegations.Walks.{UniqueIds}
use staking_api_service.Reads.Delegations.Complete.{
  read_all, find_delegations_by_staker_pk-Complete,
}
use staking_api_service.Reads.Delegations.Filtered.{
  allowed, Allowed, Continued, find_delegations_by_staker_pk-Continued,
}
use staking_api_service.Store.Others.{insert_mapping, insert_pk_address_mappings}
use staking_api_service.Utils.Bitcoin.{
  derive_addresses_from_no_coord_pk, get_schnorr_pk_from_hex, get_pk_with_coordinates_bytes,
}
use staking_api_service.Scripts.Backfill.{
  save_addresses, backfill_delegation, backfill_pubkey_addresses_mappings,
}
use staking_api_service.Scripts.Saved.{
  backfill_pubkey_addresses_mappings-for_each, backfill_pubkey_addresses_mappings-Saved,
}
use staking_api_service.Scripts.Insertion.{Saved, Extends}
use staking_api_service.Store.Delegations.{active_document}
use staking_api_service.Tests.Memory.{memory, empty_world, toy_btc}
use staking_api_service.Tests.Sources.{plain, by_staker_json, scan_json}
use staking_api_service.Tests.Collections.{stored}

abbrev older : DelegationDocument
older = active_document ⦃driver = memory⦄ "a" "staker" "provider" "tx" 100 7 50 0 1 false

abbrev newer : DelegationDocument
newer = active_document ⦃driver = memory⦄ "b" "staker" "provider" "tx" 200 9 50 0 1 false

abbrev source : Source DelegationDocument
source = stored (older ∷ newer ∷ [])

ids_differ : ◌≢◌ {A = String} "a" "b"
ids_differ h = ground (arith, (eq_iff "a" "b").1 h)

unique : UniqueIds (older ∷ newer ∷ [])
unique a b (Memᴰ.head e) (Memᴰ.head f) h = e ∙ sym f
unique a b (Memᴰ.head e) (Memᴰ.tail (Memᴰ.head f)) h =
    absurd
      (ids_differ (ap (λ d. d.staking_tx_hash_hex) (sym e) ∙ h ∙ ap (λ d. d.staking_tx_hash_hex) f))
unique a b (Memᴰ.tail (Memᴰ.head e)) (Memᴰ.head f) h = absurd (
    ids_differ
      (ap (λ d. d.staking_tx_hash_hex) (sym f) ∙ sym h ∙ ap (λ d. d.staking_tx_hash_hex) e))
unique a b (Memᴰ.tail (Memᴰ.head e)) (Memᴰ.tail (Memᴰ.head f)) h = e ∙ sym f
unique a b (Memᴰ.tail (Memᴰ.tail m)) n h = elim m [ ]
unique a b m (Memᴰ.tail (Memᴰ.tail n)) h = elim n [ ]

one : 0 < 1
one = omega arith

enough : length (source.rows (λ d. d.staker_pk_hex == "staker") by_start_height) < 3
enough = omega arith

all_enough : length (source.rows (λ d. true) by_id) < 3
all_enough = omega arith

find_delegations_by_staker_pk-Complete_example :
    (read_all 3 (
        find_delegations_by_staker_pk ⦃base64 = plain⦄ ⦃by_staker = by_staker_json⦄ source 1
          "staker" none)
      ≡ (ok tt, newer ∷ older ∷ []))
    × Ascending by_start_height (newer ∷ older ∷ [])
    × ((d : DelegationDocument)
        → Memᴰ d (newer ∷ older ∷ [])
          ↔ (Memᴰ d (older ∷ newer ∷ []) × ((d.staker_pk_hex == "staker") ≡ true)))
find_delegations_by_staker_pk-Complete_example =
    find_delegations_by_staker_pk-Complete source unique 1 one refl ⦃base64 = plain⦄
      ⦃by_staker = by_staker_json⦄ "staker" 3 enough

abbrev active_only : DelegationFilter
active_only = record { after_timestamp = 0; states = some (active ∷ []) }

two_shown : 1 < length (source.rows (allowed active_only "staker") by_start_height)
unfolding build_additional_delegation_filter contains
two_shown = omega arith

find_delegations_by_staker_pk-Continued_example :
    Continued source 1 ⦃base64 = plain⦄ ⦃by_staker = by_staker_json⦄ "staker" active_only
    × ((d : DelegationDocument)
        → Memᴰ d (source.rows (allowed active_only "staker") by_start_height)
          ↔ (Memᴰ d source.docs × (d.staker_pk_hex ≡ "staker") × Allowed active_only d))
find_delegations_by_staker_pk-Continued_example =
    find_delegations_by_staker_pk-Continued source unique 1 one refl ⦃base64 = plain⦄
      ⦃by_staker = by_staker_json⦄ "staker" active_only two_shown

backfill_pubkey_addresses_mappings-for_each_example :
    (backfill_pubkey_addresses_mappings ⦃driver = memory⦄ ⦃btc = toy_btc⦄ ⦃base64 = plain⦄
        ⦃scan = scan_json⦄ 3 source 1 empty_world
      ≡ for_each
          (older ∷ newer ∷ [])
          (backfill_delegation ⦃driver = memory⦄ ⦃btc = toy_btc⦄)
          empty_world)
    × Ascending by_id (older ∷ newer ∷ [])
    × ((d : DelegationDocument) → Memᴰ d (older ∷ newer ∷ []) ↔ Memᴰ d (older ∷ newer ∷ []))
backfill_pubkey_addresses_mappings-for_each_example =
    backfill_pubkey_addresses_mappings-for_each ⦃driver = memory⦄ ⦃btc = toy_btc⦄ ⦃base64 = plain⦄
      ⦃scan = scan_json⦄ source unique 1 one refl 3 empty_world all_enough

abbrev backfilled : Result GoError (Unit {0}) × World memory.mongo
backfilled =
    backfill_pubkey_addresses_mappings ⦃driver = memory⦄ ⦃btc = toy_btc⦄ ⦃base64 = plain⦄
      ⦃scan = scan_json⦄ 3 source 1 empty_world

done : backfilled.0 ≡ ok tt
unfolding for_each backfill_delegation save_addresses insert_pk_address_mappings insert_mapping
    derive_addresses_from_no_coord_pk get_schnorr_pk_from_hex get_pk_with_coordinates_bytes call try
    lift ◌>>=◌ pure
done =
    ap (λ r. r.0)
      (backfill_pubkey_addresses_mappings-for_each ⦃driver = memory⦄ ⦃btc = toy_btc⦄
        ⦃base64 = plain⦄ ⦃scan = scan_json⦄ source unique 1 one refl 3 empty_world all_enough).0

backfill_pubkey_addresses_mappings-Saved_example :
    Saved ⦃driver = memory⦄ ⦃btc = toy_btc⦄ "staker" empty_world.visible backfilled.1.visible
    × Extends ⦃driver = memory⦄ ⦃btc = toy_btc⦄ empty_world.visible backfilled.1.visible
backfill_pubkey_addresses_mappings-Saved_example =
    backfill_pubkey_addresses_mappings-Saved ⦃driver = memory⦄ ⦃btc = toy_btc⦄ ⦃base64 = plain⦄
      ⦃scan = scan_json⦄ source unique 1 one refl 3 empty_world all_enough done older
      (Memᴰ.head refl)

-- a key in another spelling, whose addresses are another key's, gets no mapping and no error
abbrev mapped_world : World memory.mongo
mapped_world = record empty_world {
  visible = record (empty_world.visible) {
    db = record (empty_world.visible.db) {
      pk_address_mappings =
          record { pk_hex = "ab"; taproot = "t"; native_segwit_even = "e"; native_segwit_odd = "o" }
          ∷ [];
    };
  };
}

kept_out :
    insert_pk_address_mappings ⦃driver = memory⦄ "AB" "t" "o" "e" mapped_world
    ≡ (ok tt, mapped_world)
unfolding insert_pk_address_mappings insert_mapping call ◌>>=◌ try pure
kept_out = refl

-- ===== src/Tests/RegistrationTests.antt =====
-- Queue/Registration.antt at an event that is new
use staking_api_service.Base.{false, true, ◌≡◌, refl, ◌⊎◌}
use staking_api_service.Base.Exec.{ok, ◌>>=◌, pure}
use staking_api_service.Driver.{is_some, call}
use staking_api_service.Service.Delegations.{is_delegation_present, save_active_staking}
use staking_api_service.Store.Delegations.{
  find_delegation_by_tx_hash_hex, save_active_staking_delegation,
}
use staking_api_service.Types.Errors.{is_not_found_error, is_no_documents}
use staking_api_service.Service.Timelock.{process_expire_check}
use staking_api_service.Store.Timelock.{save_time_lock_expire_check}
use staking_api_service.Store.Delegations.Outcomes.{delegation_at}
use staking_api_service.Queue.Events.{ActiveStakingEvent, emit_stats_event}
use staking_api_service.Queue.Handlers.{handle_active_staking}
use staking_api_service.Queue.Registration.{Registered, handle_active_staking-Registered}
use staking_api_service.Tests.Memory.{memory, toy_format, empty_world}

abbrev event : ActiveStakingEvent
event = record {
  staking_tx_hash_hex = "h";
  staker_pk_hex = "staker";
  finality_provider_pk_hex = "provider";
  staking_value = 100;
  staking_start_height = 7;
  staking_start_timestamp = 1;
  staking_time_lock = 50;
  staking_output_index = 0;
  staking_tx_hex = "tx";
  is_overflow = false;
}

handled : (handle_active_staking ⦃driver = memory⦄ toy_format event empty_world).0 ≡ ok tt
unfolding handle_active_staking ◌>>=◌ pure is_delegation_present save_active_staking
    find_delegation_by_tx_hash_hex save_active_staking_delegation call is_not_found_error
    is_no_documents emit_stats_event process_expire_check save_time_lock_expire_check
handled = refl

handle_active_staking-Registered_example :
    let v = (handle_active_staking ⦃driver = memory⦄ toy_format event empty_world).1.visible in
    ((is_some (delegation_at ⦃driver = memory⦄ empty_world.visible "h") ≡ true)
      × (v ≡ empty_world.visible))
    ⊎ ((is_some (delegation_at ⦃driver = memory⦄ empty_world.visible "h") ≡ false)
        × Registered ⦃driver = memory⦄ toy_format event empty_world.visible v)
handle_active_staking-Registered_example =
    handle_active_staking-Registered ⦃driver = memory⦄ toy_format event empty_world handled

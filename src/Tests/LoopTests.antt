-- ===== src/Tests/LoopTests.antt =====
-- Queue/Loop.antt at a message that has been tried too often
use staking_api_service.Base.{String, [], ◌∷◌}
use staking_api_service.Base.Exec.{fail}
use staking_api_service.Types.Errors.{new_internal_service_error, text}
use staking_api_service.Driver.{World, lost, delivered}
use staking_api_service.Service.Delegations.{Service}
use staking_api_service.Queue.Messages.{QueueMessage, process_message}
use staking_api_service.Queue.Loop.{Settled, process_message-Settled}
use staking_api_service.Tests.Memory.{memory, empty_world}

abbrev broken : String → Service memory (Unit {0})
broken body = fail (new_internal_service_error (text "broken"))

abbrev message : QueueMessage
message = record { body = "body"; receipt = "receipt"; retry_attempts = 11 }

-- the message is dumped, and the deletion is lost
abbrev faulty_world : World memory.mongo
faulty_world = record empty_world { fates = delivered ∷ lost "queue" ∷ [] }

process_message-Settled_example :
    Settled ⦃driver = memory⦄ broken 10 message faulty_world
      (process_message ⦃driver = memory⦄ broken 10 message faulty_world)
process_message-Settled_example =
    process_message-Settled ⦃driver = memory⦄ broken 10 message faulty_world

-- ===== src/Queue/Messages.antt =====
-- The loop body of internal/shared/queue/client/message.go, and `SaveUnprocessableMessages` of
-- internal/shared/services/service/service.go. Times, traces, logs and metrics are left out.
use staking_api_service.Base.{ℕ, String, Bool, ltb, if◌then◌else◌}
use staking_api_service.Base.Exec.{Exec, pure, fail, try}
use staking_api_service.Types.Errors.{Error, internal_service_error, new_error_with_msg}
use staking_api_service.Types.Errors.Status
use staking_api_service.Driver.{Driver, World, call}
use staking_api_service.Store.Others.{save_unprocessable_message}
use staking_api_service.Service.Delegations.{Service}

pub record QueueMessage : Type 0 where
  pub body : String
  pub receipt : String
  pub retry_attempts : ℕ

-- What the loop has done about a message: it asked the queue to delete it, it asked the queue to
-- requeue it, or neither; and whether the queue answered with no error.
pub data Disposition : Type 0 where
  deleted requeued : Bool → Disposition
  untouched : Disposition

module _ ⦃driver : Driver⦄ where
  unfoldable pub save_unprocessable_messages : (body receipt : String) → Service driver (Unit {0})
  save_unprocessable_messages body receipt =
      try (save_unprocessable_message body receipt)
        (λ e. fail (
          new_error_with_msg Status.internal_server_error internal_service_error
            "error while saving unprocessable message"))
        pure

  -- a call of the queue, which changes nothing that the program holds
  unfoldable pub queue_call : (Bool → Disposition) → Exec (World driver.mongo) Error Disposition
  queue_call d = try (call (pure tt)) (λ e. pure (d Bool.false)) (λ _. pure (d Bool.true))

  unfoldable pub delete_message : Exec (World driver.mongo) Error Disposition
  unfolding queue_call
  delete_message = queue_call deleted

  unfoldable pub requeue_message : Exec (World driver.mongo) Error Disposition
  unfolding queue_call
  requeue_message = queue_call requeued

  unfoldable pub process_message :
      (String → Service driver (Unit {0}))
      → ℕ
      → QueueMessage
      → Exec (World driver.mongo) Error Disposition
  unfolding save_unprocessable_messages delete_message requeue_message
  process_message handler max_retry_attempts message =
      try (handler message.body)
        (λ e.
          if ltb max_retry_attempts message.retry_attempts
          then try (save_unprocessable_messages message.body message.receipt) (λ x. pure untouched)
              (λ _. delete_message)
          else requeue_message)
        (λ _. delete_message)

-- ===== src/Scripts/Replay.antt =====
-- cmd/staking-api-service/scripts/replay_unprocessed_messages.go; `unmarshal` is `encoding/json` at
-- `GenericEvent`.
use staking_api_service.Base.{String, List, [], ◌∷◌}
use staking_api_service.Base.Exec.{Result, ok, pure, fail, lift, try, ◌>>◌}
use staking_api_service.Types.Errors.{GoError, text}
use staking_api_service.Model.{UnprocessableMessageDocument}
use staking_api_service.Driver.{Driver, EventType, other, call}
use staking_api_service.Store.Access.{Client}
use staking_api_service.Store.Others.{find_unprocessable_messages, delete_unprocessable_message}

module _ ⦃driver : Driver⦄ where
  -- `SendMessage` of the queue of an event type
  unfoldable pub send_message : EventType → String → Client driver (Unit {0})
  send_message event_type message_body = call (λ w. (
    ok tt,
    record w {
      visible = record w.visible { replayed = (event_type, message_body) ∷ w.visible.replayed };
    },
  ))

  unfoldable pub process_event_message : EventType → String → Client driver (Unit {0})
  unfolding send_message
  process_event_message (other n) message_body = fail (text "unknown event type")
  process_event_message event_type message_body = send_message event_type message_body

  module _ (unmarshal : String → Result GoError EventType) where
    unfoldable pub replay_message : UnprocessableMessageDocument → Client driver (Unit {0})
    replay_message msg =
        try (lift (unmarshal msg.message_body))
          (λ e. fail (text "failed to unmarshal event message"))
          (λ event_type.
            try (process_event_message event_type msg.message_body)
              (λ e. fail (text "failed to process message"))
              (λ t.
                try (delete_unprocessable_message msg.receipt)
                  (λ e. fail (text "failed to delete unprocessable message")) pure))

    unfoldable pub replay_messages : List UnprocessableMessageDocument → Client driver (Unit {0})
    unfolding replay_message
    replay_messages [] = pure tt
    replay_messages (msg ∷ unprocessable_messages) =
        replay_message msg >> replay_messages unprocessable_messages

    abbrev pub unless_empty : List UnprocessableMessageDocument → Client driver (Unit {0})
    unless_empty [] = fail (text "no unprocessable messages to replay")
    unless_empty (msg ∷ unprocessable_messages) = replay_messages (msg ∷ unprocessable_messages)

    unfoldable pub replay_unprocessable_messages : Client driver (Unit {0})
    unfolding replay_messages
    replay_unprocessable_messages =
        try find_unprocessable_messages
          (λ e. fail (text "failed to retrieve unprocessable messages")) unless_empty

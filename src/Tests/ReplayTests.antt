-- ===== src/Tests/ReplayTests.antt =====
-- Scripts/Replayed.antt at two stored messages, the second of which is answered with an error
use mathlib.Core.List.{Memᴰ}
use staking_api_service.Base.{String, ◌≢◌, refl, sym, ◌∙◌, ap, [], ◌∷◌, ◌⊎◌, eq_iff, arith}
use staking_api_service.Base.Exec.{Result, ok}
use staking_api_service.Types.Errors.{GoError}
use staking_api_service.Model.{UnprocessableMessageDocument}
use staking_api_service.Driver.{World, EventType, delivered, lost}
use staking_api_service.Scripts.Replay.{replay_unprocessable_messages}
use staking_api_service.Scripts.Replayed.{
  unprocessable, Replayed, UniqueReceipts, replay_unprocessable_messages-Kept,
}
use staking_api_service.Tests.Memory.{memory, empty_world}

abbrev first : UnprocessableMessageDocument
first = record { message_body = "first"; receipt = "a" }

abbrev second : UnprocessableMessageDocument
second = record { message_body = "second"; receipt = "b" }

-- the first message is found, sent and deleted, and the second one does not reach its queue
abbrev stored : World memory.mongo
stored = record empty_world {
  visible = record (empty_world.visible) {
    db = record (empty_world.visible.db) { unprocessable_messages = first ∷ second ∷ [] };
  };
  fates = delivered ∷ delivered ∷ delivered ∷ lost "no connection" ∷ [];
}

abbrev unmarshal : String → Result GoError EventType
unmarshal s = ok EventType.stats

differ : ◌≢◌ {A = String} "a" "b"
differ h = ground (arith, (eq_iff "a" "b").1 h)

unique : UniqueReceipts ⦃driver = memory⦄ (first ∷ second ∷ [])
unique a b (Memᴰ.head e) (Memᴰ.head f) h = e ∙ sym f
unique a b (Memᴰ.head e) (Memᴰ.tail (Memᴰ.head f)) h =
    absurd (differ (ap (λ d. d.receipt) (sym e) ∙ h ∙ ap (λ d. d.receipt) f))
unique a b (Memᴰ.tail (Memᴰ.head e)) (Memᴰ.head f) h =
    absurd (differ (ap (λ d. d.receipt) (sym f) ∙ sym h ∙ ap (λ d. d.receipt) e))
unique a b (Memᴰ.tail (Memᴰ.head e)) (Memᴰ.tail (Memᴰ.head f)) h = e ∙ sym f
unique a b (Memᴰ.tail (Memᴰ.tail m)) n h = elim m [ ]
unique a b m (Memᴰ.tail (Memᴰ.tail n)) h = elim n [ ]

replay_unprocessable_messages-Kept_example :
    let after = (replay_unprocessable_messages ⦃driver = memory⦄ unmarshal stored).1.visible in
    Memᴰ second (unprocessable ⦃driver = memory⦄ after) ⊎ Replayed ⦃driver = memory⦄ "second" after
replay_unprocessable_messages-Kept_example =
    replay_unprocessable_messages-Kept ⦃driver = memory⦄ unmarshal stored unique second
      (Memᴰ.tail (Memᴰ.head refl))

-- ===== src/Queue/Loop.antt =====
-- What becomes of a message in the loop of internal/shared/queue/client/message.go.
use staking_api_service.Base.{
  ℕ, ◌≤◌, ◌<◌, ◌≡◌, refl, ap, ◌∙◌, subst, sym, String, Bool, true, false, List, ◌∷◌, ltb, ltb→lt,
  arith, if◌then◌else◌,
}
use staking_api_service.Base.Exec.{Result, ok, err, pure, fail, try, resume}
use staking_api_service.Types.Errors.{GoError, Error}
use staking_api_service.Model.{UnprocessableMessageDocument}
use staking_api_service.Driver.{Driver, World}
use staking_api_service.Driver.Keeps.{Idle, idle_ok, idle_err, call-Idle}
use staking_api_service.Driver.Leads.{Leads, Leads-call}
use staking_api_service.Store.Others.{save_unprocessable_message}
use staking_api_service.Service.Delegations.{Service}
use staking_api_service.Queue.Messages.{
  QueueMessage, Disposition, deleted, requeued, untouched, save_unprocessable_messages, queue_call,
  delete_message, requeue_message, process_message,
}

module _ ⦃driver : Driver⦄ where
  open driver use {mongo}

  -- the messages that were dumped for manual inspection, newest first
  abbrev pub dumped_messages : World mongo → List UnprocessableMessageDocument
  dumped_messages w = mongo.unprocessable_messages.all w.db.unprocessable_messages

  -- How the loop may end with a message that the handler met in world `w`.
  pub data Settled (handler : String → Service driver (Unit {0})) (max : ℕ) (message : QueueMessage)
      (w : World mongo) : Result Error Disposition × World mongo → Type 0 where
    processed :
        (b : Bool) (w' : World mongo)
        → (handler message.body w).0 ≡ ok tt
        → w'.visible ≡ (handler message.body w).1.visible
        → Settled handler max message w (ok (deleted b), w')
    dumped :
        (b : Bool) (w' : World mongo) (e : Error)
        → (handler message.body w).0 ≡ err e
        → max < message.retry_attempts
        → dumped_messages w'
          ≡ record { message_body = message.body; receipt = message.receipt }
            ∷ dumped_messages (handler message.body w).1
        → Settled handler max message w (ok (deleted b), w')
    postponed :
        (b : Bool) (w' : World mongo) (e : Error)
        → (handler message.body w).0 ≡ err e
        → message.retry_attempts ≤ max
        → w'.visible ≡ (handler message.body w).1.visible
        → Settled handler max message w (ok (requeued b), w')
    left :
        (w' : World mongo) (e : Error)
        → (handler message.body w).0 ≡ err e
        → max < message.retry_attempts
        → Settled handler max message w (ok untouched, w')

  -- the loop ends with an answer of the queue, and nothing else has changed
  record Answered (d : Bool → Disposition) (w : World mongo)
      (r : Result Error Disposition × World mongo) : Type 0 where
    reply : Bool
    after : World mongo
    result : r ≡ (ok (d reply), after)
    same : after.visible ≡ w.visible

  resume-Answered :
      (d : Bool → Disposition) (w : World mongo) {r : Result GoError (Unit {0}) × World mongo}
      → Idle w r
      → Answered d w (resume r.0 (λ _. pure (d true)) (λ e. pure (d false)) r.1)
  unfolding pure
  resume-Answered d w (idle_ok v h) = record { reply = true; after = v; result = refl; same = h }
  resume-Answered d w (idle_err e v h) = record {
    reply = false;
    after = v;
    result = refl;
    same = h;
  }

  queue_call-Answered : (d : Bool → Disposition) (w : World mongo) → Answered d w (queue_call d w)
  unfolding queue_call try
  queue_call-Answered d w = resume-Answered d w (call-Idle w)

  -- a message that is dumped
  save-dumps :
      (message : QueueMessage)
      → Leads
          (λ _ u v.
            mongo.unprocessable_messages.all v.db.unprocessable_messages
            ≡ record { message_body = message.body; receipt = message.receipt }
              ∷ mongo.unprocessable_messages.all u.db.unprocessable_messages)
          (save_unprocessable_message message.body message.receipt)
  unfolding save_unprocessable_message
  save-dumps message =
      Leads-call (record { at = λ w a h. mongo.unprocessable_messages.all-insert_one _ _ })

  module _ (handler : String → Service driver (Unit {0})) (max : ℕ) (message : QueueMessage)
      (w : World mongo) where
    done-Settled :
        (v : World mongo)
        → (handler message.body w).0 ≡ ok tt
        → v.visible ≡ (handler message.body w).1.visible
        → Settled handler max message w (delete_message v)
    unfolding delete_message
    done-Settled v h same =
        let a = queue_call-Answered deleted v in
        subst (Settled handler max message w) (sym a.result)
          (processed a.reply a.after h (a.same ∙ same))

    postponed-Settled :
        (e : Error)
        → (handler message.body w).0 ≡ err e
        → message.retry_attempts ≤ max
        → Settled handler max message w (requeue_message (handler message.body w).1)
    unfolding requeue_message
    postponed-Settled e h low =
        let a = queue_call-Answered requeued (handler message.body w).1 in
        subst (Settled handler max message w) (sym a.result)
          (postponed a.reply a.after e h low a.same)

    dumped-Settled :
        (e : Error) (v : World mongo)
        → (handler message.body w).0 ≡ err e
        → max < message.retry_attempts
        → dumped_messages v
          ≡ record { message_body = message.body; receipt = message.receipt }
            ∷ dumped_messages (handler message.body w).1
        → Settled handler max message w (delete_message v)
    unfolding delete_message
    dumped-Settled e v h high saved =
        let a = queue_call-Answered deleted v in
        subst (Settled handler max message w) (sym a.result) (
          dumped a.reply a.after e h high
            (ap (λ x. mongo.unprocessable_messages.all x.db.unprocessable_messages) a.same ∙ saved))

    saved-Settled :
        (e : Error) (r : Result GoError (Unit {0})) (v : World mongo)
        → (handler message.body w).0 ≡ err e
        → max < message.retry_attempts
        → (r ≡ ok tt
            → dumped_messages v
              ≡ record { message_body = message.body; receipt = message.receipt }
                ∷ dumped_messages (handler message.body w).1)
        → (message_of_error : GoError → Error)
        → Settled handler max message w (
            try
              (try (λ _. (r, v)) (λ x. fail (message_of_error x)) pure)
              (λ x. pure untouched)
              (λ _. delete_message)
              v)
    unfolding try pure fail
    saved-Settled e (ok a) v h high saved f = dumped-Settled e v h high (saved refl)
    saved-Settled e (err x) v h high saved f = left v e h high

    failed-Settled :
        (e : Error) (b : Bool)
        → b ≡ ltb max message.retry_attempts
        → (handler message.body w).0 ≡ err e
        → Settled handler max message w (
            (if b
                then try
                    (save_unprocessable_messages message.body message.receipt)
                    (λ x. pure untouched)
                    (λ _. delete_message)
                else requeue_message)
              (handler message.body w).1)
    unfolding save_unprocessable_messages try
    failed-Settled e true q h =
        let v = (handler message.body w).1 in
        let saved = save_unprocessable_message message.body message.receipt v in
        saved-Settled e saved.0 saved.1 h (ltb→lt _ _ (sym q)) (λ k. (save-dumps message).at v tt k)
          _
    failed-Settled e false q h = postponed-Settled e h (ground arith)

    outcome-Settled :
        (r : Result Error (Unit {0}))
        → (handler message.body w).0 ≡ r
        → Settled handler max message w (
            resume r
              (λ _. delete_message)
              (λ e.
                if ltb max message.retry_attempts
                then try
                    (save_unprocessable_messages message.body message.receipt)
                    (λ x. pure untouched)
                    (λ _. delete_message)
                else requeue_message)
              (handler message.body w).1)
    outcome-Settled (ok a) h = done-Settled (handler message.body w).1 h refl
    outcome-Settled (err e) h = failed-Settled e _ refl h

  -- For every handler and every fault of the network, the loop ends with one of these: the handler
  -- returned no error and the queue was asked to delete the message; it returned an error, the retry
  -- attempts exceed the maximum, the message was added to the unprocessable messages, and the queue was
  -- asked to delete it; it returned an error, the attempts do not exceed the maximum, and the
  -- queue was asked to requeue it; or it returned an error, the attempts exceed the maximum, and the queue
  -- was not asked for anything. So no message is deleted that was neither handled nor kept.
  pub process_message-Settled :
      (handler : String → Service driver (Unit {0})) (max : ℕ) (message : QueueMessage)
      (w : World mongo)
      → Settled handler max message w (process_message handler max message w)
  unfolding process_message try
  process_message-Settled handler max message w = outcome-Settled handler max message w _ refl

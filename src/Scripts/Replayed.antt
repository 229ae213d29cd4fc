-- ===== src/Scripts/Replayed.antt =====
-- The replay loses no message.
use mathlib.Core.List.{Memᴰ}
use staking_api_service.Base.{String, ◌≡◌, refl, sym, subst, List, [], ◌∷◌, ◌⊎◌, inl, inr, eq_iff}
use staking_api_service.Base.Exec.{Result, ok, err, fail, try, resume}
use staking_api_service.Types.Errors.{GoError, text}
use staking_api_service.Model.{UnprocessableMessageDocument}
use staking_api_service.Driver.{Driver, Visible, World, EventType, other}
use staking_api_service.Driver.Keeps.{
  Preorder, Keeps, Keeps-call, Keeps-lift, Keeps-try, Keeps-fail, Keeps-pure, Keeps-bind,
}
use staking_api_service.Driver.Leads.{Leads, Leads-call, Leads-fail, Leads-weaken}
use staking_api_service.Store.Access.{Client}
use staking_api_service.Store.Access.Effects.{Leads-query}
use staking_api_service.Store.Others.{find_unprocessable_messages, delete_unprocessable_message}
use staking_api_service.Scripts.Replay.{
  send_message, process_event_message, replay_message, replay_messages, unless_empty,
  replay_unprocessable_messages,
}

module _ ⦃driver : Driver⦄ where
  open driver use {mongo}

  abbrev pub unprocessable : Visible mongo → List UnprocessableMessageDocument
  unprocessable v = mongo.unprocessable_messages.all v.db.unprocessable_messages

  -- the body was sent to some queue
  abbrev pub Replayed : String → Visible mongo → Type 0
  Replayed body v = (t : EventType) × Memᴰ (t, body) v.replayed

  -- Receipts tell the messages apart.
  abbrev pub UniqueReceipts : List UnprocessableMessageDocument → Type 0
  UniqueReceipts l =
      (a b : UnprocessableMessageDocument) → Memᴰ a l → Memᴰ b l → a.receipt ≡ b.receipt → a ≡ b

  module _ (start : List UnprocessableMessageDocument) (unique : UniqueReceipts start) where
    -- Among messages that were there at the start, each is kept or replayed.
    record Kept (u v : Visible mongo) : Type 0 where
      pub sent :
          (t : EventType) (body : String) → Memᴰ (t, body) u.replayed → Memᴰ (t, body) v.replayed
      pub fewer :
          (m : UnprocessableMessageDocument) → Memᴰ m (unprocessable v) → Memᴰ m (unprocessable u)
      pub kept :
          ((m : UnprocessableMessageDocument) → Memᴰ m (unprocessable u) → Memᴰ m start)
          → (m : UnprocessableMessageDocument) → Memᴰ m (unprocessable u)
          → Memᴰ m (unprocessable v) ⊎ Replayed m.message_body v

    Kept-refl : (v : Visible mongo) → Kept v v
    Kept-refl v = record { sent = λ t b m. m; fewer = λ m n. n; kept = λ f m n. inl n }

    Kept_trans : (u v w : Visible mongo) → Kept u v → Kept v w → Kept u w
    Kept_trans u v w a b = record {
      sent = λ t body m. b.sent t body (a.sent t body m);
      fewer = λ m n. a.fewer m (b.fewer m n);
      kept = λ f m n. elim (a.kept f m n) [
        | inl k ↦ b.kept (λ x i. f x (a.fewer x i)) m k
        | inr r ↦ inr (r.0, b.sent r.0 m.message_body r.1)
      ];
    }

    abbrev keep : Preorder (Visible mongo)
    keep = record { Rel = Kept; reflexive = Kept-refl; transitive = Kept_trans }

    sent-Keeps : (t : EventType) (body : String) → Keeps keep (send_message t body)
    unfolding send_message
    sent-Keeps t body = Keeps-call _ (record {
      at = λ w. record { sent = λ s b m. Memᴰ.tail m; fewer = λ m n. n; kept = λ f m n. inl n };
    })

    send-Keeps : (t : EventType) (body : String) → Keeps keep (process_event_message t body)
    unfolding process_event_message
    send-Keeps (other n) body = Keeps-fail _
    send-Keeps EventType.active_staking body = sent-Keeps _ body
    send-Keeps EventType.unbonding_staking body = sent-Keeps _ body
    send-Keeps EventType.withdraw_staking body = sent-Keeps _ body
    send-Keeps EventType.expired_staking body = sent-Keeps _ body
    send-Keeps EventType.stats body = sent-Keeps _ body
    send-Keeps EventType.btc_info body = sent-Keeps _ body

    sent-Replayed :
        (t : EventType) (body : String) → Leads (λ a u v. Replayed body v) (send_message t body)
    unfolding send_message
    sent-Replayed t body = Leads-call (record { at = λ w a h. (t, Memᴰ.head refl) })

    send-Replayed :
        (t : EventType) (body : String)
        → Leads (λ a u v. Replayed body v) (process_event_message t body)
    unfolding process_event_message
    send-Replayed (other n) body = Leads-fail _
    send-Replayed EventType.active_staking body = sent-Replayed _ body
    send-Replayed EventType.unbonding_staking body = sent-Replayed _ body
    send-Replayed EventType.withdraw_staking body = sent-Replayed _ body
    send-Replayed EventType.expired_staking body = sent-Replayed _ body
    send-Replayed EventType.stats body = sent-Replayed _ body
    send-Replayed EventType.btc_info body = sent-Replayed _ body

    -- what is kept once a body has been sent
    abbrev keep_after : String → Preorder (Visible mongo)
    keep_after body = record {
      Rel = λ u v. Replayed body u → Kept u v;
      reflexive = λ v r. Kept-refl v;
      transitive = λ u v w f g r. Kept_trans u v w (f r) (g (r.0, (f r).sent r.0 body r.1));
    }

    -- once a message has been replayed, its receipt may go
    delete-Kept :
        (m : UnprocessableMessageDocument)
        → Memᴰ m start
        → Keeps (keep_after m.message_body) (delete_unprocessable_message m.receipt)
    unfolding delete_unprocessable_message
    delete-Kept m stored = Keeps-call _ (record {
      at = λ w r. record {
        sent = λ t body n. n;
        fewer = λ x n. mongo.unprocessable_messages.mem-delete_one _ _ x n;
        kept = λ f x n. elim (mongo.unprocessable_messages.delete_one-mem _ _ x n) [
          | inl k ↦ inl k
          | inr h ↦
              let same = unique x m (f x n) stored ((eq_iff x.receipt m.receipt).0 h) in
              inr (subst (λ y. Replayed y.message_body w.visible) (sym same) r)
        ];
      };
    })

    after_sending :
        (body : String) (x : GoError) (c d : Client driver (Unit {0}))
        → Keeps keep c
        → Leads (λ a u v. Replayed body v) c
        → Keeps (keep_after body) d
        → Keeps keep (try c (λ e. fail x) (λ t. d))
    unfolding try fail
    after_sending body x c d k l deleted = record {
      at = λ w. split w (c w).0 (c w).1 (k.at w) (l.at w);
    }
      where
        split :
            (w : World mongo) (r : Result GoError (Unit {0})) (v : World mongo)
            → Kept w.visible v.visible
            → ((a : Unit {0}) → r ≡ ok a → Replayed body v.visible)
            → Kept w.visible (resume r (λ t. d) (λ e. fail x) v).1.visible
        split w (ok t) v a replayed = Kept_trans _ _ _ a (deleted.at v (replayed t refl))
        split w (err e) v a replayed = a

    replay_message-Keeps :
        (unmarshal : String → Result GoError EventType) (m : UnprocessableMessageDocument)
        → Memᴰ m start
        → Keeps keep (replay_message unmarshal m)
    unfolding replay_message
    replay_message-Keeps unmarshal m stored =
        Keeps-try _ _ _ (Keeps-lift _) (λ e. Keeps-fail _)
          (λ t.
            after_sending m.message_body _ _ _ (send-Keeps t m.message_body)
              (send-Replayed t m.message_body)
              (Keeps-try _ _ _ (delete-Kept m stored) (λ e. Keeps-fail _) (λ t. Keeps-pure _)))

    replay_messages-Keeps :
        (unmarshal : String → Result GoError EventType) (l : List UnprocessableMessageDocument)
        → ((m : UnprocessableMessageDocument) → Memᴰ m l → Memᴰ m start)
        → Keeps keep (replay_messages unmarshal l)
    unfolding replay_messages
    replay_messages-Keeps unmarshal [] all = Keeps-pure tt
    replay_messages-Keeps unmarshal (m ∷ l) all =
        Keeps-bind _ _ (replay_message-Keeps unmarshal m (all m (Memᴰ.head refl)))
          (λ t. replay_messages-Keeps unmarshal l (λ x n. all x (Memᴰ.tail n)))

  found-Stored :
      Leads
        (λ l u v. (m : UnprocessableMessageDocument) → Memᴰ m l → Memᴰ m (unprocessable u))
        find_unprocessable_messages
  unfolding find_unprocessable_messages
  found-Stored = Leads-weaken (Leads-call (Leads-query _)) (λ l u v r m n.
      mongo.unprocessable_messages.find_all-mem u.db.unprocessable_messages m
        (subst (Memᴰ m) (sym r.1) n))

  module _ (w : World mongo) (unique : UniqueReceipts (unprocessable w.visible)) where
    abbrev start : List UnprocessableMessageDocument
    start = unprocessable w.visible

    found-Keeps : Keeps (keep start unique) find_unprocessable_messages
    unfolding find_unprocessable_messages
    found-Keeps = Keeps-call _ (record { at = λ v. Kept-refl start unique v.visible })

    replay-Kept :
        (unmarshal : String → Result GoError EventType)
        → Kept start unique w.visible (replay_unprocessable_messages unmarshal w).1.visible
    unfolding replay_unprocessable_messages try fail
    replay-Kept unmarshal =
        split (find_unprocessable_messages w).0 (find_unprocessable_messages w).1 (found-Keeps.at w)
          (found-Stored.at w)
      where
        split :
            (r : Result GoError (List UnprocessableMessageDocument)) (v : World mongo)
            → Kept start unique w.visible v.visible
            → ((l : List UnprocessableMessageDocument)
                → r ≡ ok l
                → (m : UnprocessableMessageDocument) → Memᴰ m l
                → Memᴰ m start)
            → Kept start unique w.visible
                (resume r
                  (unless_empty unmarshal)
                  (λ e. fail (text "failed to retrieve unprocessable messages"))
                  v).1.visible
        split (ok []) v a found = a
        split (ok (m ∷ l)) v a found =
            Kept_trans start unique _ _ _ a
              ((replay_messages-Keeps start unique unmarshal (m ∷ l) (found (m ∷ l) refl)).at v)
        split (err e) v a found = a

  -- The replay loses no message, wherever it stops and whatever becomes of its calls: afterwards each
  -- unprocessable message that was stored is stored still, or its body has been sent to one of the queues.
  -- No two stored messages have the same receipt.
  pub replay_unprocessable_messages-Kept :
      (unmarshal : String → Result GoError EventType) (w : World mongo)
      → UniqueReceipts (unprocessable w.visible)
      → (m : UnprocessableMessageDocument) → Memᴰ m (unprocessable w.visible)
      → Memᴰ m (unprocessable (replay_unprocessable_messages unmarshal w).1.visible)
        ⊎ Replayed m.message_body (replay_unprocessable_messages unmarshal w).1.visible
  replay_unprocessable_messages-Kept unmarshal w unique m n =
      (replay-Kept w unique unmarshal).kept (λ x i. i) m n

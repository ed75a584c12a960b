-- ===== src/Payments/Stripe/Deliveries.antt =====
-- The transactions that deliveries of the same checkout session create.
use Prim.Native.String.{String}
use rental_application_nest.Prelude.{
  ℕ, ◌+◌, ◌≡◌, ◌∙◌, refl, Bool, false, not, ◌&&◌, Option, none, some, List, [], ◌∷◌, ◌==◌, any,
  count_if, length, arith, ==_refl, ap, Result, ok,
}
use rental_application_nest.External.Table.{Table, find_first_none}
use rental_application_nest.External.Cache.{Cache}
use rental_application_nest.Payments.Transactions.{
  Transaction, Store, create, find_by_revenue_cat_order_id, opt_eq,
}
use rental_application_nest.Payments.Stripe.{
  Event, EventType, StripeObject, WebhookEvent, State, is_processing, checkout_session_completed,
  transaction_of, log_webhook_event, update_processing_status, create_payment,
  handle_checkout_session_completed, handle_event, process_event, fail_event,
}

module _ {Events Docs Details Lists : Type 0} (log : Table WebhookEvent Events)
    (model : Table Transaction Docs) (detail_cache : Cache ℕ Transaction Details ◌==◌)
    (list_cache : Cache ℕ (List Transaction) Lists ◌==◌) (object_id : Option ℕ → Result ℕ)
    (unset : Option String → Option String) where
  abbrev Db : Type 0
  Db = State Events (Store Docs Details Lists)

  -- The event is delivered once for each new id, and every transaction can be saved.
  unfoldable pub deliver_all : List ℕ → Event → Db → Db
  deliver_all [] event s = s
  deliver_all (new_id ∷ ids) event s =
      deliver_all ids event
        (process_event log model detail_cache list_cache object_id unset new_id (ok tt) event s).1

  abbrev pub is_of_order : ℕ → Transaction → Bool
  is_of_order order_id t = opt_eq t.revenue_cat_order_id order_id && not t.is_deleted

  abbrev pub is_of_session : ℕ → Transaction → Bool
  is_of_session session_id t = opt_eq t.transaction_id session_id && not t.is_deleted

  create_payment-docs :
      (new_id u r : ℕ) (session : StripeObject) (s : Db)
      → object_id session.user_id ≡ ok u
      → object_id session.reference_id ≡ ok r
      → let (answer, s') =
          create_payment log model detail_cache list_cache object_id unset new_id
            (ok tt)
            session
            s in
        (answer ≡ ok tt)
        × (s'.payments.docs ≡ model.create (transaction_of new_id u r session) s.payments.docs)
  unfolding create_payment create
  create_payment-docs new_id u r session s e f = (ground arith, ground arith)

  checkout-docs :
      (new_id u r : ℕ) (event : Event) (s : Db)
      → object_id event.object.user_id ≡ ok u
      → object_id event.object.reference_id ≡ ok r
      → model.find_first (is_of_order event.object.id) s.payments.docs ≡ none
      → (handle_checkout_session_completed log model detail_cache list_cache object_id unset new_id
          (ok tt)
          event
          s).1.payments.docs
        ≡ model.create (transaction_of new_id u r event.object) s.payments.docs
  unfolding handle_checkout_session_completed fail_event update_processing_status
      find_by_revenue_cat_order_id
  checkout-docs new_id u r event s e f fresh =
      let s' =
        update_processing_status log model detail_cache list_cache object_id unset event.id
          is_processing none s in
      ground (arith, create_payment-docs new_id u r event.object s' e f)

  log_webhook_event-payments :
      (event : Event) (s : Db)
      → (log_webhook_event log model detail_cache list_cache object_id unset event s).payments
        ≡ s.payments
  unfolding log_webhook_event
  log_webhook_event-payments event s = ground arith

  handle_event_checkout :
      (type : EventType) (new_id : ℕ) (saved : Result (Unit {0})) (event : Event) (s : Db)
      → type ≡ checkout_session_completed
      → handle_event log model detail_cache list_cache object_id unset new_id saved type event s
        ≡ handle_checkout_session_completed log model detail_cache list_cache object_id unset new_id
            saved event s
  unfolding handle_event
  handle_event_checkout type new_id saved event s h = rw h refl

  process_event_checkout :
      (new_id : ℕ) (saved : Result (Unit {0})) (event : Event) (s : Db)
      → event.type ≡ checkout_session_completed
      → process_event log model detail_cache list_cache object_id unset new_id saved event s
        ≡ handle_checkout_session_completed log model detail_cache list_cache object_id unset new_id
            saved event
            (log_webhook_event log model detail_cache list_cache object_id unset event s)
  unfolding process_event
  process_event_checkout new_id saved event s h =
      handle_event_checkout event.type new_id saved event
        (log_webhook_event log model detail_cache list_cache object_id unset event s) h

  process_event-docs :
      (new_id u r : ℕ) (event : Event) (s : Db)
      → event.type ≡ checkout_session_completed
      → object_id event.object.user_id ≡ ok u
      → object_id event.object.reference_id ≡ ok r
      → model.find_first (is_of_order event.object.id) s.payments.docs ≡ none
      → (process_event log model detail_cache list_cache object_id unset new_id
          (ok tt)
          event
          s).1.payments.docs
        ≡ model.create (transaction_of new_id u r event.object) s.payments.docs
  process_event-docs new_id u r event s h e f fresh =
      let before = log_webhook_event log model detail_cache list_cache object_id unset event s in
      let kept = log_webhook_event-payments event s in
      ap (λ a. a.1.payments.docs) (process_event_checkout new_id (ok tt) event s h)
      ∙ checkout-docs new_id u r event before e f (rw kept fresh)
      ∙ rw kept refl

  -- No order id is ever recorded, so none is found the next time.
  still_fresh :
      (new_id u r : ℕ) (session : StripeObject) (d : Docs)
      → any (is_of_order session.id) (model.rows d) ≡ false
      → any
          (is_of_order session.id)
          (model.rows (model.create (transaction_of new_id u r session) d))
        ≡ false
  still_fresh new_id u r session d h =
      rw (model.rows-create (transaction_of new_id u r session) d) h

  one_more :
      (new_id u r : ℕ) (session : StripeObject) (d : Docs)
      → count_if
          (is_of_session session.id)
          (model.rows (model.create (transaction_of new_id u r session) d))
        ≡ 1 + count_if (is_of_session session.id) (model.rows d)
  one_more new_id u r session d =
      rw (model.rows-create (transaction_of new_id u r session) d, ==_refl session.id) refl

  -- Where no transaction has the session's id as its RevenueCat order id, each delivery of the same
  -- `checkout.session.completed` event stores one more live transaction of the session, when its ids are
  -- well-formed and saving succeeds: the check for an existing transaction never finds one.
  pub count-deliver_all :
      (ids : List ℕ) (u r : ℕ) (event : Event) (s : Db)
      → event.type ≡ checkout_session_completed
      → object_id event.object.user_id ≡ ok u
      → object_id event.object.reference_id ≡ ok r
      → any (is_of_order event.object.id) (model.rows s.payments.docs) ≡ false
      → count_if
          (is_of_session event.object.id)
          (model.rows (deliver_all ids event s).payments.docs)
        ≡ length ids + count_if (is_of_session event.object.id) (model.rows s.payments.docs)
  unfolding deliver_all
  count-deliver_all [] u r event s h e f fresh = omega arith
  count-deliver_all (new_id ∷ ids) u r event s h e f fresh =
      let s' =
        (process_event log model detail_cache list_cache object_id unset new_id (ok tt) event
          s).1 in
      let step =
        process_event-docs new_id u r event s h e f
          (find_first_none model (is_of_order event.object.id) s.payments.docs fresh) in
      let rest =
        count-deliver_all ids u r event s' h e f
          (rw step (still_fresh new_id u r event.object s.payments.docs fresh)) in
      let more = rw (← step) at (one_more new_id u r event.object s.payments.docs) in
      omega (arith, rest, more)

  checkout_known :
      (new_id : ℕ) (saved : Result (Unit {0})) (event : Event) (s : Db) {t : Transaction}
      → find_by_revenue_cat_order_id model detail_cache list_cache event.object.id s.payments
        ≡ some t
      → let (answer, s') =
          handle_checkout_session_completed log model detail_cache list_cache object_id unset new_id
            saved event s in
        (answer ≡ ok tt) × (s'.payments ≡ s.payments)
  unfolding handle_checkout_session_completed update_processing_status
  checkout_known new_id saved event s known = (ground arith, ground arith)

  -- A `checkout.session.completed` event of a session whose id is the RevenueCat order id of a live
  -- transaction answers without an error and changes no transaction and neither cache.
  process_event_known :
      (new_id : ℕ) (saved : Result (Unit {0})) (event : Event) (s : Db) {t : Transaction}
      → event.type ≡ checkout_session_completed
      → find_by_revenue_cat_order_id model detail_cache list_cache event.object.id s.payments
        ≡ some t
      → let (answer, s') =
          process_event log model detail_cache list_cache object_id unset new_id saved event s in
        (answer ≡ ok tt) × (s'.payments ≡ s.payments)
  process_event_known new_id saved event s {t} h known =
      let kept = log_webhook_event-payments event s in
      let before = log_webhook_event log model detail_cache list_cache object_id unset event s in
      let (answered, same) = checkout_known new_id saved event before {t = t} (rw kept known) in
      rw (process_event_checkout new_id saved event s h) (answered, same ∙ kept)

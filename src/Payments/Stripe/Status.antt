-- ===== src/Payments/Stripe/Status.antt =====
-- The event log after a run of `processEvent`.
use Prim.Native.String.{String}
use rental_application_nest.Prelude.{
  ℕ, ◌+◌, ◌≡◌, ◌⊎◌, ◌∙◌, refl, inl, inr, Bool, true, false, Option, none, some, List, if◌then◌else◌,
  ◌==◌, In, In-map, arith, ap, Bool-cases, Result, ok, err, HttpError, message_of, In-map_of_In,
  ==_refl,
}
use rental_application_nest.External.Table.{Table}
use rental_application_nest.External.Cache.{Cache}
use rental_application_nest.Payments.Transactions.{Transaction, Store}
use rental_application_nest.Payments.Stripe.{
  Event, EventType, checkout_session_completed, payment_intent_succeeded, payment_intent_failed,
  payment_intent_canceled, charge_refunded, charge_dispute_created, other_type, ProcessingStatus,
  is_processing, is_completed, is_failed, StripeObject, WebhookEvent, State, with_processing,
  log_webhook_event, update_processing_status, fail_event, create_payment,
  handle_checkout_session_completed, handle_logged_event, handle_event, process_event,
}

abbrev pub is_handled : EventType → Bool
is_handled checkout_session_completed = true
is_handled payment_intent_succeeded = true
is_handled payment_intent_failed = true
is_handled payment_intent_canceled = true
is_handled charge_refunded = true
is_handled charge_dispute_created = true
is_handled (other_type n) = false

abbrev pub status_of : Result (Unit {0}) → ProcessingStatus
status_of (ok a) = is_completed
status_of (err e) = is_failed

abbrev pub error_of : Result (Unit {0}) → Option String
error_of (ok a) = none
error_of (err e) = some (message_of e)

module _ {Events Docs Details Lists : Type 0} (log : Table WebhookEvent Events)
    (model : Table Transaction Docs) (detail_cache : Cache ℕ Transaction Details ◌==◌)
    (list_cache : Cache ℕ (List Transaction) Lists ◌==◌) (object_id : Option ℕ → Result ℕ)
    (unset : Option String → Option String) where
  abbrev Db : Type 0
  Db = State Events (Store Docs Details Lists)

  abbrev pub write : ℕ → ProcessingStatus → Option String → Events → Events
  write id status message es =
      log.update_many (λ r. r.event_id == id) (with_processing unset status message) es

  -- The two writes of a run that answers `answer`.
  abbrev pub settled : Event → Result (Unit {0}) → Events → Events
  settled event answer es =
      write event.id (status_of answer) (error_of answer) (write event.id is_processing none es)

  create_payment-events :
      (new_id : ℕ) (saved : Result (Unit {0})) (session : StripeObject) (s : Db)
      → (create_payment log model detail_cache list_cache object_id unset new_id saved session
          s).1.events
        ≡ s.events
  unfolding create_payment
  create_payment-events new_id saved session s = ground arith

  checkout-settled :
      (new_id : ℕ) (saved : Result (Unit {0})) (event : Event) (s : Db)
      → let (answer, s') =
          handle_checkout_session_completed log model detail_cache list_cache object_id unset new_id
            saved event s in
        s'.events ≡ settled event answer s.events
  unfolding handle_checkout_session_completed fail_event update_processing_status
  checkout-settled new_id saved event s = ground (
    arith,
    create_payment-events new_id saved event.object
        (record s { events = write event.id is_processing none s.events }),
  )

  logged_event-settled :
      (event : Event) (s : Db)
      → let (answer, s') =
          handle_logged_event log model detail_cache list_cache object_id unset event s in
        s'.events ≡ settled event answer s.events
  unfolding handle_logged_event fail_event update_processing_status
  logged_event-settled event s = ground arith

  handle_event-settled :
      (new_id : ℕ) (saved : Result (Unit {0})) (type : EventType) (event : Event) (s : Db)
      → is_handled type ≡ true
      → let (answer, s') =
          handle_event log model detail_cache list_cache object_id unset new_id saved type event
            s in
        s'.events ≡ settled event answer s.events
  unfolding handle_event
  handle_event-settled new_id saved checkout_session_completed event s h =
      checkout-settled new_id saved event s
  handle_event-settled new_id saved payment_intent_succeeded event s h =
      logged_event-settled event s
  handle_event-settled new_id saved payment_intent_failed event s h = logged_event-settled event s
  handle_event-settled new_id saved payment_intent_canceled event s h = logged_event-settled event s
  handle_event-settled new_id saved charge_refunded event s h = logged_event-settled event s
  handle_event-settled new_id saved charge_dispute_created event s h = logged_event-settled event s
  handle_event-settled new_id saved (other_type n) event s h = absurd (ground arith)

  pub process_event-settled :
      (new_id : ℕ) (saved : Result (Unit {0})) (event : Event) (s : Db)
      → is_handled event.type ≡ true
      → let (answer, s') =
          process_event log model detail_cache list_cache object_id unset new_id saved event s in
        s'.events
        ≡ settled event answer
            (log_webhook_event log model detail_cache list_cache object_id unset event s).events
  unfolding process_event
  process_event-settled new_id saved event s h =
      handle_event-settled new_id saved event.type event
        (log_webhook_event log model detail_cache list_cache object_id unset event s) h

  write-In :
      (id : ℕ) (status : ProcessingStatus) (message : Option String) (es : Events)
      (r : WebhookEvent)
      → In r (log.rows (write id status message es))
      → r.event_id ≡ id
      → (x : WebhookEvent) × In x (log.rows es)
        × (x.event_id ≡ id)
        × (r ≡ with_processing unset status message x)
  write-In id status message es r m h =
      let change = with_processing unset status message in
      let (x, i, e) =
        In-map (λ x. if x.event_id == id then change x else x) (log.rows es) r
          (rw (log.rows-update_many (λ r. r.event_id == id) change es) at m) in
      elim (Bool-cases (x.event_id == id)) [
        | inl hit ↦ (x, i, ground arith, e ∙ rw hit)
        | inr miss ↦
            let same : r ≡ x = e ∙ rw miss in absurd (ground (arith, ap (λ y. y.event_id) same))
      ]

  In-write :
      (id : ℕ) (status : ProcessingStatus) (message : Option String) (es : Events)
      (x : WebhookEvent)
      → In x (log.rows es)
      → x.event_id ≡ id
      → In (with_processing unset status message x) (log.rows (write id status message es))
  In-write id status message es x k same =
      let change = with_processing unset status message in
      let hit : (if x.event_id == id then change x else x) ≡ change x =
        rw (same, ==_refl id) refl in
      rw (log.rows-update_many (λ r. r.event_id == id) change es)
        (rw hit at (In-map_of_In (λ x. if x.event_id == id then change x else x) (log.rows es) x k))

  -- A row of the event stays in the log over the two writes.
  pub In-settled :
      (event : Event) (answer : Result (Unit {0})) (es : Events) (x : WebhookEvent)
      → In x (log.rows es)
      → x.event_id ≡ event.id
      → In
          (with_processing unset
            (status_of answer)
            (error_of answer)
            (with_processing unset is_processing none x))
          (log.rows (settled event answer es))
  In-settled event answer es x k same =
      In-write event.id (status_of answer) (error_of answer) (write event.id is_processing none es)
        (with_processing unset is_processing none x)
        (In-write event.id is_processing none es x k same) same

  -- A row of the event after the two writes.
  pub settled-In :
      (event : Event) (answer : Result (Unit {0})) (es : Events) (r : WebhookEvent)
      → In r (log.rows (settled event answer es))
      → r.event_id ≡ event.id
      → (x : WebhookEvent) × In x (log.rows es)
        × (x.event_id ≡ event.id)
        × (r
            ≡ with_processing unset
                (status_of answer)
                (error_of answer)
                (with_processing unset is_processing none x))
  settled-In event answer es r m h =
      let (y, k, same_y, e) =
        write-In event.id (status_of answer) (error_of answer)
          (write event.id is_processing none es) r m h in
      let (x, i, same_x, d) = write-In event.id is_processing none es y k same_y in
      (x, i, same_x, e ∙ ap (with_processing unset (status_of answer) (error_of answer)) d)

  -- A run of `processEvent` on an event of a handled type leaves every row of the event `completed`
  -- where the run returns, and `failed` with the error's message where it throws, never `processing`;
  -- the row's number of attempts is two more than that of a row of the event once it was logged.
  pub process_event-status :
      (new_id : ℕ) (saved : Result (Unit {0})) (event : Event) (s : Db) (r : WebhookEvent)
      → is_handled event.type ≡ true
      → let (answer, s') =
          process_event log model detail_cache list_cache object_id unset new_id saved event s in
        let before = log_webhook_event log model detail_cache list_cache object_id unset event s in
        In r (log.rows s'.events)
        → r.event_id ≡ event.id
        → ((answer ≡ ok tt) × (r.processing_status ≡ is_completed)
            ⊎ ((e : HttpError) × (answer ≡ err e)
                × (r.processing_status ≡ is_failed)
                × (r.error_message ≡ some (message_of e))))
          × ((x : WebhookEvent) × In x (log.rows before.events)
              × (x.event_id ≡ event.id)
              × (r.attempts ≡ x.attempts + 2))
  process_event-status new_id saved event s r h m same =
      let answer =
        (process_event log model detail_cache list_cache object_id unset new_id saved event s).0 in
      let before = log_webhook_event log model detail_cache list_cache object_id unset event s in
      let (x, i, same_x, e) =
        settled-In event answer before.events r
          (rw (process_event-settled new_id saved event s h) at m) same in
      (by_answer answer x r e, (x, i, same_x, omega (arith, ap (λ y. y.attempts) e)))
    where
      by_answer :
          (answer : Result (Unit {0})) (x r : WebhookEvent)
          → r
            ≡ with_processing unset
                (status_of answer)
                (error_of answer)
                (with_processing unset is_processing none x)
          → (answer ≡ ok tt) × (r.processing_status ≡ is_completed)
            ⊎ ((e : HttpError) × (answer ≡ err e)
                × (r.processing_status ≡ is_failed)
                × (r.error_message ≡ some (message_of e)))
      by_answer (ok a) x r e = inl (refl, ap (λ y. y.processing_status) e)
      by_answer (err f) x r e =
          inr (f, refl, ap (λ y. y.processing_status) e, ap (λ y. y.error_message) e)

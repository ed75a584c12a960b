-- ===== src/Payments/Stripe/Retries.antt =====
-- How often an event that fails is handed out for a retry.
use Prim.Native.String.{String}
use rental_application_nest.Prelude.{
  ℕ, ◌≤◌, ◌≡◌, ◌⊎◌, ◌∙◌, inl, inr, true, Option, none, some, List, ◌∷◌, ◌==◌, In, In-take,
  In-filter, any-In, arith, ap, Option-cases, Result, ok, err, refl, HttpError,
}
use rental_application_nest.External.Table.{Table}
use rental_application_nest.External.Cache.{Cache}
use rental_application_nest.Payments.Transactions.{Transaction, Store}
use rental_application_nest.Payments.Stripe.{
  Event, is_processing, is_failed, WebhookEvent, State, logged, is_retriable, with_processing,
  log_webhook_event, process_event, get_event_by_id, get_failed_events, retry_failed_event,
}
use rental_application_nest.Payments.Stripe.Status.{
  is_handled, status_of, error_of, process_event-settled, settled-In, In-settled,
}

module _ {Events Docs Details Lists : Type 0} (log : Table WebhookEvent Events)
    (model : Table Transaction Docs) (detail_cache : Cache ℕ Transaction Details ◌==◌)
    (list_cache : Cache ℕ (List Transaction) Lists ◌==◌) (object_id : Option ℕ → Result ℕ)
    (unset : Option String → Option String) where
  abbrev Db : Type 0
  Db = State Events (Store Docs Details Lists)

  logged_when_new :
      (event : Event) (s : Db)
      → log.find_first (λ r. r.event_id == event.id) s.events ≡ none
      → (log_webhook_event log model detail_cache list_cache object_id unset event s).events
        ≡ log.create (logged event) s.events
  unfolding log_webhook_event
  logged_when_new event s fresh = rw fresh

  logged_when_old :
      (event : Event) (s : Db) {x : WebhookEvent}
      → log.find_first (λ r. r.event_id == event.id) s.events ≡ some x
      → log_webhook_event log model detail_cache list_cache object_id unset event s ≡ s
  unfolding log_webhook_event
  logged_when_old event s found = rw found

  -- The row of an event, after the first run on it.
  first_run :
      (new_id : ℕ) (saved : Result (Unit {0})) (event : Event) (s : Db) (r : WebhookEvent)
      → is_handled event.type ≡ true
      → log.find_first (λ r. r.event_id == event.id) s.events ≡ none
      → let (answer, s') =
          process_event log model detail_cache list_cache object_id unset new_id saved event s in
        In r (log.rows s'.events)
        → r.event_id ≡ event.id
        → r
          ≡ with_processing unset
              (status_of answer)
              (error_of answer)
              (with_processing unset is_processing none (logged event))
  first_run new_id saved event s r h fresh m same =
      let answer =
        (process_event log model detail_cache list_cache object_id unset new_id saved event s).0 in
      let before = log_webhook_event log model detail_cache list_cache object_id unset event s in
      let (x, i, same_x, e) =
        settled-In log model detail_cache list_cache object_id unset event answer before.events r
          (rw
            (process_event-settled log model detail_cache list_cache object_id unset new_id saved
              event s h)
            at m)
          same in
      e
      ∙ ap
          (λ y.
            with_processing unset (status_of answer) (error_of answer)
              (with_processing unset is_processing none y))
          (newest x same_x
            (rw (logged_when_new event s fresh, log.rows-create (logged event) s.events) at i))
    where
      newest :
          (x : WebhookEvent)
          → x.event_id ≡ event.id
          → In x (logged event ∷ log.rows s.events)
          → x ≡ logged event
      newest x same_x (inl e) = e
      newest x same_x (inr k) = absurd (
          ground (
            arith,
            any-In (λ r. r.event_id == event.id) (log.rows s.events) x k,
            log.find_first-none (λ r. r.event_id == event.id) s.events fresh,
          ))

  second_run :
      (new_id : ℕ) (saved : Result (Unit {0})) (event : Event) (s : Db) (r : WebhookEvent)
      {x : WebhookEvent}
      → is_handled event.type ≡ true
      → log.find_first (λ r. r.event_id == event.id) s.events ≡ some x
      → ((y : WebhookEvent) → In y (log.rows s.events) → y.event_id ≡ event.id → 2 ≤ y.attempts)
      → In r (
          log.rows
            (process_event log model detail_cache list_cache object_id unset new_id saved event
              s).1.events)
      → r.event_id ≡ event.id
      → 4 ≤ r.attempts
  second_run new_id saved event s r h found two m same =
      let answer =
        (process_event log model detail_cache list_cache object_id unset new_id saved event s).0 in
      let (x, i, same_x, e) =
        settled-In log model detail_cache list_cache object_id unset event answer s.events r
          (rw
            (
              process_event-settled log model detail_cache list_cache object_id unset new_id saved
                  event s h,
              logged_when_old event s found,
            )
            at m)
          same in
      omega (arith, ap (λ y. y.attempts) e, two x i same_x)

  retry_parts :
      (new_id event_id : ℕ) (saved : Result (Unit {0})) (s : Db)
      → let s' =
          (retry_failed_event log model detail_cache list_cache object_id unset new_id saved
            event_id s).1 in
        ((log.find_first (λ r. r.event_id == event_id) s.events ≡ none) × (s' ≡ s))
        ⊎ ((x : WebhookEvent) × (log.find_first (λ r. r.event_id == event_id) s.events ≡ some x)
            × (s'
                ≡ (process_event log model detail_cache list_cache object_id unset new_id saved
                    x.event_data s).1))
  unfolding retry_failed_event get_event_by_id
  retry_parts new_id event_id saved s =
      elim (Option-cases (log.find_first (λ r. r.event_id == event_id) s.events)) [
        | inl gone ↦ inl (gone, ground arith)
        | inr (x, found) ↦ inr (x, found, ground arith)
      ]

  retried_attempts :
      (new_id next_id : ℕ) (saved saved' : Result (Unit {0})) (event : Event) (s : Db)
      (r : WebhookEvent)
      → is_handled event.type ≡ true
      → log.find_first (λ r. r.event_id == event.id) s.events ≡ none
      → let once =
          (process_event log model detail_cache list_cache object_id unset new_id saved event
            s).1 in
        let twice =
          (retry_failed_event log model detail_cache list_cache object_id unset next_id saved'
            event.id once).1 in
        In r (log.rows twice.events) → r.event_id ≡ event.id → 4 ≤ r.attempts
  retried_attempts new_id next_id saved saved' event s r h fresh m same =
      let once =
        (process_event log model detail_cache list_cache object_id unset new_id saved event s).1 in
      elim (retry_parts next_id event.id saved' once) [
        | inl (gone, kept) ↦ absurd (
            ground (
              arith,
              any-In (λ r. r.event_id == event.id) (log.rows once.events) r (rw kept at m),
              log.find_first-none (λ r. r.event_id == event.id) once.events gone,
            ))
        | inr (x, found, e) ↦
            let (hit, i) = log.find_first-some (λ r. r.event_id == event.id) once.events found in
            let of_event : x.event_data ≡ event =
              ap (λ y. y.event_data) (first_run new_id saved event s x h fresh i (ground arith)) in
            second_run next_id saved' event once r h found
              (λ y k same_y.
                ground
                  (arith, ap (λ z. z.attempts) (first_run new_id saved event s y h fresh k same_y)))
              (rw (e, of_event) at m) same
      ]

  -- The event is in the log after its first run.
  first_run-In :
      (new_id : ℕ) (saved : Result (Unit {0})) (event : Event) (s : Db)
      → is_handled event.type ≡ true
      → log.find_first (λ r. r.event_id == event.id) s.events ≡ none
      → let (answer, s') =
          process_event log model detail_cache list_cache object_id unset new_id saved event s in
        In
          (with_processing unset
            (status_of answer)
            (error_of answer)
            (with_processing unset is_processing none (logged event)))
          (log.rows s'.events)
  first_run-In new_id saved event s h fresh =
      let answer =
        (process_event log model detail_cache list_cache object_id unset new_id saved event s).0 in
      let before = log_webhook_event log model detail_cache list_cache object_id unset event s in
      rw
        (process_event-settled log model detail_cache list_cache object_id unset new_id saved event
          s h)
        (In-settled log model detail_cache list_cache object_id unset event answer before.events
          (logged event)
          (rw (logged_when_new event s fresh, log.rows-create (logged event) s.events) (inl refl))
          refl)

  -- An event of a handled type that the log does not hold yet, and whose first run throws, is in the
  -- log afterwards, in a row with two attempts that passes the test for a retry; after one
  -- `retryFailedEvent`, whatever it answers, `getFailedEvents` returns no row of the event, although its
  -- filter says "Retry up to 3 times".
  pub retried_once :
      (newest_first : List WebhookEvent → List WebhookEvent) (limit new_id next_id : ℕ)
      (saved saved' : Result (Unit {0})) (event : Event) (s : Db) (r : WebhookEvent) {e : HttpError}
      → ((xs : List WebhookEvent) (x : WebhookEvent) → In x (newest_first xs) → In x xs)
      → is_handled event.type ≡ true
      → log.find_first (λ r. r.event_id == event.id) s.events ≡ none
      → let (answer, once) =
          process_event log model detail_cache list_cache object_id unset new_id saved event s in
        let twice =
          (retry_failed_event log model detail_cache list_cache object_id unset next_id saved'
            event.id once).1 in
        answer ≡ err e
        → r.event_id ≡ event.id
        → ((x : WebhookEvent) × In x (log.rows once.events)
            × (x.event_id ≡ event.id)
            × (x.attempts ≡ 2)
            × (is_retriable x ≡ true))
          × ¬ In r (
              get_failed_events log model detail_cache list_cache object_id unset newest_first limit
                twice)
  unfolding get_failed_events
  retried_once newest_first limit new_id next_id saved saved' event s r {e} sorts h fresh failed
        same =
      let (answer, once) =
        process_event log model detail_cache list_cache object_id unset new_id saved event s in
      let twice =
        (retry_failed_event log model detail_cache list_cache object_id unset next_id saved'
          event.id once).1 in
      (
        retriable answer failed (log.rows once.events) (first_run-In new_id saved event s h fresh),
        λ m.
            let (i, retriable) = In-filter is_retriable (log.rows twice.events) r (
              rw (log.find_many-rows is_retriable twice.events) at
                (sorts _ r (In-take limit _ r m))) in
            ground (arith, retried_attempts new_id next_id saved saved' event s r h fresh i same),
      )
    where
      retriable :
          (answer : Result (Unit {0}))
          → answer ≡ err e
          → (rows : List WebhookEvent)
          → In
              (with_processing unset
                (status_of answer)
                (error_of answer)
                (with_processing unset is_processing none (logged event)))
              rows
          → (x : WebhookEvent) × In x rows
            × (x.event_id ≡ event.id)
            × (x.attempts ≡ 2)
            × (is_retriable x ≡ true)
      retriable (err f) failed rows k = (
        with_processing unset is_failed (error_of (err f))
            (with_processing unset is_processing none (logged event)),
        k,
        refl,
        refl,
        refl,
      )
      retriable (ok u) failed rows k = absurd (ground arith)

-- ===== src/Payments/RevenueCat/Shared.antt =====
-- Events of the same name share one row of the log.
use Prim.Native.String.{String}
use rental_application_nest.Prelude.{
  ℕ, suc, ◌+◌, ◌*◌, ◌≡◌, sym, inl, inr, ap, Bool, true, false, Option, none, List, [], ◌∷◌, ◌==◌,
  any, any-In, any-count_if, length, In, arith, ==_refl, Option-cases, Result,
}
use mathlib.Core.Path.{subst}
use rental_application_nest.External.Table.{Table, find_first_none}
use rental_application_nest.External.Cache.{Cache}
use rental_application_nest.Payments.Transactions.{Transaction, Store}
use rental_application_nest.Payments.Stripe.{ProcessingStatus, is_processing}
use rental_application_nest.Payments.Stripe.Status.{status_of, error_of}
use rental_application_nest.Payments.RevenueCat.{
  EventName, initial_purchase, renewal, cancellation, expiration, refund, billing_issue,
  subscription, other_name, name_code, PurchaseEvent, PurchaseLog, State, logged, has_name,
  with_processing, log_webhook_event, update_processing_status, fail_event, handle_initial_purchase,
  handle_logged_event, handle_event, process_event,
}
use rental_application_nest.Payments.RevenueCat.Rows.{IsOnly, change-IsOnly}

abbrev pub is_handled : EventName → Bool
is_handled initial_purchase = true
is_handled renewal = true
is_handled cancellation = true
is_handled expiration = true
is_handled refund = true
is_handled billing_issue = true
is_handled subscription = true
is_handled (other_name n) = false

module _ {Events Docs Details Lists : Type 0} (log : Table PurchaseLog Events)
    (model : Table Transaction Docs) (detail_cache : Cache ℕ Transaction Details ◌==◌)
    (list_cache : Cache ℕ (List Transaction) Lists ◌==◌)
    (unset : Option String → Option String) where
  abbrev Db : Type 0
  Db = State Events (Store Docs Details Lists)

  abbrev write : EventName → ProcessingStatus → Option String → Events → Events
  write name status message es =
      log.update_many (has_name name) (with_processing unset status message) es

  abbrev settled : PurchaseEvent → Result (Unit {0}) → Events → Events
  settled event answer es =
      write event.event_id (status_of answer) (error_of answer)
        (write event.event_id is_processing none es)

  initial_purchase-settled :
      (event : PurchaseEvent) (s : Db)
      → let (answer, s') =
          handle_initial_purchase log model detail_cache list_cache unset event s in
        s'.events ≡ settled event answer s.events
  unfolding handle_initial_purchase fail_event update_processing_status
  initial_purchase-settled event s = ground arith

  logged_event-settled :
      (event : PurchaseEvent) (s : Db)
      → let (answer, s') = handle_logged_event log model detail_cache list_cache unset event s in
        s'.events ≡ settled event answer s.events
  unfolding handle_logged_event fail_event update_processing_status
  logged_event-settled event s = ground arith

  handle_event-settled :
      (name : EventName) (event : PurchaseEvent) (s : Db)
      → is_handled name ≡ true
      → let (answer, s') = handle_event log model detail_cache list_cache unset name event s in
        s'.events ≡ settled event answer s.events
  unfolding handle_event
  handle_event-settled initial_purchase event s h = initial_purchase-settled event s
  handle_event-settled renewal event s h = logged_event-settled event s
  handle_event-settled cancellation event s h = logged_event-settled event s
  handle_event-settled expiration event s h = logged_event-settled event s
  handle_event-settled refund event s h = logged_event-settled event s
  handle_event-settled billing_issue event s h = logged_event-settled event s
  handle_event-settled subscription event s h = logged_event-settled event s
  handle_event-settled (other_name n) event s h = absurd (ground arith)

  process_event-settled :
      (event : PurchaseEvent) (s : Db)
      → is_handled event.event_id ≡ true
      → let (answer, s') = process_event log model detail_cache list_cache unset event s in
        s'.events
        ≡ settled event answer
            (log_webhook_event log model detail_cache list_cache unset event s).events
  unfolding process_event
  process_event-settled event s h =
      handle_event-settled event.event_id event
        (log_webhook_event log model detail_cache list_cache unset event s) h

  settled-IsOnly :
      (event first : PurchaseEvent) (answer : Result (Unit {0})) (n : ℕ) (es : Events)
      → IsOnly event.event_id first n (log.rows es)
      → IsOnly event.event_id first (n + 1 + 1) (log.rows (settled event answer es))
  settled-IsOnly event first answer n es only =
      rw
        (
          log.rows-update_many (has_name event.event_id)
              (with_processing unset (status_of answer) (error_of answer))
              (write event.event_id is_processing none es),
          log.rows-update_many (has_name event.event_id) (with_processing unset is_processing none)
              es,
        )
        (change-IsOnly unset (status_of answer) (error_of answer) event.event_id first (n + 1) _
          (change-IsOnly unset is_processing none event.event_id first n (log.rows es) only))

  -- The row that was just created, where there was none.
  logged-IsOnly :
      (event : PurchaseEvent) (s : Db)
      → any (has_name event.event_id) (log.rows s.events) ≡ false
      → IsOnly event.event_id event 0
          (log.rows (log_webhook_event log model detail_cache list_cache unset event s).events)
  unfolding log_webhook_event
  logged-IsOnly event s nobody =
      rw
        (
          find_first_none log (has_name event.event_id) s.events nobody,
          log.rows-create (logged event) s.events,
        )
        (
          ground (
            arith,
            any-count_if (has_name event.event_id) (log.rows s.events) nobody,
            ==_refl (name_code event.event_id),
          ),
          newest,
        )
    where
      newest :
          (r : PurchaseLog)
          → In r (logged event ∷ log.rows s.events)
          → has_name event.event_id r ≡ true
          → (r.event_data ≡ event) × (r.attempts ≡ 0)
      newest r (inl e) h = (ap (λ y. y.event_data) e, ap (λ y. y.attempts) e)
      newest r (inr k) h =
          absurd (cc (any-In (has_name event.event_id) (log.rows s.events) r k h, nobody))

  -- A later event of the name adds no row.
  kept-IsOnly :
      (event first : PurchaseEvent) (n : ℕ) (s : Db)
      → IsOnly event.event_id first n (log.rows s.events)
      → (log_webhook_event log model detail_cache list_cache unset event s).events ≡ s.events
  unfolding log_webhook_event
  kept-IsOnly event first n s only =
      elim (Option-cases (log.find_first (has_name event.event_id) s.events)) [
        | inl gone ↦ absurd (
            ground (
              arith,
              any-count_if (has_name event.event_id) (log.rows s.events)
                  (log.find_first-none (has_name event.event_id) s.events gone),
              only.0,
            ))
        | inr (x, found) ↦ ground arith
      ]

  process_event-IsOnly :
      (event first : PurchaseEvent) (n : ℕ) (s : Db)
      → is_handled event.event_id ≡ true
      → IsOnly event.event_id first n (log.rows s.events)
      → IsOnly event.event_id first
          (n + 1 + 1)
          (log.rows (process_event log model detail_cache list_cache unset event s).1.events)
  process_event-IsOnly event first n s h only =
      rw (process_event-settled event s h, kept-IsOnly event first n s only)
        (settled-IsOnly event first
          (process_event log model detail_cache list_cache unset event s).0 n s.events only)

  process_event-named :
      (name : EventName) (event first : PurchaseEvent) (n : ℕ) (s : Db)
      → event.event_id ≡ name
      → is_handled name ≡ true
      → IsOnly name first n (log.rows s.events)
      → IsOnly name first
          (n + 1 + 1)
          (log.rows (process_event log model detail_cache list_cache unset event s).1.events)
  process_event-named name event first n s named h only =
      let after =
        log.rows (process_event log model detail_cache list_cache unset event s).1.events in
      subst (λ x. IsOnly x first (n + 1 + 1) after) named
        (process_event-IsOnly event first n s (subst (λ x. is_handled x ≡ true) (sym named) h)
          (subst (λ x. IsOnly x first n (log.rows s.events)) (sym named) only))

  unfoldable pub process_all : List PurchaseEvent → Db → Db
  process_all [] s = s
  process_all (e ∷ es) s =
      process_all es (process_event log model detail_cache list_cache unset e s).1

  abbrev pub AllNamed : EventName → List PurchaseEvent → Type 0
  AllNamed name [] = Unit {0}
  AllNamed name (e ∷ es) = (e.event_id ≡ name) × AllNamed name es

  process_all-IsOnly :
      (name : EventName) (es : List PurchaseEvent) (first : PurchaseEvent) (n : ℕ) (s : Db)
      → is_handled name ≡ true
      → AllNamed name es
      → IsOnly name first n (log.rows s.events)
      → IsOnly name first (n + 2 * length es) (log.rows (process_all es s).events)
  unfolding process_all
  process_all-IsOnly name [] first n s h a only = let e : n + 2 * 0 ≡ n = omega arith in rw e only
  process_all-IsOnly name (e ∷ es) first n s h a only =
      let count : n + 2 * suc (length es) ≡ n + 1 + 1 + 2 * length es = omega arith in
      rw count (
        process_all-IsOnly name es first (n + 1 + 1)
          (process_event log model detail_cache list_cache unset e s).1 h a.1
          (process_event-named name e first n s a.0 h only))

  -- Deliveries of events with the same `event_id`, such as the renewals of different users, share
  -- one row of the log: where the log has no row of this name, any events of a handled name leave
  -- exactly one, which keeps the first event's data and counts two attempts for every event.
  pub process_all-shared :
      (first : PurchaseEvent) (es : List PurchaseEvent) (s : Db)
      → is_handled first.event_id ≡ true
      → AllNamed first.event_id es
      → any (has_name first.event_id) (log.rows s.events) ≡ false
      → IsOnly first.event_id first
          (2 + 2 * length es)
          (log.rows (process_all (first ∷ es) s).events)
  unfolding process_all
  process_all-shared first es s h a nobody =
      let answer = (process_event log model detail_cache list_cache unset first s).0 in
      process_all-IsOnly first.event_id es first 2
        (process_event log model detail_cache list_cache unset first s).1 h a
        (rw (process_event-settled first s h)
          (settled-IsOnly first first answer 0 _ (logged-IsOnly first s nobody)))

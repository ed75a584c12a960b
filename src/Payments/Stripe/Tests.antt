-- ===== src/Payments/Stripe/Tests.antt =====
-- Runs of the webhook in memory.
use Prim.Native.String.{String}
use rental_application_nest.Prelude.{
  ℕ, zero, suc, ◌+◌, ◌≡◌, ◌⊎◌, refl, inl, true, Option, none, some, List, [], ◌∷◌, Result, ok, err,
  HttpError, internal, message_of, In, count_if, ◌==◌,
}
use rental_application_nest.External.Memory.{memory_cache, Expiring}
use rental_application_nest.External.Memory.Tables.{memory_table}
use rental_application_nest.Payments.Transactions.{Transaction, Store, find_by_revenue_cat_order_id}
use rental_application_nest.Payments.Stripe.{
  Event, StripeObject, WebhookEvent, State, checkout_session_completed, is_completed, is_failed,
  is_retriable, logged, log_webhook_event, update_processing_status, fail_event, create_payment,
  handle_checkout_session_completed, handle_event, process_event, get_failed_events,
  retry_failed_event,
}
use rental_application_nest.Payments.Stripe.Status.{process_event-status}
use rental_application_nest.Payments.Stripe.Retries.{retried_once}
use rental_application_nest.Payments.Stripe.Deliveries.{
  deliver_all, is_of_session, count-deliver_all,
}

abbrev Memory : Type 0
Memory =
    State (List WebhookEvent)
      (Store (List Transaction) (ℕ → Expiring Transaction) (ℕ → Expiring (List Transaction)))

abbrev object_id : Option ℕ → Result ℕ
object_id none = ok 99
object_id (some zero) = err (internal "input must be a 24 character hex string")
object_id (some (suc n)) = ok (suc n)

abbrev kept : Option String → Option String
kept old = old

abbrev session : StripeObject
session = record {
  id = 40;
  payment_intent = some 41;
  customer = none;
  amount = none;
  amount_total = some 90000;
  currency = some (b'u' ∷ b's' ∷ b'd' ∷ []);
  user_id = some 7;
  reference_id = some 12;
  reference_type = some 1;
  body = [];
}

abbrev checkout : Event
checkout = record { id = 50; type = checkout_session_completed; account = none; object = session }

abbrev empty : Memory
empty = record {
  events = [];
  payments = record { docs = []; details = λ k. none; lists = λ k. none };
}

abbrev refused : HttpError
refused = internal "E11000 duplicate key error"

-- The row of the event after a run, and the state after a run that failed.
abbrev row : WebhookEvent
row = record (logged checkout) {
  processing_status = is_failed;
  error_message = some "E11000 duplicate key error";
  attempts = 2;
}

abbrev once : Memory
once =
    (process_event memory_table memory_table (memory_cache ◌==◌) (memory_cache ◌==◌) object_id kept
      60 (err refused) checkout empty).1

process_event-status_example :
    let answer =
      (process_event memory_table memory_table
        (memory_cache ◌==◌)
        (memory_cache ◌==◌)
        object_id
        kept
        60
        (err refused)
        checkout
        empty).0 in
    let before =
      log_webhook_event memory_table memory_table
        (memory_cache ◌==◌)
        (memory_cache ◌==◌)
        object_id
        kept
        checkout
        empty in
    ((answer ≡ ok tt) × (row.processing_status ≡ is_completed)
      ⊎ ((e : HttpError) × (answer ≡ err e)
          × (row.processing_status ≡ is_failed)
          × (row.error_message ≡ some (message_of e))))
    × ((x : WebhookEvent) × In x before.events
        × (x.event_id ≡ 50)
        × (row.attempts ≡ x.attempts + 2))
unfolding process_event handle_event handle_checkout_session_completed create_payment fail_event
    update_processing_status log_webhook_event find_by_revenue_cat_order_id
process_event-status_example =
    process_event-status memory_table memory_table (memory_cache ◌==◌) (memory_cache ◌==◌) object_id
      kept 60 (err refused) checkout empty row refl (inl refl) refl

abbrev twice : Memory
twice =
    (retry_failed_event memory_table memory_table (memory_cache ◌==◌) (memory_cache ◌==◌) object_id
      kept 61 (err refused) 50 once).1

retried_once_example :
    ((x : WebhookEvent) × In x once.events
      × (x.event_id ≡ 50)
      × (x.attempts ≡ 2)
      × (is_retriable x ≡ true))
    × ¬ In row (
        get_failed_events memory_table memory_table
          (memory_cache ◌==◌)
          (memory_cache ◌==◌)
          object_id
          kept
          (λ xs. xs)
          10
          twice)
unfolding process_event handle_event handle_checkout_session_completed create_payment fail_event
    update_processing_status log_webhook_event find_by_revenue_cat_order_id
retried_once_example =
    retried_once memory_table memory_table (memory_cache ◌==◌) (memory_cache ◌==◌) object_id kept
      (λ xs. xs) 10 60 61 (err refused) (err refused) checkout empty row (λ xs x m. m) refl refl
      refl refl

abbrev deliveries : List ℕ
deliveries = 60 ∷ 61 ∷ 62 ∷ []

count-deliver_all_example :
    count_if
      (is_of_session memory_table memory_table
        (memory_cache ◌==◌)
        (memory_cache ◌==◌)
        object_id
        kept
        40)
      (deliver_all memory_table memory_table
        (memory_cache ◌==◌)
        (memory_cache ◌==◌)
        object_id
        kept
        deliveries
        checkout
        empty).payments.docs
    ≡ 3 + 0
count-deliver_all_example =
    count-deliver_all memory_table memory_table (memory_cache ◌==◌) (memory_cache ◌==◌) object_id
      kept deliveries 7 12 checkout empty refl refl refl refl

-- ===== src/Payments/RevenueCat.antt =====
-- src/features/payment.module/revenueCatWebhook/services/revenueCatWebhook.service.ts: the log of
-- webhook events and the handlers, which only write to the log. Writes to the log succeed.
pub mod Rows
pub mod Shared
mod Tests
use Prim.Native.String.{String}
use rental_application_nest.Prelude.{
  ℕ, ◌+◌, ◌≡◌, Bool, true, false, ◌&&◌, Option, none, some, List, ◌∷◌, if◌then◌else◌, ◌==◌, ltb,
  is_some, take, Result, ok, err, HttpError, internal, Action, pure, throw, gets, modify, catching,
  message_of, ◌>>=◌, ◌>>◌,
}
use rental_application_nest.External.Table.{Table}
use rental_application_nest.External.Cache.{Cache}
use rental_application_nest.Payments.Transactions.{Transaction, Store, find_by_revenue_cat_order_id}
use rental_application_nest.Payments.Stripe.{
  ProcessingStatus, is_pending, is_processing, is_completed, is_failed, is_failed_status,
  message_after,
}

-- `event.event_id`, which the switch compares with the names of the types.
pub data EventName : Type 0 where
  initial_purchase renewal cancellation expiration refund billing_issue subscription : EventName
  other_name : ℕ → EventName

abbrev pub name_code : EventName → ℕ
name_code initial_purchase = 0
name_code renewal = 1
name_code cancellation = 2
name_code expiration = 3
name_code refund = 4
name_code billing_issue = 5
name_code subscription = 6
name_code (other_name n) = 7 + n

-- The fields that are read, of events with an `event_id`, so that the row's `event.event_id || event.id`
-- is the former; `subscriber` is the user id of the subscriber object, if there is one.
pub record PurchaseEvent : Type 0 where
  pub event_id : EventName
  pub id : ℕ
  pub app_id : Option ℕ
  pub subscriber : Option ℕ
  pub product_id : Option ℕ
  pub environment : Option ℕ

pub record PurchaseLog : Type 0 where
  pub event_id : EventName
  pub event_type : EventName
  pub app_id : Option ℕ
  pub user_id : Option ℕ
  pub product_id : Option ℕ
  pub environment : Option ℕ
  pub event_data : PurchaseEvent
  pub processing_status : ProcessingStatus
  pub error_message : Option String
  pub attempts : ℕ

-- The row that `logWebhookEvent` creates: its unique `eventId` is the event's name.
abbrev pub logged : PurchaseEvent → PurchaseLog
logged event = record {
  event_id = event.event_id;
  event_type = event.event_id;
  app_id = event.app_id;
  user_id = event.subscriber;
  product_id = event.product_id;
  environment = event.environment;
  event_data = event;
  processing_status = is_pending;
  error_message = none;
  attempts = 0;
}

abbrev pub has_name : EventName → PurchaseLog → Bool
has_name name r = name_code r.event_id == name_code name

abbrev pub with_processing :
    (Option String → Option String) → ProcessingStatus → Option String → PurchaseLog → PurchaseLog
with_processing unset status message r = record r {
  processing_status = status;
  error_message = message_after unset message r.error_message;
  attempts = r.attempts + 1;
}

abbrev pub no_subscriber : HttpError
no_subscriber = internal "Cannot read properties of undefined (reading 'original_app_user_id')"

pub record State (Events Payments : Type 0) : Type 0 where
  pub events : Events
  pub payments : Payments

module _ {Events Docs Details Lists : Type 0} (log : Table PurchaseLog Events)
    (model : Table Transaction Docs) (detail_cache : Cache ℕ Transaction Details ◌==◌)
    (list_cache : Cache ℕ (List Transaction) Lists ◌==◌)
    (unset : Option String → Option String) where
  abbrev pub Db : Type 0
  Db = State Events (Store Docs Details Lists)

  unfoldable pub log_webhook_event : PurchaseEvent → Db → Db
  log_webhook_event event s =
      if is_some (log.find_first (has_name event.event_id) s.events)
      then s
      else record s { events = log.create (logged event) s.events }

  unfoldable pub update_processing_status : EventName → ProcessingStatus → Option String → Db → Db
  update_processing_status name status message s = record s {
    events = log.update_many (has_name name) (with_processing unset status message) s.events;
  }

  unfoldable pub fail_event : PurchaseEvent → HttpError → Action Db (Unit {0})
  unfolding update_processing_status
  fail_event event e = do
    modify (update_processing_status event.event_id is_failed (some (message_of e)))
    throw e

  -- `const { subscriber } = event; subscriber.original_app_user_id`
  abbrev pub read_subscriber : PurchaseEvent → Result ℕ
  read_subscriber event = elim event.subscriber [ none ↦ err no_subscriber | some user ↦ ok user ]

  -- Whether a transaction of the order exists or not, the event is completed.
  unfoldable pub handle_initial_purchase : PurchaseEvent → Action Db (Unit {0})
  unfolding update_processing_status
  handle_initial_purchase event =
      catching
        (do
          modify (update_processing_status event.event_id is_processing none)
          user ← λ s. (read_subscriber event, s)
          existing ←
              gets (λ s.
                find_by_revenue_cat_order_id model detail_cache list_cache event.id s.payments)
          modify (update_processing_status event.event_id is_completed none))
        (fail_event event)

  -- `handleRenewal`, `handleCancellation`, `handleExpiration`, `handleRefund`, `handleBillingIssue` and
  -- `handleSubscription`
  unfoldable pub handle_logged_event : PurchaseEvent → Action Db (Unit {0})
  unfolding update_processing_status
  handle_logged_event event =
      catching
        (do
          modify (update_processing_status event.event_id is_processing none)
          user ← λ s. (read_subscriber event, s)
          modify (update_processing_status event.event_id is_completed none))
        (fail_event event)

  unfoldable pub handle_event : EventName → PurchaseEvent → Action Db (Unit {0})
  handle_event initial_purchase event = handle_initial_purchase event
  handle_event renewal event = handle_logged_event event
  handle_event cancellation event = handle_logged_event event
  handle_event expiration event = handle_logged_event event
  handle_event refund event = handle_logged_event event
  handle_event billing_issue event = handle_logged_event event
  handle_event subscription event = handle_logged_event event
  handle_event (other_name n) event = pure tt

  unfoldable pub process_event : PurchaseEvent → Action Db (Unit {0})
  unfolding log_webhook_event
  process_event event = do modify (log_webhook_event event); handle_event event.event_id event

  unfoldable pub get_event_by_id : EventName → Db → Option PurchaseLog
  get_event_by_id name s = log.find_first (has_name name) s.events

  unfoldable pub get_failed_events :
      (List PurchaseLog → List PurchaseLog) → ℕ → Db → List PurchaseLog
  get_failed_events newest_first limit s = take limit (
      newest_first
        (log.find_many (λ r. is_failed_status r.processing_status && ltb r.attempts 3) s.events))

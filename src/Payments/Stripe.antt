-- ===== src/Payments/Stripe.antt =====
-- src/features/payment.module/stripeWebhook/services/stripeWebhook.service.ts: the log of webhook
-- events, and the handler of each event type. What a run takes from outside is an argument: the id
-- of a new transaction, and what saving it answered. Writes to the event log succeed.
pub mod Status
pub mod Retries
pub mod Deliveries
mod Tests
use Prim.Native.String.{String}
use rental_application_nest.Prelude.{
  ℕ, ◌+◌, ◌≡◌, Bool, true, false, ◌&&◌, Option, none, some, List, [], ◌∷◌, if◌then◌else◌, ◌==◌, ltb,
  is_some, take, Text, to_upper_case, Result, ok, err, HttpError, bad_request, Action, pure, throw,
  throw_if, or_throw, gets, modify, catching, message_of, ◌>>=◌, ◌>>◌,
}
use rental_application_nest.External.Table.{Table}
use rental_application_nest.External.Cache.{Cache}
use rental_application_nest.Payments.Transactions.{
  Transaction, Store, stripe, completed, create, find_by_revenue_cat_order_id,
}

pub data EventType : Type 0 where
  checkout_session_completed payment_intent_succeeded payment_intent_failed : EventType
  payment_intent_canceled charge_refunded charge_dispute_created : EventType
  other_type : ℕ → EventType

pub data ProcessingStatus : Type 0 where
  is_pending is_processing is_completed is_failed : ProcessingStatus

-- `event.data.object`, with the fields that some handler or the log reads; `metadata` is spread out.
pub record StripeObject : Type 0 where
  pub id : ℕ
  pub payment_intent : Option ℕ
  pub customer : Option ℕ
  pub amount : Option ℕ
  pub amount_total : Option ℕ
  pub currency : Option Text
  pub user_id : Option ℕ
  pub reference_id : Option ℕ
  pub reference_type : Option ℕ
  pub body : List (ℕ × ℕ)

pub record Event : Type 0 where
  pub id : ℕ
  pub type : EventType
  pub account : Option ℕ
  pub object : StripeObject

pub record WebhookEvent : Type 0 where
  pub event_id : ℕ
  pub event_type : EventType
  pub account_id : Option ℕ
  pub payment_intent_id : ℕ
  pub customer_id : Option ℕ
  pub amount : Option ℕ
  pub currency : Option Text
  pub event_data : Event
  pub processing_status : ProcessingStatus
  pub error_message : Option String
  pub attempts : ℕ

pub record State (Events Payments : Type 0) : Type 0 where
  pub events : Events
  pub payments : Payments

abbrev pub or_else : Option ℕ → ℕ → ℕ
or_else none n = n
or_else (some m) n = m

-- The row that `logWebhookEvent` creates.
abbrev pub logged : Event → WebhookEvent
logged event = record {
  event_id = event.id;
  event_type = event.type;
  account_id = event.account;
  payment_intent_id = or_else event.object.payment_intent event.object.id;
  customer_id = event.object.customer;
  amount = event.object.amount;
  currency = event.object.currency;
  event_data = event;
  processing_status = is_pending;
  error_message = none;
  attempts = 0;
}

-- `session.currency?.toUpperCase() || 'USD'`
abbrev pub currency_of : Option Text → Text
currency_of none = b'U' ∷ b'S' ∷ b'D' ∷ []
currency_of (some []) = b'U' ∷ b'S' ∷ b'D' ∷ []
currency_of (some (c ∷ cs)) = to_upper_case (c ∷ cs)

-- The transaction of a checkout session, amounts in cents.
abbrev pub transaction_of : ℕ → ℕ → ℕ → StripeObject → Transaction
transaction_of new_id user_id reference_id session = record {
  id = new_id;
  user_id = user_id;
  reference_for = session.reference_type;
  reference_id = some reference_id;
  payment_gateway = stripe;
  transaction_id = some session.id;
  revenue_cat_order_id = none;
  payment_intent = session.payment_intent;
  amount = or_else session.amount_total 0;
  currency = currency_of session.currency;
  payment_status = completed;
  gateway_response = session.body;
  completed_at = none;
  is_deleted = false;
}

-- `{ processingStatus: 'failed', attempts: { $lt: 3 } }`
abbrev pub is_failed_status : ProcessingStatus → Bool
is_failed_status is_failed = true
is_failed_status _ = false

abbrev pub is_retriable : WebhookEvent → Bool
is_retriable r = is_failed_status r.processing_status && ltb r.attempts 3

-- `constructEvent` on what the configuration holds and the verification of the package `stripe`.
unfoldable pub construct_event :
    {Body : Type 0} → (Body → ℕ → ℕ → Option Event) → Option ℕ → Body → ℕ → Result Event
construct_event verify none body signature = err (bad_request "Webhook secret not configured")
construct_event verify (some secret) body signature = elim (verify body signature secret) [
  | none ↦ err (bad_request "Invalid webhook signature")
  | some event ↦ ok event
]

-- `unset` is what the driver stores for a key whose new value is undefined.
abbrev pub message_after :
    (Option String → Option String) → Option String → Option String → Option String
message_after unset none old = unset old
message_after unset (some message) old = some message

abbrev pub with_processing :
    (Option String → Option String) → ProcessingStatus → Option String → WebhookEvent → WebhookEvent
with_processing unset status message r = record r {
  processing_status = status;
  error_message = message_after unset message r.error_message;
  attempts = r.attempts + 1;
}

-- `object_id` is the constructor of ids, which throws on a malformed text and makes an id up where
-- the text is undefined.
module _ {Events Docs Details Lists : Type 0} (log : Table WebhookEvent Events)
    (model : Table Transaction Docs) (detail_cache : Cache ℕ Transaction Details ◌==◌)
    (list_cache : Cache ℕ (List Transaction) Lists ◌==◌) (object_id : Option ℕ → Result ℕ)
    (unset : Option String → Option String) where
  abbrev pub Db : Type 0
  Db = State Events (Store Docs Details Lists)

  -- `eventId` is unique: a second row is refused, and the refusal is ignored.
  unfoldable pub log_webhook_event : Event → Db → Db
  log_webhook_event event s =
      if is_some (log.find_first (λ r. r.event_id == event.id) s.events)
      then s
      else record s { events = log.create (logged event) s.events }

  unfoldable pub update_processing_status : ℕ → ProcessingStatus → Option String → Db → Db
  update_processing_status event_id status message s = record s {
    events =
        log.update_many (λ r. r.event_id == event_id) (with_processing unset status message)
          s.events;
  }

  -- The `catch` of every handler.
  unfoldable pub fail_event : Event → HttpError → Action Db (Unit {0})
  unfolding update_processing_status
  fail_event event e = do
    modify (update_processing_status event.id is_failed (some (message_of e)))
    throw e

  unfoldable pub create_payment : ℕ → Result (Unit {0}) → StripeObject → Action Db (Unit {0})
  create_payment new_id saved session = do
    user_id ← λ s. (object_id session.user_id, s)
    reference_id ← λ s. (object_id session.reference_id, s)
    λ s. (saved, s)
    modify (λ s. record s {
      payments =
          (create model detail_cache list_cache (transaction_of new_id user_id reference_id session)
            s.payments).1;
    })

  unfoldable pub handle_checkout_session_completed :
      ℕ → Result (Unit {0}) → Event → Action Db (Unit {0})
  unfolding update_processing_status
  handle_checkout_session_completed new_id saved event =
      catching
        (do
          modify (update_processing_status event.id is_processing none)
          existing ← gets (λ s.
              find_by_revenue_cat_order_id model detail_cache list_cache event.object.id s.payments)
          if is_some existing then pure tt else create_payment new_id saved event.object
          modify (update_processing_status event.id is_completed none))
        (fail_event event)

  -- The other five handlers only log: `handlePaymentIntentSucceeded`, `handlePaymentIntentFailed`,
  -- `handlePaymentIntentCanceled`, `handleChargeRefunded` and `handleChargeDisputed`.
  unfoldable pub handle_logged_event : Event → Action Db (Unit {0})
  unfolding update_processing_status
  handle_logged_event event =
      catching
        (do
          modify (update_processing_status event.id is_processing none)
          modify (update_processing_status event.id is_completed none))
        (fail_event event)

  unfoldable pub handle_event : ℕ → Result (Unit {0}) → EventType → Event → Action Db (Unit {0})
  handle_event new_id saved checkout_session_completed event =
      handle_checkout_session_completed new_id saved event
  handle_event new_id saved payment_intent_succeeded event = handle_logged_event event
  handle_event new_id saved payment_intent_failed event = handle_logged_event event
  handle_event new_id saved payment_intent_canceled event = handle_logged_event event
  handle_event new_id saved charge_refunded event = handle_logged_event event
  handle_event new_id saved charge_dispute_created event = handle_logged_event event
  handle_event new_id saved (other_type n) event = pure tt

  unfoldable pub process_event : ℕ → Result (Unit {0}) → Event → Action Db (Unit {0})
  unfolding log_webhook_event
  process_event new_id saved event = do
    modify (log_webhook_event event)
    handle_event new_id saved event.type event

  unfoldable pub get_event_by_id : ℕ → Db → Option WebhookEvent
  get_event_by_id event_id s = log.find_first (λ r. r.event_id == event_id) s.events

  -- `newest_first` is the database's sort by `createdAt`.
  unfoldable pub get_failed_events :
      (List WebhookEvent → List WebhookEvent) → ℕ → Db → List WebhookEvent
  get_failed_events newest_first limit s =
      take limit (newest_first (log.find_many is_retriable s.events))

  unfoldable pub retry_failed_event : ℕ → Result (Unit {0}) → ℕ → Action Db (Unit {0})
  unfolding get_event_by_id
  retry_failed_event new_id saved event_id = do
    found ← gets (get_event_by_id event_id)
    row ← or_throw found (bad_request "Webhook event not found")
    process_event new_id saved row.event_data

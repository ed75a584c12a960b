-- ===== src/Payments/Strategies/StripeGateway.antt =====
-- src/features/payment.module/payment/gateways/stripe.gateway.ts: the payment gateway on top of Stripe's
-- client, whose calls act on the store and may throw. The URLs and the product texts are left out.
use rental_application_nest.Prelude.{
  ℕ, ◌*◌, Option, none, some, List, Result, ok, err, bad_request, Action, catching, throw,
}
use rental_application_nest.Payments.Strategies.{
  Currency, Mode, usd, payment, UserPayload, PaymentSessionParams, PaymentGateway, or_else,
}

-- What a checkout session of Stripe is created with; the amount is in cents.
pub record StripeSession : Type 0 where
  pub mode : Mode
  pub customer : ℕ
  pub currency : Currency
  pub unit_amount : ℕ
  pub quantity : ℕ
  pub metadata : List (ℕ × ℕ)

-- `customers.create`, `checkout.sessions.create`, `checkout.sessions.retrieve` and
-- `webhooks.constructEvent`, the last with the secret
pub record StripeClient (Event S : Type 0) : Type 0 where
  pub create_customer : Option ℕ → ℕ → ℕ → Action S ℕ
  pub create_checkout : StripeSession → Action S ℕ
  pub retrieve_checkout : ℕ → Action S ℕ
  pub construct_event : ℕ → ℕ → ℕ → Result Event

abbrev pub stripe_session : PaymentSessionParams → StripeSession
stripe_session params = record {
  mode = or_else params.mode payment;
  customer = params.customer_id;
  currency = or_else params.currency usd;
  unit_amount = params.price * 100;
  quantity = 1;
  metadata = params.metadata;
}

module _ {Event S : Type 0} (client : StripeClient Event S) where
  -- 'Unknown User' is the name of a customer whose user has none.
  unfoldable pub resolve_customer : UserPayload → Action S ℕ
  resolve_customer user = elim user.stripe_customer_id [
    | some customer ↦ (λ s. (ok customer, s))
    | none ↦
        catching (client.create_customer user.name user.email user.user_id)
          (λ e. throw (bad_request "Failed to create Stripe customer"))
  ]

  unfoldable pub create_session : PaymentSessionParams → Action S ℕ
  create_session params =
      catching (client.create_checkout (stripe_session params))
        (λ e. throw (bad_request "Failed to create payment session"))

  unfoldable pub retrieve_session : ℕ → Action S ℕ
  retrieve_session session_id =
      catching (client.retrieve_checkout session_id)
        (λ e. throw (bad_request "Failed to retrieve session"))

  -- The secret is `STRIPE_WEBHOOK_SECRET`, where it is configured.
  unfoldable pub construct_webhook_event : Option ℕ → ℕ → ℕ → Result Event
  construct_webhook_event none body signature = err (bad_request "Webhook secret not configured")
  construct_webhook_event (some secret) body signature =
      elim (client.construct_event body signature secret) [
        | ok event ↦ ok event
        | err e ↦ err (bad_request "Invalid webhook signature")
      ]

  unfoldable pub stripe_gateway : PaymentGateway S
  unfolding resolve_customer create_session
  stripe_gateway = record { resolve_customer = resolve_customer; create_session = create_session }

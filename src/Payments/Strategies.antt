-- ===== src/Payments/Strategies.antt =====
-- src/features/payment.module/payment: payment.service.ts, strategies/purchase.strategy.ts and
-- gateways/stripe.gateway.ts. A purchase strategy and a payment gateway are interfaces: their operations
-- act on a state of the store and may throw. Ids and texts that are passed on are numbers; a price is a
-- natural number, so that `Math.round` changes nothing.
pub mod Flow
pub mod StripeGateway
mod Tests
use rental_application_nest.Prelude.{
  ℕ, ◌*◌, ◌≡◌, Bool, true, false, Option, none, some, List, [], ◌∷◌, map, find, is_some,
  if◌then◌else◌, Result, ok, err, bad_request, not_found, internal, HttpError, Action, pure,
  throw_if, or_throw, gets, ◌>>=◌, ◌>>◌,
}

pub data PurchaseType : Type 0 where
  subscription journey capsule : PurchaseType

pub data GatewayType : Type 0 where
  stripe paypal sslcommerz revenuecat : GatewayType

abbrev pub same_purchase : PurchaseType → PurchaseType → Bool
same_purchase subscription subscription = true
same_purchase journey journey = true
same_purchase capsule capsule = true
same_purchase _ _ = false

abbrev pub same_gateway : GatewayType → GatewayType → Bool
same_gateway stripe stripe = true
same_gateway paypal paypal = true
same_gateway sslcommerz sslcommerz = true
same_gateway revenuecat revenuecat = true
same_gateway _ _ = false

pub data Currency : Type 0 where
  usd : Currency
  other : ℕ → Currency

pub data Mode : Type 0 where
  payment subscription_mode : Mode

pub record UserPayload : Type 0 where
  pub user_id : ℕ
  pub email : ℕ
  pub name : Option ℕ
  pub stripe_customer_id : Option ℕ

pub record PaymentSessionParams : Type 0 where
  pub customer_id : ℕ
  pub price : ℕ
  pub currency : Option Currency
  pub metadata : List (ℕ × ℕ)
  pub mode : Option Mode

-- The record that a strategy creates, with the fields that the flow reads
pub record PendingPurchase : Type 0 where
  pub id : ℕ
  pub price : ℕ
  pub currency : Option Currency
  pub mode : Option Mode

-- What a kind of purchase provides
pub record PurchaseStrategy (Entity S : Type 0) : Type 0 where
  pub find_existing : ℕ → Action S (Option Entity)
  pub check_already_purchased : ℕ → ℕ → Action S Bool
  pub create_pending_purchase : Entity → UserPayload → Action S PendingPurchase
  pub get_metadata : PendingPurchase → Entity → UserPayload → List (ℕ × ℕ)

-- What a payment provider provides; a session answers with its URL.
pub record PaymentGateway (S : Type 0) : Type 0 where
  pub resolve_customer : UserPayload → Action S ℕ
  pub create_session : PaymentSessionParams → Action S ℕ

abbrev pub or_else {ℓ} : {A : Type ℓ} → Option A → A → A
or_else none a = a
or_else (some a) _ = a

-- The session that is asked for: the currency and the mode have defaults.
abbrev pub session_of : ℕ → PendingPurchase → List (ℕ × ℕ) → PaymentSessionParams
session_of customer pending metadata = record {
  customer_id = customer;
  price = pending.price;
  currency = some (or_else pending.currency usd);
  metadata = metadata;
  mode = some (or_else pending.mode payment);
}

-- The maps of the service, by their keys
pub record Registry (Entity S : Type 0) : Type 0 where
  pub strategies : PurchaseType → Option (PurchaseStrategy Entity S)
  pub gateways : GatewayType → Option (PaymentGateway S)

module _ {Entity S : Type 0} where
  -- `PurchaseStrategy.processPayment`
  unfoldable pub purchase :
      PurchaseStrategy Entity S → ℕ → UserPayload → PaymentGateway S → Action S ℕ
  purchase strategy entity_id user gateway = do
    already ← strategy.check_already_purchased entity_id user.user_id
    throw_if already (bad_request "Already purchased")
    found ← strategy.find_existing entity_id
    entity ← or_throw found (not_found "Entity not found")
    customer ← gateway.resolve_customer user
    pending ← strategy.create_pending_purchase entity user
    gateway.create_session (session_of customer pending (strategy.get_metadata pending entity user))

  unfoldable pub register_strategy :
      PurchaseType → PurchaseStrategy Entity S → Registry Entity S → Registry Entity S
  register_strategy type strategy r = record r {
    strategies = λ t. if same_purchase type t then some strategy else r.strategies t;
  }

  unfoldable pub register_gateway :
      GatewayType → PaymentGateway S → Registry Entity S → Registry Entity S
  register_gateway type gateway r = record r {
    gateways = λ t. if same_gateway type t then some gateway else r.gateways t;
  }

  -- `PaymentService.processPayment`: what the strategy throws is thrown again.
  unfoldable pub process_payment :
      Registry Entity S → PurchaseType → GatewayType → ℕ → UserPayload → Action S ℕ
  process_payment r type gateway_type entity_id user = do
    strategy ← or_throw (r.strategies type) (bad_request "Unknown purchase type")
    gateway ← or_throw (r.gateways gateway_type) (bad_request "Unknown gateway")
    purchase strategy entity_id user gateway

  unfoldable pub has_strategy : Registry Entity S → PurchaseType → Bool
  has_strategy r type = is_some (r.strategies type)

  unfoldable pub has_gateway : Registry Entity S → GatewayType → Bool
  has_gateway r type = is_some (r.gateways type)

  unfoldable pub get_strategy :
      Registry Entity S → PurchaseType → Result (PurchaseStrategy Entity S)
  get_strategy r type = elim (r.strategies type) [
    | none ↦ err (not_found "Strategy not found")
    | some strategy ↦ ok strategy
  ]

  unfoldable pub get_gateway : Registry Entity S → GatewayType → Result (PaymentGateway S)
  get_gateway r type = elim (r.gateways type) [
    | none ↦ err (not_found "Gateway not found")
    | some gateway ↦ ok gateway
  ]

-- ===== src/Payments/Strategies/Tests.antt =====
-- Runs of payments in memory.
use rental_application_nest.Prelude.{
  ℕ, ◌+◌, ◌≤◌, ◌≡◌, refl, none, some, List, [], ◌∷◌, arith, bit, is_ok, ok, err, internal, length,
  ltb, ◌==◌, if◌then◌else◌, Bool-cases, inl, inr,
}
use mathlib.Core.Path.{subst}
use rental_application_nest.Payments.Strategies.{
  PurchaseType, GatewayType, subscription, journey, capsule, stripe, paypal, sslcommerz, revenuecat,
  UserPayload, PendingPurchase, PurchaseStrategy, PaymentGateway, Registry, process_payment,
}
use rental_application_nest.Payments.Strategies.StripeGateway.{
  StripeSession, StripeClient, stripe_gateway,
}
use rental_application_nest.Payments.Strategies.Flow.{
  StrategyLaws, GatewayLaws, stripe_gateway-GatewayLaws, process_payment-Leaves,
}

abbrev Memory : Type 0
Memory = List ℕ × List StripeSession

abbrev pending_of : ℕ → PendingPurchase
pending_of price = record { id = 1; price = price; currency = none; mode = none }

-- Entities below 10 exist, under their price.
abbrev plans : PurchaseStrategy ℕ Memory
plans = record {
  find_existing = λ id s. (ok (if ltb id 10 then some id else none), s);
  check_already_purchased = λ id user_id s. (ok (user_id == 9), s);
  create_pending_purchase = λ price user s. (ok (pending_of price), (price ∷ s.0, s.1));
  get_metadata = λ pending price user. (1, user.user_id) ∷ [];
}

-- Stripe refuses amounts over 800.
abbrev client : StripeClient ℕ Memory
client = record {
  create_customer = λ name email user_id s. (ok 70, s);
  create_checkout = λ session s.
      if ltb 800 session.unit_amount
      then (err (internal "refused"), s)
      else (ok 700, (s.0, session ∷ s.1));
  retrieve_checkout = λ id s. (ok id, s);
  construct_event = λ body signature secret. ok body;
}

abbrev pendings : Memory → ℕ
pendings s = length s.0

abbrev sessions : Memory → ℕ
sessions s = length s.1

plans-StrategyLaws : StrategyLaws pendings sessions plans
plans-StrategyLaws = record {
  find_existing-Reads = λ id s. (refl, refl);
  check_already_purchased-Reads = λ id user_id s. (refl, refl);
  create_pending_purchase-Adds = λ price user s. (omega arith, refl);
}

stripe-GatewayLaws : GatewayLaws pendings sessions (stripe_gateway client)
stripe-GatewayLaws =
    stripe_gateway-GatewayLaws pendings sessions client (λ name email user_id s. (refl, refl))
      (λ session s. elim (Bool-cases (ltb 800 session.unit_amount)) [
        | inl over ↦ rw over (omega arith, refl)
        | inr fine ↦ rw fine (omega arith, refl)
      ])

abbrev registry : Registry ℕ Memory
registry = record {
  strategies = λ t. elim t [ subscription ↦ some plans | journey ↦ none | capsule ↦ none ];
  gateways = λ t. elim t [
    | stripe ↦ some (stripe_gateway client)
    | paypal ↦ none
    | sslcommerz ↦ none
    | revenuecat ↦ none
  ];
}

registered_strategy :
    (t : PurchaseType) (x : PurchaseStrategy ℕ Memory)
    → registry.strategies t ≡ some x
    → StrategyLaws pendings sessions x
registered_strategy subscription x e =
    let same : plans ≡ x = ground arith in
    subst (StrategyLaws pendings sessions) same plans-StrategyLaws
registered_strategy journey x e = absurd (ground arith)
registered_strategy capsule x e = absurd (ground arith)

registered_gateway :
    (t : GatewayType) (x : PaymentGateway Memory)
    → registry.gateways t ≡ some x
    → GatewayLaws pendings sessions x
registered_gateway stripe x e =
    let same : stripe_gateway client ≡ x = ground arith in
    subst (GatewayLaws pendings sessions) same stripe-GatewayLaws
registered_gateway paypal x e = absurd (ground arith)
registered_gateway sslcommerz x e = absurd (ground arith)
registered_gateway revenuecat x e = absurd (ground arith)

abbrev user : UserPayload
user = record { user_id = 7; email = 5; name = none; stripe_customer_id = none }

process_payment-Leaves_example :
    let (answer, s') = process_payment registry subscription stripe 6 user ([], []) in
    (sessions s' ≡ bit (is_ok answer) + 0)
    × (bit (is_ok answer) + 0 ≤ pendings s')
    × (pendings s' ≤ 1 + 0)
process_payment-Leaves_example =
    process_payment-Leaves pendings sessions registry registered_strategy registered_gateway
      subscription stripe 6 user ([], [])

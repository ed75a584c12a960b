-- ===== src/Payments/Strategies/Flow.antt =====
-- Pending purchases and checkout sessions: what a payment leaves behind.
use rental_application_nest.Prelude.{
  ℕ, ◌+◌, ◌≤◌, ◌≡◌, refl, ap, ◌∙◌, true, false, Option, none, some, arith, bit, bit_le, is_ok,
  Result, Option-cases, Result-cases, inl, inr, Action, ◌>>=◌, ◌>>◌, throw_if, or_throw, catching,
  throw, HttpError, bad_request,
}
use rental_application_nest.Payments.Strategies.{
  PurchaseType, GatewayType, UserPayload, PurchaseStrategy, PaymentGateway, PaymentSessionParams,
  Registry, session_of, purchase, process_payment,
}
use rental_application_nest.Payments.Strategies.StripeGateway.{
  StripeClient, StripeSession, stripe_session, stripe_gateway, resolve_customer, create_session,
}

module _ {S : Type 0} (pendings sessions : S → ℕ) where
  -- An action leaves both numbers as they are.
  abbrev pub Reads : {A : Type 0} → Action S A → Type 0
  Reads m = (s : S) → (pendings (m s).1 ≡ pendings s) × (sessions (m s).1 ≡ sessions s)

  -- An action adds one to the first number where it succeeds, and keeps the second.
  abbrev pub Adds : {A : Type 0} → (S → ℕ) → (S → ℕ) → Action S A → Type 0
  Adds grows stays m =
      (s : S) → (grows (m s).1 ≡ bit (is_ok (m s).0) + grows s) × (stays (m s).1 ≡ stays s)

  -- A strategy creates pending purchases only in `createPendingPurchase`, and never a session.
  pub record StrategyLaws {Entity : Type 0} (strategy : PurchaseStrategy Entity S) : Type 0 where
    pub find_existing-Reads : (entity_id : ℕ) → Reads (strategy.find_existing entity_id)
    pub check_already_purchased-Reads :
        (entity_id user_id : ℕ) → Reads (strategy.check_already_purchased entity_id user_id)
    pub create_pending_purchase-Adds :
        (entity : Entity) (user : UserPayload)
        → Adds pendings sessions (strategy.create_pending_purchase entity user)

  -- A gateway creates sessions only in `createSession`, and never a pending purchase.
  pub record GatewayLaws (gateway : PaymentGateway S) : Type 0 where
    pub resolve_customer-Reads : (user : UserPayload) → Reads (gateway.resolve_customer user)
    pub create_session-Adds :
        (params : PaymentSessionParams) → Adds sessions pendings (gateway.create_session params)

  -- What a payment leaves behind: a session exactly where it succeeds, with a pending purchase, and one
  -- pending purchase at most in every case.
  abbrev pub Leaves : {A : Type 0} → Result A → S → S → Type 0
  Leaves r s s' =
      (sessions s' ≡ bit (is_ok r) + sessions s)
      × (bit (is_ok r) + pendings s ≤ pendings s')
      × (pendings s' ≤ 1 + pendings s)

  module _ {Entity : Type 0} (strategy : PurchaseStrategy Entity S) (gateway : PaymentGateway S)
      (strategy_laws : StrategyLaws strategy) (gateway_laws : GatewayLaws gateway) where
    purchase-Leaves :
        (entity_id : ℕ) (user : UserPayload) (s : S)
        → let (r, s') = purchase strategy entity_id user gateway s in Leaves r s s'
    unfolding purchase
    purchase-Leaves entity_id user s =
        let (r1, s1) = strategy.check_already_purchased entity_id user.user_id s in
        let (p1, q1) = strategy_laws.check_already_purchased-Reads entity_id user.user_id s in
        let (r2, s2) = strategy.find_existing entity_id s1 in
        let (p2, q2) = strategy_laws.find_existing-Reads entity_id s1 in
        elim (Result-cases r1) [
          | inr (e, failed) ↦ rw (purchase, failed, ◌>>=◌) (omega arith, omega arith, omega arith)
          | inl (true, already) ↦
              rw (purchase, already, ◌>>=◌, ◌>>◌, throw_if) (omega arith, omega arith, omega arith)
          | inl (false, fresh) ↦ elim (Result-cases r2) [
            | inr (e, failed) ↦
                rw (purchase, fresh, failed, ◌>>=◌, ◌>>◌, throw_if)
                  (omega arith, omega arith, omega arith)
            | inl (none, missing) ↦
                rw (purchase, fresh, missing, ◌>>=◌, ◌>>◌, throw_if, or_throw)
                  (omega arith, omega arith, omega arith)
            | inl (some entity, found) ↦
                rw (purchase, fresh, found, ◌>>=◌, ◌>>◌, throw_if, or_throw)
                  (let (r3, s3) = gateway.resolve_customer user s2 in
                    let (p3, q3) = gateway_laws.resolve_customer-Reads user s2 in
                    let (r4, s4) = strategy.create_pending_purchase entity user s3 in
                    let (p4, q4) = strategy_laws.create_pending_purchase-Adds entity user s3 in
                    elim (Result-cases r3) [
                      | inr (e, failed) ↦ rw (failed, ◌>>=◌) (omega arith, omega arith, omega arith)
                      | inl (customer, known) ↦ elim (Result-cases r4) [
                        | inr (e, failed) ↦
                            rw (known, failed, ◌>>=◌)
                              (
                                omega (arith, ap (λ r. bit (is_ok r)) failed),
                                omega (arith, ap (λ r. bit (is_ok r)) failed),
                                omega (arith, ap (λ r. bit (is_ok r)) failed),
                              )
                        | inl (pending, created) ↦
                            rw (known, created, ◌>>=◌)
                              (let params =
                                  session_of customer pending
                                    (strategy.get_metadata pending entity user) in
                                let (p5, q5) = gateway_laws.create_session-Adds params s4 in
                                let one = ap (λ r. bit (is_ok r)) created in
                                (
                                  omega (arith, p5, q4, q3, q2, q1),
                                  omega (
                                    arith,
                                    q5,
                                    p4,
                                    p3,
                                    p2,
                                    p1,
                                    one,
                                    bit_le (is_ok (gateway.create_session params s4).0),
                                  ),
                                  omega (arith, q5, p4, p3, p2, p1, one),
                                ))
                      ]
                    ])
          ]
        ]

  module _ {Entity : Type 0} (r : Registry Entity S) where
    -- A payment creates one checkout session where it succeeds and none where it fails, for an unknown
    -- type of purchase or gateway too. Behind a session there is a new pending purchase, and a failed
    -- payment leaves one new pending purchase at most. Every registered strategy creates pending
    -- purchases, and every registered gateway sessions, in the operation that is there for it.
    pub process_payment-Leaves :
        ((t : PurchaseType) (x : PurchaseStrategy Entity S)
          → r.strategies t ≡ some x
          → StrategyLaws x)
        → ((t : GatewayType) (x : PaymentGateway S) → r.gateways t ≡ some x → GatewayLaws x)
        → (type : PurchaseType) (gateway_type : GatewayType) (entity_id : ℕ) (user : UserPayload)
          (s : S)
        → let (answer, s') = process_payment r type gateway_type entity_id user s in
          (sessions s' ≡ bit (is_ok answer) + sessions s)
          × (bit (is_ok answer) + pendings s ≤ pendings s')
          × (pendings s' ≤ 1 + pendings s)
    unfolding process_payment
    process_payment-Leaves strategy_laws gateway_laws type gateway_type entity_id user s =
        elim (Option-cases (r.strategies type)) [
          | inl unknown ↦
              rw (process_payment, unknown, ◌>>=◌, or_throw) (omega arith, omega arith, omega arith)
          | inr (strategy, known) ↦ elim (Option-cases (r.gateways gateway_type)) [
            | inl unknown ↦
                rw (process_payment, known, unknown, ◌>>=◌, or_throw)
                  (omega arith, omega arith, omega arith)
            | inr (gateway, registered) ↦
                rw (process_payment, known, registered, ◌>>=◌, or_throw)
                  (purchase-Leaves strategy gateway (strategy_laws type strategy known)
                    (gateway_laws gateway_type gateway registered) entity_id user s)
          ]
        ]

  module _ {Event : Type 0} (client : StripeClient Event S) where
    catching_same :
        {A : Type 0} (m : Action S A) (e : HttpError) (s : S)
        → ((catching m (λ _. throw e) s).1 ≡ (m s).1)
          × (is_ok (catching m (λ _. throw e) s).0 ≡ is_ok (m s).0)
    catching_same m e s = elim (Result-cases (m s).0) [
      | inl (a, made) ↦ rw (catching, made) (refl, refl)
      | inr (x, failed) ↦ rw (catching, failed) (refl, refl)
    ]

    -- The gateway on top of Stripe keeps the laws of a gateway, where the client does.
    pub stripe_gateway-GatewayLaws :
        ((name : Option ℕ) (email user_id : ℕ) → Reads (client.create_customer name email user_id))
        → ((session : StripeSession) → Adds sessions pendings (client.create_checkout session))
        → GatewayLaws (stripe_gateway client)
    unfolding stripe_gateway resolve_customer create_session
    stripe_gateway-GatewayLaws customers checkouts = record {
      resolve_customer-Reads = λ user s. elim (Option-cases user.stripe_customer_id) [
        | inr (c, known) ↦ rw (known, stripe_gateway, resolve_customer) (refl, refl)
        | inl unknown ↦
            let (same, _) =
              catching_same (client.create_customer user.name user.email user.user_id)
                (bad_request "Failed to create Stripe customer") s in
            let (p, q) = customers user.name user.email user.user_id s in
            rw (unknown, stripe_gateway, resolve_customer)
              (ap pendings same ∙ p, ap sessions same ∙ q)
      ];
      create_session-Adds = λ params s.
          let (same, answered) =
            catching_same (client.create_checkout (stripe_session params))
              (bad_request "Failed to create payment session") s in
          let (p, q) = checkouts (stripe_session params) s in
          (omega (arith, ap sessions same, p, ap bit answered), ap pendings same ∙ q);
    }

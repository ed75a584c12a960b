-- ===== src/Subscriptions/Plans/Active.antt =====
-- A type of subscription has one active plan at most.
use rental_application_nest.Prelude.{
  ℕ, ◌≤◌, ◌≡◌, refl, ap, ◌∙◌, sym, true, false, some, List, [], ◌∷◌, arith, if◌then◌else◌,
  Bool-cases, Option-cases, Result-cases, inl, inr, count_if, count_if-map, count_if_none, bit,
  bit_le, In, In-map, In-filter_of_In, any, any-In, ◌==◌, ==_refl, is_ok, ok,
}
use rental_application_nest.External.Table.{Table}
use rental_application_nest.Subscriptions.Plans.{
  Plan, SubscriptionType, CreateSubscriptionPlanDto, Stripe, same_type, is_active_of, deactivated,
  plan_of, with_channel, with_stripe, with_revenue_cat, needs_stripe, needs_revenue_cat,
  deactivate_each, create_subscription_plan, individual, business_starter, business_level1,
  business_level2,
}

same_type_sound : (t u : SubscriptionType) → same_type t u ≡ true → t ≡ u
same_type_sound individual individual h = refl
same_type_sound individual business_starter h = absurd (ground arith)
same_type_sound individual business_level1 h = absurd (ground arith)
same_type_sound individual business_level2 h = absurd (ground arith)
same_type_sound business_starter individual h = absurd (ground arith)
same_type_sound business_starter business_starter h = refl
same_type_sound business_starter business_level1 h = absurd (ground arith)
same_type_sound business_starter business_level2 h = absurd (ground arith)
same_type_sound business_level1 individual h = absurd (ground arith)
same_type_sound business_level1 business_starter h = absurd (ground arith)
same_type_sound business_level1 business_level1 h = refl
same_type_sound business_level1 business_level2 h = absurd (ground arith)
same_type_sound business_level2 individual h = absurd (ground arith)
same_type_sound business_level2 business_starter h = absurd (ground arith)
same_type_sound business_level2 business_level1 h = absurd (ground arith)
same_type_sound business_level2 business_level2 h = refl

same_type_refl : (t : SubscriptionType) → same_type t t ≡ true
same_type_refl individual = refl
same_type_refl business_starter = refl
same_type_refl business_level1 = refl
same_type_refl business_level2 = refl

-- What a plan gets before it is stored keeps its type and its state.
revenue_cat_active :
    (t : SubscriptionType) (p : Plan) → is_active_of t (with_revenue_cat p) ≡ is_active_of t p
revenue_cat_active t p = elim (Bool-cases (needs_revenue_cat p.purchase_channel)) [
  | inl needed ↦ rw needed refl
  | inr not_needed ↦ rw not_needed refl
]

channel_active :
    (t : SubscriptionType) (p : Plan) → is_active_of t (with_channel p) ≡ is_active_of t p
channel_active t p = elim (Option-cases p.purchase_channel) [
  | inr (c, some_channel) ↦ rw some_channel refl
  | inl none_yet ↦ rw none_yet (elim (Bool-cases (same_type p.subscription_type individual)) [
    | inl mobile ↦ rw mobile refl
    | inr business ↦ rw business refl
  ])
]

stripe_active :
    (client : Stripe) (t : SubscriptionType) (p q : Plan)
    → with_stripe client p ≡ ok q
    → is_active_of t q ≡ is_active_of t p
stripe_active client t p q e = elim (Bool-cases (needs_stripe p.purchase_channel)) [
  | inr not_needed ↦ let same : p ≡ q = ground arith in sym (ap (is_active_of t) same)
  | inl needed ↦ elim (Result-cases (client.create_product p.subscription_type)) [
    | inr (error, refused) ↦ absurd (ground arith)
    | inl (product, made) ↦ elim (Result-cases (client.create_price p.amount p.currency product)) [
      | inr (error, refused) ↦ absurd (ground arith)
      | inl (price, priced) ↦
          let same : record p { stripe_product_id = some product; stripe_price_id = some price }
              ≡ q =
            ground arith in
          sym (ap (is_active_of t) same)
    ]
  ]
]

prepared :
    (client : Stripe) (t : SubscriptionType) (p q : Plan)
    → with_stripe client (with_channel p) ≡ ok q
    → is_active_of t (with_revenue_cat q) ≡ is_active_of t p
prepared client t p q e =
    revenue_cat_active t q ∙ stripe_active client t (with_channel p) q e ∙ channel_active t p

module _ {Plans : Type 0} (subscription_plan : Table Plan Plans) (client : Stripe) where
  -- Each type has one active plan at most.
  abbrev pub IsSingle : Plans → Type 0
  IsSingle s = (t : SubscriptionType) → count_if (is_active_of t) (subscription_plan.rows s) ≤ 1

  deactivate_each_le :
      (ps : List Plan) (t : SubscriptionType) (s : Plans)
      → count_if
          (is_active_of t)
          (subscription_plan.rows (deactivate_each subscription_plan client ps s))
        ≤ count_if (is_active_of t) (subscription_plan.rows s)
  deactivate_each_le [] t s = omega arith
  deactivate_each_le (p ∷ ps) t s =
      let test = λ (x : Plan). x.id == p.id in
      omega (
        arith,
        deactivate_each_le ps t (subscription_plan.update_many test deactivated s),
        ap (count_if (is_active_of t)) (subscription_plan.rows-update_many test deactivated s),
        count_if-map (is_active_of t) (is_active_of t) (λ x. if test x then deactivated x else x)
            (subscription_plan.rows s)
            (λ x e. elim (Bool-cases (test x)) [
              | inl hit ↦ absurd (ground (arith, (rw hit at e)))
              | inr miss ↦ rw miss at e
            ]),
      )

  -- What is active after the loop was stored before, and none of the plans of the loop has its id.
  deactivate_each-In :
      (ps : List Plan) (y : Plan) (s : Plans)
      → In y (subscription_plan.rows (deactivate_each subscription_plan client ps s))
      → y.is_active ≡ true
      → In y (subscription_plan.rows s) × (any (λ p. p.id == y.id) ps ≡ false)
  deactivate_each-In [] y s m active = (m, refl)
  deactivate_each-In (p ∷ ps) y s m active =
      let test = λ (x : Plan). x.id == p.id in
      let (k, others) =
        deactivate_each-In ps y (subscription_plan.update_many test deactivated s) m active in
      let (x, i, e) =
        In-map (λ x. if test x then deactivated x else x) (subscription_plan.rows s) y
          (rw (subscription_plan.rows-update_many test deactivated s) at k) in
      elim (Bool-cases (test x)) [
        | inl hit ↦ absurd (ground (arith, ap (λ z. z.is_active) (rw hit at e)))
        | inr miss ↦
            let same : y ≡ x = rw miss at e in
            (rw same i, rw same (ground (arith, rw same at others)))
      ]

  all_deactivated :
      (t : SubscriptionType) (s : Plans)
      → count_if (is_active_of t) (
          subscription_plan.rows (
            deactivate_each subscription_plan client
              (subscription_plan.find_many (is_active_of t) s)
              s))
        ≡ 0
  all_deactivated t s =
      let found = subscription_plan.find_many (is_active_of t) s in
      count_if_none (is_active_of t)
        (subscription_plan.rows (deactivate_each subscription_plan client found s))
        (λ y m. elim (Bool-cases (is_active_of t y)) [
          | inr inactive ↦ inactive
          | inl active ↦
              let (k, others) = deactivate_each-In found y s m (ground arith) in
              let listed = In-filter_of_In (is_active_of t) (subscription_plan.rows s) y k active in
              absurd (
                cc (
                  any-In (λ (p : Plan). p.id == y.id) found y
                      (rw (subscription_plan.find_many-rows (is_active_of t) s) listed)
                      (==_refl y.id),
                  others,
                ))
        ])

  -- Where each type has one active plan at most, `createSubscriptionPlan` keeps it so. The type of the new
  -- plan has exactly one active plan after a success, and none after a failure, which Stripe causes after
  -- the old plan is deactivated.
  pub create_subscription_plan-IsSingle :
      (new_id : ℕ) (dto : CreateSubscriptionPlanDto) (s : Plans)
      → IsSingle s
      → let (r, s') = create_subscription_plan subscription_plan client new_id dto s in
        IsSingle s'
        × (count_if (is_active_of dto.subscription_type) (subscription_plan.rows s')
            ≡ bit (is_ok r))
  unfolding create_subscription_plan
  create_subscription_plan-IsSingle new_id dto s single =
      let t = dto.subscription_type in
      let s' =
        deactivate_each subscription_plan client (subscription_plan.find_many (is_active_of t) s)
          s in
      let kept : IsSingle s' = λ u. omega (
        arith,
        single u,
        deactivate_each_le (subscription_plan.find_many (is_active_of t) s) u s,
      ) in
      elim (Result-cases (with_stripe client (with_channel (plan_of new_id dto)))) [
        | inr (e, refused) ↦ rw (refused, create_subscription_plan) (kept, all_deactivated t s)
        | inl (p, made) ↦
            let plan = with_revenue_cat p in
            let all : (u : SubscriptionType)
                → count_if (is_active_of u) (plan ∷ subscription_plan.rows s') ≤ 1 =
              λ u. elim (Bool-cases (same_type t u)) [
                | inl same ↦
                    let e = same_type_sound t u same in
                    omega (
                      arith,
                      bit_le (is_active_of u plan),
                      all_deactivated t s,
                      ap (λ v. count_if (is_active_of v) (subscription_plan.rows s')) e,
                    )
                | inr other ↦ ground (arith, kept u, prepared client u (plan_of new_id dto) p made)
              ] in
            rw (made, create_subscription_plan, subscription_plan.rows-create plan s')
              (
                all,
                ground (
                  arith,
                  all_deactivated t s,
                  prepared client t (plan_of new_id dto) p made,
                  same_type_refl t,
                ),
              )
      ]

-- ===== src/Subscriptions/Purchases/Flag.antt =====
-- Which operations keep the flag of a free trial that a user has used.
use rental_application_nest.Prelude.{
  ℕ, ◌≡◌, refl, ap, true, some, List, arith, if◌then◌else◌, Bool-cases, Option-cases, Result-cases,
  inl, inr, In, In-map, ◌==◌, is_ok, Action, ◌>>=◌, ◌>>◌, or_throw, throw_if, modify,
}
use rental_application_nest.External.Table.{Table}
use rental_application_nest.Subscriptions.Plans.{Plan, is_active_of, individual}
use rental_application_nest.Subscriptions.Purchases.{
  UserSubscription, Subscriber, Checkout, State, known_customer, update_user, create_session,
  trial_params, save_by_id, get_or_create_stripe_customer, start_free_trial,
}

module _ {Users Plans Subscriptions : Type 0} (user : Table Subscriber Users)
    (subscription_plan : Table Plan Plans)
    (user_subscription : Table UserSubscription Subscriptions) (client : Checkout)
    (newest_first : List UserSubscription → List UserSubscription) where
  abbrev pub Store : Type 0
  Store = State Users Plans Subscriptions

  abbrev pub customer_of : Subscriber → Action Store ℕ
  customer_of u =
      get_or_create_stripe_customer user subscription_plan user_subscription client newest_first u

  -- Every row of the user has the flag.
  abbrev pub HasUsed : ℕ → Store → Type 0
  HasUsed id s =
      (x : Subscriber)
      → In x (user.rows s.users)
      → (x.id == id) ≡ true
      → x.has_used_free_trial ≡ true

  pub update_user-HasUsed :
      (id user_id : ℕ) (f : Subscriber → Subscriber) (s : Store)
      → ((x : Subscriber) → (f x).id ≡ x.id)
      → ((x : Subscriber) → x.has_used_free_trial ≡ true → (f x).has_used_free_trial ≡ true)
      → HasUsed id s
      → HasUsed id
          (update_user user subscription_plan user_subscription client newest_first user_id f s)
  update_user-HasUsed id user_id f s same keeps used x m e =
      let (y, k, eq) =
        In-map (λ u. if u.id == user_id then f u else u) (user.rows s.users) x
          (rw (user.rows-update_many (λ u. u.id == user_id) f s.users) at m) in
      elim (Bool-cases (y.id == user_id)) [
        | inl hit ↦
            let is : x ≡ f y = rw hit at eq in
            rw is (keeps y (used y k (ground (arith, same y, ap (λ z. z.id) is))))
        | inr miss ↦
            let is : x ≡ y = rw miss at eq in rw is (used y k (ground (arith, ap (λ z. z.id) is)))
      ]

  pub customer-HasUsed :
      (id : ℕ) (u : Subscriber) (s : Store) → HasUsed id s → HasUsed id (customer_of u s).1
  unfolding get_or_create_stripe_customer
  customer-HasUsed id u s used = elim (Option-cases (known_customer client u.stripe_customer_id)) [
    | inr (c, known) ↦ rw (known, get_or_create_stripe_customer) used
    | inl unknown ↦ elim (Result-cases (client.create_customer u.id)) [
      | inr (e, refused) ↦ rw (unknown, refused, get_or_create_stripe_customer) used
      | inl (c, made) ↦
          rw (unknown, made, get_or_create_stripe_customer)
            (update_user-HasUsed id u.id (λ x. record x { stripe_customer_id = some c }) s
              (λ x. refl) (λ x h. h) used)
    ]
  ]

  flag_set :
      (user_id : ℕ) (s : Store)
      → HasUsed user_id (
          update_user user subscription_plan user_subscription client newest_first user_id
            (λ x. record x { has_used_free_trial = true })
            s)
  flag_set user_id s x m e =
      let f = λ (u : Subscriber). record u { has_used_free_trial = true } in
      let (y, k, eq) =
        In-map (λ u. if u.id == user_id then f u else u) (user.rows s.users) x
          (rw (user.rows-update_many (λ u. u.id == user_id) f s.users) at m) in
      elim (Bool-cases (y.id == user_id)) [
        | inl hit ↦ let is : x ≡ f y = rw hit at eq in ap (λ z. z.has_used_free_trial) is
        | inr miss ↦ let is : x ≡ y = rw miss at eq in absurd (ground (arith, ap (λ z. z.id) is))
      ]

  -- A start keeps every flag, and one that succeeds sets the user's.
  pub start-HasUsed :
      (new_id now user_id : ℕ) (s : Store)
      → let (r, s') =
          start_free_trial user subscription_plan user_subscription client newest_first new_id now
            user_id s in
        ((id : ℕ) → HasUsed id s → HasUsed id s') × (is_ok r ≡ true → HasUsed user_id s')
  unfolding start_free_trial
  start-HasUsed new_id now user_id s =
      elim (Option-cases (user.find_first (λ u. u.id == user_id) s.users)) [
        | inl no_user ↦
            rw (start_free_trial, no_user, ◌>>=◌, ◌>>◌, or_throw)
              (λ id h. h, λ e. absurd (ground arith))
        | inr (u, found) ↦ elim (Bool-cases u.has_used_free_trial) [
          | inl used ↦
              rw (start_free_trial, found, used, ◌>>=◌, ◌>>◌, or_throw, throw_if)
                (λ id h. h, λ e. absurd (ground arith))
          | inr unused ↦
              elim (Option-cases (subscription_plan.find_first (is_active_of individual) s.plans)) [
                | inl no_plan ↦
                    rw (start_free_trial, found, unused, no_plan, ◌>>=◌, ◌>>◌, or_throw, throw_if)
                      (λ id h. h, λ e. absurd (ground arith))
                | inr (plan, planned) ↦ elim (Result-cases (customer_of u s).0) [
                  | inr (e, refused) ↦
                      rw
                        (
                          start_free_trial, found, unused, planned, refused, ◌>>=◌, ◌>>◌, or_throw,
                          throw_if,
                        )
                        (λ id h. customer-HasUsed id u s h, λ e. absurd (ground arith))
                  | inl (c, made) ↦
                      elim (Result-cases (client.create_session (trial_params new_id c u plan))) [
                        | inr (e, failed) ↦
                            rw
                              (
                                start_free_trial, found, unused, planned, made, failed, ◌>>=◌, ◌>>◌,
                                or_throw, throw_if, modify, create_session,
                              )
                              (λ id h. customer-HasUsed id u s h, λ e. absurd (ground arith))
                        | inl (url, opened) ↦
                            rw
                              (
                                start_free_trial, found, unused, planned, made, opened, ◌>>=◌, ◌>>◌,
                                or_throw, throw_if, modify, create_session,
                              )
                              (
                                λ id h.
                                    update_user-HasUsed id user_id
                                      (λ x. record x { has_used_free_trial = true })
                                      (customer_of u s).1 (λ x. refl) (λ x k. refl)
                                      (customer-HasUsed id u s h),
                                λ e. flag_set user_id (customer_of u s).1,
                              )
                      ]
                ]
              ]
        ]
      ]

  unfoldable pub saved : ℕ → (UserSubscription → UserSubscription) → Action Store UserSubscription
  saved = save_by_id user subscription_plan user_subscription client newest_first

  pub saved-HasUsed :
      (id x_id : ℕ) (f : UserSubscription → UserSubscription) (s : Store)
      → HasUsed id s
      → HasUsed id (saved x_id f s).1
  unfolding saved
  saved-HasUsed id x_id f s used =
      elim (Option-cases (user_subscription.find_first (λ x. x.id == x_id) s.subscriptions)) [
        | inl missing ↦ rw (saved, missing, ◌>>=◌, or_throw) used
        | inr (x, found) ↦ rw (saved, found, ◌>>=◌, or_throw) used
      ]

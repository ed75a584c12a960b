-- ===== src/Subscriptions/Purchases/Trial.antt =====
-- A user starts one free trial at most.
use rental_application_nest.Prelude.{
  ℕ, ◌≡◌, refl, true, some, List, [], ◌∷◌, Option-cases, Result-cases, inl, inr, ◌==◌, is_ok, err,
  not_found, HttpError, bad_request, ◌>>=◌, ◌>>◌, or_throw, throw_if, modify,
}
use rental_application_nest.External.Table.{Table}
use rental_application_nest.Subscriptions.Plans.{Plan}
use rental_application_nest.Subscriptions.Purchases.{
  UserSubscription, UserSubscriptionStatus, Subscriber, Checkout, State, activated,
  cancelled_at_time, start_free_trial, purchase_subscription, update_subscription_status,
  cancel_subscription, activate_subscription,
}
use rental_application_nest.Subscriptions.Purchases.Flag.{
  HasUsed, customer_of, customer-HasUsed, update_user-HasUsed, start-HasUsed, saved, saved-HasUsed,
}

-- A call of the service that writes.
pub data Call : Type 0 where
  starts : ℕ → ℕ → ℕ → Call
  purchases : ℕ → ℕ → ℕ → Call
  sets_status : ℕ → UserSubscriptionStatus → Call
  cancels : ℕ → ℕ → Call
  activates : ℕ → ℕ → ℕ → ℕ → Call

module _ {Users Plans Subscriptions : Type 0} (user : Table Subscriber Users)
    (subscription_plan : Table Plan Plans)
    (user_subscription : Table UserSubscription Subscriptions) (client : Checkout)
    (newest_first : List UserSubscription → List UserSubscription) where
  abbrev pub Store : Type 0
  Store = State Users Plans Subscriptions

  unfoldable pub step : Call → Store → Store
  step (starts new_id now user_id) s =
      (start_free_trial user subscription_plan user_subscription client newest_first new_id now
        user_id s).1
  step (purchases new_id plan_id user_id) s =
      (purchase_subscription user subscription_plan user_subscription client newest_first new_id
        plan_id user_id s).1
  step (sets_status id status) s =
      (update_subscription_status user subscription_plan user_subscription client newest_first id
        status s).1
  step (cancels now id) s =
      (cancel_subscription user subscription_plan user_subscription client newest_first now id s).1
  step (activates now id plan_id stripe_id) s =
      (activate_subscription user subscription_plan user_subscription client newest_first now id
        plan_id stripe_id s).1

  unfoldable pub run : List Call → Store → Store
  run [] s = s
  run (c ∷ cs) s = run cs (step c s)

  purchases-HasUsed :
      (id new_id plan_id user_id : ℕ) (s : Store)
      → HasUsed user subscription_plan user_subscription client newest_first id s
      → HasUsed user subscription_plan user_subscription client newest_first id
          (step (purchases new_id plan_id user_id) s)
  unfolding step purchase_subscription
  purchases-HasUsed id new_id plan_id user_id s used =
      elim (Option-cases (subscription_plan.find_first (λ p. p.id == plan_id) s.plans)) [
        | inl no_plan ↦ rw (step, purchase_subscription, no_plan, ◌>>=◌, or_throw) used
        | inr (plan, planned) ↦
            elim (Option-cases (user.find_first (λ u. u.id == user_id) s.users)) [
              | inl no_user ↦
                  rw (step, purchase_subscription, planned, no_user, ◌>>=◌, or_throw) used
              | inr (u, found) ↦
                  elim (Result-cases
                    (customer_of user subscription_plan user_subscription client newest_first u
                      s).0) [
                        | inr (e, refused) ↦
                            rw
                              (
                                step, purchase_subscription, planned, found, refused, ◌>>=◌,
                                or_throw,
                              )
                              (customer-HasUsed user subscription_plan user_subscription client
                                newest_first id u s used)
                        | inl (c, made) ↦
                            rw (step, purchase_subscription, planned, found, made, ◌>>=◌, or_throw)
                              (customer-HasUsed user subscription_plan user_subscription client
                                newest_first id u s used)
                      ]
            ]
      ]

  activates-HasUsed :
      (id now x_id plan_id stripe_id : ℕ) (s : Store)
      → HasUsed user subscription_plan user_subscription client newest_first id s
      → HasUsed user subscription_plan user_subscription client newest_first id
          (step (activates now x_id plan_id stripe_id) s)
  unfolding step activate_subscription saved
  activates-HasUsed id now x_id plan_id stripe_id s used =
      let f = activated plan_id stripe_id now in
      let (r, s') = saved user subscription_plan user_subscription client newest_first x_id f s in
      let kept =
        saved-HasUsed user subscription_plan user_subscription client newest_first id x_id f s
          used in
      elim (Result-cases r) [
        | inr (e, missing) ↦ rw (step, activate_subscription, missing, ◌>>=◌) kept
        | inl (x, found) ↦
            elim (Option-cases (subscription_plan.find_first (λ p. p.id == plan_id) s'.plans)) [
              | inl no_plan ↦
                  rw (step, activate_subscription, found, no_plan, ◌>>=◌, ◌>>◌, modify) kept
              | inr (plan, planned) ↦
                  rw (step, activate_subscription, found, planned, ◌>>=◌, ◌>>◌, modify)
                    (update_user-HasUsed user subscription_plan user_subscription client
                      newest_first id x.user_id
                      (λ u. record u { subscription_type = some plan.subscription_type }) s'
                      (λ y. refl) (λ y h. h) kept)
            ]
      ]

  step-HasUsed :
      (c : Call) (id : ℕ) (s : Store)
      → HasUsed user subscription_plan user_subscription client newest_first id s
      → HasUsed user subscription_plan user_subscription client newest_first id (step c s)
  unfolding step update_subscription_status cancel_subscription saved
  step-HasUsed (starts new_id now user_id) id s used =
      (start-HasUsed user subscription_plan user_subscription client newest_first new_id now user_id
          s).0
        id used
  step-HasUsed (purchases new_id plan_id user_id) id s used =
      purchases-HasUsed id new_id plan_id user_id s used
  step-HasUsed (sets_status x_id status) id s used =
      saved-HasUsed user subscription_plan user_subscription client newest_first id x_id
        (λ x. record x { status = status }) s used
  step-HasUsed (cancels now x_id) id s used =
      saved-HasUsed user subscription_plan user_subscription client newest_first id x_id
        (cancelled_at_time now) s used
  step-HasUsed (activates now x_id plan_id stripe_id) id s used =
      activates-HasUsed id now x_id plan_id stripe_id s used

  run-HasUsed :
      (cs : List Call) (id : ℕ) (s : Store)
      → HasUsed user subscription_plan user_subscription client newest_first id s
      → HasUsed user subscription_plan user_subscription client newest_first id (run cs s)
  unfolding run
  run-HasUsed [] id s used = used
  run-HasUsed (c ∷ cs) id s used = run-HasUsed cs id (step c s) (step-HasUsed c id s used)

  refused :
      (new_id now user_id : ℕ) (s : Store)
      → HasUsed user subscription_plan user_subscription client newest_first user_id s
      → (e : HttpError) × (start_free_trial user subscription_plan user_subscription client
            newest_first new_id now user_id s
          ≡ (err e, s))
  unfolding start_free_trial
  refused new_id now user_id s used =
      elim (Option-cases (user.find_first (λ u. u.id == user_id) s.users)) [
        | inl no_user ↦
            (not_found "User not found", rw (start_free_trial, no_user, ◌>>=◌, ◌>>◌, or_throw) refl)
        | inr (u, found) ↦
            let (same, m) = user.find_first-some (λ x. x.id == user_id) s.users found in
            (
              bad_request "User is not eligible for free trial",
              rw (start_free_trial, found, used u m same, ◌>>=◌, ◌>>◌, or_throw, throw_if) refl,
            )
      ]

  -- A user starts one free trial at most: where a start succeeds, then after any further calls of the
  -- service that write, for any users, another start of the same user is refused and changes nothing.
  pub start_free_trial-once :
      (cs : List Call) (first_id second_id now later user_id : ℕ) (s : Store)
      → is_ok
          (start_free_trial user subscription_plan user_subscription client newest_first first_id
            now user_id s).0
        ≡ true
      → let s' =
          run cs
            (start_free_trial user subscription_plan user_subscription client newest_first first_id
              now user_id s).1 in
        (e : HttpError) × (start_free_trial user subscription_plan user_subscription client
            newest_first second_id later user_id s'
          ≡ (err e, s'))
  start_free_trial-once cs first_id second_id now later user_id s started =
      refused second_id later user_id
        (run cs
          (start_free_trial user subscription_plan user_subscription client newest_first first_id
            now user_id s).1)
        (run-HasUsed cs user_id
          (start_free_trial user subscription_plan user_subscription client newest_first first_id
            now user_id s).1
          ((start-HasUsed user subscription_plan user_subscription client newest_first first_id now
              user_id s).1
            started))

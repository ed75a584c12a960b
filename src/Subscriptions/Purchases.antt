-- ===== src/Subscriptions/Purchases.antt =====
-- src/features/subscription.module/userSubscription/services/userSubscription.service.ts. Stripe's client
-- is a parameter: each call answers or throws. Ids and URLs are numbers; the id and the time of a new row
-- are arguments. The files of the schemas are not in the repository: rows have the fields that the
-- service reads or writes.
pub mod Flag
pub mod Trial
pub mod Status
mod Tests
use rental_application_nest.Prelude.{
  ℕ, ◌≡◌, Bool, true, false, not, ◌&&◌, ◌||◌, Option, none, some, List, [], ◌∷◌, ◌==◌, Text,
  is_some, if◌then◌else◌, Result, ok, err, bad_request, not_found, Action, pure, throw_if, or_throw,
  gets, modify, ◌>>=◌, ◌>>◌,
}
use rental_application_nest.External.Table.{Table}
use rental_application_nest.Subscriptions.Plans.{
  Plan, SubscriptionType, individual, is_active_of, usd,
}

pub data UserSubscriptionStatus : Type 0 where
  processing active past_due cancelled unpaid : UserSubscriptionStatus
  incomplete incomplete_expired trialing payment_failed : UserSubscriptionStatus

pub record UserSubscription : Type 0 where
  pub id : ℕ
  pub user_id : ℕ
  pub subscription_plan_id : Option ℕ
  pub subscription_start_date : Option ℕ
  pub current_period_start_date : Option ℕ
  pub expiration_date : Option ℕ
  pub is_from_free_trial : Bool
  pub cancelled_at : Option ℕ
  pub cancelled_at_period_end : Bool
  pub status : UserSubscriptionStatus
  pub billing_cycle : ℕ
  pub is_auto_renewed : Bool
  pub stripe_subscription_id : Option ℕ
  pub revenue_cat_order_id : Option ℕ
  pub is_deleted : Bool

pub record Subscriber : Type 0 where
  pub id : ℕ
  pub stripe_customer_id : Option ℕ
  pub has_used_free_trial : Bool
  pub subscription_type : Option SubscriptionType

-- What a checkout session is created with
pub record SessionParams : Type 0 where
  pub customer : ℕ
  pub price : Option ℕ
  pub trial_period_days : Option ℕ
  pub user_id : ℕ
  pub subscription_type : SubscriptionType
  pub subscription_plan_id : ℕ
  pub reference_id : ℕ
  pub currency : Text
  pub amount : ℕ

pub record Checkout : Type 0 where
  -- `customer.deleted`
  pub retrieve_customer : ℕ → Result Bool
  pub create_customer : ℕ → Result ℕ
  pub create_session : SessionParams → Result ℕ

pub record State (Users Plans Subscriptions : Type 0) : Type 0 where
  pub users : Users
  pub plans : Plans
  pub subscriptions : Subscriptions

abbrev pub is_running : UserSubscriptionStatus → Bool
is_running active = true
is_running trialing = true
is_running _ = false

abbrev pub first : List UserSubscription → Option UserSubscription
first [] = none
first (x ∷ xs) = some x

abbrev pub opt_eq : Option ℕ → ℕ → Bool
opt_eq none n = false
opt_eq (some m) n = m == n

-- The row of a purchase that is not paid yet
abbrev pub processing_row : ℕ → ℕ → Option ℕ → Bool → UserSubscription
processing_row id user_id start trial = record {
  id = id;
  user_id = user_id;
  subscription_plan_id = none;
  subscription_start_date = start;
  current_period_start_date = none;
  expiration_date = none;
  is_from_free_trial = trial;
  cancelled_at = none;
  cancelled_at_period_end = false;
  status = processing;
  billing_cycle = 0;
  is_auto_renewed = false;
  stripe_subscription_id = none;
  revenue_cat_order_id = none;
  is_deleted = false;
}

abbrev pub cancelled_at_time : ℕ → UserSubscription → UserSubscription
cancelled_at_time now x = record x {
  cancelled_at = some now;
  cancelled_at_period_end = true;
  status = cancelled;
}

abbrev pub activated : ℕ → ℕ → ℕ → UserSubscription → UserSubscription
activated plan_id stripe_id now x = record x {
  subscription_plan_id = some plan_id;
  stripe_subscription_id = some stripe_id;
  subscription_start_date = some now;
  current_period_start_date = some now;
  status = active;
  billing_cycle = 1;
  is_auto_renewed = true;
}

-- Seven days, then 70 dollars
abbrev pub trial_params : ℕ → ℕ → Subscriber → Plan → SessionParams
trial_params new_id customer u plan = record {
  customer = customer;
  price = plan.stripe_price_id;
  trial_period_days = some 7;
  user_id = u.id;
  subscription_type = individual;
  subscription_plan_id = plan.id;
  reference_id = new_id;
  currency = usd;
  amount = 7000;
}

-- The customer that the user has already, unless Stripe deleted it or does not answer
abbrev pub known_customer : Checkout → Option ℕ → Option ℕ
known_customer client none = none
known_customer client (some c) = elim (client.retrieve_customer c) [
  | ok deleted ↦ if deleted then none else some c
  | err e ↦ none
]

-- `newest_first` is the database's sort by `createdAt`.
module _ {Users Plans Subscriptions : Type 0} (user : Table Subscriber Users)
    (subscription_plan : Table Plan Plans)
    (user_subscription : Table UserSubscription Subscriptions) (client : Checkout)
    (newest_first : List UserSubscription → List UserSubscription) where
  abbrev pub Store : Type 0
  Store = State Users Plans Subscriptions

  abbrev pub update_user : ℕ → (Subscriber → Subscriber) → Store → Store
  update_user id f s = record s { users = user.update_many (λ u. u.id == id) f s.users }

  unfoldable pub get_or_create_stripe_customer : Subscriber → Action Store ℕ
  get_or_create_stripe_customer u s = elim (known_customer client u.stripe_customer_id) [
    | some c ↦ (ok c, s)
    | none ↦ elim (client.create_customer u.id) [
      | err e ↦ (err e, s)
      | ok c ↦ (ok c, update_user u.id (λ x. record x { stripe_customer_id = some c }) s)
    ]
  ]

  abbrev pub create_session : SessionParams → Action Store ℕ
  create_session params s = (client.create_session params, s)

  unfoldable pub start_free_trial : ℕ → ℕ → ℕ → Action Store ℕ
  start_free_trial new_id now user_id = do
    found ← gets (λ s. user.find_first (λ u. u.id == user_id) s.users)
    u ← or_throw found (not_found "User not found")
    throw_if u.has_used_free_trial (bad_request "User is not eligible for free trial")
    active_plan ← gets (λ s. subscription_plan.find_first (is_active_of individual) s.plans)
    plan ← or_throw active_plan (not_found "No active individual plan found")
    customer ← get_or_create_stripe_customer u
    modify (λ s. record s {
      subscriptions =
          user_subscription.create (processing_row new_id u.id (some now) true) s.subscriptions;
    })
    url ← create_session (trial_params new_id customer u plan)
    modify (update_user user_id (λ x. record x { has_used_free_trial = true }))
    pure url

  unfoldable pub purchase_subscription : ℕ → ℕ → ℕ → Action Store ℕ
  purchase_subscription new_id plan_id user_id = do
    found_plan ← gets (λ s. subscription_plan.find_first (λ p. p.id == plan_id) s.plans)
    plan ← or_throw found_plan (not_found "Subscription plan not found")
    found ← gets (λ s. user.find_first (λ u. u.id == user_id) s.users)
    u ← or_throw found (not_found "User not found")
    customer ← get_or_create_stripe_customer u
    modify (λ s. record s {
      subscriptions =
          user_subscription.create (processing_row new_id u.id none false) s.subscriptions;
    })
    create_session (record {
      customer = customer;
      price = plan.stripe_price_id;
      trial_period_days = none;
      user_id = u.id;
      subscription_type = plan.subscription_type;
      subscription_plan_id = plan.id;
      reference_id = new_id;
      currency = plan.currency;
      amount = plan.amount;
    })

  unfoldable pub get_active_subscription : ℕ → Store → Option UserSubscription
  get_active_subscription user_id s = first (
      newest_first (
        user_subscription.find_many
          (λ x. x.user_id == user_id && (is_running x.status && not x.is_deleted)) s.subscriptions))

  unfoldable pub get_subscription_history : ℕ → Store → List UserSubscription
  get_subscription_history user_id s =
      newest_first (
        user_subscription.find_many (λ x. x.user_id == user_id && not x.is_deleted) s.subscriptions)

  -- A row that is found by its id, deleted or not, is changed and saved.
  abbrev pub save_by_id : ℕ → (UserSubscription → UserSubscription) → Action Store UserSubscription
  save_by_id id f = do
    found ← gets (λ s. user_subscription.find_first (λ x. x.id == id) s.subscriptions)
    x ← or_throw found (not_found "User subscription not found")
    modify (λ s. record s {
      subscriptions = user_subscription.update_many (λ y. y.id == id) f s.subscriptions;
    })
    pure (f x)

  unfoldable pub update_subscription_status :
      ℕ → UserSubscriptionStatus → Action Store UserSubscription
  update_subscription_status id status = save_by_id id (λ x. record x { status = status })

  unfoldable pub cancel_subscription : ℕ → ℕ → Action Store UserSubscription
  cancel_subscription now id = save_by_id id (cancelled_at_time now)

  abbrev pub set_type : Option Plan → ℕ → Store → Store
  set_type none user_id s = s
  set_type (some plan) user_id s =
      update_user user_id (λ u. record u { subscription_type = some plan.subscription_type }) s

  unfoldable pub activate_subscription : ℕ → ℕ → ℕ → ℕ → Action Store UserSubscription
  activate_subscription now id plan_id stripe_id = do
    x ← save_by_id id (activated plan_id stripe_id now)
    plan ← gets (λ s. subscription_plan.find_first (λ p. p.id == plan_id) s.plans)
    modify (set_type plan x.user_id)
    pure x

  unfoldable pub find_by_stripe_session_id : ℕ → Store → Option UserSubscription
  find_by_stripe_session_id session_id s =
      user_subscription.find_first
        (λ x. opt_eq x.stripe_subscription_id session_id && not x.is_deleted) s.subscriptions

  unfoldable pub find_by_stripe_subscription_id : ℕ → Store → Option UserSubscription
  find_by_stripe_subscription_id stripe_id s =
      user_subscription.find_first
        (λ x. opt_eq x.stripe_subscription_id stripe_id && not x.is_deleted) s.subscriptions

  unfoldable pub find_by_revenue_cat_order_id : ℕ → Store → Option UserSubscription
  find_by_revenue_cat_order_id order_id s =
      user_subscription.find_first (λ x. opt_eq x.revenue_cat_order_id order_id && not x.is_deleted)
        s.subscriptions

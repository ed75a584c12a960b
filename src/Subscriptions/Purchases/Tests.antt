-- ===== src/Subscriptions/Purchases/Tests.antt =====
-- Runs of the purchases in memory.
use rental_application_nest.Prelude.{
  ◌≡◌, refl, false, true, none, some, List, [], ◌∷◌, ok, err, HttpError, ◌==◌,
}
use rental_application_nest.External.Memory.Tables.{memory_table}
use rental_application_nest.Subscriptions.Plans.{Plan, individual, month, monthly, revenuecat, usd}
use rental_application_nest.Subscriptions.Purchases.{
  UserSubscription, Subscriber, Checkout, State, processing_row, activated, start_free_trial,
  get_or_create_stripe_customer, cancel_subscription, get_active_subscription, trialing,
}
use rental_application_nest.Subscriptions.Purchases.Trial.{
  Call, purchases, cancels, sets_status, activates, run, start_free_trial-once,
}
use rental_application_nest.Subscriptions.Purchases.Status.{
  cancel_subscription-get_active_subscription,
}

abbrev plan : Plan
plan = record {
  id = 4;
  subscription_name = [];
  amount = 7000;
  subscription_type = individual;
  initial_duration = month;
  renewal_frequncy = monthly;
  currency = usd;
  max_children_account = none;
  is_active = true;
  is_deleted = false;
  free_trial_enabled = true;
  free_trial_duration_days = none;
  purchase_channel = some revenuecat;
  available_platforms = [];
  stripe_product_id = none;
  stripe_price_id = some 12;
  revenue_cat_product_identifier = none;
  revenue_cat_package_identifier = none;
}

abbrev subscriber : Subscriber
subscriber = record {
  id = 7;
  stripe_customer_id = none;
  has_used_free_trial = false;
  subscription_type = none;
}

abbrev client : Checkout
client = record {
  retrieve_customer = λ c. ok false;
  create_customer = λ u. ok 70;
  create_session = λ params. ok 700;
}

abbrev Memory : Type 0
Memory = State (List Subscriber) (List Plan) (List UserSubscription)

abbrev start : Memory
start = record { users = subscriber ∷ []; plans = plan ∷ []; subscriptions = [] }

abbrev calls : List Call
calls = sets_status 100 trialing ∷ purchases 101 4 7 ∷ activates 20 101 4 55 ∷ cancels 30 100 ∷ []

abbrev started : Memory
started =
    (start_free_trial memory_table memory_table memory_table client (λ xs. xs) 100 10 7 start).1

start_free_trial-once_example :
    let s' = run memory_table memory_table memory_table client (λ xs. xs) calls started in
    (e : HttpError) × (start_free_trial memory_table memory_table memory_table client
        (λ xs. xs)
        102
        40
        7
        s'
      ≡ (err e, s'))
unfolding start_free_trial get_or_create_stripe_customer
start_free_trial-once_example =
    start_free_trial-once memory_table memory_table memory_table client (λ xs. xs) calls 100 102 10
      40 7 start refl

abbrev two_active : Memory
two_active = record start {
  subscriptions =
      activated 4 55 10 (processing_row 101 7 none false)
      ∷ activated 4 56 10 (processing_row 102 7 none false)
      ∷ [];
}

cancel_subscription-get_active_subscription_example : (102 == 101) ≡ false
unfolding cancel_subscription get_active_subscription
cancel_subscription-get_active_subscription_example =
    cancel_subscription-get_active_subscription memory_table memory_table memory_table client
      (λ xs. xs) 30 101 7 two_active (activated 4 56 10 (processing_row 102 7 none false))
      (λ xs y m. m) refl

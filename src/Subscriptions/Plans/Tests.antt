-- ===== src/Subscriptions/Plans/Tests.antt =====
-- Runs of the plans in memory.
use rental_application_nest.Prelude.{
  ℕ, ◌≤◌, ◌≡◌, false, none, List, [], ◌∷◌, ok, err, internal, arith, ltb, bit, is_ok, count_if,
  if◌then◌else◌,
}
use rental_application_nest.External.Memory.Tables.{memory_table}
use rental_application_nest.Subscriptions.Plans.{
  Plan, CreateSubscriptionPlanDto, SubscriptionType, Stripe, individual, business_starter,
  business_level1, business_level2, is_active_of, plan_of, create_subscription_plan,
}
use rental_application_nest.Subscriptions.Plans.Active.{create_subscription_plan-IsSingle}

-- A client that refuses prices over 1000 dollars.
abbrev client : Stripe
client = record {
  create_product = λ t. ok 50;
  create_price =
      λ amount currency product. if ltb 100000 amount then err (internal "too high") else ok 60;
}

abbrev starter : ℕ → CreateSubscriptionPlanDto
starter amount = record {
  subscription_name = [];
  amount = amount;
  subscription_type = business_starter;
  initial_duration = none;
  renewal_frequncy = none;
  currency = none;
  max_children_account = none;
  free_trial_enabled = false;
  free_trial_duration_days = none;
  purchase_channel = none;
  available_platforms = [];
  revenue_cat_product_identifier = none;
  revenue_cat_package_identifier = none;
}

abbrev stored : List Plan
stored = plan_of 1 (starter 900) ∷ []

stored_single : (t : SubscriptionType) → count_if (is_active_of t) stored ≤ 1
stored_single individual = ground arith
stored_single business_starter = ground arith
stored_single business_level1 = ground arith
stored_single business_level2 = ground arith

create_subscription_plan-IsSingle_example :
    let (r, s') = create_subscription_plan memory_table client 2 (starter 200000) stored in
    ((t : SubscriptionType) → count_if (is_active_of t) s' ≤ 1)
    × (count_if (is_active_of business_starter) s' ≡ bit (is_ok r))
create_subscription_plan-IsSingle_example =
    create_subscription_plan-IsSingle memory_table client 2 (starter 200000) stored stored_single

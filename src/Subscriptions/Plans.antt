-- ===== src/Subscriptions/Plans.antt =====
-- src/features/subscription.module/subscriptionPlan/services/subscriptionPlan.service.ts. Stripe's client
-- is a parameter: each call answers or throws. Amounts are in cents, identifiers are texts or numbers; a
-- new plan's id is an argument. The file of the plan's schema is not in the repository: a plan has the
-- fields that the service reads or writes.
pub mod Active
mod Tests
use rental_application_nest.Prelude.{
  ℕ, ◌≡◌, Bool, true, false, not, ◌&&◌, ◌||◌, Option, none, some, List, [], ◌∷◌, ◌++◌, ◌==◌, Text,
  String, if◌then◌else◌, Result, ok, err, bad_request, not_found, HttpError, Action, pure, throw,
  or_throw, gets, modify, ◌>>=◌, ◌>>◌,
}
use rental_application_nest.External.Table.{Table}

pub data SubscriptionType : Type 0 where
  individual business_starter business_level1 business_level2 : SubscriptionType

abbrev pub same_type : SubscriptionType → SubscriptionType → Bool
same_type individual individual = true
same_type business_starter business_starter = true
same_type business_level1 business_level1 = true
same_type business_level2 business_level2 = true
same_type _ _ = false

pub data PurchaseChannel : Type 0 where
  revenuecat stripe both : PurchaseChannel

pub data Platform : Type 0 where
  ios android web : Platform

pub data InitialDuration : Type 0 where
  month year : InitialDuration

pub data RenewalFrequency : Type 0 where
  monthly yearly : RenewalFrequency

-- `${data.subscriptionType}_monthly` or 'monthly', where none is given
pub data Identifier : Type 0 where
  given : ℕ → Identifier
  monthly_of : SubscriptionType → Identifier
  monthly_package : Identifier

pub record CreateSubscriptionPlanDto : Type 0 where
  pub subscription_name : Text
  pub amount : ℕ
  pub subscription_type : SubscriptionType
  pub initial_duration : Option InitialDuration
  pub renewal_frequncy : Option RenewalFrequency
  pub currency : Option Text
  pub max_children_account : Option ℕ
  pub free_trial_enabled : Bool
  pub free_trial_duration_days : Option ℕ
  pub purchase_channel : Option PurchaseChannel
  pub available_platforms : List Platform
  pub revenue_cat_product_identifier : Option ℕ
  pub revenue_cat_package_identifier : Option ℕ

pub record Plan : Type 0 where
  pub id : ℕ
  pub subscription_name : Text
  pub amount : ℕ
  pub subscription_type : SubscriptionType
  pub initial_duration : InitialDuration
  pub renewal_frequncy : RenewalFrequency
  pub currency : Text
  pub max_children_account : Option ℕ
  pub is_active : Bool
  pub is_deleted : Bool
  pub free_trial_enabled : Bool
  pub free_trial_duration_days : Option ℕ
  pub purchase_channel : Option PurchaseChannel
  pub available_platforms : List Platform
  pub stripe_product_id : Option ℕ
  pub stripe_price_id : Option ℕ
  pub revenue_cat_product_identifier : Option Identifier
  pub revenue_cat_package_identifier : Option Identifier

-- What the client answers, or the message of what it throws.
pub record Stripe : Type 0 where
  pub create_product : SubscriptionType → Result ℕ
  pub create_price : ℕ → Text → ℕ → Result ℕ

pub record Metadata : Type 0 where
  pub stripe_product_id : Option ℕ
  pub stripe_price_id : Option ℕ
  pub revenue_cat_setup_required : Bool
  pub revenue_cat_product_identifier : Option Identifier
  pub revenue_cat_package_identifier : Option Identifier

abbrev pub is_active_of : SubscriptionType → Plan → Bool
is_active_of t p = p.is_active && (same_type p.subscription_type t && not p.is_deleted)

abbrev pub deactivated : Plan → Plan
deactivated p = record p { is_active = false }

abbrev pub needs_stripe : Option PurchaseChannel → Bool
needs_stripe (some stripe) = true
needs_stripe (some both) = true
needs_stripe _ = false

abbrev pub needs_revenue_cat : Option PurchaseChannel → Bool
needs_revenue_cat (some revenuecat) = true
needs_revenue_cat (some both) = true
needs_revenue_cat _ = false

abbrev pub with_channel : Plan → Plan
with_channel p = elim p.purchase_channel [
  | some c ↦ p
  | none ↦
      if same_type p.subscription_type individual
      then record p { purchase_channel = some revenuecat; available_platforms = ios ∷ android ∷ [] }
      else record p { purchase_channel = some stripe; available_platforms = web ∷ [] }
]

abbrev pub or_else {ℓ} : {A : Type ℓ} → Option A → A → A
or_else none a = a
or_else (some a) _ = a

abbrev pub given_identifier : Option ℕ → Option Identifier
given_identifier none = none
given_identifier (some n) = some (given n)

abbrev pub usd : Text
usd = 117 ∷ 115 ∷ 100 ∷ []

-- The data of a new plan, before its channel and its identifiers are set
abbrev pub plan_of : ℕ → CreateSubscriptionPlanDto → Plan
plan_of id dto = record {
  id = id;
  subscription_name = dto.subscription_name;
  amount = dto.amount;
  subscription_type = dto.subscription_type;
  initial_duration = or_else dto.initial_duration month;
  renewal_frequncy = or_else dto.renewal_frequncy monthly;
  currency = or_else dto.currency usd;
  max_children_account = dto.max_children_account;
  is_active = true;
  is_deleted = false;
  free_trial_enabled = dto.free_trial_enabled;
  free_trial_duration_days = dto.free_trial_duration_days;
  purchase_channel = dto.purchase_channel;
  available_platforms = dto.available_platforms;
  stripe_product_id = none;
  stripe_price_id = none;
  revenue_cat_product_identifier = given_identifier dto.revenue_cat_product_identifier;
  revenue_cat_package_identifier = given_identifier dto.revenue_cat_package_identifier;
}

abbrev pub with_revenue_cat : Plan → Plan
with_revenue_cat p =
    if needs_revenue_cat p.purchase_channel
    then record p {
      revenue_cat_product_identifier =
          some (or_else p.revenue_cat_product_identifier (monthly_of p.subscription_type));
      revenue_cat_package_identifier =
          some (or_else p.revenue_cat_package_identifier monthly_package);
    }
    else p

abbrev pub metadata_of : Plan → Metadata
metadata_of p =
    let s = needs_stripe p.purchase_channel in
    let r = needs_revenue_cat p.purchase_channel in
    record {
      stripe_product_id = if s then p.stripe_product_id else none;
      stripe_price_id = if s then p.stripe_price_id else none;
      revenue_cat_setup_required = r;
      revenue_cat_product_identifier = if r then p.revenue_cat_product_identifier else none;
      revenue_cat_package_identifier = if r then p.revenue_cat_package_identifier else none;
    }

-- Both creations in one `try`: whatever is thrown becomes a bad request.
abbrev pub with_stripe : Stripe → Plan → Result Plan
with_stripe client p =
    if needs_stripe p.purchase_channel
    then elim (client.create_product p.subscription_type) [
      | err e ↦ err (bad_request "Failed to create Stripe product")
      | ok product ↦ elim (client.create_price p.amount p.currency product) [
        | err e ↦ err (bad_request "Failed to create Stripe product")
        | ok price ↦
            ok (record p { stripe_product_id = some product; stripe_price_id = some price })
      ]
    ]
    else ok p

abbrev pub new_price : Option ℕ → Option ℕ → Option (ℕ × ℕ)
new_price (some amount) (some price) = some (amount, price)
new_price _ _ = none

module _ {Plans : Type 0} (subscription_plan : Table Plan Plans) (client : Stripe) where
  unfoldable pub get_by_subscription_type : SubscriptionType → Plans → Option Plan
  get_by_subscription_type t = subscription_plan.find_first (is_active_of t)

  unfoldable pub find_active_plans : Plans → List Plan
  find_active_plans = subscription_plan.find_many (λ p. p.is_active && not p.is_deleted)

  -- `plan.save()` of each plan that was found
  abbrev pub deactivate_each : List Plan → Plans → Plans
  deactivate_each [] s = s
  deactivate_each (p ∷ ps) s =
      deactivate_each ps (subscription_plan.update_many (λ x. x.id == p.id) deactivated s)

  -- The old plans are saved as inactive before Stripe is called.
  unfoldable pub create_subscription_plan :
      ℕ → CreateSubscriptionPlanDto → Action Plans (Plan × Metadata)
  create_subscription_plan new_id dto s =
      let s' =
        deactivate_each (subscription_plan.find_many (is_active_of dto.subscription_type) s) s in
      elim (with_stripe client (with_channel (plan_of new_id dto))) [
        | err e ↦ (err e, s')
        | ok p ↦
            let plan = with_revenue_cat p in
            (ok (plan, metadata_of plan), subscription_plan.create plan s')
      ]

  -- `Object.assign(plan, updateData)` is a function on plans. The answer holds what Stripe is asked to
  -- change, an amount and a price; its refusal is only logged.
  unfoldable pub update_subscription_plan :
      ℕ → Option ℕ → (Plan → Plan) → Action Plans (Plan × Option (ℕ × ℕ))
  update_subscription_plan id new_amount assign = do
    found ← gets (subscription_plan.find_first (λ p. p.id == id))
    p ← or_throw found (not_found "Subscription plan not found")
    modify (subscription_plan.update_many (λ x. x.id == id) assign)
    pure (assign p, new_price new_amount p.stripe_price_id)

  unfoldable pub delete_subscription_plan : ℕ → Action Plans Plan
  delete_subscription_plan id = do
    found ← gets (subscription_plan.find_first (λ p. p.id == id))
    p ← or_throw found (not_found "Subscription plan not found")
    modify (
        subscription_plan.update_many (λ x. x.id == id)
          (λ x. record x { is_deleted = true; is_active = false }))
    pure (record p { is_deleted = true; is_active = false })

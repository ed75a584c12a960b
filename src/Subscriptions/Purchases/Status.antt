-- ===== src/Subscriptions/Purchases/Status.antt =====
-- Which subscription counts as active.
use rental_application_nest.Prelude.{
  ℕ, ◌≡◌, refl, ap, ◌∙◌, true, false, not, ◌&&◌, some, List, [], ◌∷◌, arith, if◌then◌else◌,
  Bool-cases, Option-cases, inl, inr, In, In-map, In-filter, any-In, ◌==◌, is_some, ◌>>=◌, or_throw,
}
use rental_application_nest.External.Table.{Table}
use rental_application_nest.Subscriptions.Plans.{Plan}
use rental_application_nest.Subscriptions.Purchases.{
  UserSubscription, Subscriber, Checkout, State, is_running, first, cancelled_at_time,
  get_active_subscription, cancel_subscription,
}

first-In : (xs : List UserSubscription) (x : UserSubscription) → first xs ≡ some x → In x xs
first-In [] x e = absurd (ground arith)
first-In (y ∷ ys) x e = inl (ground arith)

first_some :
    (xs : List UserSubscription) (x : UserSubscription) → In x xs → is_some (first xs) ≡ true
first_some [] x m = elim m [ ]
first_some (y ∷ ys) x m = refl

module _ {Users Plans Subscriptions : Type 0} (user : Table Subscriber Users)
    (subscription_plan : Table Plan Plans)
    (user_subscription : Table UserSubscription Subscriptions) (client : Checkout)
    (newest_first : List UserSubscription → List UserSubscription) where
  cancelled_rows :
      (now id : ℕ) (s : State Users Plans Subscriptions) (x : UserSubscription)
      → In x (
          user_subscription.rows
            (cancel_subscription user subscription_plan user_subscription client newest_first now id
              s).1.subscriptions)
      → is_running x.status ≡ true
      → (x.id == id) ≡ false
  unfolding cancel_subscription
  cancelled_rows now id s x m running =
      elim (Option-cases (user_subscription.find_first (λ y. y.id == id) s.subscriptions)) [
        | inl missing ↦ elim (Bool-cases (x.id == id)) [
          | inr other ↦ other
          | inl same ↦ absurd (
              cc (
                any-In (λ (y : UserSubscription). y.id == id)
                    (user_subscription.rows s.subscriptions) x
                    (rw (cancel_subscription, missing, ◌>>=◌, or_throw) at m) same,
                user_subscription.find_first-none (λ y. y.id == id) s.subscriptions missing,
              ))
        ]
        | inr (z, found) ↦
            let (y, k, e) =
              In-map (λ y. if y.id == id then cancelled_at_time now y else y)
                (user_subscription.rows s.subscriptions) x
                (rw
                  (user_subscription.rows-update_many (λ y. y.id == id) (cancelled_at_time now)
                    s.subscriptions)
                  at (rw (cancel_subscription, found, ◌>>=◌, or_throw) at m)) in
            elim (Bool-cases (y.id == id)) [
              | inl hit ↦ absurd (ground (arith, ap (λ w. w.status) (rw hit at e)))
              | inr miss ↦ ap (λ w. w.id == id) (rw miss at e) ∙ miss
            ]
      ]

  -- A cancelled subscription is no user's active one any more, from the moment of the call, and whatever
  -- period was paid for. The database's sort adds no row.
  pub cancel_subscription-get_active_subscription :
      (now id user_id : ℕ) (s : State Users Plans Subscriptions) (x : UserSubscription)
      → ((xs : List UserSubscription) (y : UserSubscription) → In y (newest_first xs) → In y xs)
      → get_active_subscription user subscription_plan user_subscription client newest_first user_id
          (cancel_subscription user subscription_plan user_subscription client newest_first now id
            s).1
        ≡ some x
      → (x.id == id) ≡ false
  unfolding get_active_subscription
  cancel_subscription-get_active_subscription now id user_id s x sorted e =
      let s' =
        (cancel_subscription user subscription_plan user_subscription client newest_first now id
          s).1 in
      let p = λ (y : UserSubscription).
        y.user_id == user_id && (is_running y.status && not y.is_deleted) in
      let found = user_subscription.find_many p s'.subscriptions in
      let (m, h) = In-filter p (user_subscription.rows s'.subscriptions) x (
        rw (user_subscription.find_many-rows p s'.subscriptions) at
          (sorted found x (first-In (newest_first found) x e))) in
      cancelled_rows now id s x m (ground arith)

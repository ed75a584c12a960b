-- ===== src/Payments/Transactions.antt =====
-- src/features/payment.module/paymentTransaction/services/paymentTransaction.service.ts: the
-- transactions in MongoDB, with a cache of single documents in front of `findById`. Amounts are in
-- cents, ids and opaque payloads are numbers. The cache answers every call. The source sorts lists by
-- creation and adds the user's name and address to what it reads, which is left out.
pub mod Coherence
mod Tests
use rental_application_nest.Prelude.{
  ℕ, ◌≡◌, Bool, true, false, not, ◌&&◌, Option, none, some, List, [], ◌∷◌, ◌++◌, Text,
  if◌then◌else◌, ◌==◌, is_some, Result, ok, err, not_found, Action, pure, throw_if, or_throw, gets,
  modify, ◌>>=◌, ◌>>◌,
}
use rental_application_nest.External.Table.{Table}
use rental_application_nest.External.Cache.{Cache}

pub data PaymentStatus : Type 0 where
  pending processing completed failed refunded cancelled partially_refunded disputed : PaymentStatus

pub data PaymentGateway : Type 0 where
  stripe paypal sslcommerz revenuecat no_gateway : PaymentGateway

-- A document, with the fields that the services read or write.
pub record Transaction : Type 0 where
  pub id : ℕ
  pub user_id : ℕ
  pub reference_for : Option ℕ
  pub reference_id : Option ℕ
  pub payment_gateway : PaymentGateway
  pub transaction_id : Option ℕ
  pub revenue_cat_order_id : Option ℕ
  pub payment_intent : Option ℕ
  pub amount : ℕ
  pub currency : Text
  pub payment_status : PaymentStatus
  pub gateway_response : List (ℕ × ℕ)
  pub completed_at : Option ℕ
  pub is_deleted : Bool

-- The keys that the service builds for documents and for lists of a user's documents. The two caches
-- share one store, and their prefixes differ.
pub record Store (Docs Details Lists : Type 0) : Type 0 where
  pub docs : Docs
  pub details : Details
  pub lists : Lists

abbrev pub detail_ttl : ℕ
detail_ttl = 300

abbrev pub is_completed : PaymentStatus → Bool
is_completed completed = true
is_completed _ = false

abbrev pub is_live : ℕ → Transaction → Bool
is_live id t = t.id == id && not t.is_deleted

abbrev pub opt_eq : Option ℕ → ℕ → Bool
opt_eq none n = false
opt_eq (some m) n = m == n

-- `updateStatus` sets `completedAt` once.
abbrev pub completed_at_of : PaymentStatus → ℕ → Option ℕ → Option ℕ
completed_at_of status now (some t) = some t
completed_at_of status now none = if is_completed status then some now else none

-- `{ ...old, ...new }`: later entries win, so the new ones come first.
abbrev pub merged : Option (List (ℕ × ℕ)) → List (ℕ × ℕ) → List (ℕ × ℕ)
merged none old = old
merged (some new) old = new ++ old

abbrev pub with_status : PaymentStatus → Option (List (ℕ × ℕ)) → ℕ → Transaction → Transaction
with_status status response now t = record t {
  payment_status = status;
  gateway_response = merged response t.gateway_response;
  completed_at = completed_at_of status now t.completed_at;
}

module _ {Docs Details Lists : Type 0} (model : Table Transaction Docs)
    (detail_cache : Cache ℕ Transaction Details ◌==◌)
    (list_cache : Cache ℕ (List Transaction) Lists ◌==◌) where
  abbrev Db : Type 0
  Db = Store Docs Details Lists

  -- `invalidateCache`, whose third key holds the earnings.
  unfoldable pub invalidate_cache : ℕ → ℕ → Db → Db
  invalidate_cache user_id transaction_id s = record s {
    details = detail_cache.del transaction_id s.details;
    lists = list_cache.del user_id s.lists;
  }

  unfoldable pub create : Transaction → Action Db Transaction
  unfolding invalidate_cache
  create t = do
    modify (λ s. record s { docs = model.create t s.docs })
    modify (invalidate_cache t.user_id t.id)
    pure t

  unfoldable pub find_by_id : ℕ → ℕ → Action Db (Option Transaction)
  find_by_id now id s = elim (detail_cache.get id now s.details) [
    | some t ↦ (ok (some t), s)
    | none ↦ elim (model.find_first (is_live id) s.docs) [
      | none ↦ (ok none, s)
      | some t ↦
          (ok (some t), record s { details = detail_cache.set_ex id t detail_ttl now s.details })
    ]
  ]

  unfoldable pub find_by_revenue_cat_order_id : ℕ → Db → Option Transaction
  find_by_revenue_cat_order_id order_id s =
      model.find_first (λ t. opt_eq t.revenue_cat_order_id order_id && not t.is_deleted) s.docs

  -- `findById` of the model finds soft-deleted documents too.
  unfoldable pub update_status :
      ℕ → ℕ → PaymentStatus → Option (List (ℕ × ℕ)) → Action Db Transaction
  unfolding invalidate_cache
  update_status now id status response = do
    found ← gets (λ s. model.find_first (λ t. t.id == id) s.docs)
    t ← or_throw found (not_found "Transaction not found")
    modify (λ s. record s {
      docs = model.update_many (λ x. x.id == id) (with_status status response now) s.docs;
    })
    modify (invalidate_cache t.user_id id)
    pure (with_status status response now t)

  unfoldable pub delete : ℕ → Action Db Transaction
  unfolding invalidate_cache
  delete id = do
    found ← gets (λ s. model.find_first (λ t. t.id == id) s.docs)
    t ← or_throw found (not_found "Transaction not found")
    modify (λ s. record s {
      docs = model.update_many (λ x. x.id == id) (λ x. record x { is_deleted = true }) s.docs;
    })
    modify (invalidate_cache t.user_id id)
    pure (record t { is_deleted = true })

  unfoldable pub find_by_user_id : ℕ → ℕ → Action Db (List Transaction)
  find_by_user_id now user_id s = elim (list_cache.get user_id now s.lists) [
    | some ts ↦ (ok ts, s)
    | none ↦
        let ts = model.find_many (λ t. t.user_id == user_id && not t.is_deleted) s.docs in
        (ok ts, record s { lists = list_cache.set_ex user_id ts detail_ttl now s.lists })
  ]

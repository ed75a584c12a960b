-- ===== src/Payments/RevenueCat/Tests.antt =====
-- Runs of the RevenueCat webhook in memory.
use Prim.Native.String.{String}
use rental_application_nest.Prelude.{ℕ, refl, Option, none, some, List, [], ◌∷◌, ◌==◌}
use rental_application_nest.External.Memory.{memory_cache, Expiring}
use rental_application_nest.External.Memory.Tables.{memory_table}
use rental_application_nest.Payments.Transactions.{Transaction, Store}
use rental_application_nest.Payments.RevenueCat.{PurchaseEvent, PurchaseLog, State, renewal}
use rental_application_nest.Payments.RevenueCat.Rows.{IsOnly}
use rental_application_nest.Payments.RevenueCat.Shared.{process_all, process_all-shared}

abbrev Memory : Type 0
Memory =
    State (List PurchaseLog)
      (Store (List Transaction) (ℕ → Expiring Transaction) (ℕ → Expiring (List Transaction)))

abbrev kept : Option String → Option String
kept old = old

abbrev empty : Memory
empty = record {
  events = [];
  payments = record { docs = []; details = λ k. none; lists = λ k. none };
}

-- The renewals of two users.
abbrev renewal_of : ℕ → ℕ → PurchaseEvent
renewal_of id user = record {
  event_id = renewal;
  id = id;
  app_id = none;
  subscriber = some user;
  product_id = none;
  environment = none;
}

process_all-shared_example :
    IsOnly renewal
      (renewal_of 1 7)
      4
      (process_all memory_table memory_table
        (memory_cache ◌==◌)
        (memory_cache ◌==◌)
        kept
        (renewal_of 1 7 ∷ renewal_of 2 8 ∷ [])
        empty).events
process_all-shared_example =
    process_all-shared memory_table memory_table (memory_cache ◌==◌) (memory_cache ◌==◌) kept
      (renewal_of 1 7) (renewal_of 2 8 ∷ []) empty refl (refl, tt) refl

-- ===== src/Payments/Transactions/Tests.antt =====
-- Runs of the transactions in memory.
use rental_application_nest.Prelude.{
  ℕ, ◌≡◌, ◌⊎◌, true, false, none, some, List, [], ◌∷◌, arith, ok, In, any, ◌==◌,
}
use rental_application_nest.External.Memory.{memory_cache, Expiring}
use rental_application_nest.External.Memory.Tables.{memory_table}
use rental_application_nest.Payments.Transactions.{
  Transaction, Store, pending, refunded, stripe, is_live, find_by_id,
}
use rental_application_nest.Payments.Transactions.Coherence.{
  Call, creates, finds, updates, deletes, lists, run, find_by_id-run,
}

abbrev Memory : Type 0
Memory = Store (List Transaction) (ℕ → Expiring Transaction) (ℕ → Expiring (List Transaction))

abbrev empty : Memory
empty = record { docs = []; details = λ k. none; lists = λ k. none }

abbrev rent : ℕ → ℕ → Transaction
rent id user_id = record {
  id = id;
  user_id = user_id;
  reference_for = none;
  reference_id = none;
  payment_gateway = stripe;
  transaction_id = none;
  revenue_cat_order_id = none;
  payment_intent = none;
  amount = 90000;
  currency = [];
  payment_status = pending;
  gateway_response = [];
  completed_at = none;
  is_deleted = false;
}

abbrev calls : List Call
calls =
    creates 1 (rent 3 8)
    ∷ finds 2 3
    ∷ creates 3 (rent 4 8)
    ∷ updates 4 3 refunded none
    ∷ finds 5 3
    ∷ lists 5 8
    ∷ deletes 6 4
    ∷ []

abbrev later_store : Memory
later_store = run memory_table (memory_cache ◌==◌) (memory_cache ◌==◌) calls empty

find_by_id-run_example :
    let answer =
      (find_by_id memory_table (memory_cache ◌==◌) (memory_cache ◌==◌) 7 3 later_store).0 in
    ((t : Transaction) × (answer ≡ ok (some t)) × In t later_store.docs × (is_live 3 t ≡ true))
    ⊎ ((answer ≡ ok none) × (any (is_live 3) later_store.docs ≡ false))
find_by_id-run_example =
    find_by_id-run memory_table (memory_cache ◌==◌) (memory_cache ◌==◌) calls 1 7 3 empty
      (ground arith) (λ id t e. absurd (ground arith)) (omega arith)

-- ===== src/Payments.antt =====
-- src/features/payment.module: the transactions, the webhooks that create them, and what starts a
-- payment.
pub mod Transactions
pub mod Stripe
pub mod RevenueCat
pub mod Strategies

-- ===== src/Subscriptions.antt =====
-- src/features/subscription.module: the plans that are sold, and what users bought.
pub mod Plans
pub mod Purchases

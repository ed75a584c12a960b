-- ===== src/Guards.antt =====
-- The guards of libs/common/src/guards.
pub mod RateLimit
pub mod Access
